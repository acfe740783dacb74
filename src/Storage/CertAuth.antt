-- ===== src/Storage/CertAuth.antt =====
-- The bindings of certificates to enrollments (internal/storage/sqlite/certauth.go).
pub mod Bindings
mod Tests
use cairn_mdm.Prelude.{
  String, Bool, true, false, ◌&&◌, List, [], ◌∷◌, ◌++◌, Option, none, some, string_eq, ◌==◌,
  if◌then◌else◌, any, find,
}
use cairn_mdm.Sql.{Sql, ok, stmt}

-- a row of `cert_auth`
pub record CertAuth : Type 0 where
  pub enrollment_id : String
  pub sha256 : String

abbrev pub is_binding : String → String → CertAuth → Bool
is_binding id hash r = r.enrollment_id == id && r.sha256 == hash

abbrev pub has_hash : String → CertAuth → Bool
has_hash hash r = r.sha256 == hash

abbrev pub has_id : String → CertAuth → Bool
has_id id r = r.enrollment_id == id

abbrev insert_binding : String → String → List CertAuth → List CertAuth
insert_binding id hash rows =
    if any (is_binding id hash) rows
    then rows
    else rows ++ record { enrollment_id = id; sha256 = hash } ∷ []

-- `AssociateCertHash`
unfoldable pub associate_cert_hash : String → String → Sql (List CertAuth) (Unit {0})
associate_cert_hash id hash = stmt (λ rows. (ok tt, insert_binding id hash rows))

-- `exists`
abbrev exists_row : (CertAuth → Bool) → Sql (List CertAuth) Bool
exists_row p = stmt (λ rows. (ok (any p rows), rows))

-- `IsCertHashAssociated`
unfoldable pub is_cert_hash_associated : String → String → Sql (List CertAuth) Bool
is_cert_hash_associated id hash = exists_row (is_binding id hash)

-- `EnrollmentHasCertHash`
unfoldable pub enrollment_has_cert_hash : String → String → Sql (List CertAuth) Bool
enrollment_has_cert_hash id hash = exists_row (has_id id)

-- `HasCertHash`
unfoldable pub has_cert_hash : String → Sql (List CertAuth) Bool
has_cert_hash hash = exists_row (has_hash hash)

abbrev id_or_empty : Option CertAuth → String
id_or_empty none = ""
id_or_empty (some r) = r.enrollment_id

-- `EnrollmentFromHash`; the first row stands for the one that SQLite returns
unfoldable pub enrollment_from_hash : String → Sql (List CertAuth) String
enrollment_from_hash hash = stmt (λ rows. (ok (id_or_empty (find (has_hash hash) rows)), rows))
