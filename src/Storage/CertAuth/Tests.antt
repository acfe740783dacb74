-- ===== src/Storage/CertAuth/Tests.antt =====
-- One enrollment whose certificate was renewed.
use cairn_mdm.Prelude.{[], ◌∷◌, ◌≡◌, refl, true, string_eq}
use cairn_mdm.Sql.{ok, working, stmt}
use cairn_mdm.Storage.CertAuth.{
  CertAuth, associate_cert_hash, enrollment_has_cert_hash, has_cert_hash, enrollment_from_hash,
}

abbrev old : CertAuth
old = record { enrollment_id = "mac"; sha256 = "aa" }

bindings_tests :
    ((enrollment_from_hash "aa" (associate_cert_hash "mac" "bb" (working (old ∷ []))).1).0
      ≡ ok "mac")
    × ((has_cert_hash "bb" (associate_cert_hash "mac" "bb" (working (old ∷ []))).1).0 ≡ ok true)
    × ((enrollment_has_cert_hash "mac" "zz" (working (old ∷ []))).0 ≡ ok true)
unfolding enrollment_from_hash associate_cert_hash has_cert_hash enrollment_has_cert_hash stmt
bindings_tests = (refl, refl, refl)
