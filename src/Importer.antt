-- ===== src/Importer.antt =====
-- The migration from a NanoMDM database (internal/importer/importer.go). The storage of NanoMDM,
-- the decoding of its messages and the reading of certificates are an interface over a state D of
-- the destination and a type M of decoded messages. A call of the storage says whether it
-- succeeded; the texts of errors are left out. The projection into the inventory, whose failures
-- are only logged, is the identity for a nil projector. A Go map of counts is an association list.
pub mod Replay
pub mod Verify
mod Closed
mod DryRun
mod Tests
use cairn_mdm.Prelude.{
  ℕ, ◌+◌, String, Bool, true, false, ◌&&◌, ◌||◌, not, List, [], ◌∷◌, ◌++◌, Option, none, some,
  string_eq, ◌==◌, if◌then◌else◌,
}
use cairn_mdm.Prelude.Dict
use cairn_mdm.Prelude.Dict.{Dict}

pub record DeviceRow : Type 0 where
  pub id : String
  pub authenticate : String
  pub token_update : String
  pub bootstrap_token : String
  pub serial_number : String

pub record UserRow : Type 0 where
  pub id : String
  pub device_id : String
  pub token_update : String
  pub user_authenticate : String
  pub user_auth_digest : String

pub record EnrollmentRow : Type 0 where
  pub id : String
  pub device_id : String
  pub user_id : String
  pub kind : String
  pub topic : String
  pub push_magic : String
  pub token_hex : String
  pub enabled : Bool

-- `isUserChannel`
unfoldable pub is_user_channel : EnrollmentRow → Bool
is_user_channel e = e.kind == "User" || not (e.user_id == "")

pub record CertAuthRow : Type 0 where
  pub id : String
  pub sha256 : String

pub record PushCertRow : Type 0 where
  pub topic : String
  pub cert_pem : String
  pub key_pem : String

pub record PushTopicMeta : Type 0 where
  pub topic : String
  pub not_after : ℕ
  pub subject : String

pub record Options : Type 0 where
  pub allow_pending : Bool
  pub dry_run : Bool
  pub allowed_exceptions : List String
  pub exception_file_sha256 : String

pub data SkipReason : Type 0 where
  bad_authenticate bad_token_update bad_bootstrap_token bad_user_authenticate : SkipReason

pub record SkipEntry : Type 0 where
  pub id : String
  pub reason : SkipReason
  pub accepted : Bool

pub record SourceCounts : Type 0 where
  pub devices : ℕ
  pub users : ℕ
  pub enrollments : ℕ
  pub associations : ℕ
  pub push_certs : ℕ
  pub pending : ℕ

-- a failed verification, and the row it is about
pub data Mismatch : Type 0 where
  push_info_unread : Mismatch
  no_push_info topic_differs magic_differs token_differs no_association : String → Mismatch

pub record Report : Type 0 where
  pub devices : ℕ
  pub users : ℕ
  pub enrollments : ℕ
  pub associations : ℕ
  pub push_certs : ℕ
  pub disabled : ℕ
  pub skipped : List SkipEntry
  pub mismatches : List Mismatch
  pub disable_failures : List String
  pub counts_by_type : Dict ℕ
  pub counts_by_topic : Dict ℕ
  pub source : SourceCounts
  pub push_topics : List PushTopicMeta
  pub exception_file_sha256 : String
  pub dry_run : Bool

abbrev pub contains : List String → String → Bool
contains [] id = false
contains (x ∷ xs) id = x == id || contains xs id

-- `addSkip`
abbrev pub add_skip : Options → String → SkipReason → Report → Report
add_skip o id reason r = record r {
  skipped =
      r.skipped
      ++ record { id = id; reason = reason; accepted = contains o.allowed_exceptions id } ∷ [];
}

abbrev pub none_of {ℓ} : {A : Type ℓ} → List A → Bool
none_of [] = true
none_of (x ∷ xs) = false

abbrev pub all_accepted : List SkipEntry → Bool
all_accepted [] = true
all_accepted (s ∷ ss) = s.accepted && all_accepted ss

-- `Report.Ok`
unfoldable pub is_ok : Report → Bool
is_ok r = (none_of r.mismatches && none_of r.disable_failures) && all_accepted r.skipped

-- the shape of a request: the device channel, or a user channel of a device
pub data EnrollId : Type 0 where
  device_id : String → EnrollId
  user_id : String → String → EnrollId

-- `disableReq`
unfoldable pub disable_req : EnrollmentRow → EnrollId
unfolding is_user_channel
disable_req e = if is_user_channel e then user_id e.id e.device_id else device_id e.id

-- a certificate that was read
pub record Cert : Type 0 where
  pub not_before : ℕ
  pub not_after : ℕ
  pub subject : String

pub record PushInfo : Type 0 where
  pub topic : String
  pub push_magic : String
  pub token_hex : String

pub record Destination (D M : Type 0) : Type 0 where
  pub key_pair : String → String → Bool
  pub read_cert : String → Option Cert
  pub topic_of : Cert → Option String
  pub decode_authenticate : String → Option M
  pub decode_token_update : String → Option M
  pub decode_user_authenticate : String → Option M
  pub decode_bootstrap : String → Bool
  pub store_push_cert : String → String → D → Bool × D
  pub store_authenticate : EnrollId → M → D → Bool × D
  pub store_token_update : EnrollId → M → D → Bool × D
  pub store_bootstrap : EnrollId → String → D → Bool × D
  pub store_user_authenticate : EnrollId → M → D → Bool × D
  pub associate : EnrollId → String → D → Bool × D
  pub disable : EnrollId → D → Bool × D
  pub project_enrolled : String → M → D → D
  pub project_token : String → D → D
  pub push_info : List String → D → Option (Dict PushInfo)
  pub is_associated : EnrollId → String → D → Bool

-- `Source`: what each of its reads returns, `none` for an error
pub record Source : Type 0 where
  pub pending : Option ℕ
  pub push_certs : Option (List PushCertRow)
  pub devices : Option (List DeviceRow)
  pub users : Option (List UserRow)
  pub associations : Option (List CertAuthRow)
  pub enrollments : Option (List EnrollmentRow)

-- A step of a run: the report so far and the destination, to the report, which is missing when
-- the run ends with an error, and the destination that is left.
abbrev pub Step : Type 0 → Type 0
Step D = Report → D → Option Report × D

module _ {D : Type 0} where
  abbrev pub resume : Option Report → Step D → D → Option Report × D
  resume none f d = (none, d)
  resume (some r) f d = f r d

  unfoldable pub next : Step D → Step D → Step D
  next f g r d = let (o, d') = f r d in resume o g d'

  -- a read of the source, whose error ends the run
  abbrev pub reading : {A : Type 0} → Option A → (A → Step D) → Step D
  reading none f r d = (none, d)
  reading (some a) f r d = f a r d

  -- a write, whose error ends the run
  abbrev pub written : Bool × D → Step D → Report → Option Report × D
  written (true, d) f r = f r d
  written (false, d) f r = (none, d)
