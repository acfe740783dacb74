-- ===== src/Profile.antt =====
-- Configuration profiles (internal/profile). The source builds a profile as a map that the plist
-- library encodes; here it is typed, with one field for each key that varies, and the constant keys
-- named at their type. `draw n` is the n-th UUID that a builder draws.
pub mod Payloads
pub mod Parse
pub mod Closed
mod Tests
use cairn_mdm.Prelude.{
  ℕ, ◌+◌, length, String, Bool, List, [], ◌∷◌, ◌++◌, Option, none, some, string_eq, nat_eq, ◌==◌,
  if◌then◌else◌, concat,
}

-- A value, or the text of the error.
pub data Checked (A : Type 0) : Type 0 where
  valid : A → Checked A
  invalid : String → Checked A

-- `PayloadContent` of a `com.apple.security.scep` payload; the key is RSA of usage 5, with 3 retries at
-- intervals of 10
pub record ScepContent : Type 0 where
  pub url : String
  pub name : Option String
  pub subject_cn : String
  pub key_size : ℕ
  pub challenge : String
  pub rfc822_name : Option String

-- the keys of a `com.apple.mdm` payload; it signs its messages, with all access rights
pub record MdmContent : Type 0 where
  pub identity_certificate_uuid : String
  pub server_url : String
  pub check_in_url : String
  pub topic : String

pub data WifiSecurity : Type 0 where
  personal : String → WifiSecurity
  enterprise : (anchors : List String) (names : List String) (identity : String) → WifiSecurity

-- the keys of a `com.apple.wifi.managed` payload
pub record WifiContent : Type 0 where
  pub ssid : String
  pub hidden : Bool
  pub auto_join : Bool
  pub security : WifiSecurity

-- the keys of a `com.apple.extensiblesso` payload with Apple's Kerberos extension
pub record SsoContent : Type 0 where
  pub realm : String
  pub hosts : List String
  pub default_realm : Bool
  pub sync_local_password : Bool
  pub allow_automatic_login : Bool
  pub use_site_auto_discovery : Bool

pub data Content : Type 0 where
  root : String → Content
  scep : ScepContent → Content
  mdm : MdmContent → Content
  wifi : WifiContent → Content
  sso : SsoContent → Content

pub record Payload : Type 0 where
  pub identifier : String
  pub uuid : String
  pub display_name : String
  pub content : Content

-- a top-level dict of type "Configuration"
pub record ConfigProfile : Type 0 where
  pub identifier : String
  pub uuid : String
  pub display_name : String
  pub organization : String
  pub payloads : List Payload

abbrev pub payload_type : Content → String
payload_type (root der) = "com.apple.security.root"
payload_type (scep c) = "com.apple.security.scep"
payload_type (mdm c) = "com.apple.mdm"
payload_type (wifi c) = "com.apple.wifi.managed"
payload_type (sso c) = "com.apple.extensiblesso"

pub record EnrollmentParams : Type 0 where
  pub organization : String
  pub display_name : String
  pub ca_anchors_der : List String
  pub scep_url : String
  pub scep_name : String
  pub subject_cn : String
  pub challenge : String
  pub key_size : ℕ
  pub owner_rfc822 : String
  pub mdm_server_url : String
  pub mdm_check_in_url : String
  pub topic : String

abbrev pub text_or : String → String → String
text_or default s = if s == "" then default else s

abbrev pub key_size_or : ℕ → ℕ
key_size_or n = if n == 0 then 2048 else n

abbrev pub if_given : String → Option String
if_given s = if s == "" then none else some s

-- `scepContent`
unfoldable pub scep_content : EnrollmentParams → ScepContent
scep_content p = record {
  url = p.scep_url;
  name = some p.scep_name;
  subject_cn = p.subject_cn;
  key_size = key_size_or p.key_size;
  challenge = p.challenge;
  rfc822_name = if_given p.owner_rfc822;
}

module _ (draw : ℕ → String) (itoa : ℕ → String) where
  -- one root payload for each anchor; `n` is the next UUID and `i` the index of the anchor
  abbrev pub root_payloads : String → String → ℕ → ℕ → List String → List Payload
  root_payloads prefix label n i [] = []
  root_payloads prefix label n i (der ∷ ders) =
      record {
        identifier = concat prefix (itoa i);
        uuid = draw n;
        display_name = label;
        content = root der;
      }
      ∷ root_payloads prefix label (n + 1) (i + 1) ders

  abbrev pub scep_payload : EnrollmentParams → Payload
  scep_payload p = record {
    identifier = concat p.organization ".scep";
    uuid = draw 0;
    display_name = "Device Identity (SCEP)";
    content = scep (scep_content p);
  }

  abbrev pub mdm_payload : EnrollmentParams → Payload
  mdm_payload p = record {
    identifier = concat p.organization ".mdm";
    uuid = draw 1;
    display_name = "Device Management";
    content = mdm (record {
      identity_certificate_uuid = draw 0;
      server_url = p.mdm_server_url;
      check_in_url = p.mdm_check_in_url;
      topic = p.topic;
    });
  }

  abbrev pub enrollment_of : EnrollmentParams → ConfigProfile
  enrollment_of p = record {
    identifier = concat p.organization ".enroll";
    uuid = draw (2 + length p.ca_anchors_der);
    display_name = text_or "Cairn Enrollment" p.display_name;
    organization = p.organization;
    payloads =
        root_payloads (concat p.organization ".ca.") "Certificate Authority" 2 0 p.ca_anchors_der
        ++ scep_payload p ∷ mdm_payload p ∷ [];
  }

  -- `BuildEnrollment`
  unfoldable pub build_enrollment : EnrollmentParams → Checked ConfigProfile
  unfolding scep_content
  build_enrollment p =
      if p.organization == ""
      then invalid "profile: organization is required"
      else if p.topic == ""
      then invalid "profile: MDM Topic is required (load an APNs push certificate first)"
      else valid (enrollment_of p)
