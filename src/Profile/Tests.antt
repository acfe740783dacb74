-- ===== src/Profile/Tests.antt =====
-- An enterprise network with one anchor, and a profile that is read back.
use cairn_mdm.Prelude.{
  ℕ, String, [], ◌∷◌, true, false, none, some, ◌≡◌, refl, if◌then◌else◌, nat_eq, ◌==◌,
}
use cairn_mdm.Profile.{invalid, EnrollmentParams, build_enrollment}
use cairn_mdm.Profile.Payloads.{
  Texts, WifiParams, KerberosSsoParams, build_wifi, build_kerberos_sso, slugged, slug_rune,
}
use cairn_mdm.Profile.Parse.{types_of}
use cairn_mdm.Profile.Closed.{IsClosedIfBuilt, builders-IsClosed}

-- a text of one letter is its rune
abbrev texts : Texts
texts = record {
  runes = λ s. 76 ∷ 97 ∷ 98 ∷ 32 ∷ 49 ∷ 33 ∷ [];
  of_runes = λ rs. "lab-1";
  trim_dashes = λ rs. rs;
  trim_space = λ s. s;
  to_upper = λ s. s;
  to_lower = λ s. s;
}

abbrev draw : ℕ → String
draw n = if n == 0 then "u0" else if n == 1 then "u1" else if n == 2 then "u2" else "u3"

abbrev itoa : ℕ → String
itoa n = "0"

abbrev wifi : WifiParams
wifi = record {
  organization = "org";
  display_name = "";
  ssid = "Lab 1!";
  hidden = false;
  auto_join = true;
  password = "";
  enterprise = true;
  scep_url = "https://mdm/scep";
  challenge = "";
  subject_cn = "mac";
  key_size = 0;
  ca_anchors_der = "der" ∷ [];
  trusted_server_names = [];
}

abbrev enrollment : EnrollmentParams
enrollment = record {
  organization = "org";
  display_name = "";
  ca_anchors_der = "der" ∷ [];
  scep_url = "https://mdm/scep";
  scep_name = "";
  subject_cn = "%SerialNumber%";
  challenge = "";
  key_size = 0;
  owner_rfc822 = "";
  mdm_server_url = "https://mdm/mdm";
  mdm_check_in_url = "https://mdm/mdm";
  topic = "com.apple.mgmt";
}

abbrev kerberos : KerberosSsoParams
kerberos = record {
  organization = "org";
  display_name = "";
  realm = "";
  hosts = [];
  default_realm = false;
  sync_local_password = false;
  allow_automatic_login = false;
  use_site_auto_discovery = false;
}

profile_tests :
    (slugged texts "Lab 1!" ≡ 108 ∷ 97 ∷ 98 ∷ 45 ∷ 49 ∷ [])
    × (build_kerberos_sso texts draw itoa kerberos
        ≡ invalid "profile: organization and realm are required")
    × (types_of (some "b" ∷ some "" ∷ none ∷ some "a" ∷ some "b" ∷ []) ≡ "a" ∷ "b" ∷ [])
unfolding slugged slug_rune build_kerberos_sso types_of
profile_tests = (refl, refl, refl)

builders-IsClosed_example :
    IsClosedIfBuilt (build_enrollment draw itoa enrollment)
    × IsClosedIfBuilt (build_wifi texts draw itoa wifi)
    × IsClosedIfBuilt (build_kerberos_sso texts draw itoa kerberos)
builders-IsClosed_example = builders-IsClosed draw itoa texts enrollment wifi kerberos
