-- ===== src/Profile/Payloads.antt =====
-- Wi-Fi and Kerberos single sign-on (internal/profile/payloads.go). A text is mapped rune by rune;
-- the conversions between the two, and the trimming and the change of case, are Go's: parameters.
use cairn_mdm.Prelude.{
  ℕ, ◌+◌, length, String, Bool, true, false, ◌&&◌, ◌||◌, not, List, [], ◌∷◌, ◌++◌, Option, none,
  some, string_eq, nat_eq, ◌==◌, if◌then◌else◌, concat, leb, map,
}
use cairn_mdm.Profile.{
  Checked, valid, invalid, Payload, ConfigProfile, WifiSecurity, personal, enterprise, scep, wifi,
  sso, root_payloads, text_or, key_size_or,
}

pub record Texts : Type 0 where
  pub runes : String → List ℕ
  pub of_runes : List ℕ → String
  pub trim_dashes : List ℕ → List ℕ
  pub trim_space : String → String
  pub to_upper : String → String
  pub to_lower : String → String

pub record WifiParams : Type 0 where
  pub organization : String
  pub display_name : String
  pub ssid : String
  pub hidden : Bool
  pub auto_join : Bool
  pub password : String
  pub enterprise : Bool
  pub scep_url : String
  pub challenge : String
  pub subject_cn : String
  pub key_size : ℕ
  pub ca_anchors_der : List String
  pub trusted_server_names : List String

pub record KerberosSsoParams : Type 0 where
  pub organization : String
  pub display_name : String
  pub realm : String
  pub hosts : List String
  pub default_realm : Bool
  pub sync_local_password : Bool
  pub allow_automatic_login : Bool
  pub use_site_auto_discovery : Bool

abbrev between : ℕ → ℕ → ℕ → Bool
between low high r = leb low r && leb r high

-- the switch of `slugify`: the rune that replaces one, or `none` where it is dropped
unfoldable pub slug_rune : ℕ → Option ℕ
slug_rune r =
    if between 97 122 r || between 48 57 r
    then some r
    else if between 65 90 r
    then some (r + 32)
    else if r == 32 || (r == 45 || (r == 95 || r == 46))
    then some 45
    else none

abbrev pub keep_some : Option ℕ → List ℕ → List ℕ
keep_some none rs = rs
keep_some (some r) rs = r ∷ rs

-- `strings.Map`
abbrev pub slug_runes : List ℕ → List ℕ
slug_runes [] = []
slug_runes (r ∷ rs) = keep_some (slug_rune r) (slug_runes rs)

abbrev pub or_network : List ℕ → List ℕ
or_network [] = 110 ∷ 101 ∷ 116 ∷ 119 ∷ 111 ∷ 114 ∷ 107 ∷ []
or_network (r ∷ rs) = r ∷ rs

module _ (x : Texts) where
  -- `slugify`, up to the conversion of its runes
  unfoldable pub slugged : String → List ℕ
  unfolding slug_rune
  slugged s = or_network (x.trim_dashes (slug_runes (x.runes s)))

  unfoldable pub slugify : String → String
  unfolding slugged
  slugify s = x.of_runes (slugged s)

abbrev pub is_empty : List String → Bool
is_empty [] = true
is_empty (s ∷ ss) = false

module _ (x : Texts) (draw : ℕ → String) (itoa : ℕ → String) where
  abbrev pub wifi_root : WifiParams → String
  wifi_root p = concat p.organization (concat ".wifi." (slugify x p.ssid))

  abbrev pub wifi_payload : WifiParams → WifiSecurity → Payload
  wifi_payload p security = record {
    identifier = concat (wifi_root p) ".network";
    uuid = draw 0;
    display_name = concat "Wi-Fi (" (concat p.ssid ")");
    content =
        wifi (record {
          ssid = p.ssid;
          hidden = p.hidden;
          auto_join = p.auto_join;
          security = security;
        });
  }

  -- the anchors' payloads, whose UUIDs the EAP configuration names
  abbrev pub anchor_payloads : WifiParams → List Payload
  anchor_payloads p =
      root_payloads draw itoa (concat (wifi_root p) ".ca.") "RADIUS Certificate Authority" 1 0
        p.ca_anchors_der

  abbrev pub identity_payload : WifiParams → String → Payload
  identity_payload p uuid = record {
    identifier = concat (wifi_root p) ".identity";
    uuid = uuid;
    display_name = "Wi-Fi Identity (SCEP)";
    content = scep (record {
      url = p.scep_url;
      name = none;
      subject_cn = p.subject_cn;
      key_size = key_size_or p.key_size;
      challenge = p.challenge;
      rfc822_name = none;
    });
  }

  abbrev pub wifi_of : WifiParams → ℕ → List Payload → ConfigProfile
  wifi_of p n payloads = record {
    identifier = wifi_root p;
    uuid = draw n;
    display_name = text_or (concat "Wi-Fi: " p.ssid) p.display_name;
    organization = p.organization;
    payloads = payloads;
  }

  abbrev pub enterprise_payloads : WifiParams → List Payload
  enterprise_payloads p =
      let identity = draw (1 + length p.ca_anchors_der) in
      anchor_payloads p
      ++ identity_payload p identity
        ∷ wifi_payload p
            (enterprise (map (λ q. q.uuid) (anchor_payloads p)) p.trusted_server_names identity)
        ∷ []

  -- `BuildWiFi`
  unfoldable pub build_wifi : WifiParams → Checked ConfigProfile
  build_wifi p =
      if p.organization == "" || p.ssid == ""
      then invalid "profile: organization and SSID are required"
      else if not p.enterprise
      then (if p.password == ""
          then invalid "profile: PSK Wi-Fi needs a password"
          else valid (wifi_of p 1 (wifi_payload p (personal p.password) ∷ [])))
      else if p.scep_url == "" || p.subject_cn == ""
      then invalid "profile: EAP-TLS Wi-Fi needs a SCEP URL and subject CN"
      else if is_empty p.ca_anchors_der
      then invalid "profile: EAP-TLS Wi-Fi needs at least one RADIUS CA anchor"
      else valid (wifi_of p (2 + length p.ca_anchors_der) (enterprise_payloads p))

  abbrev pub sso_of : KerberosSsoParams → String → ConfigProfile
  sso_of p realm = record {
    identifier = concat p.organization (concat ".sso." (x.to_lower realm));
    uuid = draw 1;
    display_name = text_or (concat "Kerberos SSO (" (concat realm ")")) p.display_name;
    organization = p.organization;
    payloads =
        record {
          identifier = concat p.organization ".sso.kerberos";
          uuid = draw 0;
          display_name = "Kerberos Single Sign-On";
          content = sso (record {
            realm = realm;
            hosts = map x.trim_space p.hosts;
            default_realm = p.default_realm;
            sync_local_password = p.sync_local_password;
            allow_automatic_login = p.allow_automatic_login;
            use_site_auto_discovery = p.use_site_auto_discovery;
          });
        }
        ∷ [];
  }

  -- `BuildKerberosSSO`
  unfoldable pub build_kerberos_sso : KerberosSsoParams → Checked ConfigProfile
  build_kerberos_sso p =
      if p.organization == "" || p.realm == ""
      then invalid "profile: organization and realm are required"
      else if is_empty p.hosts
      then invalid "profile: at least one host suffix is required"
      else valid (sso_of p (x.to_upper (x.trim_space p.realm)))
