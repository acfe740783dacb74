-- ===== src/Web/Console/Builders.antt =====
-- The builders of profiles (internal/web/builders.go).
use cairn_mdm.Prelude.{
  ℕ, String, Bool, true, false, not, List, [], ◌++◌, Option, none, some, string_eq, nat_eq, ◌==◌,
  if◌then◌else◌, concat, select, map,
}
use cairn_mdm.Prelude.Int.{ℤ, pos, negsuc}
use cairn_mdm.Sql.{Sql, Result, ok, err, pure, catch}
use cairn_mdm.Storage.Fleet.Profiles.{save_profile}
use cairn_mdm.Profile.{Checked, valid, invalid, ConfigProfile}
use cairn_mdm.Profile.Parse.{Info, parse_info}
use cairn_mdm.Profile.Payloads.{WifiParams, KerberosSsoParams, build_wifi, build_kerberos_sso}
use cairn_mdm.Web.Console.{
  World, Request, Response, App, Moment, Location, flash, error, profile_url, wifi_url, sso_url,
  see_other, on_fleet, http_error, millis,
}
use cairn_mdm.Web.Console.Access.{Handler, checked}
use cairn_mdm.Web.Console.Profiles.{library_row}

-- an error of the parsing leaves the default
abbrev pub key_size_of : Option ℤ → ℕ
key_size_of none = 0
key_size_of (some (pos n)) = n
key_size_of (some (negsuc n)) = 0

module _ {U Q Ip Network : Type 0} (a : App U Q Ip Network) (m : Moment) where
  abbrev pub named : List String → List String
  named ss = select (λ s. not (s == "")) (map a.trim_space ss)

  abbrev pub refuse_built : Location → String → Sql (World U Q) Response
  refuse_built back message = pure (see_other back (error message))

  abbrev pub after_built : Location → Result ℕ → Sql (World U Q) Response
  after_built back (err e) = refuse_built back "Saving the profile failed."
  after_built back (ok id) = pure (see_other (profile_url id) (flash "Profile created."))

  abbrev pub save_info : Location → String → String → Checked Info → Sql (World U Q) Response
  save_info back source bytes (invalid e) =
      refuse_built back (concat "Built profile failed validation: " e)
  save_info back source bytes (valid i) =
      catch (on_fleet (save_profile (millis m) (library_row a m i source bytes))) (after_built back)

  abbrev pub save_bytes : Location → String → Checked String → Sql (World U Q) Response
  save_bytes back source (invalid e) = refuse_built back "Building the profile failed."
  save_bytes back source (valid bytes) = save_info back source bytes (parse_info a.reader bytes)

  -- `saveBuiltProfile`, with the error of the builder before it
  unfoldable pub save_built_profile :
      Location → String → Checked ConfigProfile → Sql (World U Q) Response
  unfolding parse_info
  save_built_profile back source (invalid e) = refuse_built back e
  save_built_profile back source (valid p) = save_bytes back source (a.marshal p)

  abbrev pub is_on : Request → String → Bool
  is_on r field = r.form field == "on"

  abbrev pub own_anchors : Request → List String
  own_anchors r = if is_on r "use_cairn_anchors" then a.ca_anchors_der else []

  abbrev pub wifi_base : Request → WifiParams
  wifi_base r = record {
    organization = a.organization;
    display_name = a.trim_space (r.form "display_name");
    ssid = a.trim_space (r.form "ssid");
    hidden = is_on r "hidden";
    auto_join = is_on r "autojoin";
    password = "";
    enterprise = false;
    scep_url = "";
    challenge = "";
    subject_cn = "";
    key_size = 0;
    ca_anchors_der = [];
    trusted_server_names = [];
  }

  abbrev pub wifi_enterprise : Request → List String → WifiParams
  wifi_enterprise r anchors = record (wifi_base r) {
    enterprise = true;
    scep_url = a.trim_space (r.form "scep_url");
    challenge = r.form "scep_challenge";
    subject_cn = a.trim_space (r.form "subject_cn");
    key_size = key_size_of (a.parse_int (r.form "key_size"));
    trusted_server_names = named (a.net.split_commas (r.form "trusted_server_names"));
    ca_anchors_der = own_anchors r ++ anchors;
  }

  abbrev pub pasted_anchors : Request → String → Checked (List String)
  pasted_anchors r pem = if pem == "" then valid [] else a.trust_anchors_der pem

  abbrev pub wifi_params : Request → Checked (List String) → Checked WifiParams
  wifi_params r (invalid e) = invalid (concat "RADIUS CA chain is not valid PEM: " e)
  wifi_params r (valid anchors) = valid (wifi_enterprise r anchors)

  abbrev pub params_of : Request → Checked WifiParams
  params_of r =
      if r.form "security" == "eap-tls"
      then wifi_params r (pasted_anchors r (a.trim_space (r.form "anchors_pem")))
      else valid (record (wifi_base r) { password = r.form "password" })

  abbrev pub save_wifi : Checked WifiParams → Sql (World U Q) Response
  save_wifi (invalid e) = refuse_built wifi_url e
  save_wifi (valid p) =
      save_built_profile wifi_url "builder:wifi" (build_wifi a.texts m.uuids a.itoa p)

  -- `handleBuilderWiFi`
  unfoldable pub handle_builder_wifi : Handler U Q
  unfolding save_built_profile
  handle_builder_wifi s r =
      if not r.form_ok
      then pure (http_error "bad request" 400)
      else checked a m r (save_wifi (params_of r))

  abbrev pub sso_params : Request → KerberosSsoParams
  sso_params r = record {
    organization = a.organization;
    display_name = a.trim_space (r.form "display_name");
    realm = r.form "realm";
    hosts = named (a.split_lines (r.form "hosts"));
    default_realm = is_on r "default_realm";
    sync_local_password = is_on r "sync_local_password";
    allow_automatic_login = is_on r "allow_automatic_login";
    use_site_auto_discovery = is_on r "use_site_auto_discovery";
  }

  -- `handleBuilderSSO`
  unfoldable pub handle_builder_sso : Handler U Q
  unfolding save_built_profile
  handle_builder_sso s r =
      if not r.form_ok
      then pure (http_error "bad request" 400)
      else checked a m r (
          save_built_profile sso_url "builder:kerberos-sso"
            (build_kerberos_sso a.texts m.uuids a.itoa (sso_params r)))
