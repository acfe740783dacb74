-- ===== src/Enroll.antt =====
-- The handler of enrollment links (internal/enroll/enroll.go). The plist encoding and the signature
-- are parameters.
pub mod Served
mod Tests
use cairn_mdm.Prelude.{
  ℕ, ◌*◌, String, Bool, true, false, ◌||◌, not, List, Option, none, some, string_eq, ◌==◌,
  if◌then◌else◌, concat,
}
use cairn_mdm.Sql.{Sql, Result, ok, err, pure, catch, zoom}
use cairn_mdm.Storage.Grants.{Grant, Redemption, redeem_grant}
use cairn_mdm.Storage.Settings.{Setting, get_setting}
use cairn_mdm.Profile.{Checked, valid, invalid, ConfigProfile, EnrollmentParams, build_enrollment}

-- the rows that the handler reads and writes
pub record Tables : Type 0 where
  pub grants : List Grant
  pub settings : List Setting

-- `Config` and the other fields of `Handler`
pub record Handler : Type 0 where
  pub organization : String
  pub ca_anchors_der : List String
  pub scep_url : String
  pub challenge : String
  pub mdm_server_url : String
  pub subject_prefix : String
  pub allow_open : Bool
  pub has_redeemer : Bool
  pub topic_key : String
  pub hash : String → String
  pub trim_space : String → String
  pub uuids : ℕ → String
  pub itoa : ℕ → String
  pub marshal : ConfigProfile → Option String
  pub sign : Option (String → Option String)

pub data Body : Type 0 where
  text profile_bytes : String → Body

pub record Response : Type 0 where
  pub status : ℕ
  pub body : Body

abbrev pub http_error : String → ℕ → Response
http_error message status = record { status = status; body = text message }

abbrev pub not_ready : Response
not_ready = http_error "server not ready: no APNs push certificate loaded" 503

-- the zero value of `Redemption`
abbrev pub unbound : Redemption
unbound = record { id = 0; platform = ""; owner = ""; expected_serial = "" }

module _ {A : Type 0} where
  unfoldable pub on_grants : Sql (List Grant) A → Sql Tables A
  unfolding zoom
  on_grants m = zoom (λ t. t.grants) (λ g t. record t { grants = g }) m

  unfoldable pub on_settings : Sql (List Setting) A → Sql Tables A
  unfolding zoom
  on_settings m = zoom (λ t. t.settings) (λ s t. record t { settings = s }) m

module _ (h : Handler) where
  abbrev pub subject_cn : String
  subject_cn =
      if h.subject_prefix == ""
      then "%SerialNumber%"
      else concat "%SerialNumber%" (concat "." h.subject_prefix)

  abbrev pub params : Redemption → String → EnrollmentParams
  params red topic = record {
    organization = h.organization;
    display_name = "";
    ca_anchors_der = h.ca_anchors_der;
    scep_url = h.scep_url;
    scep_name = "";
    subject_cn = subject_cn;
    challenge = h.challenge;
    key_size = 0;
    owner_rfc822 = red.owner;
    mdm_server_url = h.mdm_server_url;
    mdm_check_in_url = h.mdm_server_url;
    topic = topic;
  }

  abbrev pub signed : Option String → Response
  signed none = http_error "failed to sign profile" 500
  signed (some bytes) = record { status = 200; body = profile_bytes bytes }

  abbrev pub sign_with : Option (String → Option String) → String → Response
  sign_with none xml = record { status = 200; body = profile_bytes xml }
  sign_with (some sign) xml = signed (sign xml)

  abbrev pub rendered : Option String → Response
  rendered none = http_error "failed to render profile" 500
  rendered (some xml) = sign_with h.sign xml

  -- `serveProfile` from the profile that is built
  abbrev pub respond : Checked ConfigProfile → Response
  respond (invalid e) = http_error "failed to build profile" 500
  respond (valid p) = rendered (h.marshal p)

  abbrev pub serve_topic : Redemption → Result String → Response
  serve_topic red (err e) = not_ready
  serve_topic red (ok topic) =
      if topic == ""
      then not_ready
      else respond (build_enrollment h.uuids h.itoa (params red topic))

  -- `serveProfile`
  unfoldable pub serve_profile : Redemption → Sql Tables Response
  serve_profile red = catch (on_settings (get_setting h.topic_key)) (λ o. pure (serve_topic red o))

  -- `ServeOpen`
  unfoldable pub serve_open : Sql Tables Response
  unfolding serve_profile
  serve_open =
      if not h.allow_open then pure (http_error "404 page not found" 404) else serve_profile unbound

  abbrev pub after_redeem : Result Redemption → Sql Tables Response
  after_redeem (err e) =
      pure (http_error "This enrollment link is invalid, expired, or already used." 410)
  after_redeem (ok red) = serve_profile red

  -- `ServeGrant` of the token in the path
  unfoldable pub serve_grant : ℕ → String → Sql Tables Response
  unfolding serve_profile
  serve_grant now token =
      if not h.has_redeemer
      then pure (http_error "404 page not found" 404)
      else catch (on_grants (redeem_grant h.hash now (h.trim_space token))) after_redeem
