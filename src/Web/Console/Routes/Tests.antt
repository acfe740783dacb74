-- ===== src/Web/Console/Routes/Tests.antt =====
-- A console with one operator's session, and the theorems on its routes at concrete requests.
use cairn_mdm.Prelude.{
  ◌*◌, ◌/◌, ◌+◌, ◌<◌, ◌≤◌, String, true, [], ◌∷◌, none, some, ◌≡◌, refl, ◌⊎◌, if◌then◌else◌,
  string_eq, ◌==◌, arith,
}
use cairn_mdm.Prelude.Int.{pos}
use cairn_mdm.Sql.{ok, invalid_credentials, working, pure, fail, catch, stmt, ◌>>=◌, zoom}
use cairn_mdm.Auth.Role.{Identity, at_least, rank}
use cairn_mdm.Auth.Session.{Row, Session, second, get}
use cairn_mdm.Storage.Audit.{append_audit}
use cairn_mdm.Storage.Fleet.{Fleet}
use cairn_mdm.Storage.Fleet.Groups.{create_group}
use cairn_mdm.Profile.{valid, invalid}
use cairn_mdm.Web.Client.{Net, client_ip}
use cairn_mdm.Web.Console.{
  World, Request, App, Moment, OidcProvider, on_sessions, on_fleet, on_audit, see_other, group_url,
  no_notice, http_error,
}
use cairn_mdm.Web.Console.Access.{current_session, same_origin, check_csrf, checked, require_role}
use cairn_mdm.Web.Console.Access.Guarding.{Unchanged}
use cairn_mdm.Web.Console.Audited.{audited}
use cairn_mdm.Web.Console.Login.{handle_login}
use cairn_mdm.Web.Console.Login.Outcomes.{IsThrottled, IsRejected, IsAccepted, handle_login-outcome}
use cairn_mdm.Web.Console.Oidc.{handle_oidc_callback}
use cairn_mdm.Web.Console.Oidc.Verified.{IsVerified, handle_oidc_callback-IsVerified}
use cairn_mdm.Web.Console.Enrollment.{expiry}
use cairn_mdm.Web.Console.Enrollment.Lifetime.{expiry-bounds}
use cairn_mdm.Web.Console.Groups.{handle_group_create}
use cairn_mdm.Web.Console.Routes.{Route, mounted, serve}
use cairn_mdm.Web.Console.Routes.Authorised.{MayChange, needs, serve-Authorised}

abbrev net : Net String String
net = record {
  parse_ip = some;
  parse_cidr = λ s. none;
  host_route = λ ip. ip;
  within = λ network ip. network == ip;
  split_host_port = some;
  split_commas = λ s. s ∷ [];
  trim_space = λ s. s;
}

abbrev ann : Identity
ann = record { username = "ann"; display_name = "Ann"; role = "admin"; provider = "local" }

abbrev provider : OidcProvider Unit
provider = record {
  auth_code_url = λ state nonce. state;
  exchange = λ code nonce. if code == "good" then pure ann else fail invalid_credentials;
}

abbrev app : App Unit Unit String String
app = record {
  hash = λ s. s;
  store = record { ttl = 60 * second; max_lifetime = 0 };
  authenticate = λ u p. if p == "pw" then pure ann else fail invalid_credentials;
  oidc = some provider;
  cmd = record {
    send_device_information = λ id. pure tt;
    send_install_profile = λ bytes id. pure tt;
    send_remove_profile = λ name id. pure tt;
  };
  has_reconciler = true;
  public_url = "https://mdm";
  net = net;
  trusted = [];
  parse_host = some;
  equal_fold = λ s t. s == t;
  trim_space = λ s. s;
  trim_slashes = λ s. s;
  join_commas = λ ss. "";
  nocase = λ s t. s == t;
  parse_int = λ s. if s == "1" then some (pos 1) else none;
  int_value = λ s. if s == "1" then pos 1 else pos 0;
  reader = record { head_of = λ s. s; unwrap = invalid; unmarshal = λ s. invalid "no plist" };
  texts = record {
    runes = λ s. [];
    of_runes = λ rs. "";
    trim_dashes = λ rs. rs;
    trim_space = λ s. s;
    to_upper = λ s. s;
    to_lower = λ s. s;
  };
  marshal = λ p. valid "xml";
  trust_anchors_der = λ s. valid [];
  split_lines = λ s. s ∷ [];
  organization = "org";
  ca_anchors_der = [];
  itoa = λ n. "303";
}

abbrev moment : Moment
moment = record {
  now = 1000 * second;
  session_token = "t2";
  session_csrf = "c2";
  grant_token = "g";
  uuids = λ n. "u";
  oidc_state = some "s";
  oidc_nonce = some "n";
}

abbrev row : Row
row = record {
  token = "t";
  username = "ann";
  role = "admin";
  display_name = "Ann";
  provider = "local";
  csrf_token = "c";
  created_at = some 990;
  expires_at = 1060;
}

abbrev empty : Fleet
empty = record {
  devices = [];
  profiles = [];
  groups = [];
  members = [];
  assignments = [];
  deploys = [];
  history = [];
}

abbrev world : World Unit Unit
world = record {
  sessions = row ∷ [];
  accounts = tt;
  mdm = (tt, empty);
  grants = [];
  audit = [];
  throttle = none;
  started = [];
}

abbrev form : String → String
form k =
    if k == "csrf"
    then "c"
    else if k == "name"
    then "labs"
    else if k == "password"
    then "pw"
    else if k == "username"
    then "ann"
    else ""

abbrev query : String → String
query k = if k == "state" then "s" else if k == "code" then "good" else ""

abbrev request : Request
request = record {
  method = "POST";
  path = "/admin/groups";
  id = "";
  session_cookie = some "t";
  state_cookie = some "s";
  nonce_cookie = none;
  form_ok = true;
  form = form;
  file = none;
  query = query;
  csrf_header = "";
  origin = "https://mdm";
  referer = "";
  remote_addr = "192.0.2.7";
  forwarded_for = "";
}

-- the same request with another session's token
abbrev forged : Request
forged = record request { form = λ k. if k == "csrf" then "other" else form k }

route_tests :
    ((serve app moment Route.post_group_create request (working world)).0
      ≡ ok (see_other (group_url 1) no_notice))
    × ((serve app moment Route.post_group_create forged (working world)).0
        ≡ ok (http_error "invalid CSRF token" 403))
unfolding serve mounted audited require_role handle_group_create checked check_csrf current_session
    same_origin on_sessions on_fleet on_audit zoom get catch stmt pure ◌>>=◌ append_audit
    create_group at_least rank client_ip
route_tests = (refl, refl)

serve-Authorised_example :
    Unchanged world (serve app moment Route.post_group_create forged (working world)).1.rows
    ⊎ MayChange app moment (needs Route.post_group_create) forged (row ∷ [])
serve-Authorised_example =
    serve-Authorised app moment Route.post_group_create forged (working world)

handle_login-outcome_example :
    IsThrottled app moment request (working world) (handle_login app moment request (working world))
    ⊎ (IsRejected app moment request
          (working world)
          (handle_login app moment request (working world))
        ⊎ IsAccepted app moment request
            (working world)
            (handle_login app moment request (working world)))
handle_login-outcome_example = handle_login-outcome app moment request (working world) refl

handle_oidc_callback-IsVerified_example :
    ((handle_oidc_callback app moment request (working world)).1.rows.sessions ≡ row ∷ [])
    ⊎ ((p : OidcProvider Unit) × IsVerified app moment p request (working world))
handle_oidc_callback-IsVerified_example =
    handle_oidc_callback-IsVerified app moment request (working world)

expiry-bounds_example :
    ((24 ≤ 2562047) × (expiry (1000 * second) 24 ≡ 1000 * second / second + 24 * 3600))
    ⊎ ((2562047 < 24) × (expiry (1000 * second) 24 < 1000 * second / second))
expiry-bounds_example = expiry-bounds (1000 * second) 24 (omega arith) (omega arith)
