-- ===== src/Web/Console.antt =====
-- The admin console (internal/web/web.go): what its handlers read and write. The rows of the
-- database, the throttle, the queue of commands and the goroutines that a handler has started stand
-- in one state, and each handler is a call on it that returns a response. What a handler takes from
-- outside the repository (`net/url`, `strconv`, `strings`, `html/template`, the cryptographic
-- random numbers and the identity provider) is in the environment. Within a request the clock is
-- read once. Log lines are left out.
pub mod Keeps
pub mod Access
pub mod Audited
pub mod Login
pub mod Oidc
pub mod Devices
pub mod Profiles
pub mod Groups
pub mod Builders
pub mod Enrollment
pub mod Signing
pub mod Routes
use cairn_mdm.Prelude.{ℕ, String, Bool, List, [], ◌∷◌, ◌++◌, Option, none, some, ◌/◌}
use cairn_mdm.Prelude.Int.{ℤ, pos, negsuc}
use cairn_mdm.Sql.{Sql, Conn, Result, ok, zoom}
use cairn_mdm.Auth.Role.{Identity}
use cairn_mdm.Auth.Session.{Row, SessionStore, second}
use cairn_mdm.Auth.Throttle.{Throttle}
use cairn_mdm.Storage.Grants.{Grant}
use cairn_mdm.Storage.Audit.{AuditEntry}
use cairn_mdm.Storage.Fleet.{Fleet}
use cairn_mdm.Profile.{ConfigProfile, Checked}
use cairn_mdm.Profile.Parse.{Reader}
use cairn_mdm.Profile.Payloads.{Texts}
use cairn_mdm.Web.Client.{Net}

-- a goroutine that a handler starts
pub data Task : Type 0 where
  device_task : String → Task
  group_task : ℕ → Task

-- `U` is the state of the authenticators, and `Q` that of the command queue.
pub record World (U Q : Type 0) : Type 0 where
  pub sessions : List Row
  pub accounts : U
  pub mdm : Q × Fleet
  pub grants : List Grant
  pub audit : List AuditEntry
  pub throttle : Option Throttle
  pub started : List Task

-- A step of the process itself, which needs no statement.
unfoldable pub local : {W A : Type 0} → (W → A × W) → Sql W A
local f c = let (a, w) = f c.rows in (ok a, record c { rows = w })

module _ {U Q A : Type 0} where
  unfoldable pub on_sessions : Sql (List Row) A → Sql (World U Q) A
  unfolding zoom
  on_sessions m = zoom (λ w. w.sessions) (λ s w. record w { sessions = s }) m

  unfoldable pub on_accounts : Sql U A → Sql (World U Q) A
  unfolding zoom
  on_accounts m = zoom (λ w. w.accounts) (λ s w. record w { accounts = s }) m

  unfoldable pub on_mdm : Sql (Q × Fleet) A → Sql (World U Q) A
  unfolding zoom
  on_mdm m = zoom (λ w. w.mdm) (λ s w. record w { mdm = s }) m

  unfoldable pub on_fleet : Sql Fleet A → Sql (World U Q) A
  unfolding zoom
  on_fleet m = zoom (λ w. w.mdm.1) (λ s w. record w { mdm = (w.mdm.0, s) }) m

  unfoldable pub on_grants : Sql (List Grant) A → Sql (World U Q) A
  unfolding zoom
  on_grants m = zoom (λ w. w.grants) (λ s w. record w { grants = s }) m

  unfoldable pub on_audit : Sql (List AuditEntry) A → Sql (World U Q) A
  unfolding zoom
  on_audit m = zoom (λ w. w.audit) (λ s w. record w { audit = s }) m

-- what the handlers read of an `http.Request`: its method and path, the path value `id`, the
-- cookies, the parsed form, the uploaded file, the query and the headers
pub record Request : Type 0 where
  pub method : String
  pub path : String
  pub id : String
  pub session_cookie : Option String
  pub state_cookie : Option String
  pub nonce_cookie : Option String
  pub form_ok : Bool
  pub form : String → String
  pub file : Option (Option String)
  pub query : String → String
  pub csrf_header : String
  pub origin : String
  pub referer : String
  pub remote_addr : String
  pub forwarded_for : String

pub data Location : Type 0 where
  login_url admin_url devices_url groups_url profiles_url enrollment_url : Location
  wifi_url sso_url : Location
  device_url : String → Location
  group_url profile_url : ℕ → Location
  provider_url : String → Location

-- the message that a redirect carries in its query
pub data Notice : Type 0 where
  no_notice : Notice
  flash error : String → Notice

pub data Body : Type 0 where
  redirect : Location → Notice → Body
  text : String → Body
  page : String → String → Body
  retry_page : String → ℕ → Body
  created_link : String → ℕ → ℕ → Body

pub data Cookie : Type 0 where
  set_session : String → ℕ → Cookie
  clear_session : Cookie
  set_short : String → String → Cookie
  clear_short : String → Cookie

pub record Response : Type 0 where
  pub status : ℕ
  pub body : Body
  pub cookies : List Cookie

-- `http.Redirect` with `http.StatusFound` and with `http.StatusSeeOther`
abbrev pub found : Location → Response
found l = record { status = 302; body = redirect l no_notice; cookies = [] }

abbrev pub see_other : Location → Notice → Response
see_other l n = record { status = 303; body = redirect l n; cookies = [] }

-- `http.Error`
abbrev pub http_error : String → ℕ → Response
http_error message status = record { status = status; body = text message; cookies = [] }

-- `render` of a page that shows a message; the template is named
abbrev pub render : ℕ → String → String → Response
render status name message = record { status = status; body = page name message; cookies = [] }

abbrev pub with_cookies : List Cookie → Response → Response
with_cookies cs r = record r { cookies = cs ++ r.cookies }

-- `OIDCProvider`
pub record OidcProvider (U : Type 0) : Type 0 where
  pub auth_code_url : String → String → String
  pub exchange : String → String → Sql U Identity

-- `Commander`
pub record Commander (Q : Type 0) : Type 0 where
  pub send_device_information : String → Sql (Q × Fleet) (Unit {0})
  pub send_install_profile : String → String → Sql (Q × Fleet) (Unit {0})
  pub send_remove_profile : String → String → Sql (Q × Fleet) (Unit {0})

-- `App`, with what it takes from outside
pub record App (U Q Ip Network : Type 0) : Type 0 where
  pub hash : String → String
  pub store : SessionStore
  pub authenticate : String → String → Sql U Identity
  pub oidc : Option (OidcProvider U)
  pub cmd : Commander Q
  pub has_reconciler : Bool
  pub public_url : String
  pub net : Net Ip Network
  pub trusted : List Network
  pub parse_host : String → Option String
  pub equal_fold : String → String → Bool
  pub trim_space : String → String
  pub trim_slashes : String → String
  pub join_commas : List String → String
  pub nocase : String → String → Bool
  pub parse_int : String → Option ℤ
  -- the number that `strconv.Atoi` returns, also along with an error
  pub int_value : String → ℤ
  pub reader : Reader
  pub texts : Texts
  pub marshal : ConfigProfile → Checked String
  pub trust_anchors_der : String → Checked (List String)
  pub split_lines : String → List String
  pub organization : String
  pub ca_anchors_der : List String
  pub itoa : ℕ → String

-- The time of a request, and the random strings that it would draw; `none` where the generator
-- fails.
pub record Moment : Type 0 where
  pub now : ℕ
  pub session_token : String
  pub session_csrf : String
  pub grant_token : String
  pub uuids : ℕ → String
  pub oidc_state : Option String
  pub oidc_nonce : Option String

abbrev pub seconds : Moment → ℕ
seconds m = m.now / second

abbrev pub millis : Moment → ℕ
millis m = m.now / 1000000

-- A Go integer as the id of a row: ids start from 1, so a negative one finds no row, as 0 does.
abbrev pub row_id : ℤ → ℕ
row_id (pos n) = n
row_id (negsuc n) = 0
