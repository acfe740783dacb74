-- ===== src/Web/Console/Oidc.antt =====
-- Single sign-on by the redirect flow (internal/web/oidc.go).
pub mod Verified
use cairn_mdm.Prelude.{
  String, Bool, true, false, ◌||◌, not, [], ◌∷◌, Option, none, some, string_eq, ◌==◌, if◌then◌else◌,
}
use cairn_mdm.Sql.{Sql, Result, ok, err, pure, catch, ◌>>=◌}
use cairn_mdm.Auth.Role.{Identity}
use cairn_mdm.Auth.Session.{Session}
use cairn_mdm.Web.Console.{
  World, Request, Response, App, Moment, OidcProvider, Cookie, set_short, clear_short, admin_url,
  provider_url, found, http_error, render, with_cookies, on_accounts,
}
use cairn_mdm.Web.Console.Access.{current_session}
use cairn_mdm.Web.Console.Login.{open_session}

abbrev pub state_name : String
state_name = "__Host-cairn_oidc_state"

abbrev pub nonce_name : String
nonce_name = "__Host-cairn_oidc_nonce"

abbrev disabled : Response
disabled = render 404 "login.html" "Single sign-on is not enabled."

-- `loginError`
abbrev pub login_error : String → Response
login_error message = render 401 "login.html" message

abbrev pub value_or_empty : Option String → String
value_or_empty none = ""
value_or_empty (some v) = v

-- the state of the query is the one of the cookie, and neither is empty
abbrev pub state_matches : Option String → String → Bool
state_matches none state = false
state_matches (some cookie) state =
    if cookie == "" then false else if state == "" then false else state == cookie

-- both cookies are cleared, whatever the outcome
abbrev pub cleared : Response → Response
cleared r = with_cookies (clear_short state_name ∷ clear_short nonce_name ∷ []) r

module _ {U Q Ip Network : Type 0} (a : App U Q Ip Network) (m : Moment) where
  abbrev redirect_with : OidcProvider U → Option String → Option String → Response
  redirect_with p none _ = http_error "internal error" 500
  redirect_with p (some state) none = http_error "internal error" 500
  redirect_with p (some state) (some nonce) =
      with_cookies (set_short state_name state ∷ set_short nonce_name nonce ∷ [])
        (found (provider_url (p.auth_code_url state nonce)))

  abbrev start : OidcProvider U → Option Session → Response
  start p (some s) = found admin_url
  start p none = redirect_with p m.oidc_state m.oidc_nonce

  abbrev pub login_with : Option (OidcProvider U) → Request → Sql (World U Q) Response
  login_with none r = pure disabled
  login_with (some p) r = current_session a m r >>= λ s. pure (start p s)

  -- `handleOIDCLogin`
  unfoldable pub handle_oidc_login : Request → Sql (World U Q) Response
  handle_oidc_login r = login_with a.oidc r

  abbrev pub after_exchange : Result Identity → Sql (World U Q) Response
  after_exchange (err e) = pure (login_error "Single sign-on failed.")
  after_exchange (ok id) = open_session a m id

  abbrev pub exchange_code : OidcProvider U → Request → Sql (World U Q) Response
  exchange_code p r =
      catch (on_accounts (p.exchange (r.query "code") (value_or_empty r.nonce_cookie)))
        after_exchange

  abbrev pub callback_with : OidcProvider U → Request → Sql (World U Q) Response
  callback_with p r =
      if not (r.query "error" == "")
      then pure (login_error "Single sign-on was declined by the identity provider.")
      else if not (state_matches r.state_cookie (r.query "state"))
      then pure (login_error "Sign-on could not be verified. Please try again.")
      else if r.query "code" == ""
      then pure (login_error "Sign-on returned no authorization code.")
      else exchange_code p r

  abbrev pub callback_of : Option (OidcProvider U) → Request → Sql (World U Q) Response
  callback_of none r = pure disabled
  callback_of (some p) r = callback_with p r >>= λ resp. pure (cleared resp)

  -- `handleOIDCCallback`
  unfoldable pub handle_oidc_callback : Request → Sql (World U Q) Response
  handle_oidc_callback r = callback_of a.oidc r
