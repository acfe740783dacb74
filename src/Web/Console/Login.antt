-- ===== src/Web/Console/Login.antt =====
-- Signing in and out with a password (internal/web/handlers.go).
pub mod Outcomes
use cairn_mdm.Prelude.{
  ℕ, ◌+◌, ◌/◌, String, Bool, true, false, not, [], ◌∷◌, Option, none, some, if◌then◌else◌, concat,
}
use cairn_mdm.Sql.{Sql, Result, ok, err, pure, catch, ◌>>=◌, ◌>>◌}
use cairn_mdm.Auth.Role.{Identity}
use cairn_mdm.Auth.Session.{Session, second, create, delete}
use cairn_mdm.Auth.Throttle.{Throttle, allowed, record_failure, record_success}
use cairn_mdm.Web.Client.{client_ip}
use cairn_mdm.Web.Console.{
  World, Request, Response, App, Moment, local, on_sessions, on_accounts, retry_page, set_session,
  clear_session, login_url, admin_url, found, http_error, render, with_cookies,
}
use cairn_mdm.Web.Console.Access.{current_session, check_csrf}

module _ {U Q Ip Network : Type 0} (a : App U Q Ip Network) (m : Moment) where
  abbrev form_or_console : Option Session → Response
  form_or_console none = render 200 "login.html" ""
  form_or_console (some s) = found admin_url

  -- `handleLoginForm`
  unfoldable pub handle_login_form : Request → Sql (World U Q) Response
  handle_login_form r = current_session a m r >>= λ s. pure (form_or_console s)

  abbrev pub username_of : Request → String
  username_of r = a.trim_space (r.form "username")

  -- the key of the throttle: the user and the client's address
  abbrev pub throttle_key : Request → String
  throttle_key r =
      concat (username_of r) (concat "|" (client_ip a.net a.trusted r.remote_addr r.forwarded_for))

  abbrev pub admission : Request → Option Throttle → Bool × ℕ
  admission r none = (true, 0)
  admission r (some t) = allowed t m.now (throttle_key r)

  abbrev pub set_throttle : (Throttle → Throttle) → Option Throttle → Option Throttle
  set_throttle f none = none
  set_throttle f (some t) = some (f t)

  abbrev pub on_throttle : (Throttle → Throttle) → Sql (World U Q) (Unit {0})
  on_throttle f = local (λ w. (tt, record w { throttle = set_throttle f w.throttle }))

  abbrev pub greet : Result Session → Sql (World U Q) Response
  greet (err e) = pure (http_error "internal error" 500)
  greet (ok s) = pure (with_cookies (set_session s.token s.expires_at ∷ []) (found admin_url))

  -- a session for an identity that has been verified
  abbrev pub open_session : Identity → Sql (World U Q) Response
  open_session id =
      catch (on_sessions (create a.hash a.store m.now m.session_token m.session_csrf id)) greet

  abbrev pub after_verdict : Request → Result Identity → Sql (World U Q) Response
  after_verdict r (err e) =
      on_throttle (λ t. record_failure t m.now (throttle_key r))
      >> pure (render 401 "login.html" "Incorrect username or password.")
  after_verdict r (ok id) = on_throttle (λ t. record_success t (throttle_key r)) >> open_session id

  -- `int(retryAfter.Seconds()) + 1`
  abbrev pub after_admission : Request → Bool × ℕ → Sql (World U Q) Response
  after_admission r (false, wait) = pure (record {
    status = 429;
    body = retry_page "Too many attempts. Please try again later." (wait / second + 1);
    cookies = [];
  })
  after_admission r (true, wait) =
      catch (on_accounts (a.authenticate (username_of r) (r.form "password"))) (after_verdict r)

  -- `handleLogin`
  unfoldable pub handle_login : Request → Sql (World U Q) Response
  handle_login r =
      if not r.form_ok
      then pure (http_error "bad request" 400)
      else local (λ w. (admission r w.throttle, w)) >>= after_admission r

  abbrev signed_out : Response
  signed_out = with_cookies (clear_session ∷ []) (found login_url)

  abbrev pub end_session : String → Sql (World U Q) Response
  end_session token = catch (on_sessions (delete a.hash token)) (λ o. pure signed_out)

  abbrev pub logout_of : Request → Option String → Sql (World U Q) Response
  logout_of r none = pure signed_out
  logout_of r (some token) = check_csrf a m r >>= λ b.
      if b then end_session token else pure (http_error "invalid CSRF token" 403)

  -- `handleLogout`
  unfoldable pub handle_logout : Request → Sql (World U Q) Response
  handle_logout r = logout_of r r.session_cookie
