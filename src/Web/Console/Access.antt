-- ===== src/Web/Console/Access.antt =====
-- Who may do what in the console: `currentSession` and `requireRole` (internal/web/web.go), and
-- `sameOrigin` and `checkCSRF` (internal/web/handlers.go).
pub mod Guarding
use cairn_mdm.Prelude.{
  String, Bool, true, false, ◌&&◌, not, Option, none, some, string_eq, ◌==◌, if◌then◌else◌,
}
use cairn_mdm.Sql.{Sql, Result, ok, err, pure, catch, ◌>>=◌}
use cairn_mdm.Auth.Role.{Role, at_least}
use cairn_mdm.Auth.Session.{Session, get}
use cairn_mdm.Web.Console.{
  World, Request, Response, App, Moment, on_sessions, login_url, found, http_error, render,
}

-- A handler below `requireRole`, with the session from the context of its request.
abbrev pub Handler : Type 0 → Type 0 → Type 0
Handler U Q = Session → Request → Sql (World U Q) Response

-- a form field that is absent reads as ""
abbrev pub first_of : String → String → String
first_of a b = if a == "" then b else a

-- the token that a mutating request submits
abbrev pub submitted : Request → String
submitted r = first_of (r.form "csrf") r.csrf_header

module _ {U Q Ip Network : Type 0} (a : App U Q Ip Network) (m : Moment) where
  abbrev session_of : Result Session → Option Session
  session_of (ok s) = some s
  session_of (err e) = none

  abbrev pub session_for : Option String → Sql (World U Q) (Option Session)
  session_for none = pure none
  session_for (some token) =
      catch (on_sessions (get a.hash a.store m.now token)) (λ o. pure (session_of o))

  -- `currentSession`
  unfoldable pub current_session : Request → Sql (World U Q) (Option Session)
  current_session r = session_for r.session_cookie

  abbrev same_host : String → Option String → Bool
  same_host want none = false
  same_host want (some host) = if host == "" then false else a.equal_fold host want

  abbrev from_host : Option String → String → Bool
  from_host none src = true
  from_host (some want) src =
      if want == "" then true else if src == "" then true else same_host want (a.parse_host src)

  -- `sameOrigin`
  unfoldable pub same_origin : Request → Bool
  same_origin r = from_host (a.parse_host a.public_url) (first_of r.origin r.referer)

  abbrev pub token_matches : Request → Option Session → Bool
  token_matches r none = false
  token_matches r (some s) =
      if not (same_origin r) then false else not (submitted r == "") && submitted r == s.csrf

  -- `checkCSRF`
  unfoldable pub check_csrf : Request → Sql (World U Q) Bool
  unfolding current_session same_origin
  check_csrf r = current_session r >>= λ s. pure (token_matches r s)

  abbrev pub admit : Role → Handler U Q → Request → Option Session → Sql (World U Q) Response
  admit min h r none = pure (found login_url)
  admit min h r (some s) =
      if at_least s.identity.role min
      then h s r
      else pure (render 403 "error.html" "Your account does not have access to this page.")

  -- `requireRole`
  unfoldable pub require_role : Role → Handler U Q → Request → Sql (World U Q) Response
  unfolding current_session
  require_role min h r = current_session r >>= admit min h r

  -- the guard that a mutating handler starts with
  unfoldable pub checked : Request → Sql (World U Q) Response → Sql (World U Q) Response
  unfolding check_csrf
  checked r act =
      check_csrf r >>= λ b. if b then act else pure (http_error "invalid CSRF token" 403)
