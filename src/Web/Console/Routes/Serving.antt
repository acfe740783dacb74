-- ===== src/Web/Console/Routes/Serving.antt =====
-- What the guards and the sign-in handlers keep of the audit log, and that they answer.
use cairn_mdm.Prelude.{ℕ, Option, none, some, String, Bool, true, false, List, ◌≡◌, refl}
use cairn_mdm.Sql.{Sql, Result, ok, err}
use cairn_mdm.Sql.Keeps.{Keeps, Serves, Serves-pure, serves_rules}
use cairn_mdm.Auth.Role.{Role, Identity}
use cairn_mdm.Auth.Session.{Row, Session}
use cairn_mdm.Storage.Audit.{AuditEntry}
use cairn_mdm.Storage.Grants.{Grant}
use cairn_mdm.Storage.Fleet.{Fleet}
use cairn_mdm.Web.Console.{
  World, Request, Response, App, Moment, OidcProvider, local, on_sessions, on_accounts, on_mdm,
  on_fleet, on_grants,
}
use cairn_mdm.Web.Console.Keeps.{
  Keeps-on_sessions, Keeps-on_accounts, Keeps-on_mdm, Keeps-on_fleet, Keeps-on_grants,
}
use cairn_mdm.Web.Console.Access.{
  Handler, checked, require_role, check_csrf, current_session, session_for, admit,
}
use cairn_mdm.Web.Console.Login.{handle_login, logout_of, after_admission, after_verdict, greet}
use cairn_mdm.Web.Console.Oidc.{login_with, callback_of, after_exchange}

abbrev pub HasLog : (U Q : Type 0) → List AuditEntry → World U Q → Type 0
HasLog U Q log w = w.audit ≡ log

module _ {U Q Ip Network : Type 0} (a : App U Q Ip Network) (m : Moment)
    (log : List AuditEntry) where
  pub sessions-Logged : {A : Type 0} (n : Sql (List Row) A) → Keeps (HasLog U Q log) (on_sessions n)
  sessions-Logged n = Keeps-on_sessions n (λ s w h. h)

  pub accounts-Logged : {A : Type 0} (n : Sql U A) → Keeps (HasLog U Q log) (on_accounts n)
  accounts-Logged n = Keeps-on_accounts n (λ s w h. h)

  pub mdm-Logged : {A : Type 0} (n : Sql (Q × Fleet) A) → Keeps (HasLog U Q log) (on_mdm n)
  mdm-Logged n = Keeps-on_mdm n (λ s w h. h)

  pub fleet-Logged : {A : Type 0} (n : Sql Fleet A) → Keeps (HasLog U Q log) (on_fleet n)
  fleet-Logged n = Keeps-on_fleet n (λ s w h. h)

  pub grants-Logged : {A : Type 0} (n : Sql (List Grant) A) → Keeps (HasLog U Q log) (on_grants n)
  grants-Logged n = Keeps-on_grants n (λ s w h. h)

  pub local-Serves :
      {A : Type 0} (f : World U Q → A × World U Q)
      → ((w : World U Q) → HasLog U Q log w → HasLog U Q log (f w).1)
      → Serves (HasLog U Q log) (local f)
  unfolding local
  local-Serves f keep = record { at = λ c h. (((f c.rows).0, refl), keep c.rows h) }

  pub ruleset parts =
      (serves_rules, sessions-Logged, accounts-Logged, mdm-Logged, fleet-Logged, grants-Logged)

  pub session_for-Serves : (o : Option String) → Serves (HasLog U Q log) (session_for a m o)
  session_for-Serves none = Serves-pure none
  session_for-Serves (some token) = search parts

  pub current_session-Serves : (r : Request) → Serves (HasLog U Q log) (current_session a m r)
  unfolding current_session
  current_session-Serves r = session_for-Serves r.session_cookie

  pub check_csrf-Serves : (r : Request) → Serves (HasLog U Q log) (check_csrf a m r)
  unfolding check_csrf
  check_csrf-Serves r = search (parts, current_session-Serves)

  pub checked-Serves :
      (r : Request) (act : Sql (World U Q) Response)
      → Serves (HasLog U Q log) act
      → Serves (HasLog U Q log) (checked a m r act)
  unfolding checked
  checked-Serves r act h = search (parts, check_csrf-Serves)

  pub admit-Serves :
      (min : Role) (h : Handler U Q) (r : Request) (o : Option Session)
      → ((s : Session) → Serves (HasLog U Q log) (h s r))
      → Serves (HasLog U Q log) (admit a m min h r o)
  admit-Serves min h r none k = Serves-pure _
  admit-Serves min h r (some s) k = search (parts, k)

  pub require_role-Serves :
      (min : Role) (h : Handler U Q) (r : Request)
      → ((s : Session) → Serves (HasLog U Q log) (h s r))
      → Serves (HasLog U Q log) (require_role a m min h r)
  unfolding require_role
  require_role-Serves min h r k = search (parts, current_session-Serves, admit-Serves)

  pub greet-Serves : (o : Result Session) → Serves (HasLog U Q log) (greet a m o)
  greet-Serves (ok s) = Serves-pure _
  greet-Serves (err e) = Serves-pure _

  pub after_verdict-Serves :
      (r : Request) (o : Result Identity) → Serves (HasLog U Q log) (after_verdict a m r o)
  after_verdict-Serves r (ok id) = search (parts, local-Serves, greet-Serves)
  after_verdict-Serves r (err e) = search (parts, local-Serves)

  pub after_admission-Serves :
      (r : Request) (p : Bool × ℕ) → Serves (HasLog U Q log) (after_admission a m r p)
  after_admission-Serves r (true, wait) = search (parts, after_verdict-Serves)
  after_admission-Serves r (false, wait) = Serves-pure _

  pub handle_login-Serves : (r : Request) → Serves (HasLog U Q log) (handle_login a m r)
  unfolding handle_login
  handle_login-Serves r = search (parts, local-Serves, after_admission-Serves)

  pub logout_of-Serves :
      (r : Request) (o : Option String) → Serves (HasLog U Q log) (logout_of a m r o)
  logout_of-Serves r none = Serves-pure _
  logout_of-Serves r (some token) = search (parts, check_csrf-Serves)

  pub login_with-Serves :
      (o : Option (OidcProvider U)) (r : Request) → Serves (HasLog U Q log) (login_with a m o r)
  login_with-Serves none r = Serves-pure _
  login_with-Serves (some p) r = search (parts, current_session-Serves)

  pub after_exchange-Serves : (o : Result Identity) → Serves (HasLog U Q log) (after_exchange a m o)
  after_exchange-Serves (ok id) = search (parts, greet-Serves)
  after_exchange-Serves (err e) = Serves-pure _

  pub callback_of-Serves :
      (o : Option (OidcProvider U)) (r : Request) → Serves (HasLog U Q log) (callback_of a m o r)
  callback_of-Serves none r = Serves-pure _
  callback_of-Serves (some p) r = search (parts, after_exchange-Serves) depth 8
