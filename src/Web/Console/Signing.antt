-- ===== src/Web/Console/Signing.antt =====
-- What signing in and out keeps of the console's state.
use cairn_mdm.Prelude.{ℕ, String, Option, none, some, Bool, true, false, not, List}
use cairn_mdm.Sql.{Sql, Result, ok, err}
use cairn_mdm.Sql.Keeps.{Keeps, Keeps-pure, Keeps-catch, Keeps-bind, Keeps-if, keeps_rules}
use cairn_mdm.Auth.Role.{Identity}
use cairn_mdm.Auth.Session.{Row, Session}
use cairn_mdm.Auth.Throttle.{Throttle}
use cairn_mdm.Web.Console.{World, Request, App, Moment, OidcProvider, on_sessions, on_accounts}
use cairn_mdm.Web.Console.Keeps.{Keeps-local, Keeps-on_sessions, Keeps-on_accounts}
use cairn_mdm.Web.Console.Access.{session_for, current_session, check_csrf}
use cairn_mdm.Web.Console.Login.{
  handle_login_form, handle_login, handle_logout, logout_of, open_session, after_admission,
  after_verdict, greet, on_throttle,
}
use cairn_mdm.Web.Console.Oidc.{
  handle_oidc_login, handle_oidc_callback, login_with, callback_of, callback_with, after_exchange,
}

-- The property does not depend on the sessions, the accounts and the throttle.
pub record IgnoresSigning {U Q : Type 0} (P : World U Q → Type 0) : Type 0 where
  pub sessions : (s : List Row) (w : World U Q) → P w → P (record w { sessions = s })
  pub accounts : (s : U) (w : World U Q) → P w → P (record w { accounts = s })
  pub throttle : (t : Option Throttle) (w : World U Q) → P w → P (record w { throttle = t })

module _ {U Q Ip Network : Type 0} (a : App U Q Ip Network) (m : Moment) {P : World U Q → Type 0}
    (i : IgnoresSigning P) where
  sessions-Keeps : {A : Type 0} (n : Sql (List Row) A) → Keeps P (on_sessions n)
  sessions-Keeps n = Keeps-on_sessions n i.sessions

  accounts-Keeps : {A : Type 0} (n : Sql U A) → Keeps P (on_accounts n)
  accounts-Keeps n = Keeps-on_accounts n i.accounts

  on_throttle-Keeps : (f : Throttle → Throttle) → Keeps P (on_throttle a m f)
  on_throttle-Keeps f = Keeps-local _ (λ w h. i.throttle _ w h)

  session_for-Keeps : (o : Option String) → Keeps P (session_for a m o)
  session_for-Keeps none = Keeps-pure none
  session_for-Keeps (some token) = Keeps-catch _ _ (sessions-Keeps _) (λ o. Keeps-pure _)

  pub current_session-Keeps : (r : Request) → Keeps P (current_session a m r)
  unfolding current_session
  current_session-Keeps r = session_for-Keeps r.session_cookie

  pub check_csrf-Keeps : (r : Request) → Keeps P (check_csrf a m r)
  unfolding check_csrf
  check_csrf-Keeps r = Keeps-bind _ _ (current_session-Keeps r) (λ s. Keeps-pure _)

  greet-Keeps : (o : Result Session) → Keeps P (greet a m o)
  greet-Keeps (ok s) = Keeps-pure _
  greet-Keeps (err e) = Keeps-pure _

  open_session-Keeps : (id : Identity) → Keeps P (open_session a m id)
  open_session-Keeps id = Keeps-catch _ _ (sessions-Keeps _) greet-Keeps

  after_verdict-Keeps : (r : Request) (o : Result Identity) → Keeps P (after_verdict a m r o)
  after_verdict-Keeps r (ok id) = Keeps-bind _ _ (on_throttle-Keeps _) (λ u. open_session-Keeps id)
  after_verdict-Keeps r (err e) = Keeps-bind _ _ (on_throttle-Keeps _) (λ u. Keeps-pure _)

  after_admission-Keeps : (r : Request) (p : Bool × ℕ) → Keeps P (after_admission a m r p)
  after_admission-Keeps r (true, wait) = Keeps-catch _ _ (accounts-Keeps _) (after_verdict-Keeps r)
  after_admission-Keeps r (false, wait) = Keeps-pure _

  pub handle_login-Keeps : (r : Request) → Keeps P (handle_login a m r)
  unfolding handle_login
  handle_login-Keeps r =
      Keeps-if (not r.form_ok) _ _ (Keeps-pure _)
        (Keeps-bind _ _ (Keeps-local _ (λ v h. h)) (after_admission-Keeps r))

  pub handle_login_form-Keeps : (r : Request) → Keeps P (handle_login_form a m r)
  unfolding handle_login_form
  handle_login_form-Keeps r = Keeps-bind _ _ (current_session-Keeps r) (λ s. Keeps-pure _)

  logout_of-Keeps : (r : Request) (o : Option String) → Keeps P (logout_of a m r o)
  logout_of-Keeps r none = Keeps-pure _
  logout_of-Keeps r (some token) =
      Keeps-bind _ _ (check_csrf-Keeps r) (λ b.
        Keeps-if b _ _ (Keeps-catch _ _ (sessions-Keeps _) (λ o. Keeps-pure _)) (Keeps-pure _))

  pub handle_logout-Keeps : (r : Request) → Keeps P (handle_logout a m r)
  unfolding handle_logout
  handle_logout-Keeps r = logout_of-Keeps r r.session_cookie

  login_with-Keeps : (o : Option (OidcProvider U)) (r : Request) → Keeps P (login_with a m o r)
  login_with-Keeps none r = Keeps-pure _
  login_with-Keeps (some p) r = Keeps-bind _ _ (current_session-Keeps r) (λ s. Keeps-pure _)

  pub handle_oidc_login-Keeps : (r : Request) → Keeps P (handle_oidc_login a m r)
  unfolding handle_oidc_login
  handle_oidc_login-Keeps r = login_with-Keeps a.oidc r

  after_exchange-Keeps : (o : Result Identity) → Keeps P (after_exchange a m o)
  after_exchange-Keeps (err e) = Keeps-pure _
  after_exchange-Keeps (ok id) = open_session-Keeps id

  callback_with-Keeps : (p : OidcProvider U) (r : Request) → Keeps P (callback_with a m p r)
  callback_with-Keeps p r = search (keeps_rules, accounts-Keeps, after_exchange-Keeps)

  callback_of-Keeps : (o : Option (OidcProvider U)) (r : Request) → Keeps P (callback_of a m o r)
  callback_of-Keeps none r = Keeps-pure _
  callback_of-Keeps (some p) r = Keeps-bind _ _ (callback_with-Keeps p r) (λ resp. Keeps-pure _)

  pub handle_oidc_callback-Keeps : (r : Request) → Keeps P (handle_oidc_callback a m r)
  unfolding handle_oidc_callback
  handle_oidc_callback-Keeps r = callback_of-Keeps a.oidc r
