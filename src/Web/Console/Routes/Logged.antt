-- ===== src/Web/Console/Routes/Logged.antt =====
-- What the routes leave in the audit log.
use cairn_mdm.Prelude.{
  String, Bool, List, Option, none, some, true, false, [], ◌∷◌, ◌++◌, ◌≡◌, ◌⊎◌, ◌/◌, if◌then◌else◌,
  string_eq, ◌==◌,
}
use cairn_mdm.Sql.{is_failing}
use cairn_mdm.Auth.Session.{Session, second}
use cairn_mdm.Storage.Audit.{AuditEntry}
use cairn_mdm.Web.Client.{client_ip}
use cairn_mdm.Web.Console.{Request, Response, App, Moment}

module _ {U Q Ip Network : Type 0} (a : App U Q Ip Network) (m : Moment) where
  -- the user that an entry names: that of the session, or the submitted one where there is none
  abbrev pub user_named : Request → Option Session → String
  user_named r none = r.form "username"
  user_named r (some s) =
      if s.identity.username == "" then r.form "username" else s.identity.username

  abbrev pub provider_named : Option Session → String
  provider_named none = ""
  provider_named (some s) = s.identity.provider

  -- An entry for this request, its response and the session of its cookie.
  pub record Tells (r : Request) (resp : Response) (s : Option Session) (e : AuditEntry)
      : Type 0 where
    pub at_time : e.at_time ≡ m.now / second
    pub username : e.username ≡ user_named r s
    pub provider : e.provider ≡ provider_named s
    pub action : e.action ≡ r.method
    pub target : e.target ≡ r.path
    pub result : e.result ≡ a.itoa resp.status
    pub remote : e.remote ≡ client_ip a.net a.trusted r.remote_addr r.forwarded_for

  -- The log is extended by one such entry, or the statement fails and it is left.
  abbrev pub Extends :
      Request → Response → Option Session → List Bool → List AuditEntry → List AuditEntry → Type 0
  Extends r resp s faults log log' =
      ((is_failing faults ≡ true) × (log' ≡ log))
      ⊎ ((is_failing faults ≡ false) × (e : AuditEntry) × Tells r resp s e × (log' ≡ log ++ e ∷ []))
