-- ===== src/Web/Console/Audited.antt =====
-- The audit of mutating requests (internal/web/audit.go).
use cairn_mdm.Prelude.{String, Option, none, some, string_eq}
use cairn_mdm.Sql.{Sql, pure, catch, ◌>>=◌}
use cairn_mdm.Auth.Session.{Session}
use cairn_mdm.Storage.Audit.{AuditEntry, append_audit}
use cairn_mdm.Web.Client.{client_ip}
use cairn_mdm.Web.Console.{World, Request, Response, App, Moment, seconds, on_audit}
use cairn_mdm.Web.Console.Access.{first_of, current_session}

module _ {U Q Ip Network : Type 0} (a : App U Q Ip Network) (m : Moment) where
  abbrev pub actor : Option Session → String
  actor none = ""
  actor (some s) = s.identity.username

  abbrev pub actor_provider : Option Session → String
  actor_provider none = ""
  actor_provider (some s) = s.identity.provider

  abbrev pub entry : Request → Response → Option Session → AuditEntry
  entry r resp s = record {
    id = 0;
    at_time = 0;
    username = first_of (actor s) (r.form "username");
    provider = actor_provider s;
    action = r.method;
    target = r.path;
    result = a.itoa resp.status;
    remote = client_ip a.net a.trusted r.remote_addr r.forwarded_for;
  }

  abbrev pub record_entry : Request → Response → Option Session → Sql (World U Q) Response
  record_entry r resp s =
      catch (on_audit (append_audit (seconds m) (entry r resp s))) (λ o. pure resp)

  -- `audited`; every response here has its status, so the recorder's default does not occur
  unfoldable pub audited : (Request → Sql (World U Q) Response) → Request → Sql (World U Q) Response
  unfolding current_session
  audited next r = next r >>= λ resp. current_session a m r >>= λ s. record_entry r resp s
