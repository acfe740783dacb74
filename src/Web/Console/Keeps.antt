-- ===== src/Web/Console/Keeps.antt =====
-- What calls on a part of the console's state keep: the rest of the state decides.
use cairn_mdm.Prelude.{List}
use cairn_mdm.Sql.{Sql, zoom}
use cairn_mdm.Sql.Keeps.{Keeps}
use cairn_mdm.Auth.Session.{Row}
use cairn_mdm.Storage.Audit.{AuditEntry}
use cairn_mdm.Storage.Grants.{Grant}
use cairn_mdm.Storage.Fleet.{Fleet}
use cairn_mdm.Web.Console.{
  World, local, on_sessions, on_accounts, on_mdm, on_fleet, on_grants, on_audit,
}

module _ {W A : Type 0} {P : W → Type 0} where
  pub Keeps-local : (f : W → A × W) → ((w : W) → P w → P (f w).1) → Keeps P (local f)
  unfolding local
  Keeps-local f keep = record { at = λ c h. keep c.rows h }

  pub Keeps-zoom :
      {S : Type 0} (get : W → S) (put : S → W → W) (m : Sql S A)
      → ((s : S) (w : W) → P w → P (put s w))
      → Keeps P (zoom get put m)
  unfolding zoom
  Keeps-zoom get put m keep = record {
    at = λ c h.
        let (r, d) = m (record { rows = get c.rows; faults = c.faults }) in keep d.rows c.rows h;
  }

module _ {U Q A : Type 0} {P : World U Q → Type 0} where
  pub Keeps-on_sessions :
      (n : Sql (List Row) A)
      → ((s : List Row) (w : World U Q) → P w → P (record w { sessions = s }))
      → Keeps P (on_sessions n)
  unfolding on_sessions
  Keeps-on_sessions n keep = Keeps-zoom (λ w. w.sessions) (λ s w. record w { sessions = s }) n keep

  pub Keeps-on_accounts :
      (n : Sql (U) A)
      → ((s : U) (w : World U Q) → P w → P (record w { accounts = s }))
      → Keeps P (on_accounts n)
  unfolding on_accounts
  Keeps-on_accounts n keep = Keeps-zoom (λ w. w.accounts) (λ s w. record w { accounts = s }) n keep

  pub Keeps-on_mdm :
      (n : Sql (Q × Fleet) A)
      → ((s : Q × Fleet) (w : World U Q) → P w → P (record w { mdm = s }))
      → Keeps P (on_mdm n)
  unfolding on_mdm
  Keeps-on_mdm n keep = Keeps-zoom (λ w. w.mdm) (λ s w. record w { mdm = s }) n keep

  pub Keeps-on_fleet :
      (n : Sql (Fleet) A)
      → ((s : Fleet) (w : World U Q) → P w → P (record w { mdm = (w.mdm.0, s) }))
      → Keeps P (on_fleet n)
  unfolding on_fleet
  Keeps-on_fleet n keep = Keeps-zoom (λ w. w.mdm.1) (λ s w. record w { mdm = (w.mdm.0, s) }) n keep

  pub Keeps-on_grants :
      (n : Sql (List Grant) A)
      → ((s : List Grant) (w : World U Q) → P w → P (record w { grants = s }))
      → Keeps P (on_grants n)
  unfolding on_grants
  Keeps-on_grants n keep = Keeps-zoom (λ w. w.grants) (λ s w. record w { grants = s }) n keep

  pub Keeps-on_audit :
      (n : Sql (List AuditEntry) A)
      → ((s : List AuditEntry) (w : World U Q) → P w → P (record w { audit = s }))
      → Keeps P (on_audit n)
  unfolding on_audit
  Keeps-on_audit n keep = Keeps-zoom (λ w. w.audit) (λ s w. record w { audit = s }) n keep
