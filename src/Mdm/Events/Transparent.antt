-- ===== src/Mdm/Events/Transparent.antt =====
-- What the decoration does to the protocol.
use cairn_mdm.Prelude.{String, Bool, true, false, Option, none, some, ◌≡◌, refl, ◌⊎◌, inl, inr}
use cairn_mdm.Sql.{Conn, Sql, Result-cases, ok, pure, ◌>>=◌, ◌>>◌, zoom}
use cairn_mdm.Sql.Keeps.{Keeps, Serves, Serves-pure, serves_rules}
use cairn_mdm.Storage.Fleet.{Fleet}
use cairn_mdm.Storage.Fleet.Devices.{DeviceInventory}
use cairn_mdm.Mdm.Commands.{Command, CommandRecorder}
use cairn_mdm.Mdm.Events.{
  Core, EventService, DeviceProjector, Authenticate, CommandResults, on_protocol, on_fleet, project,
  start_hook, record_with, project_inventory, project_report, authenticate, token_update, check_out,
  command_and_report_results,
}

abbrev pub inner_conn : {I : Type 0} → Conn (Core I) → Conn I
inner_conn c = record { rows = c.rows.protocol; faults = c.faults }

module _ {I A : Type 0} where
  -- The decorated call returns what the inner service returns, and leaves its state as that does;
  -- where the inner service refuses, neither the fleet nor the list of started hooks changes.
  pub record IsTransparent (inner : Sql I A) (outer : Sql (Core I) A) (c : Conn (Core I))
      : Type 0 where
    pub result : (outer c).0 ≡ (inner (inner_conn c)).0
    pub protocol : (outer c).1.rows.protocol ≡ (inner (inner_conn c)).1.rows
    pub refused :
        ((a : A) × ((inner (inner_conn c)).0 ≡ ok a))
        ⊎ (((outer c).1.rows.fleet ≡ c.rows.fleet) × ((outer c).1.rows.pushable ≡ c.rows.pushable))

  -- what runs after the inner service
  record Passes (a : A) (post : Sql (Core I) A) : Type 0 where
    at : (c : Conn (Core I)) → ((post c).0 ≡ ok a) × ((post c).1.rows.protocol ≡ c.rows.protocol)

  decorated :
      (m : Sql I A) (post : A → Sql (Core I) A) (c : Conn (Core I))
      → ((a : A) → Passes a (post a))
      → IsTransparent m (on_protocol m >>= post) c
  unfolding ◌>>=◌ on_protocol zoom
  decorated m post c passes = elim (Result-cases (m (inner_conn c)).0) [
    | inl (a, e) ↦
        let (same, kept) = (passes a).at (on_protocol m c).1 in
        record { result = rw e same; protocol = rw e kept; refused = inl (a, e) }
    | inr (x, e) ↦ record {
      result = rw e refl;
      protocol = rw e refl;
      refused = inr (rw e (refl, refl));
    }
  ]

module _ {I : Type 0} (s : EventService I) where
  abbrev Has : I → Core I → Type 0
  Has p w = w.protocol ≡ p

  module _ (p : I) where
    on_fleet-Keeps : {A : Type 0} (m : Sql Fleet A) → Keeps (Has p) (on_fleet m)
    unfolding on_fleet zoom
    on_fleet-Keeps m = record { at = λ c h. h }

    project-Serves :
        (f : DeviceProjector → Sql Fleet (Unit {0})) (o : Option DeviceProjector)
        → Serves (Has p) (project s f o)
    project-Serves f none = Serves-pure _
    project-Serves f (some d) = search (serves_rules, on_fleet-Keeps)

    hook-Serves : (b : Bool) (id : String) → Serves (Has p) (start_hook s b id)
    unfolding pure
    hook-Serves true id = record { at = λ c h. ((tt, refl), h) }
    hook-Serves false id = record { at = λ c h. ((tt, refl), h) }

    record_with-Serves :
        (o : Option CommandRecorder) (id : String) (m : CommandResults)
        → Serves (Has p) (record_with s o id m)
    record_with-Serves none id m = Serves-pure _
    record_with-Serves (some d) id m = search (serves_rules, on_fleet-Keeps)

    inventory-Serves :
        (id : String) (o : Option DeviceInventory) → Serves (Has p) (project_inventory s id o)
    inventory-Serves id none = Serves-pure _
    inventory-Serves id (some i) = project-Serves _ s.proj

    token-Serves :
        (id : String)
        → Serves
            (Has p)
            (project s (λ d. d.device_token_updated id) s.proj >> start_hook s s.has_hook id)
    token-Serves id = search (serves_rules, project-Serves, hook-Serves)

    report-Serves : (id : String) (m : CommandResults) → Serves (Has p) (project_report s id m)
    report-Serves id m =
        search (serves_rules, project-Serves, record_with-Serves, inventory-Serves) depth 8

  Serves-Passes :
      (post : Sql (Core I) (Unit {0})) → ((p : I) → Serves (Has p) post) → Passes tt post
  Serves-Passes post h = record {
    at = λ c. let ((u, e), kept) = (h c.rows.protocol).at c refl in (e, kept);
  }

  report-Passes :
      (id : String) (m : CommandResults) (cmd : Option Command)
      → Passes cmd (project_report s id m >> pure cmd)
  unfolding ◌>>=◌ pure
  report-Passes id m cmd = record {
    at = λ c.
        let ((u, e), kept) = (report-Serves c.rows.protocol id m).at c refl in
        (rw e refl, rw e kept);
  }

  -- Whatever the projections and the recording do, and whichever of them are installed: each of the
  -- four decorated calls returns what NanoMDM's service returns and leaves its state as that does,
  -- and where that service refuses the message, neither the fleet nor the list of started hooks
  -- changes.
  pub events-IsTransparent :
      (id : String) (a : Authenticate) (m : CommandResults) (c : Conn (Core I))
      → IsTransparent (s.inner.authenticate id a) (authenticate s id a) c
        × IsTransparent (s.inner.token_update id) (token_update s id) c
        × IsTransparent (s.inner.check_out id) (check_out s id) c
        × IsTransparent
            (s.inner.command_and_report_results id m)
            (command_and_report_results s id m)
            c
  unfolding authenticate token_update check_out command_and_report_results
  events-IsTransparent id a m c = (
    decorated _ _ c (λ u. Serves-Passes _ (λ p. project-Serves p _ s.proj)),
    decorated _ _ c (λ u. Serves-Passes _ (λ p. token-Serves p id)),
    decorated _ _ c (λ u. Serves-Passes _ (λ p. project-Serves p _ s.proj)),
    decorated _ _ c (report-Passes id m),
  )
