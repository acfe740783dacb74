-- ===== src/Assign.antt =====
-- The assignment reconciler (internal/assign/assign.go). What sends the commands to a device is an
-- interface of the reconciler. The time at which a deploy is marked is a parameter; log lines are
-- left out.
pub mod Marking
pub mod Settling
mod Tests
use cairn_mdm.Prelude.{ℕ, String, List, [], ◌∷◌}
use cairn_mdm.Sql.{Sql, Result, ok, err, pure, catch, ◌>>=◌, ◌>>◌}
use cairn_mdm.Storage.Fleet.{Fleet, Profile}
use cairn_mdm.Storage.Fleet.Groups.{profiles_to_deploy, mark_deploy_sent, group_device_ids}

-- `Commander`: the bytes of a profile and a device, to the command's UUID
pub record Commander : Type 0 where
  pub send : String → String → Sql Fleet String

abbrev pub mark : ℕ → String → Profile → Result String → Sql Fleet (Unit {0})
mark now device p (err e) = pure tt
mark now device p (ok uuid) =
    catch (mark_deploy_sent now device p.id uuid p.updated_at) (λ r. pure tt)

-- the loop of `ReconcileDevice`
abbrev pub push_all : Commander → ℕ → String → List Profile → Sql Fleet (Unit {0})
push_all k now device [] = pure tt
push_all k now device (p ∷ ps) =
    catch (k.send p.bytes device) (mark now device p) >> push_all k now device ps

-- `ReconcileDevice`
unfoldable pub reconcile_device : Commander → ℕ → String → Sql Fleet (Unit {0})
reconcile_device k now device = profiles_to_deploy device >>= push_all k now device

abbrev pub reconcile_all : Commander → ℕ → List String → Sql Fleet (Unit {0})
reconcile_all k now [] = pure tt
reconcile_all k now (d ∷ ds) = catch (reconcile_device k now d) (λ r. reconcile_all k now ds)

-- `ReconcileGroup`
unfoldable pub reconcile_group : Commander → ℕ → ℕ → Sql Fleet (Unit {0})
reconcile_group k now group = group_device_ids group >>= reconcile_all k now
