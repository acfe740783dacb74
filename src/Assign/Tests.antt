-- ===== src/Assign/Tests.antt =====
-- Runs of the reconciler with a commander that takes one profile of two.
use cairn_mdm.Prelude.{
  ℕ, String, Bool, not, ◌&&◌, [], ◌∷◌, ◌≡◌, refl, if◌then◌else◌, string_eq, ◌==◌,
}
use cairn_mdm.Sql.{ok, err, driver, working, stmt, pure, catch, ◌>>=◌}
use cairn_mdm.Storage.Fleet.{Fleet, Profile}
use cairn_mdm.Storage.Fleet.Groups.{
  to_deploy, profiles_to_deploy, mark_deploy_sent, group_device_ids,
}
use cairn_mdm.Assign.{Commander, reconcile_device, reconcile_group}
use cairn_mdm.Assign.Settling.{IsDelivering, reconcile_device-settles}

abbrev takes : String → Bool
takes bytes = bytes == "wifi"

abbrev picky : Commander
picky = record {
  send = λ bytes device c.
      (if takes bytes then ok "u1" else err driver, record { rows = c.rows; faults = [] });
}

abbrev picky-IsDelivering : IsDelivering picky
picky-IsDelivering = record {
  accepts = λ bytes device. takes bytes;
  uuid = λ bytes device f. "u1";
  after = λ bytes device f. f;
  sends = λ bytes device f. refl;
  keeps = λ bytes device f. record {
    profiles = refl;
    members = refl;
    assignments = refl;
    deploys = refl;
  };
}

abbrev profile : ℕ → String → Profile
profile id bytes = record {
  id = id;
  identifier = bytes;
  uuid = "";
  name = bytes;
  organization = "";
  payload_types = "";
  source = "upload";
  bytes = bytes;
  created_at = 1;
  updated_at = 1000;
}

abbrev school : Fleet
school = record {
  devices = [];
  profiles = profile 1 "wifi" ∷ profile 2 "vpn" ∷ profile 3 "mail" ∷ [];
  groups = record { id = 7; name = "staff"; description = ""; created_at = 1 } ∷ [];
  members = record { group_id = 7; device_id = "mac" } ∷ [];
  assignments =
      record { group_id = 7; profile_id = 1 } ∷ record { group_id = 7; profile_id = 2 } ∷ [];
  deploys = [];
  history = [];
}

reconcile_tests :
    ((reconcile_device picky 50 "mac" (working school)).1.rows.deploys
      ≡ record {
        device_id = "mac";
        profile_id = 1;
        command_uuid = "u1";
        profile_updated_at = 1000;
        status = "sent";
        updated_at = 50;
      }
        ∷ [])
    × ((reconcile_group picky 50 7 (working school)).1.rows.deploys ≡ [])
unfolding reconcile_device reconcile_group profiles_to_deploy group_device_ids mark_deploy_sent stmt
    pure catch ◌>>=◌
reconcile_tests = (refl, refl)

reconcile_device-settles_example :
    ((reconcile_device picky 50 "mac" (working school)).0 ≡ ok tt)
    × (to_deploy (reconcile_device picky 50 "mac" (working school)).1.rows "mac" (profile 1 "wifi")
        ≡ (to_deploy school "mac" (profile 1 "wifi") && not (takes "wifi")))
reconcile_device-settles_example =
    reconcile_device-settles picky picky-IsDelivering 50 "mac" school (profile 1 "wifi")
      (refl, (refl, (refl, tt))) refl
