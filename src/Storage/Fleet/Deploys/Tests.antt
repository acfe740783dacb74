-- ===== src/Storage/Fleet/Deploys/Tests.antt =====
-- A group with one device and one profile.
use cairn_mdm.Prelude.{
  List, [], ◌∷◌, ◌≡◌, refl, arith, text_before, string_eq, nat_eq, All, Bool-cases, inl, inr,
}
use cairn_mdm.Sql.{ok, stmt, working}
use cairn_mdm.Storage.Fleet.{Fleet, Profile, Deploy}
use cairn_mdm.Storage.Fleet.Groups.{is_deploy}
use cairn_mdm.Storage.Fleet.Deploys.{
  GroupProfileStatus, device_deploys, profile_deploys, group_deploy_status,
}
use cairn_mdm.Storage.Fleet.Deploys.Rollup.{
  UniqueDeploys, IsWithin, members_of, group_deploy_status-IsWithin,
}

abbrev wifi : Profile
wifi = record {
  id = 3;
  identifier = "org.wifi";
  uuid = "u";
  name = "Wi-Fi";
  organization = "org";
  payload_types = "";
  source = "upload";
  bytes = "b";
  created_at = 0;
  updated_at = 0;
}

abbrev sent : Deploy
sent = record {
  device_id = "mac";
  profile_id = 3;
  command_uuid = "c";
  profile_updated_at = 0;
  status = "sent";
  updated_at = 8;
}

abbrev fleet : Fleet
fleet = record {
  devices = [];
  profiles = wifi ∷ [];
  groups = [];
  members = record { group_id = 1; device_id = "mac" } ∷ [];
  assignments = record { group_id = 1; profile_id = 3 } ∷ [];
  deploys = sent ∷ [];
  history = [];
}

abbrev pending_once : GroupProfileStatus
pending_once = record {
  profile_id = 3;
  profile_name = "Wi-Fi";
  profile_identifier = "org.wifi";
  installed = 0;
  pending = 1;
  failed = 0;
}

deploys_tests :
    ((group_deploy_status text_before 1 (working fleet)).0 ≡ ok (pending_once ∷ []))
    × ((profile_deploys text_before 3 (working fleet)).0
        ≡ ok (
            record { device_id = "mac"; device_name = "mac"; status = "sent"; updated_at = 8 }
            ∷ []))
    × ((device_deploys text_before "ipad" (working fleet)).0 ≡ ok [])
unfolding group_deploy_status profile_deploys device_deploys stmt
deploys_tests = (refl, refl, refl)

one_deploy : UniqueDeploys fleet
one_deploy device profile = elim (Bool-cases (is_deploy device profile sent)) [
  | inl e ↦ rw e (omega arith)
  | inr e ↦ rw e (omega arith)
]

group_deploy_status-IsWithin_example :
    (rows : List GroupProfileStatus) × ((group_deploy_status text_before 1 (working fleet)).0
      ≡ ok rows)
    × All (IsWithin (members_of 1 fleet)) rows
group_deploy_status-IsWithin_example = group_deploy_status-IsWithin text_before 1 fleet one_deploy
