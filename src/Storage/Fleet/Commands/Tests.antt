-- ===== src/Storage/Fleet/Commands/Tests.antt =====
-- A command that is sent, postponed and acknowledged.
use cairn_mdm.Prelude.{[], ◌∷◌, none, some, ◌≡◌, refl, find, ◌&&◌, ◌==◌, string_eq}
use cairn_mdm.Sql.{working, stmt, pure, ◌>>=◌}
use cairn_mdm.Storage.Fleet.{Fleet, Deploy}
use cairn_mdm.Storage.Fleet.Commands.{command_sent, command_result}
use cairn_mdm.Storage.Fleet.Commands.Settling.{changed, entry_after, command_result-settles}

abbrev deploy : Deploy
deploy = record {
  device_id = "mac";
  profile_id = 1;
  command_uuid = "u1";
  profile_updated_at = 1000;
  status = "sent";
  updated_at = 50;
}

abbrev sent : Fleet
sent = record {
  devices = [];
  profiles = [];
  groups = [];
  members = [];
  assignments = [];
  deploys = deploy ∷ [];
  history =
      record {
        command_uuid = "u1";
        device_id = "mac";
        request_type = "InstallProfile";
        status = "Sent";
        error = "";
        sent_at = 50;
        result_at = none;
      }
      ∷ [];
}

command_tests :
    ((command_sent 60 "mac" "u1" "InstallProfile" (working sent)).1 ≡ working sent)
    × ((command_result 60 "mac" "u1" "NotNow" "" (working sent)).1.rows.deploys ≡ deploy ∷ [])
    × ((command_result 60 "mac" "u1" "Error" "no" (working sent)).1.rows.deploys
        ≡ record deploy { status = "failed"; updated_at = 60 } ∷ [])
unfolding command_sent command_result stmt pure ◌>>=◌
command_tests = (refl, refl, refl)

command_result-settles_example :
    (find
        (λ x. x.command_uuid == "u1" && x.device_id == "mac")
        (command_result 60 "mac" "u1" "Acknowledged" "" (working sent)).1.rows.deploys
      ≡ some (record deploy { status = "installed"; updated_at = 60 }))
    × (find
          (λ x. x.command_uuid == "u1" && x.device_id == "mac")
          (command_result 60 "mac" "u1" "Acknowledged" "" (working sent)).1.rows.history
        ≡ changed
            (entry_after 60 "Acknowledged" "")
            (find (λ x. x.command_uuid == "u1" && x.device_id == "mac") sent.history))
command_result-settles_example =
    command_result-settles 60 "mac" "u1" "Acknowledged" "" "mac" "u1" sent
