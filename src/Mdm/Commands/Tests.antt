-- ===== src/Mdm/Commands/Tests.antt =====
-- A commander whose pusher reaches one device only.
use cairn_mdm.Prelude.{
  true, ap, sym, Option, ◌||◌, String, Bool, not, ◌&&◌, List, [], ◌∷◌, none, some, ◌≡◌, refl,
  if◌then◌else◌, string_eq, ◌==◌, any,
}
use cairn_mdm.Sql.{Sql, Result, Conn, ok, err, driver, working, stmt, pure, catch, ◌>>=◌, zoom}
use cairn_mdm.Storage.Fleet.{Fleet, Profile}
use cairn_mdm.Storage.Fleet.Commands.{command_sent}
use cairn_mdm.Storage.Fleet.Groups.{to_deploy}
use cairn_mdm.Assign.{reconcile_device}
use cairn_mdm.Mdm.Commands.{
  Transport, enqueue_and_push, enqueue, send, send_device_information, on_queue, on_history,
}
use cairn_mdm.Mdm.Commands.Delivering.{
  IsWorking, commander, for_reconciler, reconcile_device-delivers,
}

abbrev known : List String → Bool
known ids = any (λ id. id == "mac") ids

abbrev queue : Transport (Unit {0})
queue = record {
  encode = λ uuid body c. (ok (record { uuid = uuid; body = body }), c);
  enqueue = λ ids cmd c. (ok tt, c);
  push = some (λ ids c. (if known ids then ok tt else err driver, c));
}

abbrev called :
    Option (List String → Sql (Unit {0}) (Unit {0}))
    → List String
    → Result (Unit {0}) × Conn (Unit {0})
called none ids = (ok tt, working tt)
called (some push) ids = push ids (working tt)

abbrev queue-IsWorking : IsWorking queue
queue-IsWorking = record {
  queued = λ ids cmd. true;
  reached = known;
  encodes = λ uuid body. refl;
  enqueues = λ ids cmd. refl;
  pushes = λ push ids e. ap (λ o. called o ids) (sym e);
}

abbrev wifi : Profile
wifi = record {
  id = 1;
  identifier = "wifi";
  uuid = "";
  name = "wifi";
  organization = "";
  payload_types = "";
  source = "upload";
  bytes = "wifi";
  created_at = 1;
  updated_at = 1000;
}

abbrev school : Fleet
school = record {
  devices = [];
  profiles = wifi ∷ [];
  groups = record { id = 7; name = "staff"; description = ""; created_at = 1 } ∷ [];
  members = record { group_id = 7; device_id = "mac" } ∷ [];
  assignments = record { group_id = 7; profile_id = 1 } ∷ [];
  deploys = [];
  history = [];
}

abbrev draw : String → String → String
draw bytes device = "u1"

commands_tests :
    ((send_device_information
        (commander queue queue-IsWorking 5 draw)
        "u2"
        ("mac" ∷ [])
        (working (tt, school))).1.rows.1.history
      ≡ record {
        command_uuid = "u2";
        device_id = "mac";
        request_type = "DeviceInformation";
        status = "Sent";
        error = "";
        sent_at = 5;
        result_at = none;
      }
        ∷ [])
    × ((send_device_information
          (commander queue queue-IsWorking 5 draw)
          "u2"
          ("ipad" ∷ [])
          (working (tt, school))).0
        ≡ err driver)
unfolding send_device_information send enqueue enqueue_and_push on_queue on_history zoom
    command_sent stmt pure catch ◌>>=◌
commands_tests = (refl, refl)

reconcile_device-delivers_example :
    ((reconcile_device
        (for_reconciler (commander queue queue-IsWorking 5 draw) draw)
        50
        "mac"
        (working school)).0
      ≡ ok tt)
    × (to_deploy
          (reconcile_device
            (for_reconciler (commander queue queue-IsWorking 5 draw) draw)
            50
            "mac"
            (working school)).1.rows
          "mac"
          wifi
        ≡ (to_deploy school "mac" wifi && not (true && (not true || known ("mac" ∷ [])))))
reconcile_device-delivers_example =
    reconcile_device-delivers queue queue-IsWorking 5 draw 50 "mac" school wifi (refl, tt) refl
