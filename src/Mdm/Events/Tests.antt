-- ===== src/Mdm/Events/Tests.antt =====
-- Check-ins of one device, with a service of NanoMDM that refuses one.
use cairn_mdm.Prelude.{[], ◌∷◌, true, none, some, ◌≡◌, refl, if◌then◌else◌, string_eq, ◌==◌}
use cairn_mdm.Prelude.Dict.{lookup}
use cairn_mdm.Sql.{err, constraint, working, stmt, pure, fail, catch, ◌>>=◌, zoom}
use cairn_mdm.Storage.Fleet.{Device}
use cairn_mdm.Storage.Fleet.Devices.{device_checked_in, device_inventory}
use cairn_mdm.Mdm.Commands.{sqlite_recorder}
use cairn_mdm.Mdm.Events.{
  Core, EventService, Authenticate, CommandResults, text, real, leaf, dict, on_protocol, on_fleet,
  sqlite_projector, inventory_from_raw, enrich_from_raw, record_from_authenticate, num_str,
  authenticate, token_update, check_out, command_and_report_results,
}
use cairn_mdm.Mdm.Events.Transparent.{IsTransparent, events-IsTransparent}

abbrev service : EventService (Unit {0})
service = record {
  inner = record {
    authenticate = λ id m. if id == "bad" then fail constraint else pure tt;
    token_update = λ id. pure tt;
    check_out = λ id. pure tt;
    command_and_report_results = λ id m. pure none;
  };
  proj = some (sqlite_projector 9);
  rec = some (sqlite_recorder 9);
  has_hook = true;
  unmarshal = λ raw.
      if raw == "responses"
      then some (
          ("QueryResponses", dict (("OSVersion", text "15") ∷ ("BatteryLevel", real "0.5") ∷ []))
          ∷ [])
      else some (("DeviceName", leaf (text "lab")) ∷ []);
}

abbrev device : Device
device = record {
  id = "mac";
  udid = "";
  serial = "";
  name = "";
  model = "";
  product = "";
  os_version = "14";
  build_version = "";
  available_capacity = "";
  battery = "";
  enrolled_at = some 1;
  last_seen = some 1;
  token_updated_at = none;
  inventory_at = none;
  checked_out_at = none;
}

abbrev core : Core (Unit {0})
core = record {
  protocol = tt;
  fleet = record {
    devices = device ∷ [];
    profiles = [];
    groups = [];
    members = [];
    assignments = [];
    deploys = [];
    history = [];
  };
  pushable = [];
}

abbrev hello : Authenticate
hello = record { udid = "U"; serial_number = "S"; raw = "x" }

abbrev idle : CommandResults
idle = record { command_uuid = ""; status = "Idle"; error_chain = []; raw = "responses" }

events_tests :
    ((command_and_report_results service "mac" idle (working core)).1.rows.fleet.devices
      ≡ record device {
        last_seen = some 9;
        inventory_at = some 9;
        os_version = "15";
        battery = "0.5";
      }
        ∷ [])
    × ((authenticate service "bad" hello (working core)).0 ≡ err constraint)
    × ((record_from_authenticate service "mac" hello).name ≡ "lab")
unfolding command_and_report_results authenticate record_from_authenticate enrich_from_raw
    inventory_from_raw num_str lookup device_checked_in device_inventory on_protocol on_fleet zoom
    stmt pure fail catch ◌>>=◌
events_tests = (refl, refl, refl)

events-IsTransparent_example :
    IsTransparent
      (service.inner.authenticate "mac" hello)
      (authenticate service "mac" hello)
      (working core)
    × IsTransparent (service.inner.token_update "mac") (token_update service "mac") (working core)
    × IsTransparent (service.inner.check_out "mac") (check_out service "mac") (working core)
    × IsTransparent
        (service.inner.command_and_report_results "mac" idle)
        (command_and_report_results service "mac" idle)
        (working core)
events-IsTransparent_example = events-IsTransparent service "mac" hello idle (working core)
