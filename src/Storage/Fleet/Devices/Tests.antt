-- ===== src/Storage/Fleet/Devices/Tests.antt =====
-- A device that enrolls, is inventoried, enrolls again with less detail and leaves.
use cairn_mdm.Prelude.{String, true, List, [], ◌∷◌, some, ◌≡◌, refl, find}
use cairn_mdm.Sql.{working, stmt, ok}
use cairn_mdm.Storage.Fleet.{Fleet, Device}
use cairn_mdm.Storage.Fleet.Devices.{
  DeviceRecord, DeviceInventory, enrolled, is_device, display_name, device_counts, device_enrolled,
  device_inventory, device_checked_out, first_sight,
}
use cairn_mdm.Storage.Fleet.Devices.Events.{
  Event, enroll, update_token, inspect_out, inventory, replay, map_row,
}
use cairn_mdm.Storage.Fleet.Devices.Inventory.{
  Remembers, replay-Remembers, standing, replay-standing,
}

abbrev mac : String → DeviceRecord
mac name = record {
  id = "mac";
  udid = "mac";
  serial = "C02";
  name = name;
  model = "";
  product = "Mac14,2";
  os_version = "14.1";
  build_version = "";
}

abbrev empty_fleet : Fleet
empty_fleet = record {
  devices = [];
  profiles = [];
  groups = [];
  members = [];
  assignments = [];
  deploys = [];
  history = [];
}

abbrev one_mac : Fleet
one_mac = record empty_fleet { devices = first_sight 5 (mac "Ann's Mac") ∷ [] }

abbrev report : DeviceInventory
report = record {
  name = "";
  model = "MacBook Air";
  product = "";
  os_version = "14.2";
  build_version = "23C";
  serial = "";
  available_capacity = "80";
  battery = "";
}

abbrev story : List Event
story =
    update_token 6 "mac"
    ∷ inventory 7 "mac" report
    ∷ inspect_out 8 "mac"
    ∷ enroll 9 (mac "")
    ∷ inspect_out 10 "other"
    ∷ []

device_tests :
    (map_row display_name (find (is_device "mac") (replay story (working one_mac)).rows.devices)
      ≡ some "Ann's Mac")
    × ((device_counts 90 (working one_mac)).0 ≡ ok (1, 1))
    × ((device_counts 90000 (working one_mac)).0 ≡ ok (1, 0))
unfolding device_enrolled device_inventory device_checked_out
    cairn_mdm.Storage.Fleet.Devices.device_token_updated display_name device_counts stmt
device_tests = (refl, refl, refl)

replay-Remembers_example :
    Remembers "mac"
      (first_sight 5 (mac "Ann's Mac"))
      (find (is_device "mac") (replay story (working one_mac)).rows.devices)
replay-Remembers_example =
    replay-Remembers story "mac" (first_sight 5 (mac "Ann's Mac")) (working one_mac) refl

replay-standing_example :
    map_row enrolled (find (is_device "mac") (replay story (working one_mac)).rows.devices)
    ≡ standing "mac" story (some true)
unfolding enrolled
replay-standing_example = replay-standing story "mac" (working one_mac) refl
