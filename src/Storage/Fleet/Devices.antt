-- ===== src/Storage/Fleet/Devices.antt =====
-- The device inventory (internal/storage/sqlite/devices.go), which the events of the check-in
-- service project.
mod Events
mod Inventory
mod Tests
use cairn_mdm.Prelude.{
  ℕ, ◌+◌, String, Bool, true, false, ◌&&◌, List, [], ◌∷◌, ◌++◌, Option, none, some, leb,
  if◌then◌else◌, string_eq, ◌==◌, update, count, find, any, not,
}
use cairn_mdm.Sql.{Sql, Result, ok, err, Error, no_rows, query_row, stmt}
use cairn_mdm.Storage.Fleet.{Fleet, Device}

-- `mdmcore.DeviceRecord`, without the topic, which the table does not keep
pub record DeviceRecord : Type 0 where
  pub id : String
  pub udid : String
  pub serial : String
  pub name : String
  pub model : String
  pub product : String
  pub os_version : String
  pub build_version : String

-- `mdmcore.DeviceInventory`
pub record DeviceInventory : Type 0 where
  pub name : String
  pub model : String
  pub product : String
  pub os_version : String
  pub build_version : String
  pub serial : String
  pub available_capacity : String
  pub battery : String

abbrev pub is_null : Option ℕ → Bool
is_null none = true
is_null (some t) = false

-- `Device.Enrolled`
unfoldable pub enrolled : Device → Bool
enrolled d = is_null d.checked_out_at

-- `Device.DisplayName`
unfoldable pub display_name : Device → String
display_name d =
    if not (d.name == "") then d.name else if not (d.serial == "") then d.serial else d.id

abbrev pub is_device : String → Device → Bool
is_device id d = d.id == id

-- `CASE WHEN new <> '' THEN new ELSE old END`
abbrev pub unless_empty : String → String → String
unless_empty new old = if not (new == "") then new else old

abbrev pub first_sight : ℕ → DeviceRecord → Device
first_sight now r = record {
  id = r.id;
  udid = r.udid;
  serial = r.serial;
  name = r.name;
  model = r.model;
  product = r.product;
  os_version = r.os_version;
  build_version = r.build_version;
  available_capacity = "";
  battery = "";
  enrolled_at = some now;
  last_seen = some now;
  token_updated_at = none;
  inventory_at = none;
  checked_out_at = none;
}

abbrev pub enrolled_again : ℕ → DeviceRecord → Device → Device
enrolled_again now r d = record d {
  udid = r.udid;
  serial = unless_empty r.serial d.serial;
  name = unless_empty r.name d.name;
  model = unless_empty r.model d.model;
  product = unless_empty r.product d.product;
  os_version = unless_empty r.os_version d.os_version;
  build_version = unless_empty r.build_version d.build_version;
  last_seen = some now;
  checked_out_at = none;
}

abbrev pub with_devices : Fleet → List Device → Result (Unit {0}) × Fleet
with_devices f ds = (ok tt, record f { devices = ds })

abbrev pub upsert_device : ℕ → DeviceRecord → List Device → List Device
upsert_device now r ds =
    if any (is_device r.id) ds
    then update (is_device r.id) (enrolled_again now r) ds
    else ds ++ first_sight now r ∷ []

-- `DeviceEnrolled`
unfoldable pub device_enrolled : ℕ → DeviceRecord → Sql Fleet (Unit {0})
device_enrolled now r = stmt (λ f. with_devices f (upsert_device now r f.devices))

abbrev pub token_update : ℕ → Device → Device
token_update now d = record d {
  token_updated_at = some now;
  last_seen = some now;
  checked_out_at = none;
}

-- `DeviceTokenUpdated`
unfoldable pub device_token_updated : ℕ → String → Sql Fleet (Unit {0})
device_token_updated now id =
    stmt (λ f. with_devices f (update (is_device id) (token_update now) f.devices))

abbrev pub check_out : ℕ → Device → Device
check_out now d = record d { checked_out_at = some now; last_seen = some now }

-- `DeviceCheckedOut`
unfoldable pub device_checked_out : ℕ → String → Sql Fleet (Unit {0})
device_checked_out now id =
    stmt (λ f. with_devices f (update (is_device id) (check_out now) f.devices))

-- `DeviceCheckedIn`
unfoldable pub device_checked_in : ℕ → String → Sql Fleet (Unit {0})
device_checked_in now id =
    stmt (λ f.
      with_devices f (update (is_device id) (λ d. record d { last_seen = some now }) f.devices))

abbrev pub take_inventory : ℕ → DeviceInventory → Device → Device
take_inventory now i d = record d {
  name = unless_empty i.name d.name;
  model = unless_empty i.model d.model;
  product = unless_empty i.product d.product;
  os_version = unless_empty i.os_version d.os_version;
  build_version = unless_empty i.build_version d.build_version;
  serial = unless_empty i.serial d.serial;
  available_capacity = unless_empty i.available_capacity d.available_capacity;
  battery = unless_empty i.battery d.battery;
  inventory_at = some now;
}

-- `DeviceInventory`
unfoldable pub device_inventory : ℕ → String → DeviceInventory → Sql Fleet (Unit {0})
device_inventory now id i =
    stmt (λ f. with_devices f (update (is_device id) (take_inventory now i) f.devices))

-- `GetDevice`
unfoldable pub get_device : String → Sql Fleet Device
get_device id = stmt (λ f. query_row f (find (is_device id) f.devices))

abbrev day : ℕ
day = 86400

abbrev seen_since : ℕ → Option ℕ → Bool
seen_since t none = false
seen_since t (some s) = leb t (s + day)

-- `DeviceCounts`
unfoldable pub device_counts : ℕ → Sql Fleet (ℕ × ℕ)
device_counts now = stmt (λ f. (
  ok (
    count (λ d. true) f.devices,
    count (λ d. is_null d.checked_out_at && seen_since now d.last_seen) f.devices,
  ),
  f,
))
