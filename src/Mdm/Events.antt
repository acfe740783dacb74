-- ===== src/Mdm/Events.antt =====
-- The service that decorates NanoMDM's (internal/mdmcore/events.go). The service of NanoMDM and the
-- decoding of a plist are parameters; `I` is the state of the former. What runs in a goroutine of its
-- own, when a device becomes pushable, is listed as started.
mod Tests
pub mod Transparent
use cairn_mdm.Prelude.{
  ℕ, String, Bool, true, false, ◌&&◌, not, List, [], ◌∷◌, ◌++◌, Option, none, some, string_eq, ◌==◌,
  if◌then◌else◌, concat,
}
use cairn_mdm.Prelude.Dict.{Dict, lookup}
use cairn_mdm.Sql.{Sql, Result, pure, catch, ◌>>=◌, ◌>>◌, zoom}
use cairn_mdm.Storage.Fleet.{Fleet}
use cairn_mdm.Storage.Fleet.Devices.{
  DeviceRecord, DeviceInventory, device_enrolled, device_token_updated, device_checked_out,
  device_checked_in, device_inventory,
}
use cairn_mdm.Mdm.Commands.{Command, CommandRecorder}

-- The values of a plist that the package reads; a number is held as `strconv` prints it.
pub data Leaf : Type 0 where
  text real int : String → Leaf
  other : Leaf

pub data Value : Type 0 where
  leaf : Leaf → Value
  dict : Dict Leaf → Value

-- what the package reads of the messages of `mdm`
pub record Authenticate : Type 0 where
  pub udid : String
  pub serial_number : String
  pub raw : String

pub record ErrorChain : Type 0 where
  pub localized_description : String
  pub us_english_description : String
  pub error_domain : String
  pub error_code : String

pub record CommandResults : Type 0 where
  pub command_uuid : String
  pub status : String
  pub error_chain : List ErrorChain
  pub raw : String

-- `DeviceProjector`
pub record DeviceProjector : Type 0 where
  pub device_enrolled : DeviceRecord → Sql Fleet (Unit {0})
  pub device_token_updated : String → Sql Fleet (Unit {0})
  pub device_checked_out : String → Sql Fleet (Unit {0})
  pub device_checked_in : String → Sql Fleet (Unit {0})
  pub device_inventory : String → DeviceInventory → Sql Fleet (Unit {0})

-- The projector that the SQLite storage is.
abbrev pub sqlite_projector : ℕ → DeviceProjector
sqlite_projector now = record {
  device_enrolled = device_enrolled now;
  device_token_updated = device_token_updated now;
  device_checked_out = device_checked_out now;
  device_checked_in = device_checked_in now;
  device_inventory = device_inventory now;
}

pub record Core (I : Type 0) : Type 0 where
  pub protocol : I
  pub fleet : Fleet
  pub pushable : List String

-- `service.CheckinAndCommandService`; the first argument is the enrollment's id
pub record Service (I : Type 0) : Type 0 where
  pub authenticate : String → Authenticate → Sql I (Unit {0})
  pub token_update : String → Sql I (Unit {0})
  pub check_out : String → Sql I (Unit {0})
  pub command_and_report_results : String → CommandResults → Sql I (Option Command)

-- `EventService`
pub record EventService (I : Type 0) : Type 0 where
  pub inner : Service I
  pub proj : Option DeviceProjector
  pub rec : Option CommandRecorder
  pub has_hook : Bool
  pub unmarshal : String → Option (Dict Value)

abbrev pub str : Option Leaf → String
str (some (text s)) = s
str _ = ""

abbrev pub leaf_of : Option Value → Option Leaf
leaf_of (some (leaf l)) = some l
leaf_of _ = none

-- `numStr`
unfoldable pub num_str : Option Leaf → String
num_str (some (text s)) = s
num_str (some (real s)) = s
num_str (some (int s)) = s
num_str _ = ""

-- `firstError`
unfoldable pub first_error : List ErrorChain → String
first_error [] = ""
first_error (e ∷ es) =
    if not (e.localized_description == "")
    then e.localized_description
    else if not (e.us_english_description == "")
    then e.us_english_description
    else concat e.error_domain (concat " error " e.error_code)

abbrev pub inventory_of : Option Value → Option DeviceInventory
inventory_of (some (dict qr)) = some (record {
  name = str (lookup "DeviceName" qr);
  model = str (lookup "Model" qr);
  product = str (lookup "ProductName" qr);
  os_version = str (lookup "OSVersion" qr);
  build_version = str (lookup "BuildVersion" qr);
  serial = str (lookup "SerialNumber" qr);
  available_capacity = num_str (lookup "AvailableDeviceCapacity" qr);
  battery = num_str (lookup "BatteryLevel" qr);
})
inventory_of _ = none

abbrev pub responses_of : Option (Dict Value) → Option DeviceInventory
responses_of none = none
responses_of (some top) = inventory_of (lookup "QueryResponses" top)

abbrev pub enriched : DeviceRecord → Option (Dict Value) → DeviceRecord
enriched r none = r
enriched r (some m) = record r {
  name = str (leaf_of (lookup "DeviceName" m));
  model = str (leaf_of (lookup "Model" m));
  product = str (leaf_of (lookup "ProductName" m));
  os_version = str (leaf_of (lookup "OSVersion" m));
  build_version = str (leaf_of (lookup "BuildVersion" m));
  serial = if r.serial == "" then str (leaf_of (lookup "SerialNumber" m)) else r.serial;
}

module _ {I A : Type 0} where
  unfoldable pub on_protocol : Sql I A → Sql (Core I) A
  unfolding zoom
  on_protocol m = zoom (λ w. w.protocol) (λ p w. record w { protocol = p }) m

  unfoldable pub on_fleet : Sql Fleet A → Sql (Core I) A
  unfolding zoom
  on_fleet m = zoom (λ w. w.fleet) (λ f w. record w { fleet = f }) m

module _ {I : Type 0} (s : EventService I) where
  -- `inventoryFromRaw`
  unfoldable pub inventory_from_raw : String → Option DeviceInventory
  inventory_from_raw raw = if raw == "" then none else responses_of (s.unmarshal raw)

  -- `enrichFromRaw`
  unfoldable pub enrich_from_raw : DeviceRecord → String → DeviceRecord
  enrich_from_raw r raw = if raw == "" then r else enriched r (s.unmarshal raw)

  -- `RecordFromAuthenticate`
  unfoldable pub record_from_authenticate : String → Authenticate → DeviceRecord
  unfolding enrich_from_raw
  record_from_authenticate id m =
      enrich_from_raw
        (record {
          id = id;
          udid = m.udid;
          serial = m.serial_number;
          name = "";
          model = "";
          product = "";
          os_version = "";
          build_version = "";
        })
        m.raw

  -- a projection, whose failure is logged and passed over
  abbrev pub best_effort : Sql Fleet (Unit {0}) → Sql (Core I) (Unit {0})
  best_effort m = catch (on_fleet m) (λ o. pure tt)

  abbrev pub project :
      (DeviceProjector → Sql Fleet (Unit {0})) → Option DeviceProjector → Sql (Core I) (Unit {0})
  project f none = pure tt
  project f (some p) = best_effort (f p)

  -- `EventService.Authenticate`
  unfoldable pub authenticate : String → Authenticate → Sql (Core I) (Unit {0})
  unfolding record_from_authenticate
  authenticate id m =
      on_protocol (s.inner.authenticate id m)
      >> project (λ p. p.device_enrolled (record_from_authenticate id m)) s.proj

  abbrev pub start_hook : Bool → String → Sql (Core I) (Unit {0})
  start_hook false id c = pure tt c
  start_hook true id c =
      pure tt (record c { rows = record c.rows { pushable = c.rows.pushable ++ id ∷ [] } })

  -- `EventService.TokenUpdate`
  unfoldable pub token_update : String → Sql (Core I) (Unit {0})
  token_update id =
      on_protocol (s.inner.token_update id)
      >> (project (λ p. p.device_token_updated id) s.proj >> start_hook s.has_hook id)

  -- `EventService.CheckOut`
  unfoldable pub check_out : String → Sql (Core I) (Unit {0})
  check_out id = on_protocol (s.inner.check_out id) >> project (λ p. p.device_checked_out id) s.proj

  abbrev pub record_with :
      Option CommandRecorder → String → CommandResults → Sql (Core I) (Unit {0})
  record_with none id m = pure tt
  record_with (some rec) id m =
      best_effort (rec.command_result id m.command_uuid m.status (first_error m.error_chain))

  -- "Idle" asks for work and is no result
  abbrev pub is_result : CommandResults → Bool
  is_result m = not (m.status == "Idle") && not (m.command_uuid == "")

  abbrev pub project_inventory : String → Option DeviceInventory → Sql (Core I) (Unit {0})
  project_inventory id none = pure tt
  project_inventory id (some i) = project (λ p. p.device_inventory id i) s.proj

  abbrev pub project_report : String → CommandResults → Sql (Core I) (Unit {0})
  project_report id m =
      project (λ p. p.device_checked_in id) s.proj
      >> ((if is_result m then record_with s.rec id m else pure tt)
          >> project_inventory id (inventory_from_raw m.raw))

  -- `EventService.CommandAndReportResults`
  unfoldable pub command_and_report_results :
      String → CommandResults → Sql (Core I) (Option Command)
  unfolding inventory_from_raw first_error
  command_and_report_results id m = on_protocol (s.inner.command_and_report_results id m) >>= λ cmd.
      project_report id m >> pure cmd
