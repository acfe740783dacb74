-- ===== src/Storage/Fleet.antt =====
-- The tables of the device fleet (internal/storage/sqlite/schema): the inventory, the profile
-- library, groups with their members and assignments, deploys, and the command history. Times are
-- whole seconds, except for a profile's `updated_at`, which is in milliseconds. The type of a
-- profile's bytes is left to the reader of the data.
pub mod Devices
pub mod Profiles
pub mod Groups
pub mod Commands
pub mod Search
pub mod Deploys
use cairn_mdm.Prelude.{ℕ, String, List, Option}

pub record Device : Type 0 where
  pub id : String
  pub udid : String
  pub serial : String
  pub name : String
  pub model : String
  pub product : String
  pub os_version : String
  pub build_version : String
  pub available_capacity : String
  pub battery : String
  pub enrolled_at : Option ℕ
  pub last_seen : Option ℕ
  pub token_updated_at : Option ℕ
  pub inventory_at : Option ℕ
  pub checked_out_at : Option ℕ

pub record Profile : Type 0 where
  pub id : ℕ
  pub identifier : String
  pub uuid : String
  pub name : String
  pub organization : String
  pub payload_types : String
  pub source : String
  pub bytes : String
  pub created_at : ℕ
  pub updated_at : ℕ

pub record Group : Type 0 where
  pub id : ℕ
  pub name : String
  pub description : String
  pub created_at : ℕ

-- a row of `group_devices`
pub record Member : Type 0 where
  pub group_id : ℕ
  pub device_id : String

-- a row of `group_profiles`
pub record Assignment : Type 0 where
  pub group_id : ℕ
  pub profile_id : ℕ

-- a row of `profile_deploys`
pub record Deploy : Type 0 where
  pub device_id : String
  pub profile_id : ℕ
  pub command_uuid : String
  pub profile_updated_at : ℕ
  pub status : String
  pub updated_at : ℕ

-- a row of `command_history`
pub record CommandEntry : Type 0 where
  pub command_uuid : String
  pub device_id : String
  pub request_type : String
  pub status : String
  pub error : String
  pub sent_at : ℕ
  pub result_at : Option ℕ

pub record Fleet : Type 0 where
  pub devices : List Device
  pub profiles : List Profile
  pub groups : List Group
  pub members : List Member
  pub assignments : List Assignment
  pub deploys : List Deploy
  pub history : List CommandEntry
