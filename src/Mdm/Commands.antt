-- ===== src/Mdm/Commands.antt =====
-- Commands to devices (internal/mdmcore/commands.go). The queue and the pusher are NanoMDM's, and
-- so are the encoding of a command and its check: parameters. `Q` is the state of the queue. Where
-- the source draws a command's UUID, the UUID is an argument.
mod Tests
pub mod Delivering
use cairn_mdm.Prelude.{ℕ, String, List, [], ◌∷◌, Option, none, some}
use cairn_mdm.Sql.{Sql, Result, pure, catch, ◌>>=◌, ◌>>◌, zoom}
use cairn_mdm.Storage.Fleet.{Fleet}
use cairn_mdm.Storage.Fleet.Commands.{command_sent, command_result}

-- the dict of a command, with its request type and its arguments
pub data CommandBody : Type 0 where
  install_profile remove_profile : String → CommandBody
  device_information : List String → CommandBody

abbrev pub request_type : CommandBody → String
request_type (install_profile bytes) = "InstallProfile"
request_type (remove_profile identifier) = "RemoveProfile"
request_type (device_information queries) = "DeviceInformation"

-- what the package uses of `mdm.Command`
pub record Command : Type 0 where
  pub uuid : String
  pub body : CommandBody

abbrev pub default_device_info_queries : List String
default_device_info_queries =
    "DeviceName" ∷ "Model" ∷ "ModelName" ∷ "ProductName" ∷ "OSVersion" ∷ "BuildVersion"
    ∷ "SerialNumber" ∷ "DeviceCapacity" ∷ "AvailableDeviceCapacity" ∷ "IsSupervised"
    ∷ "BatteryLevel" ∷ "WiFiMAC" ∷ "BluetoothMAC" ∷ []

abbrev pub queries_or_default : List String → List String
queries_or_default [] = default_device_info_queries
queries_or_default (q ∷ qs) = q ∷ qs

-- `InstallProfileCommand`, `RemoveProfileCommand` and `DeviceInformationCommand`, up to `command`
abbrev pub install_profile_command : String → CommandBody
install_profile_command bytes = install_profile bytes

abbrev pub remove_profile_command : String → CommandBody
remove_profile_command identifier = remove_profile identifier

abbrev pub device_information_command : List String → CommandBody
device_information_command queries = device_information (queries_or_default queries)

-- `CommandRecorder`
pub record CommandRecorder : Type 0 where
  pub command_sent : String → String → String → Sql Fleet (Unit {0})
  pub command_result : String → String → String → String → Sql Fleet (Unit {0})

-- The recorder that the SQLite storage is.
abbrev pub sqlite_recorder : ℕ → CommandRecorder
sqlite_recorder now = record {
  command_sent = command_sent now;
  command_result = command_result now;
}

-- `storage.CommandEnqueuer`, `push.Pusher`, and the encoding of a command
pub record Transport (Q : Type 0) : Type 0 where
  pub encode : String → CommandBody → Sql Q Command
  pub enqueue : List String → Command → Sql Q (Unit {0})
  pub push : Option (List String → Sql Q (Unit {0}))

-- `Commander`
pub record Commander (Q : Type 0) : Type 0 where
  pub transport : Transport Q
  pub recorder : Option CommandRecorder

module _ {Q A : Type 0} where
  unfoldable pub on_queue : Sql Q A → Sql (Q × Fleet) A
  unfolding zoom
  on_queue m = zoom (λ w. w.0) (λ q w. (q, w.1)) m

  unfoldable pub on_history : Sql Fleet A → Sql (Q × Fleet) A
  unfolding zoom
  on_history m = zoom (λ w. w.1) (λ f w. (w.0, f)) m

module _ {Q : Type 0} where
  abbrev pub push_all : Option (List String → Sql Q (Unit {0})) → List String → Sql Q (Unit {0})
  push_all none ids = pure tt
  push_all (some push) ids = push ids

  -- `Enqueue`
  unfoldable pub enqueue_and_push : Transport Q → List String → Command → Sql Q (Unit {0})
  enqueue_and_push t ids cmd = t.enqueue ids cmd >> push_all t.push ids

  -- the loop over the devices; a failure is passed over
  abbrev pub record_sent : CommandRecorder → Command → List String → Sql (Q × Fleet) (Unit {0})
  record_sent rec cmd [] = pure tt
  record_sent rec cmd (id ∷ ids) =
      catch (on_history (rec.command_sent id cmd.uuid (request_type cmd.body)))
        (λ o. record_sent rec cmd ids)

  abbrev pub record_with :
      Option CommandRecorder → Command → List String → Sql (Q × Fleet) (Unit {0})
  record_with none cmd ids = pure tt
  record_with (some rec) cmd ids = record_sent rec cmd ids

  -- `Commander.enqueue`
  unfoldable pub enqueue : Commander Q → List String → Command → Sql (Q × Fleet) (Unit {0})
  unfolding enqueue_and_push on_queue on_history
  enqueue c ids cmd =
      on_queue (enqueue_and_push c.transport ids cmd) >> record_with c.recorder cmd ids

  -- a command of one device, built and queued
  unfoldable pub send : Commander Q → String → CommandBody → List String → Sql (Q × Fleet) Command
  unfolding enqueue
  send c uuid body ids =
      on_queue (c.transport.encode uuid body) >>= λ cmd. enqueue c ids cmd >> pure cmd

  -- `SendDeviceInformation`
  unfoldable pub send_device_information :
      Commander Q → String → List String → Sql (Q × Fleet) (Unit {0})
  unfolding send
  send_device_information c uuid ids = send c uuid (device_information_command []) ids >> pure tt

  -- `SendInstallProfile`
  unfoldable pub send_install_profile :
      Commander Q → String → String → List String → Sql (Q × Fleet) (Unit {0})
  unfolding send
  send_install_profile c uuid bytes ids = send c uuid (install_profile_command bytes) ids >> pure tt

  -- `SendInstallProfileUUID`
  unfoldable pub send_install_profile_uuid :
      Commander Q → String → String → String → Sql (Q × Fleet) String
  unfolding send
  send_install_profile_uuid c uuid bytes id =
      send c uuid (install_profile_command bytes) (id ∷ []) >>= λ cmd. pure cmd.uuid

  -- `SendRemoveProfile`
  unfoldable pub send_remove_profile :
      Commander Q → String → String → List String → Sql (Q × Fleet) (Unit {0})
  unfolding send
  send_remove_profile c uuid identifier ids =
      send c uuid (remove_profile_command identifier) ids >> pure tt
