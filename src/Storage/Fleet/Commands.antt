-- ===== src/Storage/Fleet/Commands.antt =====
-- The command history (internal/storage/sqlite/commands.go). A result also settles the deploy that
-- the command carried.
mod Settling
mod Tests
use cairn_mdm.Prelude.{
  ℕ, String, Bool, ◌&&◌, ◌||◌, [], ◌∷◌, ◌++◌, Option, none, some, if◌then◌else◌, string_eq, ◌==◌,
  update, any,
}
use cairn_mdm.Sql.{Sql, Result, ok, stmt, pure, ◌>>◌}
use cairn_mdm.Storage.Fleet.{Fleet, CommandEntry, Deploy}

-- `CommandEntry.Pending`
unfoldable pub pending : CommandEntry → Bool
pending c = c.status == "Sent" || c.status == "NotNow"

abbrev pub is_entry : String → String → CommandEntry → Bool
is_entry uuid device c = c.command_uuid == uuid && c.device_id == device

-- `CommandSent`
unfoldable pub command_sent : ℕ → String → String → String → Sql Fleet (Unit {0})
command_sent now device uuid request_type = stmt (λ f.
    if any (is_entry uuid device) f.history then (ok tt, f) else (
      ok tt,
      record f {
        history =
            f.history
            ++ record {
              command_uuid = uuid;
              device_id = device;
              request_type = request_type;
              status = "Sent";
              error = "";
              sent_at = now;
              result_at = none;
            }
              ∷ [];
      },
    ))

abbrev pub resolve : ℕ → String → String → CommandEntry → CommandEntry
resolve now status error c = record c { status = status; error = error; result_at = some now }

-- the switch on the reported status
abbrev pub deploy_status : String → Option String
deploy_status status =
    if status == "Acknowledged"
    then some "installed"
    else if status == "Error" || status == "CommandFormatError"
    then some "failed"
    else none

abbrev pub carries : String → String → Deploy → Bool
carries uuid device d = d.command_uuid == uuid && d.device_id == device

abbrev pub settle : ℕ → String → String → Option String → Sql Fleet (Unit {0})
settle now device uuid none = pure tt
settle now device uuid (some status) = stmt (λ f. (
  ok tt,
  record f {
    deploys =
        update (carries uuid device) (λ d. record d { status = status; updated_at = now })
          f.deploys;
  },
))

abbrev pub resolve_rows : ℕ → String → String → String → String → Fleet → Result (Unit {0}) × Fleet
resolve_rows now device uuid status error f = (
  ok tt,
  record f { history = update (is_entry uuid device) (resolve now status error) f.history },
)

-- `CommandResult`
unfoldable pub command_result : ℕ → String → String → String → String → Sql Fleet (Unit {0})
command_result now device uuid status error = do
  stmt (resolve_rows now device uuid status error)
  settle now device uuid (deploy_status status)
