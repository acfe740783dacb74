-- ===== src/Auth/Chain.antt =====
-- The chain of credential verifiers (internal/auth/chain.go). A provider is a call on a state that
-- it may change, such as the tables of the local accounts.
mod Order
mod Tests
use cairn_mdm.Prelude.{String, Bool, true, false, List, [], ◌∷◌, Option, none, some}
use cairn_mdm.Sql.{Sql, Result, ok, err, Error, invalid_credentials, pure, fail, catch}
use cairn_mdm.Auth.Role.{Identity}

-- `Authenticator`
abbrev pub Authenticator : Type 0 → Type 0
Authenticator S = String → String → Sql S Identity

-- the error of a chain: whether a provider rejected, and the last operational error
abbrev pub refusal : Bool → Option Error → Error
refusal true last_error = invalid_credentials
refusal false none = invalid_credentials
refusal false (some e) = e

module _ {S : Type 0} where
  -- one round of the loop: return, or go on with what is known of the failures
  abbrev pub after_provider :
      (Bool → Option Error → Sql S Identity)
      → Bool
      → Option Error
      → Result Identity
      → Sql S Identity
  after_provider rest saw_reject last_error (ok id) = pure id
  after_provider rest saw_reject last_error (err invalid_credentials) = rest true last_error
  after_provider rest saw_reject last_error (err e) = rest saw_reject (some e)

  abbrev pub try_all :
      List (Authenticator S) → String → String → Bool → Option Error → Sql S Identity
  try_all [] username password saw_reject last_error = fail (refusal saw_reject last_error)
  try_all (p ∷ ps) username password saw_reject last_error =
      catch (p username password)
        (after_provider (try_all ps username password) saw_reject last_error)

  -- `Chain.Authenticate`
  unfoldable pub authenticate : List (Authenticator S) → String → String → Sql S Identity
  authenticate chain username password = try_all chain username password false none
