-- ===== src/Storage/Grants.antt =====
-- Enrollment grants (internal/storage/sqlite/grants.go). SHA-256 is a parameter. `datetime('now')`
-- is an argument in whole seconds; a timestamp of this table is text in one sortable format, and
-- stands here as its seconds. `time.Now()` in `Status` has nanoseconds.

pub mod Budget
mod Tests
pub mod Redeeming
use cairn_mdm.Prelude.{
  ℕ, suc, ◌+◌, ◌-◌, ◌*◌, String, Bool, true, false, ◌&&◌, List, [], ◌∷◌, ◌++◌, Option, none, some,
  ltb, leb, if◌then◌else◌, nat_eq, string_eq, ◌==◌, select, update, count, find, any, not,
}
use cairn_mdm.Prelude.Int.{ℤ, pos, negsuc}
use cairn_mdm.Sql.{
  Sql, Result, ok, err, Error, driver, no_rows, constraint, grant_invalid, query_row, stmt, pure,
  fail, catch, ◌>>=◌, ◌>>◌,
}

-- a row of `enrollment_grants`
pub record Grant : Type 0 where
  pub id : ℕ
  pub token_hash : String
  pub label : String
  pub platform : String
  pub owner : String
  pub created_by : String
  pub created_at : ℕ
  pub expires_at : ℕ
  pub max_uses : ℕ
  pub use_count : ℕ
  pub revoked_at : Option ℕ
  pub expected_serial : String
  pub last_used_at : Option ℕ

pub record Redemption : Type 0 where
  pub id : ℕ
  pub platform : String
  pub owner : String
  pub expected_serial : String

abbrev pub is_null : Option ℕ → Bool
is_null none = true
is_null (some t) = false

abbrev pub second : ℕ
second = 1000000000

-- `Grant.Status`; `now` in nanoseconds
unfoldable pub status : ℕ → Grant → String
status now g =
    if not (is_null g.revoked_at)
    then "revoked"
    else if leb g.max_uses g.use_count
    then "used"
    else if ltb (g.expires_at * second) now
    then "expired"
    else "active"

-- what `CreateGrant` is given; `MaxUses` is a Go `int`
pub record Request : Type 0 where
  pub label : String
  pub platform : String
  pub owner : String
  pub created_by : String
  pub expires_at : ℕ
  pub max_uses : ℤ
  pub expected_serial : String

abbrev pub at_least_one : ℤ → ℕ
at_least_one (pos n) = if n == 0 then 1 else n
at_least_one (negsuc n) = 1

-- the row id that SQLite gives to a new row: one more than the largest
abbrev pub next_id : List Grant → ℕ
next_id [] = 1
next_id (g ∷ gs) = let n = next_id gs in if leb n g.id then g.id + 1 else n

abbrev pub new_row : ℕ → Request → String → ℕ → Grant
new_row now g token_hash id = record {
  id = id;
  token_hash = token_hash;
  label = g.label;
  platform = if g.platform == "" then "any" else g.platform;
  owner = g.owner;
  created_by = g.created_by;
  created_at = now;
  expires_at = g.expires_at;
  max_uses = at_least_one g.max_uses;
  use_count = 0;
  revoked_at = none;
  expected_serial = g.expected_serial;
  last_used_at = none;
}

abbrev pub has_hash : String → Grant → Bool
has_hash h g = g.token_hash == h

-- `INSERT INTO enrollment_grants`; `token_hash` is UNIQUE
unfoldable pub insert_row : ℕ → Request → String → List Grant → Result ℕ × List Grant
insert_row now g token_hash rows =
    if any (has_hash token_hash) rows
    then (err constraint, rows)
    else (ok (next_id rows), rows ++ new_row now g token_hash (next_id rows) ∷ [])

-- `CreateGrant`
unfoldable pub create_grant : ℕ → Request → String → Sql (List Grant) ℕ
unfolding insert_row
create_grant now g token_hash = stmt (insert_row now g token_hash)

-- the WHERE clause of `RedeemGrant`
abbrev pub redeemable : ℕ → String → Grant → Bool
redeemable now h g =
    has_hash h g && (is_null g.revoked_at && (ltb g.use_count g.max_uses && ltb now g.expires_at))

abbrev pub use_once : ℕ → Grant → Grant
use_once now g = record g { use_count = g.use_count + 1; last_used_at = some now }

abbrev pub redemption : Grant → Redemption
redemption g = record {
  id = g.id;
  platform = g.platform;
  owner = g.owner;
  expected_serial = g.expected_serial;
}

-- `UPDATE ... RETURNING`, and `sql.ErrNoRows` turned into `ErrGrantInvalid`
abbrev pub redeem_found : ℕ → String → List Grant → Option Grant → Result Redemption × List Grant
redeem_found now h rows none = (err grant_invalid, rows)
redeem_found now h rows (some g) =
    (ok (redemption g), update (redeemable now h) (use_once now) rows)

unfoldable pub redeem_rows : ℕ → String → List Grant → Result Redemption × List Grant
redeem_rows now h rows = redeem_found now h rows (find (redeemable now h) rows)

module _ (hash : String → String) where
  -- `RedeemGrant`
  unfoldable pub redeem_grant : ℕ → String → Sql (List Grant) Redemption
  unfolding redeem_rows
  redeem_grant now raw_token = stmt (redeem_rows now (hash raw_token))

abbrev pub has_id : ℕ → Grant → Bool
has_id id g = g.id == id

-- `GetGrant`
unfoldable pub get_row : ℕ → List Grant → Result Grant × List Grant
get_row id rows = query_row rows (find (has_id id) rows)

unfoldable pub get_grant : ℕ → Sql (List Grant) Grant
unfolding get_row
get_grant id = stmt (get_row id)

abbrev pub revocable : ℕ → Grant → Bool
revocable id g = has_id id g && is_null g.revoked_at

abbrev pub revoke_at : ℕ → Grant → Grant
revoke_at now g = record g { revoked_at = some now }

-- the UPDATE of `RevokeGrant`, with the number of rows that it changes
unfoldable pub revoke_rows : ℕ → ℕ → List Grant → Result ℕ × List Grant
revoke_rows now id rows =
    (ok (count (revocable id) rows), update (revocable id) (revoke_at now) rows)

-- only a missing row is an error here: another failure of `GetGrant` is passed over
abbrev pub missing_only : Result Grant → Sql (List Grant) Unit
missing_only (err no_rows) = fail no_rows
missing_only _ = pure tt

abbrev pub check_missing : ℕ → ℕ → Sql (List Grant) Unit
check_missing id n = if n == 0 then catch (get_grant id) missing_only else pure tt

-- `RevokeGrant`
unfoldable pub revoke_grant : ℕ → ℕ → Sql (List Grant) Unit
unfolding revoke_rows
revoke_grant now id = do n ← stmt (revoke_rows now id); check_missing id n

abbrev pub expired_before : ℕ → Grant → Bool
expired_before cutoff g = ltb g.expires_at cutoff

unfoldable pub delete_rows : ℕ → List Grant → Result ℕ × List Grant
delete_rows cutoff rows =
    (ok (count (expired_before cutoff) rows), select (λ g. not (expired_before cutoff g)) rows)

-- `DeleteExpiredGrants`; times before the epoch of the count do not occur
unfoldable pub delete_expired_grants : ℕ → ℕ → Sql (List Grant) ℕ
unfolding delete_rows
delete_expired_grants now older_than = stmt (delete_rows (now - older_than))
