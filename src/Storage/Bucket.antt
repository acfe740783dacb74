-- ===== src/Storage/Bucket.antt =====
-- The key-value buckets of NanoMDM's storage (internal/storage/sqlite/kvbucket.go), partitions of one
-- table. The keys of an iteration are collected before the first of them is handed out, so that an
-- iteration is a list here.
pub mod Maps
mod Tests
use cairn_mdm.Prelude.{
  String, Bool, true, ◌&&◌, not, List, [], ◌∷◌, ◌++◌, Option, none, some, string_eq, ◌==◌,
  if◌then◌else◌, any, find, select, update, map, starts_with,
}
use cairn_mdm.Sql.{Sql, Result, ok, err, key_not_found, stmt}

-- a row of `nano_kv`
pub record Entry : Type 0 where
  pub bucket : String
  pub key : String
  pub value : String

abbrev pub is_entry : String → String → Entry → Bool
is_entry name key e = e.bucket == name && e.key == key

-- `Has`
unfoldable pub has : String → String → Sql (List Entry) Bool
has name key = stmt (λ rows. (ok (any (is_entry name key) rows), rows))

abbrev pub value_found : List Entry → Option Entry → Result String × List Entry
value_found rows none = (err key_not_found, rows)
value_found rows (some e) = (ok e.value, rows)

-- `Get`
unfoldable pub get : String → String → Sql (List Entry) String
get name key = stmt (λ rows. value_found rows (find (is_entry name key) rows))

abbrev pub upsert : String → String → String → List Entry → List Entry
upsert name key value rows =
    if any (is_entry name key) rows
    then update (is_entry name key) (λ e. record e { value = value }) rows
    else rows ++ record { bucket = name; key = key; value = value } ∷ []

-- `Set`
unfoldable pub set : String → String → String → Sql (List Entry) (Unit {0})
set name key value = stmt (λ rows. (ok tt, upsert name key value rows))

-- `Delete`
unfoldable pub delete : String → String → Sql (List Entry) (Unit {0})
delete name key = stmt (λ rows. (ok tt, select (λ e. not (is_entry name key e)) rows))

abbrev pub in_prefix : String → String → Entry → Bool
in_prefix name prefix e =
    e.bucket == name && (if prefix == "" then true else starts_with e.key prefix)

-- `collectKeys`
unfoldable pub collect_keys : String → String → Sql (List Entry) (List String)
collect_keys name prefix =
    stmt (λ rows. (ok (map (λ e. e.key) (select (in_prefix name prefix) rows)), rows))

-- `Keys`
unfoldable pub keys : String → Sql (List Entry) (List String)
unfolding collect_keys
keys name = collect_keys name ""

-- `KeysPrefix`
unfoldable pub keys_prefix : String → String → Sql (List Entry) (List String)
unfolding collect_keys
keys_prefix name prefix = collect_keys name prefix
