-- ===== src/Storage/Fleet/Profiles.antt =====
-- The profile library (internal/storage/sqlite/profiles.go).
use cairn_mdm.Prelude.{
  ℕ, ◌+◌, ◌/◌, String, Bool, List, [], ◌∷◌, ◌++◌, Option, none, some, leb, if◌then◌else◌, nat_eq,
  string_eq, ◌==◌, select, update, count, find, not,
}
use cairn_mdm.Sql.{Sql, Result, ok, no_rows, query_row, stmt, pure, fail, ◌>>=◌}
use cairn_mdm.Storage.Fleet.{Fleet, Profile}

abbrev pub has_identifier : String → Profile → Bool
has_identifier identifier p = p.identifier == identifier

abbrev pub is_profile : ℕ → Profile → Bool
is_profile id p = p.id == id

-- the row id that SQLite gives to a new row: one more than the largest
abbrev pub next_profile_id : List Profile → ℕ
next_profile_id [] = 1
next_profile_id (p ∷ ps) = let n = next_profile_id ps in if leb n p.id then p.id + 1 else n

-- the columns that a profile of the same identifier replaces; `now` is in milliseconds
abbrev pub replaced : ℕ → Profile → Profile → Profile
replaced now new old = record old {
  uuid = new.uuid;
  name = new.name;
  organization = new.organization;
  payload_types = new.payload_types;
  source = new.source;
  bytes = new.bytes;
  updated_at = now;
}

abbrev pub save_found : ℕ → Profile → Fleet → Option Profile → Result ℕ × Fleet
save_found now p f none =
    let id = next_profile_id f.profiles in
    (
      ok id,
      record f {
        profiles =
            f.profiles ++ record p { id = id; created_at = now / 1000; updated_at = now } ∷ [];
      },
    )
save_found now p f (some old) = (
  ok old.id,
  record f { profiles = update (has_identifier p.identifier) (replaced now p) f.profiles },
)

-- `SaveProfile`
unfoldable pub save_profile : ℕ → Profile → Sql Fleet ℕ
save_profile now p = stmt (λ f. save_found now p f (find (has_identifier p.identifier) f.profiles))

-- `GetProfile`
unfoldable pub get_profile : ℕ → Sql Fleet Profile
get_profile id = stmt (λ f. query_row f (find (is_profile id) f.profiles))

-- `DELETE FROM profiles`, with the cascades of its foreign keys
abbrev pub delete_profile_rows : ℕ → Fleet → Result ℕ × Fleet
delete_profile_rows id f = (
  ok (count (is_profile id) f.profiles),
  record f {
    profiles = select (λ p. not (is_profile id p)) f.profiles;
    assignments = select (λ a. not (a.profile_id == id)) f.assignments;
    deploys = select (λ d. not (d.profile_id == id)) f.deploys;
  },
)

-- `DeleteProfile`
unfoldable pub delete_profile : ℕ → Sql Fleet (Unit {0})
delete_profile id = do n ← stmt (delete_profile_rows id); if n == 0 then fail no_rows else pure tt
