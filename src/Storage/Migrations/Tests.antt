-- ===== src/Storage/Migrations/Tests.antt =====
-- Two scripts on an empty database, with a fault between them.
use cairn_mdm.Prelude.{
  [], ◌∷◌, ◌++◌, none, some, true, false, ◌≡◌, refl, ◌⊎◌, select, string_eq, List, String,
}
use cairn_mdm.Sql.{working, stmt, pure, catch, ◌>>=◌, Conn}
use cairn_mdm.Storage.Migrations.{Store, Schema, migrations, apply_migration, apply_all, migrate}
use cairn_mdm.Storage.Migrations.Ordering.{IsOrdered, times, is_script}
use cairn_mdm.Storage.Migrations.Progress.{
  Untouched, IsProgress, is_new, applied_before, migrate-IsProgress,
}

-- a script appends its text to the tables
abbrev schema : Schema (List String)
schema = record {
  files =
      record { name = "002_b.sql"; is_dir = false; body = "b" }
      ∷ record { name = "001_a.sql"; is_dir = false; body = "a" }
      ∷ [];
  has_suffix = λ n. true;
  trim_suffix = λ n. n;
  exec = λ body t. some (t ++ body ∷ []);
}

abbrev fresh : Store (List String)
fresh = record { committed = record { tables = []; versions = none }; pending = none }

-- the commit of the second script fails
abbrev interrupted : Conn (Store (List String))
interrupted = record {
  rows = fresh;
  faults = false ∷ false ∷ false ∷ false ∷ false ∷ false ∷ false ∷ false ∷ false ∷ true ∷ [];
}

migrate_tests :
    ((migrate schema (working fresh)).1.rows.committed
      ≡ record { tables = "a" ∷ "b" ∷ []; versions = some ("001_a.sql" ∷ "002_b.sql" ∷ []) })
    × ((migrate schema interrupted).1.rows.committed
        ≡ record { tables = "a" ∷ []; versions = some ("001_a.sql" ∷ []) })
    × ((migrate schema (working (migrate schema interrupted).1.rows)).1.rows.committed.tables
        ≡ "a" ∷ "b" ∷ [])
unfolding migrate migrations apply_all apply_migration stmt pure catch ◌>>=◌
migrate_tests = (refl, refl, refl)

migrate-IsProgress_example :
    IsOrdered (migrations schema)
    × ((name : String)
        → times name (migrations schema) ≡ times name (select (is_script schema) schema.files))
    × (Untouched schema interrupted.faults
          (record { tables = []; versions = none })
          (migrate schema interrupted)
        ⊎ IsProgress schema interrupted.faults
            (select (is_new schema (applied_before schema interrupted)) (migrations schema))
            []
            (applied_before schema interrupted)
            (migrate schema interrupted))
migrate-IsProgress_example = migrate-IsProgress schema interrupted
