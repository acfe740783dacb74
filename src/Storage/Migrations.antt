-- ===== src/Storage/Migrations.antt =====
-- The migration runner (`migrate` in internal/storage/sqlite/sqlite.go). What a script does to the
-- tables is a parameter, and so are the suffix operations of `strings`. The files of the embedded
-- directory are a list. A transaction is a copy of the database that a commit puts in place.
pub mod Applying
pub mod Ordering
pub mod Progress
mod Tests
use cairn_mdm.Prelude.{
  String, Bool, true, false, ◌&&◌, not, List, [], ◌∷◌, ◌++◌, Option, none, some, string_eq, ◌==◌,
  if◌then◌else◌, select, any, sort_by, text_before,
}
use cairn_mdm.Sql.{Sql, Result, ok, err, Error, driver, stmt, pure, fail, catch, ◌>>=◌, ◌>>◌}

-- an entry of the directory `schema`
pub record File : Type 0 where
  pub name : String
  pub is_dir : Bool
  pub body : String

-- The tables, and the rows of `schema_migrations`, `none` where that table does not exist.
pub record Db (D : Type 0) : Type 0 where
  pub tables : D
  pub versions : Option (List String)

pub record Store (D : Type 0) : Type 0 where
  pub committed : Db D
  pub pending : Option (Db D)

pub record Schema (D : Type 0) : Type 0 where
  pub files : List File
  pub has_suffix : String → Bool
  pub trim_suffix : String → String
  pub exec : String → D → Option D

-- the order of `sort.Strings`
abbrev pub precedes : File → File → Bool
precedes f g = text_before f.name g.name

module _ {D : Type 0} (s : Schema D) where
  -- the migrations in their order
  unfoldable pub migrations : List File
  migrations = sort_by precedes (select (λ f. not f.is_dir && s.has_suffix f.name) s.files)

  abbrev pub version : File → String
  version f = s.trim_suffix f.name

  abbrev with_table : Option (List String) → Option (List String)
  with_table none = some []
  with_table (some vs) = some vs

  -- `CREATE TABLE IF NOT EXISTS schema_migrations`
  abbrev pub create_table : Store D → Result (Unit {0}) × Store D
  create_table d = (
    ok tt,
    record d { committed = record d.committed { versions = with_table d.committed.versions } },
  )

  abbrev read_versions : Store D → Result (List String) × Store D
  read_versions d = elim d.committed.versions [ none ↦ (err driver, d) | some vs ↦ (ok vs, d) ]

  abbrev begin : Store D → Result (Unit {0}) × Store D
  begin d = (ok tt, record d { pending = some d.committed })

  abbrev exec_found : Store D → Db D → Option D → Result (Unit {0}) × Store D
  exec_found d p none = (err driver, d)
  exec_found d p (some t) = (ok tt, record d { pending = some (record p { tables = t }) })

  abbrev exec_on : File → Store D → Option (Db D) → Result (Unit {0}) × Store D
  exec_on f d none = (err driver, d)
  exec_on f d (some p) = exec_found d p (s.exec f.body p.tables)

  -- the script, inside the transaction
  abbrev exec_body : File → Store D → Result (Unit {0}) × Store D
  exec_body f d = exec_on f d d.pending

  abbrev record_on : File → Store D → Option (Db D) → Result (Unit {0}) × Store D
  record_on f d none = (err driver, d)
  record_on f d (some p) = elim p.versions [
    | none ↦ (err driver, d)
    | some vs ↦
        (ok tt, record d { pending = some (record p { versions = some (vs ++ version f ∷ []) }) })
  ]

  -- `INSERT INTO schema_migrations`, inside the transaction
  abbrev record_version : File → Store D → Result (Unit {0}) × Store D
  record_version f d = record_on f d d.pending

  abbrev commit_on : Store D → Option (Db D) → Result (Unit {0}) × Store D
  commit_on d none = (err driver, d)
  commit_on d (some p) = (ok tt, record { committed = p; pending = none })

  abbrev commit : Store D → Result (Unit {0}) × Store D
  commit d = commit_on d d.pending

  abbrev rollback : Error → Sql (Store D) (Unit {0})
  rollback e c = (err e, record c { rows = record c.rows { pending = none } })

  abbrev or_rollback : Sql (Store D) (Unit {0}) → Result (Unit {0}) → Sql (Store D) (Unit {0})
  or_rollback m (ok u) = m
  or_rollback m (err e) = rollback e

  abbrev finish : Result (Unit {0}) → Sql (Store D) (Unit {0})
  finish o = or_rollback (catch (stmt commit) (or_rollback (pure tt))) o

  -- one migration in a transaction of its own; a commit that fails leaves nothing behind
  unfoldable pub apply_migration : File → Sql (Store D) (Unit {0})
  apply_migration f =
      stmt begin
      >> catch (stmt (exec_body f)) (or_rollback (catch (stmt (record_version f)) finish))

  -- the loop over the sorted names
  unfoldable pub apply_all : List String → List File → Sql (Store D) (Unit {0})
  unfolding apply_migration
  apply_all applied [] = pure tt
  apply_all applied (f ∷ fs) =
      let rest = apply_all applied fs in
      if any (λ v. v == version f) applied then rest else apply_migration f >> rest

  -- `migrate`
  unfoldable pub migrate : Sql (Store D) (Unit {0})
  unfolding migrations apply_all
  migrate = stmt create_table >> (stmt read_versions >>= λ applied. apply_all applied migrations)
