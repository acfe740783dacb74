-- ===== src/Storage/Migrations/Progress.antt =====
-- How far a run of the migrations gets.
use cairn_mdm.Prelude.{
  String, Bool, true, not, List, [], ◌∷◌, ◌++◌, Option, none, some, ◌≡◌, refl, sym, ◌∙◌, ap, ◌⊎◌,
  inl, inr, string_eq, ◌==◌, select, any, map, append-nil, append_assoc, Bool-cases, Option-cases,
  arith,
}
use cairn_mdm.Sql.{Conn, Result, ok, err, Error, driver, stmt, pure, is_failing, later, ◌>>=◌}
use cairn_mdm.Storage.Migrations.Ordering.{
  IsOrdered, times, is_script, sort_by-IsOrdered, sort_by-times,
}
use cairn_mdm.Storage.Migrations.{
  File, Db, Store, Schema, version, migrations, apply_migration, apply_all, migrate,
}
use cairn_mdm.Storage.Migrations.Applying.{
  any_fault, failing-any, later-any, apply_migration-outcome,
}

abbrev pub run_all : {D : Type 0} → Schema D → List File → D → Option D
run_all s [] t = some t
run_all s (f ∷ fs) t = elim (s.exec f.body t) [ none ↦ none | some u ↦ run_all s fs u ]

-- Of these files, those up to some point have run on the tables, each once and in order, and their
-- versions are recorded behind the ones that were; no more is left to do, or an error is told, and then
-- some statement has failed or the next script does.
pub record IsProgress {D : Type 0} (s : Schema D) (faults : List Bool) (todo : List File) (from : D)
    (before : List String) (after : Result (Unit {0}) × Conn (Store D)) : Type 0 where
  pub done : List File
  pub rest : List File
  pub split : todo ≡ done ++ rest
  pub ran : run_all s done from ≡ some after.1.rows.committed.tables
  pub recorded : after.1.rows.committed.versions ≡ some (before ++ map (version s) done)
  pub told :
      ((rest ≡ []) × (after.0 ≡ ok tt))
      ⊎ ((e : Error) × (after.0 ≡ err e)
          × ((any_fault faults ≡ true)
              ⊎ ((f : File) × (fs : List File) × (rest ≡ f ∷ fs)
                  × (s.exec f.body after.1.rows.committed.tables ≡ none))))

abbrev pub is_new : {D : Type 0} → Schema D → List String → File → Bool
is_new s applied f = not (any (λ v. v == version s f) applied)

abbrev pub versions_of : Option (List String) → List String
versions_of none = []
versions_of (some vs) = vs

module _ {D : Type 0} (s : Schema D) (applied : List String) where
  apply_all-IsProgress :
      (fs : List File) (c : Conn (Store D)) (before : List String)
      → c.rows.committed.versions ≡ some before
      → IsProgress s c.faults
          (select (is_new s applied) fs)
          c.rows.committed.tables
          before
          (apply_all s applied fs c)
  unfolding apply_all pure ◌>>=◌
  apply_all-IsProgress [] c before h = record {
    done = [];
    rest = [];
    split = refl;
    ran = refl;
    recorded = h ∙ ap some (sym (append-nil before));
    told = inl (refl, refl);
  }
  apply_all-IsProgress (f ∷ fs) c before h =
      elim (Bool-cases (any (λ v. v == version s f) applied)) [
        | inl known ↦ rw known (apply_all-IsProgress fs c before h)
        | inr new ↦ elim (apply_migration-outcome s f c) [
          | inr stopped ↦
              rw (new, stopped.told)
                (record {
                  done = [];
                  rest = f ∷ select (is_new s applied) fs;
                  split = refl;
                  ran = ap some (sym stopped.tables);
                  recorded = stopped.versions ∙ h ∙ ap some (sym (append-nil before));
                  told = inr (
                    stopped.error,
                    refl,
                    elim stopped.reason [
                      | inl fault ↦ inl fault
                      | inr (inl failing) ↦
                          inr (f, select (is_new s applied) fs, refl, rw stopped.tables failing)
                      | inr (inr no_table) ↦ ground arith
                    ],
                  );
                })
          | inl one ↦
              let same : one.before ≡ before = ground (arith, one.had, h) in
              let next =
                apply_all-IsProgress fs (apply_migration s f c).1 (before ++ version s f ∷ [])
                  (rw same at one.recorded) in
              rw (new, one.fine)
                (record {
                  done = f ∷ next.done;
                  rest = next.rest;
                  split = ap (λ xs. f ∷ xs) next.split;
                  ran = rw (run_all, one.tables) next.ran;
                  recorded =
                      next.recorded
                      ∙ ap some
                          (append_assoc before (version s f ∷ []) (map (version s) next.done));
                  told = elim next.told [
                    | inl done ↦ inl done
                    | inr (e, said, inl fault) ↦ inr (e, said, inl (one.passed fault))
                    | inr (e, said, inr script) ↦ inr (e, said, inr script)
                  ];
                })
        ]
      ]

-- what was left to go wrong after two statements was so before them
earlier :
    {D : Type 0} {s : Schema D} {todo : List File} {from : D} {before : List String}
    {after : Result (Unit {0}) × Conn (Store D)} (faults : List Bool)
    → IsProgress s (later (later faults)) todo from before after
    → IsProgress s faults todo from before after
earlier faults h = record {
  done = h.done;
  rest = h.rest;
  split = h.split;
  ran = h.ran;
  recorded = h.recorded;
  told = elim h.told [
    | inl done ↦ inl done
    | inr (e, said, inl fault) ↦
        inr (e, said, inl (later-any faults (later-any (later faults) fault)))
    | inr (e, said, inr script) ↦ inr (e, said, inr script)
  ];
}

module _ {D : Type 0} (s : Schema D) where
  -- a statement has failed, and nothing of the tables has changed
  pub record Untouched (faults : List Bool) (from : Db D)
      (after : Result (Unit {0}) × Conn (Store D)) : Type 0 where
    pub fault : any_fault faults ≡ true
    pub error : Error
    pub told : after.0 ≡ err error
    pub tables : after.1.rows.committed.tables ≡ from.tables
    pub versions : versions_of after.1.rows.committed.versions ≡ versions_of from.versions

  abbrev pub applied_before : Conn (Store D) → List String
  applied_before c = versions_of c.rows.committed.versions

  migrate-runs :
      (c : Conn (Store D))
      → Untouched c.faults c.rows.committed (migrate s c)
        ⊎ IsProgress s c.faults
            (select (is_new s (applied_before c)) (migrations s))
            c.rows.committed.tables
            (applied_before c)
            (migrate s c)
  unfolding migrate stmt ◌>>=◌
  migrate-runs c = elim (Bool-cases (is_failing c.faults)) [
    | inl e ↦ inl (record {
      fault = failing-any c.faults e;
      error = driver;
      told = rw e refl;
      tables = rw e refl;
      versions = rw e refl;
    })
    | inr a ↦ elim (Option-cases c.rows.committed.versions) [
      | inl fresh ↦ elim (Bool-cases (is_failing (later c.faults))) [
        | inl e ↦ inl (record {
          fault = later-any c.faults (failing-any (later c.faults) e);
          error = driver;
          told = rw (a, fresh, e) refl;
          tables = rw (a, fresh, e) refl;
          versions = rw (a, fresh, e) refl;
        })
        | inr b ↦ inr (
            rw (a, fresh, b)
              (earlier c.faults (apply_all-IsProgress s [] (migrations s) _ [] refl)))
      ]
      | inr (vs, had) ↦ elim (Bool-cases (is_failing (later c.faults))) [
        | inl e ↦ inl (record {
          fault = later-any c.faults (failing-any (later c.faults) e);
          error = driver;
          told = rw (a, had, e) refl;
          tables = rw (a, had, e) refl;
          versions = rw (a, had, e) refl;
        })
        | inr b ↦
            inr (
              rw (a, had, b)
                (earlier c.faults (apply_all-IsProgress s vs (migrations s) _ vs refl)))
      ]
    ]
  ]

  -- Whichever statements and scripts fail. The migrations are the `.sql` files of the directory, none
  -- more or less often than there, in the order of their names. A start of the server either meets a
  -- failing statement, returns an error and leaves the tables and the recorded versions as they were;
  -- or it has run some of the scripts whose versions were not recorded, from the first one on, each
  -- once and in that order, and their versions are recorded behind the others. Then either none is
  -- left and no error is returned, or one is, and some statement has failed or the next script fails
  -- on the tables that are left.
  pub migrate-IsProgress :
      (c : Conn (Store D))
      → IsOrdered (migrations s)
        × ((name : String) → times name (migrations s) ≡ times name (select (is_script s) s.files))
        × (Untouched c.faults c.rows.committed (migrate s c)
            ⊎ IsProgress s c.faults
                (select (is_new s (applied_before c)) (migrations s))
                c.rows.committed.tables
                (applied_before c)
                (migrate s c))
  migrate-IsProgress c = (
    unfold migrations in sort_by-IsOrdered (select (is_script s) s.files),
    (λ name. unfold migrations in sort_by-times name (select (is_script s) s.files)),
    migrate-runs c,
  )
