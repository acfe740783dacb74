-- ===== src/Storage/Migrations/Applying.antt =====
-- What one migration does.
use cairn_mdm.Prelude.{
  String, Bool, true, false, List, [], ◌∷◌, ◌++◌, none, some, ◌≡◌, refl, ◌⊎◌, inl, inr, string_eq,
  any, Bool-cases, Option-cases,
}
use cairn_mdm.Sql.{
  Conn, Result, ok, err, Error, driver, stmt, pure, catch, is_failing, later, ◌>>=◌,
}
use cairn_mdm.Storage.Migrations.{File, Db, Store, Schema, version, apply_migration}

-- Some statement to come fails.
abbrev pub any_fault : List Bool → Bool
any_fault bs = any (λ b. b) bs

pub failing-any : (bs : List Bool) → is_failing bs ≡ true → any_fault bs ≡ true
failing-any [] h = cc
failing-any (b ∷ bs) h = rw h refl

pub later-any : (bs : List Bool) → any_fault (later bs) ≡ true → any_fault bs ≡ true
later-any [] h = h
later-any (true ∷ bs) h = refl
later-any (false ∷ bs) h = h

module _ {D : Type 0} (s : Schema D) where
  -- The migration is committed with its version, or an error is returned and nothing is committed.
  pub record Applied (f : File) (faults : List Bool) (from : Db D)
      (after : Result (Unit {0}) × Conn (Store D)) : Type 0 where
    pub fine : after.0 ≡ ok tt
    pub tables : s.exec f.body from.tables ≡ some after.1.rows.committed.tables
    pub before : List String
    pub had : from.versions ≡ some before
    pub recorded : after.1.rows.committed.versions ≡ some (before ++ version s f ∷ [])
    pub passed : any_fault after.1.faults ≡ true → any_fault faults ≡ true

  pub record Stopped (f : File) (faults : List Bool) (from : Db D)
      (after : Result (Unit {0}) × Conn (Store D)) : Type 0 where
    pub reason :
        (any_fault faults ≡ true) ⊎ ((s.exec f.body from.tables ≡ none) ⊎ (from.versions ≡ none))
    pub error : Error
    pub told : after.0 ≡ err error
    pub tables : after.1.rows.committed.tables ≡ from.tables
    pub versions : after.1.rows.committed.versions ≡ from.versions

  -- from the statement that records the version on
  recording-outcome :
      (f : File) (c : Conn (Store D)) (t : D)
      → is_failing c.faults ≡ false
      → is_failing (later c.faults) ≡ false
      → s.exec f.body c.rows.committed.tables ≡ some t
      → Applied f c.faults c.rows.committed (apply_migration s f c)
        ⊎ Stopped f c.faults c.rows.committed (apply_migration s f c)
  unfolding apply_migration stmt catch pure ◌>>=◌
  recording-outcome f c t a b ran = elim (Bool-cases (is_failing (later (later c.faults)))) [
    | inl e ↦ inr (record {
      reason = inl (
          later-any c.faults (later-any (later c.faults) (failing-any (later (later c.faults)) e)));
      error = driver;
      told = rw (a, b, ran, e) refl;
      tables = rw (a, b, ran, e) refl;
      versions = rw (a, b, ran, e) refl;
    })
    | inr d ↦ elim (Option-cases c.rows.committed.versions) [
      | inl e ↦ inr (record {
        reason = inr (inr e);
        error = driver;
        told = rw (a, b, ran, d, e) refl;
        tables = rw (a, b, ran, d, e) refl;
        versions = rw (a, b, ran, d, e) e;
      })
      | inr (vs, had) ↦ elim (Bool-cases (is_failing (later (later (later c.faults))))) [
        | inl e ↦ inr (record {
          reason = inl (
              later-any c.faults (
                later-any (later c.faults) (
                  later-any (later (later c.faults))
                    (failing-any (later (later (later c.faults))) e))));
          error = driver;
          told = rw (a, b, ran, d, had, e) refl;
          tables = rw (a, b, ran, d, had, e) refl;
          versions = rw (a, b, ran, d, had, e) had;
        })
        | inr e ↦ inl (record {
          fine = rw (a, b, ran, d, had, e) refl;
          tables = rw (a, b, ran, d, had, e) refl;
          before = vs;
          had = had;
          recorded = rw (a, b, ran, d, had, e) refl;
          passed =
              rw (a, b, ran, d, had, e)
                (λ h. later-any c.faults (
                  later-any (later c.faults) (
                    later-any (later (later c.faults))
                      (later-any (later (later (later c.faults))) h))));
        })
      ]
    ]
  ]

  pub apply_migration-outcome :
      (f : File) (c : Conn (Store D))
      → Applied f c.faults c.rows.committed (apply_migration s f c)
        ⊎ Stopped f c.faults c.rows.committed (apply_migration s f c)
  unfolding apply_migration stmt catch pure ◌>>=◌
  apply_migration-outcome f c = elim (Bool-cases (is_failing c.faults)) [
    | inl e ↦ inr (record {
      reason = inl (failing-any c.faults e);
      error = driver;
      told = rw e refl;
      tables = rw e refl;
      versions = rw e refl;
    })
    | inr a ↦ elim (Bool-cases (is_failing (later c.faults))) [
      | inl e ↦ inr (record {
        reason = inl (later-any c.faults (failing-any (later c.faults) e));
        error = driver;
        told = rw (a, e) refl;
        tables = rw (a, e) refl;
        versions = rw (a, e) refl;
      })
      | inr b ↦ elim (Option-cases (s.exec f.body c.rows.committed.tables)) [
        | inl e ↦ inr (record {
          reason = inr (inl e);
          error = driver;
          told = rw (a, b, e) refl;
          tables = rw (a, b, e) refl;
          versions = rw (a, b, e) refl;
        })
        | inr (t, ran) ↦ recording-outcome f c t a b ran
      ]
    ]
  ]
