-- ===== src/Storage/Grants/Budget.antt =====
-- The uses that the rows of a token leave, over a run of calls.
use cairn_mdm.Prelude.{
  ℕ, suc, ◌+◌, ◌-◌, ◌≤◌, ◌≡◌, ◌≢◌, refl, String, Bool, ◌&&◌, List, [], ◌∷◌, ◌++◌, Option, none,
  some, arith, eq_iff, if◌then◌else◌, string_eq, nat_eq, ◌==◌, select, update, find, not, All,
}
use cairn_mdm.Sql.{Conn, Result, ok, err, no_rows, stmt}
use cairn_mdm.Sql.Keeps.{
  Keeps, Keeps-stmt, Keeps-pure, Keeps-fail, Keeps-if, Keeps-bind, Keeps-catch,
}
use cairn_mdm.Storage.Grants.{
  Grant, Request, is_null, has_hash, new_row, next_id, insert_row, create_grant, redeemable,
  use_once, redeem_found, redeem_rows, redeem_grant, get_grant, get_row, revocable, revoke_at,
  revoke_rows, missing_only, check_missing, revoke_grant, expired_before, delete_rows,
  delete_expired_grants,
}

-- The uses that the rows of this token hash leave: none for a revoked row.
abbrev uses_left : String → Grant → ℕ
uses_left h g = if has_hash h g && is_null g.revoked_at then g.max_uses - g.use_count else 0

abbrev pub budget : String → List Grant → ℕ
budget h [] = 0
budget h (g ∷ gs) = uses_left h g + budget h gs

budget-append :
    (h : String) (rows more : List Grant) → budget h (rows ++ more) ≡ budget h rows + budget h more
budget-append h [] more = omega arith
budget-append h (g ∷ gs) more = omega (arith, budget-append h gs more)

budget-update :
    (h : String) (p : Grant → Bool) (f : Grant → Grant)
    → ((g : Grant) → uses_left h (f g) ≤ uses_left h g)
    → (rows : List Grant) → budget h (update p f rows) ≤ budget h rows
budget-update h p f less [] = omega arith
budget-update h p f less (g ∷ gs) = ground (arith, less g, budget-update h p f less gs)

budget-select :
    (h : String) (p : Grant → Bool) (rows : List Grant) → budget h (select p rows) ≤ budget h rows
budget-select h p [] = omega arith
budget-select h p (g ∷ gs) = ground (arith, budget-select h p gs)

budget-use_once :
    (h : String) (now : ℕ) (rows : List Grant) (g : Grant)
    → find (redeemable now h) rows ≡ some g
    → suc (budget h (update (redeemable now h) (use_once now) rows)) ≤ budget h rows
budget-use_once h now [] g found = cc
budget-use_once h now (r ∷ rs) g found = ground (
  arith,
  budget-use_once h now rs g,
  budget-update h (redeemable now h) (use_once now) (λ x. ground arith) rs,
)

abbrev ok_count {ℓ} : {A : Type ℓ} → Result A → ℕ
ok_count (ok a) = 1
ok_count (err e) = 0

module _ {P : List Grant → Type 0} where
  get-Keeps : (id : ℕ) → Keeps P (get_grant id)
  unfolding get_grant
  get-Keeps id = Keeps-stmt (get_row id) (λ rows h. ground arith)

  missing_only-Keeps : (r : Result Grant) → Keeps P (missing_only r)
  missing_only-Keeps (err no_rows) = Keeps-fail no_rows
  missing_only-Keeps _ = Keeps-pure tt

  -- What `RevokeGrant` does after its UPDATE changes no row.
  pub check_missing-Keeps : (id n : ℕ) → Keeps P (check_missing id n)
  check_missing-Keeps id n =
      Keeps-if (n == 0) _ _
        (Keeps-catch (get_grant id) missing_only (get-Keeps id) missing_only-Keeps) (Keeps-pure tt)

-- The uses left are at most `n`.
abbrev AtMost : String → ℕ → List Grant → Type 0
AtMost h n rows = budget h rows ≤ n

module _ (h : String) (n : ℕ) where
  insert-AtMost :
      (now : ℕ) (g : Request) (k : String) (rows : List Grant)
      → k ≢ h
      → AtMost h n rows
      → AtMost h n (insert_row now g k rows).1
  unfolding insert_row
  insert-AtMost now g k rows other le =
      ground (arith, budget-append h rows (new_row now g k (next_id rows) ∷ []), eq_iff k h)

  create-AtMost :
      (now : ℕ) (g : Request) (k : String) → k ≢ h → Keeps (AtMost h n) (create_grant now g k)
  unfolding create_grant
  create-AtMost now g k other =
      Keeps-stmt (insert_row now g k) (λ rows le. insert-AtMost now g k rows other le)

  revoke_rows-AtMost :
      (now id : ℕ) (rows : List Grant) → AtMost h n rows → AtMost h n (revoke_rows now id rows).1
  unfolding revoke_rows
  revoke_rows-AtMost now id rows le =
      omega (arith, budget-update h (revocable id) (revoke_at now) (λ g. ground arith) rows)

  revoke-AtMost : (now id : ℕ) → Keeps (AtMost h n) (revoke_grant now id)
  unfolding revoke_grant
  revoke-AtMost now id =
      Keeps-bind _ _ (Keeps-stmt (revoke_rows now id) (revoke_rows-AtMost now id))
        (check_missing-Keeps id)

  delete-AtMost : (now age : ℕ) → Keeps (AtMost h n) (delete_expired_grants now age)
  unfolding delete_expired_grants delete_rows
  delete-AtMost now age =
      Keeps-stmt (delete_rows (now - age))
        (λ rows le. omega (arith, budget-select h (λ g. not (expired_before (now - age) g)) rows))

redeem_found-budget :
    (h k : String) (now : ℕ) (rows : List Grant) (o : Option Grant)
    → find (redeemable now k) rows ≡ o
    → (if k == h then ok_count (redeem_found now k rows o).0 else 0)
        + budget h (redeem_found now k rows o).1
      ≤ budget h rows
redeem_found-budget h k now rows none missing = ground arith
redeem_found-budget h k now rows (some g) found = ground (
  arith,
  eq_iff k h,
  budget-use_once k now rows g found,
  budget-update h (redeemable now k) (use_once now) (λ x. ground arith) rows,
)

redeem_rows-budget :
    (h k : String) (now : ℕ) (rows : List Grant)
    → (if k == h then ok_count (redeem_rows now k rows).0 else 0)
        + budget h (redeem_rows now k rows).1
      ≤ budget h rows
unfolding redeem_rows
redeem_rows-budget h k now rows = redeem_found-budget h k now rows _ refl

-- The calls that clients make on the table, in the order in which their statements run.
pub data Op : Type 0 where
  create : ℕ → Request → String → Op
  redeem : ℕ → String → Op
  revoke : ℕ → ℕ → Op
  delete_expired : ℕ → ℕ → Op

module _ (hash : String → String) where
  abbrev pub step : Conn (List Grant) → Op → Conn (List Grant)
  step c (create now g h) = (create_grant now g h c).1
  step c (redeem now raw) = (redeem_grant hash now raw c).1
  step c (revoke now id) = (revoke_grant now id c).1
  step c (delete_expired now age) = (delete_expired_grants now age c).1

  -- one, if the call is a redemption of this token hash that succeeds
  abbrev redeemed : String → Conn (List Grant) → Op → ℕ
  redeemed h c (redeem now raw) =
      if hash raw == h then ok_count (redeem_grant hash now raw c).0 else 0
  redeemed h c _ = 0

  abbrev pub run : Conn (List Grant) → List Op → Conn (List Grant)
  run c [] = c
  run c (o ∷ os) = run (step c o) os

  abbrev pub redemptions : String → Conn (List Grant) → List Op → ℕ
  redemptions h c [] = 0
  redemptions h c (o ∷ os) = redeemed h c o + redemptions h (step c o) os

  -- The call makes no new grant for this token hash.
  abbrev pub NotCreating : String → Op → Type 0
  NotCreating h (create now g k) = k ≢ h
  NotCreating h _ = Unit

  redeem-budget :
      (h : String) (c : Conn (List Grant)) (now : ℕ) (raw : String)
      → redeemed h c (redeem now raw) + budget h (redeem_grant hash now raw c).1.rows
        ≤ budget h c.rows
  unfolding redeem_grant stmt
  redeem-budget h c now raw = ground (arith, redeem_rows-budget h (hash raw) now c.rows)

  step-budget :
      (h : String) (c : Conn (List Grant)) (o : Op)
      → NotCreating h o
      → redeemed h c o + budget h (step c o).rows ≤ budget h c.rows
  step-budget h c (create now g k) other =
      let le = (create-AtMost h (budget h c.rows) now g k other).at c (omega arith) in omega arith
  step-budget h c (redeem now raw) other = redeem-budget h c now raw
  step-budget h c (revoke now id) other =
      let le = (revoke-AtMost h (budget h c.rows) now id).at c (omega arith) in omega arith
  step-budget h c (delete_expired now age) other =
      let le = (delete-AtMost h (budget h c.rows) now age).at c (omega arith) in omega arith

  -- Whatever calls clients make in whatever order, and whichever statements fail: a token is
  -- redeemed at most as often as its row still allows at the start, which is not at all if the row
  -- is revoked, provided that no new grant is made for the same token hash.
  pub redemptions-le-budget :
      (h : String) (c : Conn (List Grant)) (ops : List Op)
      → All (NotCreating h) ops
      → redemptions h c ops + budget h (run c ops).rows ≤ budget h c.rows
  redemptions-le-budget h c [] fresh = omega arith
  redemptions-le-budget h c (o ∷ os) (f, fs) =
      omega (arith, step-budget h c o f, redemptions-le-budget h (step c o) os fs)
