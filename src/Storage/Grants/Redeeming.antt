-- ===== src/Storage/Grants/Redeeming.antt =====
-- What a redemption does, what a grant's status says of it, and that revocation is for good.
use cairn_mdm.Prelude.{
  ℕ, ◌+◌, ◌≡◌, refl, String, Bool, true, false, ◌&&◌, List, [], ◌∷◌, Option, none, some, arith,
  eq_iff, if◌then◌else◌, string_eq, nat_eq, ◌==◌, update, count, find, ap, subst,
  update_of_find-none, All, ltb,
}
use cairn_mdm.Sql.{Conn, Result, ok, err, driver, grant_invalid, stmt, is_failing, ◌>>=◌}
use cairn_mdm.Storage.Grants.{
  Grant, Redemption, is_null, has_hash, redeemable, use_once, redeem_found, redeem_rows,
  redeem_grant, has_id, revocable, revoke_at, revoke_grant,
}
use cairn_mdm.Storage.Grants.Budget.{
  budget, Op, NotCreating, redemptions, redemptions-le-budget, check_missing-Keeps,
}

-- No token hash stands twice, as the UNIQUE column has it.
abbrev pub IsUnique : List Grant → Type 0
IsUnique [] = Unit
IsUnique (g ∷ gs) = (find (has_hash g.token_hash) gs ≡ none) × IsUnique gs

-- The grant can be used at this second.
abbrev pub live : ℕ → Grant → Bool
live now g = is_null g.revoked_at && (ltb g.use_count g.max_uses && ltb now g.expires_at)

-- What a redemption of a token returns, and what it makes of the row, by the row of its hash.
abbrev pub granted : Grant → Redemption
granted g = record {
  id = g.id;
  platform = g.platform;
  owner = g.owner;
  expected_serial = g.expected_serial;
}

abbrev pub used_at : ℕ → Grant → Grant
used_at now g = record g { use_count = g.use_count + 1; last_used_at = some now }

abbrev pub outcome : ℕ → Option Grant → Result Redemption
outcome now none = err grant_invalid
outcome now (some g) = if live now g then ok (granted g) else err grant_invalid

abbrev pub spent : ℕ → Option Grant → Option Grant
spent now none = none
spent now (some g) = some (if live now g then used_at now g else g)

find-redeemable :
    (now : ℕ) (h : String) (rows : List Grant)
    → IsUnique rows
    → (redeem_rows now h rows).0 ≡ outcome now (find (has_hash h) rows)
unfolding redeem_rows
find-redeemable now h [] u = refl
find-redeemable now h (g ∷ gs) (u, us) =
    ground (arith, find-redeemable now h gs us, eq_iff g.token_hash h)

find-update :
    (now : ℕ) (h k : String) (rows : List Grant)
    → find (has_hash k) (update (redeemable now h) (use_once now) rows)
      ≡ (if h == k then spent now (find (has_hash k) rows) else find (has_hash k) rows)
find-update now h k [] = ground arith
find-update now h k (g ∷ gs) =
    ground (arith, find-update now h k gs, eq_iff g.token_hash k, eq_iff g.token_hash h, eq_iff h k)

redeem_found-rows :
    (now : ℕ) (h k : String) (rows : List Grant) (o : Option Grant)
    → find (redeemable now h) rows ≡ o
    → find (has_hash k) (redeem_found now h rows o).1
      ≡ (if h == k then spent now (find (has_hash k) rows) else find (has_hash k) rows)
redeem_found-rows now h k rows none missing =
    subst
      (λ x.
        find (has_hash k) x
        ≡ (if h == k then spent now (find (has_hash k) rows) else find (has_hash k) rows))
      (update_of_find-none (redeemable now h) (use_once now) rows missing)
      (find-update now h k rows)
redeem_found-rows now h k rows (some g) found = find-update now h k rows

module _ (hash : String → String) where
  -- A redemption at which no statement fails, of a table with unique token hashes: it succeeds
  -- exactly if the row of the token's hash is not revoked, has a use left and has not expired,
  -- and then it takes one use from that row alone; otherwise it is `ErrGrantInvalid`, whatever the
  -- reason, and every row stays as it was.
  pub redeem_exact :
      (now : ℕ) (raw : String) (c : Conn (List Grant)) (k : String)
      → IsUnique c.rows
      → is_failing c.faults ≡ false
      → ((redeem_grant hash now raw c).0 ≡ outcome now (find (has_hash (hash raw)) c.rows))
        × (find (has_hash k) (redeem_grant hash now raw c).1.rows ≡ (
            if hash raw == k
            then spent now (find (has_hash k) c.rows)
            else find (has_hash k) c.rows))
  unfolding redeem_grant stmt
  redeem_exact now raw c k u healthy = rw healthy (
    find-redeemable now (hash raw) c.rows u,
    unfold redeem_rows in redeem_found-rows now (hash raw) k c.rows _ refl,
  )

  -- When the database fails at the statement, the caller gets that failure and no use is spent.
  pub redeem_fault :
      (now : ℕ) (raw : String) (c : Conn (List Grant))
      → is_failing c.faults ≡ true
      → ((redeem_grant hash now raw c).0 ≡ err driver)
        × ((redeem_grant hash now raw c).1.rows ≡ c.rows)
  unfolding redeem_grant stmt
  redeem_fault now raw c failing = rw failing (refl, refl)

budget-revoke_absent :
    (now id : ℕ) (h : String) (rows : List Grant)
    → find (has_hash h) rows ≡ none
    → budget h (update (revocable id) (revoke_at now) rows) ≡ 0
budget-revoke_absent now id h [] absent = refl
budget-revoke_absent now id h (r ∷ rs) absent = ground (arith, budget-revoke_absent now id h rs)

found-has-hash :
    (h : String) (id : ℕ) (g : Grant) (rows : List Grant)
    → find (has_hash h) rows ≡ none
    → find (has_id id) rows ≡ some g
    → (g.token_hash == h) ≡ false
found-has-hash h id g [] absent found = cc
found-has-hash h id g (r ∷ rs) absent found = ground (arith, found-has-hash h id g rs)

budget-revoke :
    (now id : ℕ) (g : Grant) (rows : List Grant)
    → IsUnique rows
    → find (has_id id) rows ≡ some g
    → budget g.token_hash (update (revocable id) (revoke_at now) rows) ≡ 0
budget-revoke now id g [] u found = cc
budget-revoke now id g (r ∷ rs) (u, us) found = ground (
  arith,
  budget-revoke now id g rs us,
  budget-revoke_absent now id r.token_hash rs u,
  found-has-hash r.token_hash id g rs u,
  eq_iff g.token_hash r.token_hash,
  eq_iff r.token_hash g.token_hash,
)

count-none :
    (id : ℕ) (rows : List Grant) → find (has_id id) rows ≡ none → count (revocable id) rows ≡ 0
count-none id [] h = refl
count-none id (r ∷ rs) h = ground (arith, count-none id rs)

revoke-rows :
    (now id : ℕ) (c : Conn (List Grant))
    → is_failing c.faults ≡ false
    → (revoke_grant now id c).1.rows ≡ update (revocable id) (revoke_at now) c.rows
unfolding revoke_grant ◌>>=◌ stmt
revoke-rows now id c healthy = rw healthy (
    (check_missing-Keeps {P = λ rows. rows ≡ update (revocable id) (revoke_at now) c.rows} id
        (count (revocable id) c.rows)).at
      _ refl)

-- Once the revocation of a row has been written, no token of that row's hash is ever redeemed
-- again, whatever calls follow and whichever of their statements fail, provided that no new grant
-- is made for the hash.
pub revoked_is_final :
    (hash : String → String) (now id : ℕ) (g : Grant) (c : Conn (List Grant)) (ops : List Op)
    → IsUnique c.rows
    → find (has_id id) c.rows ≡ some g
    → is_failing c.faults ≡ false
    → All (NotCreating hash g.token_hash) ops
    → redemptions hash g.token_hash (revoke_grant now id c).1 ops ≡ 0
revoked_is_final hash now id g c ops u found healthy fresh = omega (
  arith,
  redemptions-le-budget hash g.token_hash (revoke_grant now id c).1 ops fresh,
  ap (budget g.token_hash) (revoke-rows now id c healthy),
  budget-revoke now id g c.rows u found,
)
