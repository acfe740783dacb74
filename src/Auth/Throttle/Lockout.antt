-- ===== src/Auth/Throttle/Lockout.antt =====
-- When a key is locked out, for how long, and what a failure does after a lockout.
use cairn_mdm.Prelude.{
  ℕ, ◌+◌, ◌-◌, ◌≤◌, ◌<◌, String, ◌≡◌, refl, ◌≢◌, true, false, List, [], ◌∷◌, ◌&&◌, none, some, ltb,
  arith, eq_iff, length, All, if◌then◌else◌, string_eq, nat_eq, ◌==◌,
}
use cairn_mdm.Prelude.Dict
use cairn_mdm.Prelude.Dict.{Dict, lookup-insert, lookup-delete}
use cairn_mdm.Auth.Throttle.{
  Entry, Throttle, allowed, found_or_new, fail_entry, record_failure, record_success,
}

-- Failures of one key at the given times, in order.
abbrev pub record_failures : Throttle → String → List ℕ → Throttle
record_failures t key [] = t
record_failures t key (now ∷ times) = record_failures (record_failure t now key) key times

abbrev pub last_time : ℕ → List ℕ → ℕ
last_time t [] = t
last_time t (s ∷ ss) = last_time s ss

-- the entry after `n` failures of a window that began at `t0`, the last one at `now`
abbrev counted : ℕ → ℕ → ℕ → Entry
counted n t0 now = record { failures = n; window_start = t0; lockout_until = 0; last_seen = now }

module _ (t : Throttle) (key : String) where
  fail-same : (now : ℕ) → (record_failure t now key).max ≡ t.max
  unfolding record_failure
  fail-same now = refl

  lookup-record_failure :
      (now : ℕ) (j : String)
      → Dict.lookup j (record_failure t now key).entries ≡ (
          if key == j
          then some (fail_entry t now (found_or_new now (Dict.lookup key t.entries)))
          else Dict.lookup j t.entries)
  unfolding record_failure
  lookup-record_failure now j = lookup-insert key j _ t.entries

  -- A failure or a success of one key leaves the answer for every other key as it was; a success
  -- frees its own key.
  pub other_keys :
      (now now' : ℕ) (j : String)
      → key ≢ j
      → (allowed (record_failure t now key) now' j ≡ allowed t now' j)
        × (allowed (record_success t key) now' j ≡ allowed t now' j)
        × (allowed (record_success t key) now' key ≡ (true, 0))
  unfolding allowed record_success
  other_keys now now' j h = (
    ground (arith, lookup-record_failure now j, eq_iff key j),
    ground (arith, lookup-delete key j t.entries, eq_iff key j),
    ground (arith, lookup-delete key key t.entries, eq_iff key key),
  )

-- the entry after the window's failures: the last allowed one locks the key
abbrev settled : Throttle → ℕ → ℕ → ℕ → Entry
settled t n t0 now =
    if n == t.max
    then record {
      failures = n;
      window_start = t0;
      lockout_until = now + t.lockout;
      last_seen = now;
    }
    else counted n t0 now

abbrev InWindow : Throttle → ℕ → ℕ → Type 0
InWindow t t0 s = (t0 ≤ s) × (s ≤ t0 + t.window)

fail-counted :
    (t : Throttle) (n t0 s now : ℕ)
    → n < t.max
    → InWindow t t0 now
    → fail_entry t now (counted n t0 s) ≡ settled t (n + 1) t0 now
unfolding fail_entry
fail-counted t n t0 s now h w = ground arith

failures-settled :
    (t : Throttle) (key : String) (times : List ℕ) (n t0 s : ℕ)
    → n < t.max
    → n + length times ≤ t.max
    → All (InWindow t t0) times
    → Dict.lookup key t.entries ≡ some (counted n t0 s)
    → Dict.lookup key (record_failures t key times).entries
      ≡ some (settled t (n + length times) t0 (last_time s times))
unfolding record_failure
failures-settled t key [] n t0 s less room w found = ground arith
failures-settled t key (now ∷ []) n t0 s less room (w, _) found =
    ground (arith, lookup-record_failure t key now key, eq_iff key key, fail-counted t n t0 s now)
failures-settled t key (now ∷ now' ∷ times) n t0 s less room (w, ws) found = ground (
  arith,
  eq_iff key key,
  fail-counted t n t0 s now,
  lookup-record_failure t key now key,
  failures-settled (record_failure t now key) key (now' ∷ times) (n + 1) t0 now,
)

-- A key with no entry that fails at `t0` and then at `times`, all within the window of `t0`, no
-- more often than the maximum: it is locked out exactly if the maximum is reached, then until the
-- lockout has passed since the last failure, and the answer carries the time that is left.
pub lockout_exact :
    (t : Throttle) (key : String) (t0 : ℕ) (times : List ℕ) (now : ℕ)
    → Dict.lookup key t.entries ≡ none
    → 1 + length times ≤ t.max
    → All (InWindow t t0) times
    → allowed (record_failures t key (t0 ∷ times)) now key ≡ (
        if 1 + length times == t.max && ltb now (last_time t0 times + t.lockout)
        then (false, last_time t0 times + t.lockout - now)
        else (true, 0))
unfolding allowed record_failure fail_entry
lockout_exact t key t0 [] now absent room w =
    ground (arith, lookup-record_failure t key t0 key, eq_iff key key)
lockout_exact t key t0 (s ∷ times) now absent room w = ground (
  arith,
  lookup-record_failure t key t0 key,
  eq_iff key key,
  failures-settled (record_failure t t0 key) key (s ∷ times) 1 t0 t0,
)

-- A failure while a key is locked out does not change the answer for it, so it neither extends
-- nor ends the lockout.
pub locked_failure_ignored :
    (t : Throttle) (key : String) (now now' : ℕ)
    → (allowed t now key).0 ≡ false
    → allowed (record_failure t now key) now' key ≡ allowed t now' key
unfolding allowed fail_entry
locked_failure_ignored t key now now' h =
    ground (arith, lookup-record_failure t key now key, eq_iff key key)

-- If the window has not elapsed when a lockout ends, the next failure locks the key out again at
-- once, although it is a single one: the count of the old window still stands at the maximum.
pub relock_at_once :
    (t : Throttle) (key : String) (e : Entry) (now : ℕ)
    → Dict.lookup key t.entries ≡ some e
    → t.max ≤ e.failures
    → e.lockout_until ≤ now
    → now ≤ e.window_start + t.window
    → 0 < t.lockout
    → (allowed t now key ≡ (true, 0))
      × (allowed (record_failure t now key) now key ≡ (false, t.lockout))
unfolding allowed fail_entry
relock_at_once t key e now found full over inside pos =
    (ground arith, ground (arith, lookup-record_failure t key now key, eq_iff key key))

-- What holds of an entry at `now` where the lockout is longer than the window.
pub record IsSound (max lockout now : ℕ) (e : Entry) : Type 0 where
  pub started : e.window_start ≤ now
  pub bounded : e.failures ≤ max
  pub counting : e.failures < max → e.lockout_until ≤ e.window_start
  pub locking : max ≤ e.failures → e.window_start + lockout ≤ e.lockout_until

-- A throttle with this policy, whose lockout is longer than its window.
pub record HasPolicy (max window lockout : ℕ) (t : Throttle) : Type 0 where
  pub positive : 1 ≤ max
  pub longer : window < lockout
  pub same_max : t.max ≡ max
  pub same_window : t.window ≡ window
  pub same_lockout : t.lockout ≡ lockout

module _ {max lockout : ℕ} where
  pub fail_entry-IsSound :
      {window : ℕ} (t : Throttle) (now now' : ℕ) (e : Entry)
      → HasPolicy max window lockout t
      → now ≤ now'
      → IsSound max lockout now e
      → IsSound max lockout now' (fail_entry t now' e)
  unfolding fail_entry
  fail_entry-IsSound t now now' e policy later h = record {
    started = ground arith;
    bounded = ground arith;
    counting = ground arith;
    locking = ground arith;
  }

  pub new_entry-IsSound : (now : ℕ) → 1 ≤ max → IsSound max lockout now (found_or_new now none)
  new_entry-IsSound now h = record {
    started = omega arith;
    bounded = omega arith;
    counting = λ _. omega arith;
    locking = λ full. absurd (omega arith);
  }

  pub IsSound-later :
      (now now' : ℕ) (e : Entry)
      → now ≤ now'
      → IsSound max lockout now e
      → IsSound max lockout now' e
  IsSound-later now now' e h s = record {
    started = omega arith;
    bounded = s.bounded;
    counting = s.counting;
    locking = s.locking;
  }
