-- ===== src/Auth/Throttle/Tests.antt =====
-- Runs of the throttle, and its theorems at concrete inputs.
use cairn_mdm.Prelude.{ℕ, ◌≤◌, ◌+◌, ◌≡◌, refl, true, false, List, [], ◌∷◌, arith, some, none}
use cairn_mdm.Prelude.Dict
use cairn_mdm.Auth.Throttle.{
  Entry, Throttle, Policy, duration, new, allowed, record_failure, record_success, cleanup,
}
use cairn_mdm.Auth.Throttle.Lockout.{record_failures, lockout_exact, relock_at_once}
use cairn_mdm.Auth.Throttle.Runs.{Event, failed, run}
use cairn_mdm.Auth.Throttle.Runs.Bounds.{configured, run-bounded}
use cairn_mdm.Auth.Throttle.Runs.Cleanup.{cleanup_invisible}

abbrev tight : Throttle
tight = record { entries = []; max = 3; window = 100; lockout = 50 }

abbrev locked : Throttle
locked = record {
  entries =
      (
        "eve|1.2.3.4",
        record { failures = 3; window_start = 10; lockout_until = 70; last_seen = 20 },
      )
      ∷ [];
  max = 3;
  window = 100;
  lockout = 50;
}

three_failures :
    (record_failures tight "eve|1.2.3.4" (10 ∷ 15 ∷ 20 ∷ []) ≡ locked)
    × (allowed locked 60 "eve|1.2.3.4" ≡ (false, 10))
    × (allowed locked 70 "eve|1.2.3.4" ≡ (true, 0))
    × (allowed locked 60 "bob|1.2.3.4" ≡ (true, 0))
unfolding record_failure allowed cairn_mdm.Auth.Throttle.fail_entry Dict.insert Dict.lookup
three_failures = (refl, refl, refl, refl)

lockout_exact_example :
    allowed (record_failures tight "eve|1.2.3.4" (10 ∷ 15 ∷ 20 ∷ [])) 60 "eve|1.2.3.4" ≡ (false, 10)
unfolding Dict.lookup
lockout_exact_example =
    lockout_exact tight "eve|1.2.3.4" 10 (15 ∷ 20 ∷ []) 60 refl (omega arith) (omega arith)

relock_at_once_example :
    (allowed locked 80 "eve|1.2.3.4" ≡ (true, 0))
    × (allowed (record_failure locked 80 "eve|1.2.3.4") 80 "eve|1.2.3.4" ≡ (false, 50))
unfolding Dict.lookup
relock_at_once_example =
    relock_at_once locked "eve|1.2.3.4" _ 80 refl (omega arith) (omega arith) (omega arith)
      (omega arith)

abbrev defaults : Policy
defaults = record { max_attempts = 2; window_seconds = 0; lockout_seconds = 0 }

abbrev attempts : List (ℕ × Event)
attempts = (10, failed "eve") ∷ (20, failed "bob") ∷ (30, failed "eve") ∷ []

throttle_tests :
    (new defaults
      ≡ some (record { entries = []; max = 2; window = 300000000000; lockout = 900000000000 }))
    × (new (record { max_attempts = 0; window_seconds = 0; lockout_seconds = 9223372037 }) ≡ none)
unfolding new duration
throttle_tests = (refl, refl)

run-bounded_example :
    (new defaults ≡ some (configured defaults))
    × (2 ≤ (configured defaults).max)
    × ((configured defaults).max ≤ 2 → 10 + (configured defaults).lockout ≤ 900000000030)
unfolding Dict.lookup record_failure cairn_mdm.Auth.Throttle.fail_entry Dict.insert
run-bounded_example =
    run-bounded defaults 0 attempts "eve" _ (omega arith) (omega arith) (omega arith) (omega arith)
      refl

cleanup_invisible_example :
    allowed
      (run
        (cleanup (run (configured defaults) attempts) 1000000000000)
        ((1000000000001, failed "eve") ∷ []))
      1000000000002
      "eve"
    ≡ allowed
        (run (run (configured defaults) attempts) ((1000000000001, failed "eve") ∷ []))
        1000000000002
        "eve"
cleanup_invisible_example =
    cleanup_invisible (configured defaults) 0 attempts 1000000000000
      ((1000000000001, failed "eve") ∷ []) 1000000000002 "eve" refl (omega arith) (omega arith)
      (omega arith) (omega arith)
