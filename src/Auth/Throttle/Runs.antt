-- ===== src/Auth/Throttle/Runs.antt =====
-- The throttle under any sequence of failures, successes and cleanups, in the order of time.
pub mod Bounds
pub mod Cleanup
use cairn_mdm.Prelude.{
  ℕ, ◌≤◌, String, ◌≡◌, refl, Bool, true, false, List, [], ◌∷◌, Option, none, some, arith, eq_iff,
  if◌then◌else◌, string_eq, ◌==◌,
}
use cairn_mdm.Prelude.Dict
use cairn_mdm.Prelude.Dict.{Dict, IsMap, lookup-insert, lookup-delete, insert-IsMap, delete-IsMap}
use cairn_mdm.Auth.Throttle.{
  Entry, Throttle, found_or_new, fail_entry, record_failure, record_success, stale, sweep, cleanup,
}

pub data Event : Type 0 where
  failed : String → Event
  succeeded : String → Event
  cleaned : Event

abbrev pub step : Throttle → ℕ → Event → Throttle
step t now (failed key) = record_failure t now key
step t now (succeeded key) = record_success t key
step t now cleaned = cleanup t now

abbrev pub run : Throttle → List (ℕ × Event) → Throttle
run t [] = t
run t ((now, e) ∷ es) = run (step t now e) es

-- The clock does not go back.
abbrev pub InOrder : ℕ → List (ℕ × Event) → Type 0
InOrder t [] = Unit
InOrder t ((now, e) ∷ es) = (t ≤ now) × InOrder now es

abbrev pub end_time : ℕ → List (ℕ × Event) → ℕ
end_time t [] = t
end_time t ((now, e) ∷ es) = end_time now es

abbrev keep : Throttle → ℕ → Option Entry → Option Entry
keep t now none = none
keep t now (some e) = if stale t now e then none else some e

lookup-sweep :
    (t : Throttle) (now : ℕ) (j : String) (m : Dict Entry)
    → IsMap m
    → Dict.lookup j (sweep t now m) ≡ keep t now (Dict.lookup j m)
unfolding Dict.lookup sweep
lookup-sweep t now j [] h = refl
lookup-sweep t now j ((k, e) ∷ m) h = ground (arith, lookup-sweep t now j m, eq_iff k j)

sweep-IsMap : (t : Throttle) (now : ℕ) (m : Dict Entry) → IsMap m → IsMap (sweep t now m)
unfolding sweep
sweep-IsMap t now [] h = tt
sweep-IsMap t now ((k, e) ∷ m) h = ground (arith, sweep-IsMap t now m, lookup-sweep t now k m)

step-IsMap : (t : Throttle) (now : ℕ) (e : Event) → IsMap t.entries → IsMap (step t now e).entries
unfolding record_failure record_success cleanup
step-IsMap t now (failed key) h = insert-IsMap key _ t.entries h
step-IsMap t now (succeeded key) h = delete-IsMap key t.entries h
step-IsMap t now cleaned h = sweep-IsMap t now t.entries h

-- what an event does to the entry of one key
abbrev effect : Throttle → ℕ → Event → String → Option Entry → Option Entry
effect t now (failed key) j o = if key == j then some (fail_entry t now (found_or_new now o)) else o
effect t now (succeeded key) j o = if key == j then none else o
effect t now cleaned j o = keep t now o

lookup-step :
    (t : Throttle) (now : ℕ) (e : Event) (j : String)
    → IsMap t.entries
    → Dict.lookup j (step t now e).entries ≡ effect t now e j (Dict.lookup j t.entries)
unfolding record_failure record_success cleanup
lookup-step t now (failed key) j h = ground (
  arith,
  lookup-insert key j (fail_entry t now (found_or_new now (Dict.lookup key t.entries))) t.entries,
  eq_iff key j,
)
lookup-step t now (succeeded key) j h = lookup-delete key j t.entries
lookup-step t now cleaned j h = lookup-sweep t now j t.entries h

same_policy :
    (t : Throttle) (now : ℕ) (e : Event)
    → ((step t now e).max ≡ t.max)
      × ((step t now e).window ≡ t.window)
      × ((step t now e).lockout ≡ t.lockout)
unfolding record_failure record_success cleanup
same_policy t now (failed key) = (refl, refl, refl)
same_policy t now (succeeded key) = (refl, refl, refl)
same_policy t now cleaned = (refl, refl, refl)
