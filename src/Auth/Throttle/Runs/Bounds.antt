-- ===== src/Auth/Throttle/Runs/Bounds.antt =====
-- The count of a key over a run of events.
use cairn_mdm.Prelude.{
  ℕ, ◌+◌, ◌≤◌, ◌<◌, ◌≡◌, refl, ◌∙◌, String, List, [], ◌∷◌, Option, none, some, arith, Bool, true,
  false, if◌then◌else◌, ◌*◌, ◌%◌, ltb, nat_eq, ◌==◌, string_eq,
}
use cairn_mdm.Prelude.Dict
use cairn_mdm.Prelude.Dict.{IsMap}
use cairn_mdm.Auth.Throttle.{
  Entry, Throttle, found_or_new, fail_entry, stale, Policy, second, duration, new,
}
use cairn_mdm.Auth.Throttle.Lockout.{
  IsSound, HasPolicy, fail_entry-IsSound, new_entry-IsSound, IsSound-later,
}
use cairn_mdm.Auth.Throttle.Runs.{
  Event, failed, succeeded, cleaned, step, run, InOrder, end_time, step-IsMap, same_policy,
  lookup-step, effect, keep,
}

module _ (max window lockout : ℕ) where
  -- The entry is sound at `now`, if there is one.
  abbrev SoundAt : ℕ → Option Entry → Type 0
  SoundAt now none = Unit
  SoundAt now (some e) = IsSound max lockout now e

  record IsSoundMap (t : Throttle) (now : ℕ) : Type 0 where
    policy : HasPolicy max window lockout t
    keys : IsMap t.entries
    entries : (j : String) → SoundAt now (Dict.lookup j t.entries)

  fail-SoundAt :
      (t : Throttle) (now now' : ℕ) (o : Option Entry)
      → HasPolicy max window lockout t
      → now ≤ now'
      → SoundAt now o
      → IsSound max lockout now' (fail_entry t now' (found_or_new now' o))
  fail-SoundAt t now now' none policy later s =
      fail_entry-IsSound t now' now' _ policy (omega arith) (new_entry-IsSound now' policy.positive)
  fail-SoundAt t now now' (some e) policy later s = fail_entry-IsSound t now now' e policy later s

  SoundAt-later : (now now' : ℕ) (o : Option Entry) → now ≤ now' → SoundAt now o → SoundAt now' o
  SoundAt-later now now' none h s = tt
  SoundAt-later now now' (some e) h s = IsSound-later now now' e h s

  SoundAt-if :
      (now : ℕ) (b : Bool) (o p : Option Entry)
      → SoundAt now o
      → SoundAt now p
      → SoundAt now (if b then o else p)
  SoundAt-if now true o p ho hp = ho
  SoundAt-if now false o p ho hp = hp

  keep-SoundAt :
      (t : Throttle) (now now' : ℕ) (o : Option Entry) → SoundAt now o → SoundAt now (keep t now' o)
  keep-SoundAt t now now' none h = tt
  keep-SoundAt t now now' (some e) h = SoundAt-if now (stale t now' e) none (some e) tt h

  effect-SoundAt :
      (t : Throttle) (now now' : ℕ) (e : Event) (j : String) (o : Option Entry)
      → HasPolicy max window lockout t
      → now ≤ now'
      → SoundAt now o
      → SoundAt now' (effect t now' e j o)
  effect-SoundAt t now now' (failed key) j o policy later s =
      SoundAt-if now' (key == j) (some (fail_entry t now' (found_or_new now' o))) o
        (fail-SoundAt t now now' o policy later s) (SoundAt-later now now' o later s)
  effect-SoundAt t now now' (succeeded key) j o policy later s =
      SoundAt-if now' (key == j) none o tt (SoundAt-later now now' o later s)
  effect-SoundAt t now now' cleaned j o policy later s =
      keep-SoundAt t now' now' o (SoundAt-later now now' o later s)

  step-HasPolicy :
      (t : Throttle) (now : ℕ) (e : Event)
      → HasPolicy max window lockout t
      → HasPolicy max window lockout (step t now e)
  step-HasPolicy t now e h =
      let (m, w, l) = same_policy t now e in
      record {
        positive = h.positive;
        longer = h.longer;
        same_max = m ∙ h.same_max;
        same_window = w ∙ h.same_window;
        same_lockout = l ∙ h.same_lockout;
      }

  run-IsSoundMap :
      (t : Throttle) (now : ℕ) (es : List (ℕ × Event))
      → InOrder now es
      → IsSoundMap t now
      → IsSoundMap (run t es) (end_time now es)
  run-IsSoundMap t now [] ordered h = h
  run-IsSoundMap t now ((now', e) ∷ es) (later, ordered) h =
      run-IsSoundMap (step t now' e) now' es ordered (record {
        policy = step-HasPolicy t now' e h.policy;
        keys = step-IsMap t now' e h.keys;
        entries = λ j.
            rw (lookup-step t now' e j h.keys)
              (effect-SoundAt t now now' e j _ h.policy later (h.entries j));
      })

-- `LoginPolicy.WithDefaults`
abbrev seconds_or : ℕ → ℕ → ℕ
seconds_or n default = if n == 0 then default else n

-- the throttle that the policy asks for, its durations in full
abbrev pub configured : Policy → Throttle
configured p = record {
  entries = [];
  max = seconds_or p.max_attempts 5;
  window = seconds_or p.window_seconds 300 * second;
  lockout = seconds_or p.lockout_seconds 900 * second;
}

duration-exact : (n : ℕ) → n ≤ 9223372036 → duration n ≡ some (n * second)
unfolding duration
duration-exact n h =
    let whole : n * second % 18446744073709551616 ≡ n * second = omega arith in
    let positive : ltb (n * second) 9223372036854775808 ≡ true = ground arith in
    rw (whole, positive) refl

seconds_or-le :
    (n default : ℕ) → n ≤ 9223372036 → default ≤ 9223372036 → seconds_or n default ≤ 9223372036
seconds_or-le n default h k = ground arith

new-configured :
    (p : Policy)
    → p.window_seconds ≤ 9223372036
    → p.lockout_seconds ≤ 9223372036
    → new p ≡ some (configured p)
unfolding new
new-configured p h k =
    rw
      (
        duration-exact _ (seconds_or-le p.window_seconds 300 h (omega arith)),
        duration-exact _ (seconds_or-le p.lockout_seconds 900 k (omega arith)),
      )
      refl

configured-IsSoundMap :
    (p : Policy) (now : ℕ)
    → (configured p).window < (configured p).lockout
    → IsSoundMap (configured p).max (configured p).window (configured p).lockout (configured p) now
unfolding Dict.lookup
configured-IsSoundMap p now longer = record {
  policy = record {
    positive = ground arith;
    longer = longer;
    same_max = refl;
    same_window = refl;
    same_lockout = refl;
  };
  keys = tt;
  entries = λ j. tt;
}

-- A policy whose durations fit into 64 bits, up to 9,223,372,036 seconds each, gives the throttle that
-- it asks for. If its lockout is longer than its window, then after any events in the order of time
-- every entry has a count of at most the maximum, and one that has reached the maximum is locked for
-- at least the lockout from the start of its window.
pub run-bounded :
    (p : Policy) (now : ℕ) (es : List (ℕ × Event)) (key : String) (e : Entry)
    → p.window_seconds ≤ 9223372036
    → p.lockout_seconds ≤ 9223372036
    → (configured p).window < (configured p).lockout
    → InOrder now es
    → Dict.lookup key (run (configured p) es).entries ≡ some e
    → (new p ≡ some (configured p))
      × (e.failures ≤ (configured p).max)
      × ((configured p).max ≤ e.failures
          → e.window_start + (configured p).lockout ≤ e.lockout_until)
run-bounded p now es key e window lockout longer ordered found =
    let h =
      run-IsSoundMap _ _ _ (configured p) now es ordered (configured-IsSoundMap p now longer) in
    let s = rw found at (h.entries key) in (new-configured p window lockout, s.bounded, s.locking)
