-- ===== src/Auth/Throttle/Runs/Cleanup.antt =====
-- What later answers say of the entries that `Cleanup` drops.
use cairn_mdm.Prelude.{
  ℕ, ◌-◌, ◌≤◌, ◌<◌, ◌≡◌, refl, String, List, [], ◌∷◌, Option, none, some, arith, Bool-cases, ◌⊎◌,
  inl, inr, Bool, true, false, if◌then◌else◌, ◌==◌, string_eq, ◌∙◌,
}
use cairn_mdm.Prelude.Dict
use cairn_mdm.Prelude.Dict.{IsMap}
use cairn_mdm.Auth.Throttle.{
  Entry, Throttle, answer, allowed, found_or_new, fail_entry, cleanup, stale,
}
use cairn_mdm.Auth.Throttle.Runs.{
  Event, failed, succeeded, cleaned, step, run, InOrder, end_time, step-IsMap, lookup-step, effect,
  keep, same_policy,
}

-- The entry has nothing left to say: its lockout is over and its window has elapsed.
abbrev Spent : Throttle → ℕ → Entry → Type 0
Spent t now e =
    (e.lockout_until ≤ now) × (t.window < now - e.last_seen) × (e.window_start ≤ e.last_seen)

-- The entries of two throttles that answer alike from `now` on.
abbrev Alike : Throttle → ℕ → Option Entry → Option Entry → Type 0
Alike t now none none = Unit
Alike t now none (some e) = Spent t now e
Alike t now (some e) none = Spent t now e
Alike t now (some d) (some e) =
    (d.failures ≡ e.failures)
    × (d.window_start ≡ e.window_start)
    × (d.last_seen ≡ e.last_seen)
    × (d.window_start ≤ d.last_seen)
    × (d.last_seen ≤ now)
    × ((d.lockout_until ≡ e.lockout_until) ⊎ ((d.lockout_until ≤ now) × (e.lockout_until ≤ now)))

module _ (t : Throttle) (now now' : ℕ) (later : now ≤ now') where
  Alike-later : (o p : Option Entry) → Alike t now o p → Alike t now' o p
  Alike-later none none h = tt
  Alike-later none (some e) h = omega arith
  Alike-later (some e) none h = omega arith
  Alike-later (some d) (some e) h = ground arith

  fail-Alike :
      (o p : Option Entry)
      → Alike t now o p
      → Alike t now'
          (some (fail_entry t now' (found_or_new now' o)))
          (some (fail_entry t now' (found_or_new now' p)))
  unfolding fail_entry
  fail-Alike none none h = ground arith
  fail-Alike none (some e) h = ground arith
  fail-Alike (some e) none h = ground arith
  fail-Alike (some d) (some e) h = ground arith

  stale-Spent :
      (d e : Entry)
      → Alike t now' (some d) (some e)
      → ((stale t now' d ≡ true) → Spent t now' e) × ((stale t now' e ≡ true) → Spent t now' d)
  unfolding stale
  stale-Spent d e h = ground arith

  keep-Alike :
      (o p : Option Entry) → Alike t now' o p → Alike t now' (keep t now' o) (keep t now' p)
  keep-Alike none none h = tt
  keep-Alike none (some e) h = elim (Bool-cases (stale t now' e)) [
    | inl s ↦ rw s tt
    | inr s ↦ rw s h
  ]
  keep-Alike (some e) none h = elim (Bool-cases (stale t now' e)) [
    | inl s ↦ rw s tt
    | inr s ↦ rw s h
  ]
  keep-Alike (some d) (some e) h = elim (Bool-cases (stale t now' d)) [
    | inl sd ↦ elim (Bool-cases (stale t now' e)) [
      | inl se ↦ rw (sd, se) tt
      | inr se ↦ rw (sd, se) ((stale-Spent d e h).0 sd)
    ]
    | inr sd ↦ elim (Bool-cases (stale t now' e)) [
      | inl se ↦ rw (sd, se) ((stale-Spent d e h).1 se)
      | inr se ↦ rw (sd, se) h
    ]
  ]

  answer-Alike : (o p : Option Entry) → Alike t now' o p → answer now' o ≡ answer now' p
  answer-Alike none none h = refl
  answer-Alike none (some e) h = ground arith
  answer-Alike (some e) none h = ground arith
  answer-Alike (some d) (some e) h = ground arith

  Alike-if :
      (b : Bool) (o o' p p' : Option Entry)
      → Alike t now' o o'
      → Alike t now' p p'
      → Alike t now' (if b then o else p) (if b then o' else p')
  Alike-if true o o' p p' ho hp = ho
  Alike-if false o o' p p' ho hp = hp

  effect-Alike :
      (e : Event) (j : String) (o p : Option Entry)
      → Alike t now o p
      → Alike t now' (effect t now' e j o) (effect t now' e j p)
  effect-Alike (failed key) j o p h =
      Alike-if (key == j) (some (fail_entry t now' (found_or_new now' o)))
        (some (fail_entry t now' (found_or_new now' p))) o p (fail-Alike o p h) (Alike-later o p h)
  effect-Alike (succeeded key) j o p h = Alike-if (key == j) none none o p tt (Alike-later o p h)
  effect-Alike cleaned j o p h = keep-Alike o p (Alike-later o p h)

-- Two throttles of one policy with entries that are alike at `now`.
record AlikeMaps (t u v : Throttle) (now : ℕ) : Type 0 where
  policy_u : (u.max ≡ t.max) × (u.window ≡ t.window) × (u.lockout ≡ t.lockout)
  policy_v : (v.max ≡ t.max) × (v.window ≡ t.window) × (v.lockout ≡ t.lockout)
  keys_u : IsMap u.entries
  keys_v : IsMap v.entries
  alike : (j : String) → Alike t now (Dict.lookup j u.entries) (Dict.lookup j v.entries)

-- the effect of an event depends on the policy alone
effect-policy :
    (t u : Throttle) (now : ℕ) (e : Event) (j : String) (o : Option Entry)
    → (u.max ≡ t.max) × (u.window ≡ t.window) × (u.lockout ≡ t.lockout)
    → effect u now e j o ≡ effect t now e j o
unfolding fail_entry stale
effect-policy t u now (failed key) j o h = ground arith
effect-policy t u now (succeeded key) j o h = refl
effect-policy t u now cleaned j none h = refl
effect-policy t u now cleaned j (some e) h = ground arith

abbrev SamePolicy : Throttle → Throttle → Type 0
SamePolicy t u = (u.max ≡ t.max) × (u.window ≡ t.window) × (u.lockout ≡ t.lockout)

step-SamePolicy :
    (t u : Throttle) (now : ℕ) (e : Event) → SamePolicy t u → SamePolicy t (step u now e)
step-SamePolicy t u now e h = let (m, w, l) = same_policy u now e in (m ∙ h.0, w ∙ h.1, l ∙ h.2)

step-AlikeMaps :
    (t u v : Throttle) (now now' : ℕ) (e : Event)
    → now ≤ now'
    → AlikeMaps t u v now
    → AlikeMaps t (step u now' e) (step v now' e) now'
step-AlikeMaps t u v now now' e later h = record {
  policy_u = step-SamePolicy t u now' e h.policy_u;
  policy_v = step-SamePolicy t v now' e h.policy_v;
  keys_u = step-IsMap u now' e h.keys_u;
  keys_v = step-IsMap v now' e h.keys_v;
  alike = λ j.
      rw
        (
          lookup-step u now' e j h.keys_u,
          lookup-step v now' e j h.keys_v,
          effect-policy t u now' e j _ h.policy_u,
          effect-policy t v now' e j _ h.policy_v,
        )
        (effect-Alike t now now' later e j _ _ (h.alike j));
}

run-AlikeMaps :
    (t u v : Throttle) (now : ℕ) (es : List (ℕ × Event))
    → InOrder now es
    → AlikeMaps t u v now
    → AlikeMaps t (run u es) (run v es) (end_time now es)
run-AlikeMaps t u v now [] ordered h = h
run-AlikeMaps t u v now ((now', e) ∷ es) (later, ordered) h =
    run-AlikeMaps t (step u now' e) (step v now' e) now' es ordered
      (step-AlikeMaps t u v now now' e later h)

AlikeMaps-later :
    (t u v : Throttle) (now now' : ℕ) → now ≤ now' → AlikeMaps t u v now → AlikeMaps t u v now'
AlikeMaps-later t u v now now' later h = record {
  policy_u = h.policy_u;
  policy_v = h.policy_v;
  keys_u = h.keys_u;
  keys_v = h.keys_v;
  alike = λ j. Alike-later t now now' later _ _ (h.alike j);
}

new-AlikeMaps : (t : Throttle) (now : ℕ) → t.entries ≡ [] → AlikeMaps t t t now
unfolding Dict.lookup
new-AlikeMaps t now empty = record {
  policy_u = (refl, refl, refl);
  policy_v = (refl, refl, refl);
  keys_u = rw empty tt;
  keys_v = rw empty tt;
  alike = λ j. rw empty tt;
}

Alike-keep :
    (t : Throttle) (now : ℕ) (o : Option Entry) → Alike t now o o → Alike t now (keep t now o) o
unfolding stale
Alike-keep t now none h = tt
Alike-keep t now (some e) h = elim (Bool-cases (stale t now e)) [
  | inl s ↦ rw s (ground arith)
  | inr s ↦ rw s h
]

cleanup-AlikeMaps :
    (t u : Throttle) (now : ℕ) → AlikeMaps t u u now → AlikeMaps t (step u now cleaned) u now
cleanup-AlikeMaps t u now h = record {
  policy_u = step-SamePolicy t u now cleaned h.policy_u;
  policy_v = h.policy_v;
  keys_u = step-IsMap u now cleaned h.keys_u;
  keys_v = h.keys_v;
  alike = λ j.
      rw (lookup-step u now cleaned j h.keys_u, effect-policy t u now cleaned j _ h.policy_u)
        (Alike-keep t now _ (h.alike j));
}

-- Take any events on a throttle without entries, as a new one is, in the order of time, and at a later time a cleanup or none:
-- after any further events every key gets the same answer either way.
pub cleanup_invisible :
    (fresh : Throttle) (start : ℕ) (before : List (ℕ × Event)) (now : ℕ) (after : List (ℕ × Event))
    (later : ℕ) (key : String)
    → fresh.entries ≡ []
    → InOrder start before
    → end_time start before ≤ now
    → InOrder now after
    → end_time now after ≤ later
    → allowed (run (cleanup (run fresh before) now) after) later key
      ≡ allowed (run (run fresh before) after) later key
unfolding allowed
cleanup_invisible fresh start before now after later key empty ordered gap ordered' end =
    let t = run fresh before in
    let h =
      run-AlikeMaps fresh fresh fresh start before ordered (new-AlikeMaps fresh start empty) in
    let k =
      run-AlikeMaps fresh (cleanup t now) t now after ordered'
        (cleanup-AlikeMaps fresh t now (AlikeMaps-later fresh t t _ now gap h)) in
    answer-Alike fresh later later (omega arith) _ _
      ((AlikeMaps-later fresh _ _ _ later end k).alike key)
