-- ===== src/Auth/Throttle.antt =====
-- The login throttle (internal/auth/throttle.go). Times are nanoseconds since Go's zero time, so
-- the zero `time.Time` of a fresh entry is 0; `time.Now()` is an argument of each call. The mutex
-- makes each call one step. Durations are natural numbers of nanoseconds: `config.Validate` rejects a
-- policy with a negative field before a throttle is built from it, and `new` says what becomes of a
-- field that is too large.
pub mod Lockout
mod Tests
pub mod Runs
use cairn_mdm.Prelude.{
  ℕ, ◌+◌, ◌-◌, ◌*◌, ◌%◌, String, Bool, true, false, ◌&&◌, List, [], ◌∷◌, Option, none, some, ltb,
  leb, nat_eq, ◌==◌, if◌then◌else◌,
}
use cairn_mdm.Prelude.Dict
use cairn_mdm.Prelude.Dict.{Dict}

-- `throttleEntry`
pub record Entry : Type 0 where
  pub failures : ℕ
  pub window_start : ℕ
  pub lockout_until : ℕ
  pub last_seen : ℕ

-- `LoginThrottle`
pub record Throttle : Type 0 where
  pub entries : Dict Entry
  pub max : ℕ
  pub window : ℕ
  pub lockout : ℕ

-- the three fields of `config.LoginPolicy` that concern the throttle, and their defaults
pub record Policy : Type 0 where
  pub max_attempts : ℕ
  pub window_seconds : ℕ
  pub lockout_seconds : ℕ

abbrev pub second : ℕ
second = 1000000000

abbrev or_default : ℕ → ℕ → ℕ
or_default n default = if n == 0 then default else n

-- `time.Duration(n) * time.Second` in 64 bits; `none` is a duration that has become negative
unfoldable pub duration : ℕ → Option ℕ
duration n =
    if ltb (n * second % 18446744073709551616) 9223372036854775808
    then some (n * second % 18446744073709551616)
    else none

abbrev with_durations : ℕ → Option ℕ → Option ℕ → Option Throttle
with_durations max none lockout = none
with_durations max (some window) none = none
with_durations max (some window) (some lockout) =
    some (record { entries = []; max = max; window = window; lockout = lockout })

-- `NewLoginThrottle`, with `LoginPolicy.WithDefaults`; a throttle with a negative duration, which the
-- source would go on with, is not modelled and is `none`
unfoldable pub new : Policy → Option Throttle
unfolding duration
new p =
    with_durations (or_default p.max_attempts 5) (duration (or_default p.window_seconds 300))
      (duration (or_default p.lockout_seconds 900))

abbrev pub answer : ℕ → Option Entry → Bool × ℕ
answer now none = (true, 0)
answer now (some e) = if ltb now e.lockout_until then (false, e.lockout_until - now) else (true, 0)

-- `Allowed`
unfoldable pub allowed : Throttle → ℕ → String → Bool × ℕ
allowed t now key = answer now (Dict.lookup key t.entries)

-- the entry that `RecordFailure` finds or makes
abbrev found_or_new : ℕ → Option Entry → Entry
found_or_new now none = record {
  failures = 0;
  window_start = now;
  lockout_until = 0;
  last_seen = 0;
}
found_or_new now (some e) = e

-- the window has elapsed: count afresh
abbrev restart : ℕ → ℕ → Entry → Entry
restart window now e =
    if ltb window (now - e.window_start) then record e { window_start = now; failures = 0 } else e

abbrev lock_at_max : ℕ → ℕ → ℕ → Entry → Entry
lock_at_max max lockout now e =
    if leb max e.failures then record e { lockout_until = now + lockout } else e

-- the changes of `RecordFailure` to its entry, in the order of the source
unfoldable pub fail_entry : Throttle → ℕ → Entry → Entry
fail_entry t now e =
    let seen : Entry = record e { last_seen = now } in
    if ltb now seen.lockout_until
    then seen
    else let fresh : Entry = restart t.window now seen in
      lock_at_max t.max t.lockout now (record fresh { failures = fresh.failures + 1 })

-- `RecordFailure`
unfoldable pub record_failure : Throttle → ℕ → String → Throttle
record_failure t now key = record t {
  entries =
      Dict.insert key (fail_entry t now (found_or_new now (Dict.lookup key t.entries))) t.entries;
}

-- `RecordSuccess`
unfoldable pub record_success : Throttle → String → Throttle
record_success t key = record t { entries = Dict.delete key t.entries }

unfoldable pub stale : Throttle → ℕ → Entry → Bool
stale t now e = ltb e.lockout_until now && ltb t.window (now - e.last_seen)

unfoldable pub sweep : Throttle → ℕ → Dict Entry → Dict Entry
sweep t now [] = []
sweep t now ((k, e) ∷ m) = let rest = sweep t now m in if stale t now e then rest else (k, e) ∷ rest

-- `Cleanup`
unfoldable pub cleanup : Throttle → ℕ → Throttle
cleanup t now = record t { entries = sweep t now t.entries }
