-- ===== src/Web/Console/Enrollment/Lifetime.antt =====
-- The lifetime of a link that the console creates.
use cairn_mdm.Prelude.{ℕ, ◌+◌, ◌*◌, ◌/◌, ◌≤◌, ◌<◌, ◌≡◌, arith, leb, ◌⊎◌, Bool-cases, inl, inr}
use cairn_mdm.Auth.Session.{second}
use cairn_mdm.Web.Console.Enrollment.{expiry, wrapped_hours}

wrapped_hours-exact : (hours : ℕ) → hours ≤ 2562047 → wrapped_hours hours ≡ hours * 3600 * second
unfolding wrapped_hours
wrapped_hours-exact hours h = omega arith

wrapped_hours-negative :
    (hours : ℕ)
    → 2562048 ≤ hours
    → hours ≤ 5124095
    → (9223372036854775808 ≤ wrapped_hours hours)
      × (wrapped_hours hours + second < 18446744073709551616)
unfolding wrapped_hours
wrapped_hours-negative hours h k = omega arith

expiry-short : (now hours : ℕ) → hours ≤ 2562047 → expiry now hours ≡ now / second + hours * 3600
unfolding expiry
expiry-short now hours h = ground (arith, wrapped_hours-exact hours h)

expiry-long :
    (now hours : ℕ)
    → second ≤ now
    → 2562048 ≤ hours
    → hours ≤ 5124095
    → expiry now hours < now / second
unfolding expiry
expiry-long now hours full h k = ground (arith, wrapped_hours-negative hours h k)

-- A link with a lifetime of at most 2,562,047 hours expires that many hours after the time at which it
-- is created, to the second. One with a lifetime from there to 5,124,095 hours, which the 64 bits of
-- a duration do not hold, has expired before it is created.
pub expiry-bounds :
    (now hours : ℕ)
    → second ≤ now
    → hours ≤ 5124095
    → ((hours ≤ 2562047) × (expiry now hours ≡ now / second + hours * 3600))
      ⊎ ((2562047 < hours) × (expiry now hours < now / second))
expiry-bounds now hours full h = elim (Bool-cases (leb hours 2562047)) [
  | inl short ↦ inl (ground arith, expiry-short now hours (ground arith))
  | inr long ↦ inr (ground arith, expiry-long now hours full (ground arith) h)
]
