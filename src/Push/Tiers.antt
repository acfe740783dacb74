-- ===== src/Push/Tiers.antt =====
-- The tier of a certificate that has expired.
use cairn_mdm.Prelude.{
  ℕ, ◌+◌, ◌-◌, ◌/◌, ◌≤◌, ◌<◌, ◌≡◌, refl, ap, ◌∙◌, ◌⊎◌, inl, inr, arith, ltb, string_eq, Bool-cases,
  zero, suc,
}
use cairn_mdm.Prelude.Int.{ℤ, pos, negate}
use cairn_mdm.Push.{day, days_until, tier, renewal_tier, severity_rank}

abbrev pub rank_of : ℤ → ℕ
unfolding severity_rank
rank_of d = severity_rank (tier d).0

tier-negate : (q : ℕ) → 1 ≤ q → tier (negate q) ≡ ("critical", "expired")
tier-negate zero h = absurd (omega arith)
tier-negate (suc q) h = refl

days_until-past :
    (now not_after : ℕ)
    → not_after < now
    → days_until now not_after ≡ negate ((now - not_after) / day)
unfolding days_until
days_until-past now not_after h = ground arith

days_until-recent :
    (now not_after : ℕ) → not_after < now → now < not_after + day → days_until now not_after ≡ pos 0
days_until-recent now not_after h k =
    let none_whole : (now - not_after) / day ≡ 0 = omega arith in
    days_until-past now not_after h ∙ ap negate none_whole

whole_day : (now not_after : ℕ) → not_after + day ≤ now → 1 ≤ (now - not_after) / day
whole_day now not_after h = omega arith

-- A push certificate that has expired, by whole days: in the first day after that its days are 0 and
-- its label is still "renew now"; from a day on it is "expired". The severity is "critical" in both cases.
pub renewal_tier-expired :
    (now not_after : ℕ)
    → not_after < now
    → ((now < not_after + day) × (renewal_tier now not_after ≡ (pos 0, ("critical", "renew now"))))
      ⊎ ((not_after + day ≤ now) × ((renewal_tier now not_after).1 ≡ ("critical", "expired")))
unfolding renewal_tier
renewal_tier-expired now not_after h = elim (Bool-cases (ltb now (not_after + day))) [
  | inl e ↦ inl (ground arith, rw (days_until-recent now not_after h (ground arith)) refl)
  | inr e ↦ inr (
    ground arith,
    rw (days_until-past now not_after h) (tier-negate _ (whole_day now not_after (ground arith))),
  )
]
