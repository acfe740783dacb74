-- ===== src/Assign/Settling.antt =====
-- What a reconcile leaves to deploy: the profiles whose send failed, and nothing else.
use cairn_mdm.Prelude.{
  ℕ, String, Bool, true, false, ◌&&◌, not, List, [], ◌∷◌, none, some, ◌≡◌, refl, sym, ◌∙◌, arith,
  if◌then◌else◌, nat_eq, string_eq, ◌==◌, select, find, any, All, Bool-cases, inl, inr, subst,
}
use cairn_mdm.Sql.{ok, err, driver, stmt, pure, catch, working, ◌>>=◌}
use cairn_mdm.Storage.Fleet.{Fleet, Profile}
use cairn_mdm.Storage.Fleet.Profiles.{is_profile}
use cairn_mdm.Storage.Fleet.Groups.{
  profiles_to_deploy, to_deploy, mark_deploy_sent, mark_rows, is_deploy, sent_deploy,
}
use cairn_mdm.Assign.{Commander, push_all, reconcile_device}
use cairn_mdm.Assign.Marking.{
  UniqueIds, SameVersion, select-All, all_known, found-head, absent_at, same_versions,
  mark_rows-deploys, mark_rows-goal,
}

-- The tables that say which profiles a device should have are the same.
pub record SameGoal (f g : Fleet) : Type 0 where
  pub profiles : g.profiles ≡ f.profiles
  pub members : g.members ≡ f.members
  pub assignments : g.assignments ≡ f.assignments
  pub deploys : g.deploys ≡ f.deploys

-- A commander over a database that works: whether it takes a profile for a device does not depend
-- on the rows, and it touches neither goals nor deploys.
pub record IsDelivering (k : Commander) : Type 0 where
  pub accepts : String → String → Bool
  pub uuid : String → String → Fleet → String
  pub after : String → String → Fleet → Fleet
  pub sends :
      (bytes device : String) (f : Fleet)
      → k.send bytes device (working f) ≡ (
        if accepts bytes device then ok (uuid bytes device f) else err driver,
        working (after bytes device f),
      )
  pub keeps : (bytes device : String) (f : Fleet) → SameGoal f (after bytes device f)

module _ (k : Commander) (d : IsDelivering k) (now : ℕ) (device : String) where
  -- the rows that the loop leaves for one profile, and for a list of them
  abbrev one : Profile → Fleet → Fleet
  one p f =
      if d.accepts p.bytes device
      then (mark_rows now device p.id (d.uuid p.bytes device f) p.updated_at
          (d.after p.bytes device f)).1
      else d.after p.bytes device f

  abbrev every : List Profile → Fleet → Fleet
  every [] f = f
  every (p ∷ ps) f = every ps (one p f)

  push_all-every :
      (ps : List Profile) (f : Fleet)
      → push_all k now device ps (working f) ≡ (ok tt, working (every ps f))
  unfolding pure catch ◌>>=◌ mark_deploy_sent stmt
  push_all-every [] f = refl
  push_all-every (p ∷ ps) f =
      rw (d.sends p.bytes device f) (elim (Bool-cases (d.accepts p.bytes device)) [
        | inl e ↦ rw e (push_all-every ps _)
        | inr e ↦ rw e (push_all-every ps _)
      ])

  one-goal :
      (p : Profile) (f : Fleet)
      → ((one p f).profiles ≡ f.profiles)
        × ((one p f).members ≡ f.members)
        × ((one p f).assignments ≡ f.assignments)
  one-goal p f =
      let same = d.keeps p.bytes device f in
      let (mp, mm, ma) =
        mark_rows-goal now device p.id (d.uuid p.bytes device f) p.updated_at
          (d.after p.bytes device f) in
      elim (Bool-cases (d.accepts p.bytes device)) [
        | inl e ↦ rw e (mp ∙ same.profiles, mm ∙ same.members, ma ∙ same.assignments)
        | inr e ↦ rw e (same.profiles, same.members, same.assignments)
      ]

  one-deploys :
      (p : Profile) (f : Fleet) (other : ℕ)
      → any (is_profile p.id) f.profiles ≡ true
      → find (is_deploy device other) (one p f).deploys ≡ (
          if p.id == other && d.accepts p.bytes device
          then some (sent_deploy now device p.id (d.uuid p.bytes device f) p.updated_at)
          else find (is_deploy device other) f.deploys)
  one-deploys p f other known =
      let same = d.keeps p.bytes device f in
      elim (Bool-cases (d.accepts p.bytes device)) [
        | inl e ↦ rw e (
            rw
              (
                mark_rows-deploys now device p.id (d.uuid p.bytes device f) p.updated_at
                    (d.after p.bytes device f) other (rw same.profiles known),
                same.deploys,
              )
              (ground arith))
        | inr e ↦ rw (e, same.deploys) (ground arith)
      ]

  -- the goal for a profile: what `to_deploy` asks, once the deploy row is known
  one-to_deploy :
      (p q : Profile) (f : Fleet)
      → any (is_profile p.id) f.profiles ≡ true
      → SameVersion q p
      → to_deploy (one p f) device q
        ≡ (to_deploy f device q && not (p.id == q.id && d.accepts p.bytes device))
  one-to_deploy p q f known same_version =
      let (gp, gm, ga) = one-goal p f in
      rw (one-deploys p f q.id known, gm, ga) (ground (arith, same_version))

  abbrev covers : ℕ → Profile → Bool
  covers id p = p.id == id && d.accepts p.bytes device

  every-to_deploy :
      (ps : List Profile) (q : Profile) (f : Fleet)
      → All (λ p. any (is_profile p.id) f.profiles ≡ true) ps
      → All (SameVersion q) ps
      → to_deploy (every ps f) device q ≡ (to_deploy f device q && not (any (covers q.id) ps))
  every-to_deploy [] q f known same_version = ground arith
  every-to_deploy (p ∷ ps) q f (h, known) (v, same_version) =
      let (gp, gm, ga) = one-goal p f in
      every-to_deploy ps q (one p f)
        (subst (λ x. All (λ r. any (is_profile r.id) x ≡ true) ps) (sym gp) known) same_version
      ∙ rw (one-to_deploy p q f h v) (ground arith)

  any-covers_absent :
      (t : Profile → Bool) (q : Profile) (xs : List Profile)
      → find (is_profile q.id) xs ≡ none
      → any (covers q.id) (select t xs) ≡ false
  any-covers_absent t q [] h = refl
  any-covers_absent t q (x ∷ xs) h = ground (arith, any-covers_absent t q xs)

  any-covers :
      (t : Profile → Bool) (q : Profile) (xs : List Profile)
      → UniqueIds xs
      → find (is_profile q.id) xs ≡ some q
      → any (covers q.id) (select t xs) ≡ (t q && d.accepts q.bytes device)
  any-covers t q [] u h = cc
  any-covers t q (x ∷ xs) (u, us) h = elim (Bool-cases (x.id == q.id)) [
    | inl e ↦
        let same = found-head q x xs e h in
        let none_left = any-covers_absent t q xs (absent_at x.id q.id xs e u) in
        subst (λ p. any (covers q.id) (select t (p ∷ xs)) ≡ (t q && d.accepts q.bytes device))
          (sym same) (ground (arith, none_left))
    | inr e ↦ ground (arith, any-covers t q xs us)
  ]

  -- A reconcile of a device at a database that works: it returns no error, and afterwards a
  -- profile of the library is still to be deployed to the device exactly if it was before and the
  -- commander did not take it.
  pub reconcile_device-settles :
      (f : Fleet) (q : Profile)
      → UniqueIds f.profiles
      → find (is_profile q.id) f.profiles ≡ some q
      → ((reconcile_device k now device (working f)).0 ≡ ok tt)
        × (to_deploy (reconcile_device k now device (working f)).1.rows device q
            ≡ (to_deploy f device q && not (d.accepts q.bytes device)))
  unfolding reconcile_device profiles_to_deploy stmt ◌>>=◌
  reconcile_device-settles f q u found =
      rw (push_all-every (select (to_deploy f device) f.profiles) f) (
        refl,
        every-to_deploy _ q f (select-All _ _ f.profiles (all_known f.profiles))
              (select-All _ _ f.profiles (same_versions q f.profiles u found))
            ∙ rw (any-covers (to_deploy f device) q f.profiles u found) (ground arith),
      )
