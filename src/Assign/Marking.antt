-- ===== src/Assign/Marking.antt =====
-- What `MarkDeploySent` makes of the deploys, and which version of a profile a listing has.
use cairn_mdm.Prelude.{
  ℕ, String, Bool, true, false, ◌&&◌, List, [], ◌∷◌, ◌++◌, none, some, ◌≡◌, ap, arith, eq_iff,
  if◌then◌else◌, nat_eq, string_eq, ◌==◌, select, update, find, any, All, Bool-cases, inl, inr,
}
use cairn_mdm.Storage.Fleet.{Fleet, Profile, Deploy}
use cairn_mdm.Storage.Fleet.Profiles.{is_profile}
use cairn_mdm.Storage.Fleet.Groups.{mark_rows, is_deploy, sent_deploy}

-- No two profiles have the same id, as the primary key has it.
abbrev pub UniqueIds : List Profile → Type 0
UniqueIds [] = Unit
UniqueIds (p ∷ ps) = (find (is_profile p.id) ps ≡ none) × UniqueIds ps

pub map-All :
    {P Q : Profile → Type 0} (xs : List Profile) → ((p : Profile) → P p → Q p) → All P xs → All Q xs
map-All [] h a = tt
map-All (x ∷ xs) h (a, rest) = (h x a, map-All xs h rest)

pub select-All :
    (P : Profile → Type 0) (t : Profile → Bool) (xs : List Profile) → All P xs → All P (select t xs)
select-All P t [] a = tt
select-All P t (x ∷ xs) (a, rest) = elim (Bool-cases (t x)) [
  | inl e ↦ rw e (a, select-All P t xs rest)
  | inr e ↦ rw e (select-All P t xs rest)
]

pub all_known : (xs : List Profile) → All (λ p. any (is_profile p.id) xs ≡ true) xs
all_known [] = tt
all_known (x ∷ xs) = (ground arith, map-All xs (λ p h. ground arith) (all_known xs))

-- The version that a list has of the profile q, where it has one.
abbrev pub SameVersion : Profile → Profile → Type 0
SameVersion q p = (p.id == q.id) ≡ true → p.updated_at ≡ q.updated_at

pub absent-SameVersion :
    (q : Profile) (xs : List Profile) → find (is_profile q.id) xs ≡ none → All (SameVersion q) xs
absent-SameVersion q [] h = tt
absent-SameVersion q (x ∷ xs) h = (ground arith, absent-SameVersion q xs (ground arith))

pub found-head :
    (q x : Profile) (xs : List Profile)
    → (x.id == q.id) ≡ true
    → find (is_profile q.id) (x ∷ xs) ≡ some q
    → x ≡ q
found-head q x xs e h = ground arith

pub absent_at :
    (m n : ℕ) (xs : List Profile)
    → (m == n) ≡ true
    → find (is_profile m) xs ≡ none
    → find (is_profile n) xs ≡ none
absent_at m n xs e h = ground arith

pub same_versions :
    (q : Profile) (xs : List Profile)
    → UniqueIds xs
    → find (is_profile q.id) xs ≡ some q
    → All (SameVersion q) xs
same_versions q [] u h = tt
same_versions q (x ∷ xs) (u, us) h = elim (Bool-cases (x.id == q.id)) [
  | inl e ↦ (
    λ v. ap (λ p. p.updated_at) (found-head q x xs e h),
    absent-SameVersion q xs (absent_at x.id q.id xs e u),
  )
  | inr e ↦ (ground arith, same_versions q xs us (ground arith))
]

find-update_deploy :
    (device : String) (id other : ℕ) (new : Deploy) (xs : List Deploy)
    → is_deploy device id new ≡ true
    → find (is_deploy device other) (update (is_deploy device id) (λ d. new) xs) ≡ (
        if id == other && any (is_deploy device id) xs
        then some new
        else find (is_deploy device other) xs)
find-update_deploy device id other new [] h = ground arith
find-update_deploy device id other new (x ∷ xs) h = ground (
  arith,
  find-update_deploy device id other new xs,
  eq_iff x.device_id device,
  eq_iff new.device_id device,
)

find-add_deploy :
    (device : String) (id other : ℕ) (new : Deploy) (xs : List Deploy)
    → is_deploy device id new ≡ true
    → any (is_deploy device id) xs ≡ false
    → find (is_deploy device other) (xs ++ new ∷ [])
      ≡ (if id == other then some new else find (is_deploy device other) xs)
find-add_deploy device id other new [] h missing = ground (arith, eq_iff new.device_id device)
find-add_deploy device id other new (x ∷ xs) h missing =
    ground (arith, find-add_deploy device id other new xs, eq_iff x.device_id device)

module _ (now : ℕ) (device : String) (id : ℕ) (uuid : String) (version : ℕ) (f : Fleet) where
  marked-is_deploy : is_deploy device id (sent_deploy now device id uuid version) ≡ true
  marked-is_deploy = ground (arith, eq_iff device device)

  pub mark_rows-deploys :
      (other : ℕ)
      → any (is_profile id) f.profiles ≡ true
      → find (is_deploy device other) (mark_rows now device id uuid version f).1.deploys ≡ (
          if id == other
          then some (sent_deploy now device id uuid version)
          else find (is_deploy device other) f.deploys)
  mark_rows-deploys other known =
      rw known (elim (Bool-cases (any (is_deploy device id) f.deploys)) [
        | inl e ↦ rw e (
            rw
              (
                find-update_deploy device id other (sent_deploy now device id uuid version)
                    f.deploys marked-is_deploy,
                e,
              )
              (ground arith))
        | inr e ↦ rw e (
            find-add_deploy device id other (sent_deploy now device id uuid version) f.deploys
              marked-is_deploy e)
      ])

  pub mark_rows-goal :
      ((mark_rows now device id uuid version f).1.profiles ≡ f.profiles)
      × ((mark_rows now device id uuid version f).1.members ≡ f.members)
      × ((mark_rows now device id uuid version f).1.assignments ≡ f.assignments)
  mark_rows-goal = ground arith
