-- ===== src/Storage/Fleet/Deploys/Rollup.antt =====
-- How many devices a rollup counts.
use cairn_mdm.Prelude.{
  ℕ, ◌+◌, ◌≤◌, String, Bool, List, [], ◌∷◌, Option, none, some, ◌≡◌, refl, string_eq, nat_eq, ◌==◌,
  if◌then◌else◌, All, select, count, find, insert_by, sort_by, length-append, length, Bool-cases,
  inl, inr, arith, eq_iff,
}
use cairn_mdm.Sql.{ok, working, stmt}
use cairn_mdm.Storage.Fleet.{Fleet, Profile, Assignment, Member, Deploy}
use cairn_mdm.Storage.Fleet.Profiles.{is_profile}
use cairn_mdm.Storage.Fleet.Groups.{is_deploy}
use cairn_mdm.Storage.Fleet.Deploys.{
  GroupProfileStatus, member_deploys, with_status, rolled_up, roll_up_found, roll_up,
  group_deploy_status,
}

-- No device has two deploys of one profile, as the primary key has it.
abbrev pub UniqueDeploys : Fleet → Type 0
UniqueDeploys f =
    (device : String) (profile : ℕ) → length (select (is_deploy device profile) f.deploys) ≤ 1

-- Of each row, the counts add up to at most this number.
abbrev pub IsWithin : ℕ → GroupProfileStatus → Type 0
IsWithin n s = s.installed + s.pending + s.failed ≤ n

abbrev pub members_of : ℕ → Fleet → ℕ
members_of group f = count (λ m. m.group_id == group) f.members

abbrev is : String → String → ℕ
is s status = if s == status then 1 else 0

one_status : (s : String) → is s "installed" + is s "sent" + is s "failed" ≤ 1
one_status s = elim (Bool-cases (s == "installed")) [
  | inl e ↦ rw ((eq_iff s "installed").0 e) (omega arith)
  | inr e ↦ elim (Bool-cases (s == "sent")) [
    | inl h ↦ rw ((eq_iff s "sent").0 h) (omega arith)
    | inr h ↦ rw (e, h) (ground arith)
  ]
]

with_status-disjoint :
    (ds : List Deploy)
    → with_status "installed" ds + with_status "sent" ds + with_status "failed" ds ≤ length ds
with_status-disjoint [] = omega arith
with_status-disjoint (d ∷ ds) = omega (arith, with_status-disjoint ds, one_status d.status)

member_deploys-few :
    (group profile : ℕ) (deps : List Deploy) (ms : List Member)
    → ((device : String) → length (select (is_deploy device profile) deps) ≤ 1)
    → length (member_deploys group profile deps ms) ≤ count (λ m. m.group_id == group) ms
member_deploys-few group profile deps [] unique = omega arith
member_deploys-few group profile deps (m ∷ ms) unique = elim (Bool-cases (m.group_id == group)) [
  | inl e ↦ rw e (
      omega (
        arith,
        unique m.device_id,
        member_deploys-few group profile deps ms unique,
        length-append (select (is_deploy m.device_id profile) deps)
            (member_deploys group profile deps ms),
      ))
  | inr e ↦ rw e (omega (arith, member_deploys-few group profile deps ms unique))
]

rolled_up-IsWithin :
    (group : ℕ) (f : Fleet) (p : Profile)
    → UniqueDeploys f
    → IsWithin (members_of group f) (rolled_up p (member_deploys group p.id f.deploys f.members))
rolled_up-IsWithin group f p unique = omega (
  arith,
  with_status-disjoint (member_deploys group p.id f.deploys f.members),
  member_deploys-few group p.id f.deploys f.members (λ device. unique device p.id),
)

roll_up_found-IsWithin :
    (group : ℕ) (f : Fleet) (o : Option Profile) (rest : List GroupProfileStatus)
    → UniqueDeploys f
    → All (IsWithin (members_of group f)) rest
    → All (IsWithin (members_of group f)) (roll_up_found group f o rest)
roll_up_found-IsWithin group f none rest unique h = h
roll_up_found-IsWithin group f (some p) rest unique h = (rolled_up-IsWithin group f p unique, h)

roll_up-IsWithin :
    (group : ℕ) (f : Fleet) (xs : List Assignment)
    → UniqueDeploys f
    → All (IsWithin (members_of group f)) (roll_up group f xs)
roll_up-IsWithin group f [] unique = tt
roll_up-IsWithin group f (a ∷ xs) unique = elim (Bool-cases (a.group_id == group)) [
  | inl e ↦ rw e (
      roll_up_found-IsWithin group f (find (is_profile a.profile_id) f.profiles) _ unique
        (roll_up-IsWithin group f xs unique))
  | inr e ↦ rw e (roll_up-IsWithin group f xs unique)
]

module _ {A : Type 0} (P : A → Type 0) (before : A → A → Bool) where
  insert_by-All : (x : A) (xs : List A) → P x → All P xs → All P (insert_by before x xs)
  insert_by-All x [] px h = (px, tt)
  insert_by-All x (y ∷ ys) px (py, h) = elim (Bool-cases (before y x)) [
    | inl e ↦ rw e (py, insert_by-All x ys px h)
    | inr e ↦ rw e (px, (py, h))
  ]

  sort_by-All : (xs : List A) → All P xs → All P (sort_by before xs)
  sort_by-All [] h = tt
  sort_by-All (x ∷ xs) (px, h) = insert_by-All x (sort_by before xs) px (sort_by-All xs h)

-- Where no device has two deploys of one profile and no statement fails: in each row of the rollup
-- of a group, the devices on which the profile is installed, pending and failed are together no more
-- than the members of the group.
pub group_deploy_status-IsWithin :
    (before : String → String → Bool) (group : ℕ) (f : Fleet)
    → UniqueDeploys f
    → (rows : List GroupProfileStatus) × ((group_deploy_status before group (working f)).0
        ≡ ok rows)
      × All (IsWithin (members_of group f)) rows
unfolding group_deploy_status stmt
group_deploy_status-IsWithin before group f unique = (
  _,
  refl,
  sort_by-All (IsWithin (members_of group f)) _ (roll_up group f f.assignments)
      (roll_up-IsWithin group f f.assignments unique),
)
