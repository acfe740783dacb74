-- ===== src/Auth/Role/Mapping.antt =====
-- Which roles the groups of a user can give.
use cairn_mdm.Prelude.{
  if◌then◌else◌, String, ◌≡◌, refl, ◌≤◌, Bool, true, List, [], ◌∷◌, some, arith, Bool-cases, Any,
  ◌⊎◌, inl, inr,
}
use cairn_mdm.Prelude.Dict.{Dict}
use cairn_mdm.Auth.Role.{
  Role, role_user, valid, rank, at_least, lookup_group, raise, raise_all, map_role_ldap,
  map_role_oidc,
}

module _ (equal_fold : String → String → Bool) (m : Dict String) where
  -- The configuration maps this group to this role, which is a known one.
  abbrev pub Maps : Role → String → Type 0
  Maps r group = (lookup_group equal_fold m group ≡ some r) × (valid r ≡ true)

  raise-le : (role : Role) (g : String) → rank role ≤ rank (raise equal_fold m role g)
  unfolding raise at_least
  raise-le role g = ground arith

  raise-above : (role r : Role) (g : String) → Maps r g → rank r ≤ rank (raise equal_fold m role g)
  unfolding raise at_least
  raise-above role r g h = ground arith

  raise-source :
      (role : Role) (g : String)
      → (raise equal_fold m role g ≡ role) ⊎ Maps (raise equal_fold m role g) g
  unfolding raise
  raise-source role g = ground arith

  raise_all-le :
      (groups : List String) (role : Role) → rank role ≤ rank (raise_all equal_fold m role groups)
  unfolding raise_all
  raise_all-le [] role = omega arith
  raise_all-le (g ∷ gs) role =
      omega (arith, raise-le role g, raise_all-le gs (raise equal_fold m role g))

  raise_all-above :
      (groups : List String) (role r : Role)
      → Any (Maps r) groups
      → rank r ≤ rank (raise_all equal_fold m role groups)
  unfolding raise_all
  raise_all-above [] role r h = absurd h
  raise_all-above (g ∷ gs) role r (inl h) =
      omega (arith, raise-above role r g h, raise_all-le gs (raise equal_fold m role g))
  raise_all-above (g ∷ gs) role r (inr h) = raise_all-above gs (raise equal_fold m role g) r h

  raise_all-source :
      (groups : List String) (role : Role)
      → (raise_all equal_fold m role groups ≡ role)
        ⊎ Any (Maps (raise_all equal_fold m role groups)) groups
  unfolding raise_all
  raise_all-source [] role = inl refl
  raise_all-source (g ∷ gs) role = elim (raise_all-source gs (raise equal_fold m role g)) [
    | inl same ↦ ground (arith, raise-source role g)
    | inr found ↦ inr (inr found)
  ]

  -- `role` is the default or the role of a mapped group, and no lower than any of these.
  pub record IsHighest (default role : Role) (groups : List String) : Type 0 where
    pub explicit : (role ≡ default) ⊎ Any (Maps role) groups
    pub at_default : rank default ≤ rank role
    pub at_mapped : (r : Role) → Any (Maps r) groups → rank r ≤ rank role

  raise_all-IsHighest :
      (default : Role) (groups : List String)
      → IsHighest default (raise_all equal_fold m default groups) groups
  raise_all-IsHighest default groups = record {
    explicit = raise_all-source groups default;
    at_default = raise_all-le groups default;
    at_mapped = λ r h. raise_all-above groups default r h;
  }

  raise-valid :
      (role : Role) (g : String) → valid role ≡ true → valid (raise equal_fold m role g) ≡ true
  unfolding raise
  raise-valid role g h = ground arith

  raise_all-valid :
      (groups : List String) (role : Role)
      → valid role ≡ true
      → valid (raise_all equal_fold m role groups) ≡ true
  unfolding raise_all
  raise_all-valid [] role h = h
  raise_all-valid (g ∷ gs) role h =
      raise_all-valid gs (raise equal_fold m role g) (raise-valid role g h)

-- LDAP: the role is the configured default or one that the configuration maps a group of the user
-- to, and it is the highest of these.
pub map_role_ldap-IsHighest :
    (equal_fold : String → String → Bool) (group_roles : Dict String) (default : Role)
    (member_of : List String)
    → IsHighest equal_fold group_roles default
        (map_role_ldap equal_fold group_roles default member_of)
        member_of
unfolding map_role_ldap
map_role_ldap-IsHighest equal_fold group_roles default member_of =
    raise_all-IsHighest equal_fold group_roles default member_of

abbrev pub valid_or_user : Role → Role
valid_or_user r = if valid r then r else role_user

valid_or_user-valid : (r : Role) → valid (valid_or_user r) ≡ true
unfolding valid
valid_or_user-valid r = elim (Bool-cases (valid r)) [
  | inl known ↦ rw known known
  | inr unknown ↦ rw unknown
]

-- OIDC: the role is always a known one, whatever the configured default and the mapped values are;
-- it is the default ("user", if the default is no role) or one that a group of the user is mapped
-- to, and it is the highest of these.
pub map_role_oidc-IsHighest :
    (equal_fold : String → String → Bool) (group_roles : Dict String) (default : Role)
    (groups : List String)
    → (valid (map_role_oidc equal_fold group_roles default groups) ≡ true)
      × IsHighest equal_fold group_roles
          (valid_or_user default)
          (map_role_oidc equal_fold group_roles default groups)
          groups
unfolding map_role_oidc
map_role_oidc-IsHighest equal_fold group_roles default groups = (
  raise_all-valid equal_fold group_roles groups (valid_or_user default)
      (valid_or_user-valid default),
  raise_all-IsHighest equal_fold group_roles (valid_or_user default) groups,
)
