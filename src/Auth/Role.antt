-- ===== src/Auth/Role.antt =====
-- Roles and their order (internal/auth/auth.go), and the mapping of directory groups to roles that
-- the LDAP and OIDC providers make (internal/auth/ldap/ldap.go, internal/auth/oidc/oidc.go).
-- A role is a string in the source, so a value that is no known role can occur; it has rank 0.
-- `strings.EqualFold` is a parameter, and a Go map is listed in the order in which the loop meets
-- its keys, so what is proved holds for every order.
pub mod Mapping
mod Tests
use cairn_mdm.Prelude.{
  ℕ, String, Bool, true, false, ◌||◌, List, [], ◌∷◌, Option, none, some, string_eq, ◌==◌, leb,
  if◌then◌else◌,
}
use cairn_mdm.Prelude.Dict.{Dict}

abbrev pub Role : Type 0
Role = String

abbrev pub role_admin : Role
role_admin = "admin"

abbrev pub role_operator : Role
role_operator = "operator"

abbrev pub role_user : Role
role_user = "user"

-- `Role.Valid`
unfoldable pub valid : Role → Bool
valid r = r == role_admin || (r == role_operator || r == role_user)

unfoldable pub rank : Role → ℕ
rank r =
    if r == role_admin then 3 else if r == role_operator then 2 else if r == role_user then 1 else 0

-- `Role.AtLeast`
unfoldable pub at_least : Role → Role → Bool
unfolding rank
at_least r min = leb (rank min) (rank r)

pub record Identity : Type 0 where
  pub username : String
  pub display_name : String
  pub role : Role
  pub provider : String

module _ (equal_fold : String → String → Bool) where
  -- `lookupDN` and `lookupGroup`
  unfoldable pub lookup_group : Dict String → String → Option String
  lookup_group [] group = none
  lookup_group ((k, v) ∷ m) group = if equal_fold k group then some v else lookup_group m group

  -- one round of the loop of `mapRole`
  unfoldable pub raise : Dict String → Role → String → Role
  raise m role group = elim (lookup_group m group) [
    | none ↦ role
    | some r ↦ if valid r then (if at_least r role then r else role) else role
  ]

  unfoldable pub raise_all : Dict String → Role → List String → Role
  raise_all m role [] = role
  raise_all m role (g ∷ groups) = raise_all m (raise m role g) groups

  -- `mapRole` of the LDAP provider: the configured default is taken as it is
  unfoldable pub map_role_ldap : Dict String → Role → List String → Role
  unfolding raise_all raise lookup_group at_least valid
  map_role_ldap group_roles default_role member_of = raise_all group_roles default_role member_of

  -- `mapRole` of the OIDC provider: a default that is no role counts as "user"
  unfoldable pub map_role_oidc : Dict String → Role → List String → Role
  unfolding raise_all raise lookup_group at_least valid
  map_role_oidc group_roles default_role groups =
      raise_all group_roles (if valid default_role then default_role else role_user) groups
