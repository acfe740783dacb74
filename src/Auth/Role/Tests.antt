-- ===== src/Auth/Role/Tests.antt =====
-- Runs of the role mapping.
use cairn_mdm.Prelude.{String, ◌≡◌, refl, Bool, true, [], ◌∷◌, string_eq, ◌==◌}
use cairn_mdm.Prelude.Dict.{Dict}
use cairn_mdm.Auth.Role.{valid, map_role_ldap, map_role_oidc}
use cairn_mdm.Auth.Role.Mapping.{IsHighest, map_role_oidc-IsHighest}

abbrev same : String → String → Bool
same a b = a == b

abbrev mapping : Dict String
mapping = ("ops", "operator") ∷ ("root", "owner") ∷ []

map_role_tests :
    (map_role_ldap same mapping "user" ("root" ∷ "ops" ∷ []) ≡ "operator")
    × (map_role_oidc same mapping "nobody" ("root" ∷ []) ≡ "user")
unfolding map_role_ldap map_role_oidc
map_role_tests = (refl, refl)

map_role_oidc-IsHighest_example :
    (valid (map_role_oidc same mapping "user" ("ops" ∷ [])) ≡ true)
    × IsHighest same mapping "user" (map_role_oidc same mapping "user" ("ops" ∷ [])) ("ops" ∷ [])
unfolding valid
map_role_oidc-IsHighest_example = map_role_oidc-IsHighest same mapping "user" ("ops" ∷ [])
