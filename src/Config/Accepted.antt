-- ===== src/Config/Accepted.antt =====
-- What the rest of the server can rely on once `Load` has returned a configuration.
use cairn_mdm.Prelude.{
  ℕ, zero, suc, String, Bool, true, false, List, [], ◌∷◌, ◌++◌, Option, some, ◌≡◌, ◌≢◌, ◌⊎◌, inl,
  inr, refl, subst, arith, eq_iff, All, string_eq, ◌==◌, Bool-cases, Option-cases,
}
use cairn_mdm.Prelude.Dict.{Dict}
use cairn_mdm.Prelude.Int.{ℤ, pos, negsuc}
use cairn_mdm.Auth.Role.{valid}
use cairn_mdm.Config.{
  Config, LdapCfg, OidcCfg, LoginPolicy, with_defaults, Outcome, good, bad, then_do, Problem,
}
use cairn_mdm.Config.Secrets.{Host}
use cairn_mdm.Config.Checks.{
  Url, check_server, check_tls, check_storage, check_ca, check_signing, require, is_https, https,
  check_ldap_server, check_ldap_servers, check_roles, check_ldap, check_oidc, not_negative,
  check_login, validate, verdict, load,
}

-- An absolute https URL.
abbrev pub Https : (String → Option Url) → String → Type 0
Https parse s = (u : Url) × (parse s ≡ some u) × (u.scheme ≡ "https") × (u.host ≢ "")

-- A directory server to which no password goes in clear text.
abbrev pub Encrypted : (String → Option Url) → Bool → String → Type 0
Encrypted parse start_tls s =
    (u : Url) × (parse s ≡ some u)
    × (u.host ≢ "")
    × ((u.scheme ≡ "ldaps") ⊎ ((u.scheme ≡ "ldap") × (start_tls ≡ true)))

abbrev pub IsPositive : ℤ → Type 0
IsPositive z = (n : ℕ) × (z ≡ pos (suc n))

abbrev pub HasRoles : Dict String → Type 0
HasRoles m = All (λ (e : String × String). valid e.1 ≡ true) m

abbrev pub Limits : LoginPolicy → Type 0
Limits p =
    IsPositive p.max_attempts
    × IsPositive p.window_seconds
    × IsPositive p.lockout_seconds
    × IsPositive p.min_password_len
    × IsPositive p.idle_timeout_mins
    × IsPositive p.max_lifetime_mins

pub record IsSafe (parse : String → Option Url) (c : Config) : Type 0 where
  pub public_url : Https parse c.server.public_url
  pub directory :
      c.auth.ldap.enabled ≡ true → All (Encrypted parse c.auth.ldap.start_tls) c.auth.ldap.servers
  pub directory_roles : c.auth.ldap.enabled ≡ true → HasRoles c.auth.ldap.group_roles
  pub issuer : c.auth.oidc.enabled ≡ true → Https parse c.auth.oidc.issuer_url
  pub issuer_roles : c.auth.oidc.enabled ≡ true → HasRoles c.auth.oidc.group_roles
  pub limits : Limits (with_defaults c.auth.login)

append-nil_split : (xs ys : List Problem) → xs ++ ys ≡ [] → (xs ≡ []) × (ys ≡ [])
append-nil_split [] ys h = (refl, h)
append-nil_split (x ∷ xs) ys h = cc

require-holds : (b : Bool) (p : Problem) → require b p ≡ [] → b ≡ true
require-holds true p h = refl
require-holds false p h = cc

is_https-Https :
    (parse : String → Option Url) (s : String) → is_https (parse s) ≡ true → Https parse s
is_https-Https parse s h = elim (Option-cases (parse s)) [
  | inl e ↦ ground arith
  | inr (u, e) ↦ (u, e, ground (arith, eq_iff u.scheme "https"), ground (arith, eq_iff u.host ""))
]

https-Https :
    (parse : String → Option Url) (missing wrong : Problem) (s : String)
    → https parse missing wrong s ≡ []
    → Https parse s
https-Https parse missing wrong s h =
    is_https-Https parse s (ground (arith, Bool-cases (is_https (parse s))))

check_ldap_server-Encrypted :
    (parse : String → Option Url) (start_tls : Bool) (s : String)
    → check_ldap_server parse start_tls s ≡ []
    → Encrypted parse start_tls s
check_ldap_server-Encrypted parse start_tls s h = elim (Option-cases (parse s)) [
  | inl e ↦ ground arith
  | inr (u, e) ↦ (
    u,
    e,
    ground (arith, eq_iff u.host ""),
    elim (Bool-cases (u.scheme == "ldaps")) [
      | inl t ↦ inl (ground (arith, eq_iff u.scheme "ldaps"))
      | inr t ↦ inr (ground (arith, eq_iff u.scheme "ldap"), ground (arith, eq_iff u.scheme "ldap"))
    ],
  )
]

check_ldap_servers-Encrypted :
    (parse : String → Option Url) (start_tls : Bool) (ss : List String)
    → check_ldap_servers parse start_tls ss ≡ []
    → All (Encrypted parse start_tls) ss
check_ldap_servers-Encrypted parse start_tls [] h = tt
check_ldap_servers-Encrypted parse start_tls (s ∷ ss) h =
    let (a, b) = append-nil_split _ _ h in
    (
      check_ldap_server-Encrypted parse start_tls s a,
      check_ldap_servers-Encrypted parse start_tls ss b,
    )

check_roles-HasRoles : (m : Dict String) → check_roles m ≡ [] → HasRoles m
unfolding valid
check_roles-HasRoles [] h = tt
check_roles-HasRoles ((group, role) ∷ m) h =
    let (a, b) = append-nil_split _ _ h in (require-holds _ _ a, check_roles-HasRoles m b)

not_negative-IsPositive :
    (z : ℤ)
    → not_negative z ≡ true
    → (n : ℕ) → IsPositive (cairn_mdm.Config.unless_zero z (pos (suc n)))
not_negative-IsPositive (pos zero) h n = (n, refl)
not_negative-IsPositive (pos (suc m)) h n = (m, refl)
not_negative-IsPositive (negsuc m) h n = cc

check_login-Limits : (p : LoginPolicy) → check_login p ≡ [] → Limits (with_defaults p)
unfolding with_defaults
check_login-Limits p h =
    let (a, h1) = append-nil_split _ _ h in
    let (b, h2) = append-nil_split _ _ h1 in
    let (c, h3) = append-nil_split _ _ h2 in
    let (d, h4) = append-nil_split _ _ h3 in
    let (e, f) = append-nil_split _ _ h4 in
    (
      not_negative-IsPositive p.max_attempts (require-holds _ _ a) 4,
      not_negative-IsPositive p.window_seconds (require-holds _ _ b) 299,
      not_negative-IsPositive p.lockout_seconds (require-holds _ _ c) 899,
      not_negative-IsPositive p.min_password_len (require-holds _ _ d) 7,
      not_negative-IsPositive p.idle_timeout_mins (require-holds _ _ e) 59,
      not_negative-IsPositive p.max_lifetime_mins (require-holds _ _ f) 719,
    )

check_ldap-safe :
    (parse : String → Option Url) (l : LdapCfg)
    → check_ldap parse l ≡ []
    → l.enabled ≡ true
    → All (Encrypted parse l.start_tls) l.servers × HasRoles l.group_roles
check_ldap-safe parse l h on =
    let (a, h1) = append-nil_split _ _ (rw on at h) in
    let (b, h2) = append-nil_split _ _ h1 in
    let (c, h3) = append-nil_split _ _ h2 in
    let (d, h4) = append-nil_split _ _ h3 in
    let (e, f) = append-nil_split _ _ h4 in
    (
      check_ldap_servers-Encrypted parse l.start_tls l.servers b,
      check_roles-HasRoles l.group_roles e,
    )

check_oidc-safe :
    (parse : String → Option Url) (o : OidcCfg)
    → check_oidc parse o ≡ []
    → o.enabled ≡ true
    → Https parse o.issuer_url × HasRoles o.group_roles
check_oidc-safe parse o h on =
    let (a, h1) = append-nil_split _ _ (rw on at h) in
    let (b, h2) = append-nil_split _ _ h1 in
    let (c, h3) = append-nil_split _ _ h2 in
    let (d, e) = append-nil_split _ _ h3 in
    (https-Https parse _ _ o.issuer_url a, check_roles-HasRoles o.group_roles d)

validate-IsSafe :
    (parse : String → Option Url) (c : Config) → validate parse c ≡ [] → IsSafe parse c
unfolding validate
validate-IsSafe parse c h =
    let (server, h1) = append-nil_split (check_server parse c.server) _ h in
    let (tls, h2) = append-nil_split (check_tls c.server.tls) _ h1 in
    let (storage, h3) = append-nil_split (check_storage c.storage) _ h2 in
    let (ca, h4) = append-nil_split (check_ca c.ca) _ h3 in
    let (signing, h5) = append-nil_split (check_signing c.signing) _ h4 in
    let (ldap, h6) = append-nil_split _ _ h5 in
    let (oidc, login) = append-nil_split _ _ h6 in
    let (url, rest) = append-nil_split _ _ server in
    record {
      public_url = https-Https parse _ _ c.server.public_url url;
      directory = λ on. (check_ldap-safe parse c.auth.ldap ldap on).0;
      directory_roles = λ on. (check_ldap-safe parse c.auth.ldap ldap on).1;
      issuer = λ on. (check_oidc-safe parse c.auth.oidc oidc on).0;
      issuer_roles = λ on. (check_oidc-safe parse c.auth.oidc oidc on).1;
      limits = check_login-Limits c.auth.login login;
    }

verdict-IsSafe :
    (parse : String → Option Url) (c d : Config)
    → verdict c (validate parse c) ≡ good d
    → IsSafe parse d
verdict-IsSafe parse c d h = go (validate parse c) refl h
  where
    go : (ps : List Problem) → validate parse c ≡ ps → verdict c ps ≡ good d → IsSafe parse d
    go [] v h = subst (IsSafe parse) (ground arith) (validate-IsSafe parse c v)
    go (p ∷ ps) v h = cc

-- the value that a step passed on
then_do-good :
    {A B : Type 0}
    → (o : Outcome A) (f : A → Outcome B) (b : B) → then_do o f ≡ good b
    → (a : A) × (f a ≡ good b)
unfolding then_do
then_do-good (good a) f b h = (a, h)
then_do-good (bad ps) f b h = cc

-- A configuration that `Load` returns has an https public URL; when LDAP is enabled, each
-- directory server is reached over TLS, either by its scheme or by StartTLS, and every mapped
-- group has a known role; when OIDC is enabled, the issuer is an https URL and every mapped group
-- has a known role; and with the defaults filled in, every limit of the login policy is positive.
pub load-IsSafe :
    (h : Host) (parse : String → Option Url) (path : String) (c : Config)
    → load h parse path ≡ good c
    → IsSafe parse c
unfolding load
load-IsSafe h parse path c loaded =
    let (read, loaded1) = then_do-good _ _ c loaded in
    let (resolved, loaded2) = then_do-good _ _ c loaded1 in verdict-IsSafe parse resolved c loaded2
