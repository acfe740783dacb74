-- ===== src/Config/Checks.antt =====
-- `Config.Validate` and `Load` (internal/config/config.go). The source joins the errors of all
-- sections; here they are a list, which is empty for a nil error. `url.Parse` is a parameter.
use cairn_mdm.Prelude.{
  String, starts_with, Bool, true, false, ◌&&◌, ◌||◌, not, List, [], ◌∷◌, ◌++◌, Option, none, some,
  string_eq, ◌==◌, if◌then◌else◌,
}
use cairn_mdm.Prelude.Dict.{Dict}
use cairn_mdm.Prelude.Int.{ℤ, pos, negsuc}
use cairn_mdm.Config.{
  Config, Server, Tls, StorageCfg, Ca, SigningCfg, LdapCfg, OidcCfg, LoginPolicy, signing_enabled,
  Outcome, good, bad, then_do, default, Problem, no_config_file, bad_config_file, no_public_url,
  bad_public_url, no_listen, bad_mdm_path, no_acme_email, no_tls_files, bad_tls_mode,
  no_storage_path, no_dsn, bad_driver, no_ca_files, no_scep_url, no_ca_chain, bad_ca_mode,
  no_signing_files, no_ldap_servers, no_base_dn, no_bind, no_issuer, bad_issuer, no_client_id,
  no_client_secret, bad_ldap_server, plaintext_ldap, bad_role, negative,
}
use cairn_mdm.Config.Secrets.{Host, apply_env_overrides, resolve_secrets}

pub record Url : Type 0 where
  pub scheme : String
  pub host : String

-- one error, unless the test holds
abbrev pub require : Bool → Problem → List Problem
require true p = []
require false p = p ∷ []

abbrev pub present : String → Bool
present s = not (s == "")

abbrev pub is_https : Option Url → Bool
is_https none = false
is_https (some u) = u.scheme == "https" && present u.host

-- what is wrong with a URL that must be https
abbrev pub https : (String → Option Url) → Problem → Problem → String → List Problem
https parse missing wrong s = if s == "" then missing ∷ [] else require (is_https (parse s)) wrong

abbrev pub check_server : (String → Option Url) → Server → List Problem
check_server parse s =
    https parse no_public_url bad_public_url s.public_url
    ++ (require (present s.listen) no_listen ++ require (starts_with s.mdm_path "/") bad_mdm_path)

abbrev pub check_tls : Tls → List Problem
check_tls t =
    if t.mode == "acme"
    then require (present t.acme_email) no_acme_email
    else if t.mode == "files"
    then require (present t.cert_file && present t.key_file) no_tls_files
    else require (t.mode == "proxy") bad_tls_mode

abbrev pub check_storage : StorageCfg → List Problem
check_storage s =
    if s.driver == "sqlite"
    then require (present s.path) no_storage_path
    else if s.driver == "mysql" || s.driver == "postgres"
    then require (present s.dsn) no_dsn
    else bad_driver ∷ []

abbrev pub check_ca : Ca → List Problem
check_ca c =
    if c.mode == "generate"
    then []
    else if c.mode == "import"
    then require (present c.imported.cert_file && present c.imported.key_file) no_ca_files
    else if c.mode == "external"
    then require (present c.external.scep_url) no_scep_url
      ++ require (present c.external.ca_chain_file) no_ca_chain
    else bad_ca_mode ∷ []

abbrev pub check_signing : SigningCfg → List Problem
check_signing s =
    if signing_enabled s
    then require (present s.cert_file && present s.key_file) no_signing_files
    else []

abbrev pub is_ldap : Option Url → Bool
is_ldap none = false
is_ldap (some u) = (u.scheme == "ldap" || u.scheme == "ldaps") && present u.host

abbrev pub is_plaintext : Option Url → Bool
is_plaintext none = false
is_plaintext (some u) = u.scheme == "ldap"

abbrev pub check_ldap_server : (String → Option Url) → Bool → String → List Problem
check_ldap_server parse start_tls s =
    if not (is_ldap (parse s))
    then bad_ldap_server s ∷ []
    else require (not (is_plaintext (parse s)) || start_tls) (plaintext_ldap s)

abbrev pub check_ldap_servers : (String → Option Url) → Bool → List String → List Problem
check_ldap_servers parse start_tls [] = []
check_ldap_servers parse start_tls (s ∷ ss) =
    check_ldap_server parse start_tls s ++ check_ldap_servers parse start_tls ss

abbrev pub is_role : String → Bool
is_role r = r == "admin" || (r == "operator" || r == "user")

abbrev pub check_roles : Dict String → List Problem
check_roles [] = []
check_roles ((group, role) ∷ m) = require (is_role role) (bad_role group) ++ check_roles m

abbrev pub has_any : List String → Bool
has_any [] = false
has_any (s ∷ ss) = true

abbrev pub check_ldap : (String → Option Url) → LdapCfg → List Problem
check_ldap parse l =
    if l.enabled
    then require (has_any l.servers) no_ldap_servers
      ++ (check_ldap_servers parse l.start_tls l.servers
          ++ (require (present l.base_dn) no_base_dn
              ++ (require (present l.bind_dn && present l.bind_password) no_bind
                  ++ (check_roles l.group_roles
                      ++ require (l.default_role == "" || is_role l.default_role) (bad_role "")))))
    else []

abbrev pub check_oidc : (String → Option Url) → OidcCfg → List Problem
check_oidc parse o =
    if o.enabled
    then https parse no_issuer bad_issuer o.issuer_url
      ++ (require (present o.client_id) no_client_id
          ++ (require (present o.client_secret) no_client_secret
              ++ (check_roles o.group_roles
                  ++ require (o.default_role == "" || is_role o.default_role) (bad_role ""))))
    else []

abbrev pub not_negative : ℤ → Bool
not_negative (pos n) = true
not_negative (negsuc n) = false

abbrev pub check_login : LoginPolicy → List Problem
check_login p =
    require (not_negative p.max_attempts) (negative "max_attempts")
    ++ (require (not_negative p.window_seconds) (negative "window_seconds")
        ++ (require (not_negative p.lockout_seconds) (negative "lockout_seconds")
            ++ (require (not_negative p.min_password_len) (negative "min_password_len")
                ++ (require (not_negative p.idle_timeout_mins) (negative "idle_timeout_mins")
                    ++ require (not_negative p.max_lifetime_mins) (negative "max_lifetime_mins")))))

-- `Config.Validate`
unfoldable pub validate : (String → Option Url) → Config → List Problem
validate parse c =
    check_server parse c.server
    ++ (check_tls c.server.tls
        ++ (check_storage c.storage
            ++ (check_ca c.ca
                ++ (check_signing c.signing
                    ++ (check_ldap parse c.auth.ldap
                        ++ (check_oidc parse c.auth.oidc ++ check_login c.auth.login))))))

abbrev pub verdict : Config → List Problem → Outcome Config
verdict c [] = good c
verdict c (p ∷ ps) = bad (p ∷ ps)

abbrev decoded : Option Config → Outcome Config
decoded none = bad (bad_config_file ∷ [])
decoded (some c) = good c

abbrev read_config : Host → Option String → Outcome Config
read_config h none = bad (no_config_file ∷ [])
read_config h (some text) = decoded (h.decode text default)

-- `Load`
unfoldable pub load : Host → (String → Option Url) → String → Outcome Config
unfolding validate apply_env_overrides resolve_secrets
load h parse path =
    then_do (if path == "" then good default else read_config h (h.read_file path)) (λ c.
      then_do (resolve_secrets h (apply_env_overrides h c)) (λ c'. verdict c' (validate parse c')))
