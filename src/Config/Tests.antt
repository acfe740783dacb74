-- ===== src/Config/Tests.antt =====
-- A configuration that is loaded from a file and from the environment.
use cairn_mdm.Prelude.{
  String, Bool, true, false, [], ◌∷◌, Option, none, some, ◌≡◌, refl, string_eq, ◌==◌, if◌then◌else◌,
}
use cairn_mdm.Config.{
  Config, LdapCfg, good, bad, then_do, default, no_ldap, signing_enabled, embedded,
  with_oidc_defaults, no_oidc, no_env, plaintext_ldap,
}
use cairn_mdm.Config.Secrets.{Host, apply_env_overrides, resolve_secrets, read_secret}
use cairn_mdm.Config.Checks.{Url, validate, load}
use cairn_mdm.Config.Accepted.{IsSafe, load-IsSafe}

-- a stand-in for `url.Parse` that knows three URLs
abbrev parse : String → Option Url
parse s =
    if s == "https://mdm.example.org"
    then some (record { scheme = "https"; host = "mdm.example.org" })
    else if s == "ldap://dc1:389"
    then some (record { scheme = "ldap"; host = "dc1:389" })
    else none

abbrev directory : Bool → LdapCfg
directory start_tls = record no_ldap {
  enabled = true;
  servers = "ldap://dc1:389" ∷ [];
  start_tls = start_tls;
  base_dn = "DC=example,DC=org";
  bind_dn = "CN=cairn";
  bind_password_file = "/run/secret";
  group_roles = ("CN=it", "admin") ∷ [];
}

abbrev in_file : Bool → Config → Config
in_file start_tls c = record c {
  server = record c.server { tls = record c.server.tls { mode = "proxy" } };
  auth = record c.auth { ldap = directory start_tls };
}

abbrev host : Bool → Host
host start_tls = record {
  lookup_env = λ name. if name == "CAIRN_PUBLIC_URL" then some "https://mdm.example.org" else none;
  read_file = λ path. if path == "/run/secret" then some "hunter2" else some "toml";
  decode = λ text c. some (in_file start_tls c);
  trim_space = λ s. s;
}

abbrev loaded : Config
loaded = record default {
  server = record default.server {
    public_url = "https://mdm.example.org";
    tls = record default.server.tls { mode = "proxy" };
  };
  auth = record default.auth { ldap = record (directory true) { bind_password = "hunter2" } };
}

config_tests :
    (load (host false) parse "cairn.toml" ≡ bad (plaintext_ldap "ldap://dc1:389" ∷ []))
    × (read_secret (host true) "inline" "" "" ≡ good "inline")
    × (read_secret (host true) "inline" "/run/secret" "MISSING" ≡ bad (no_env ∷ []))
    × ((with_oidc_defaults no_oidc).group_claim ≡ "groups")
    × (embedded "external" ≡ false)
unfolding then_do load validate apply_env_overrides resolve_secrets read_secret signing_enabled
    with_oidc_defaults embedded
config_tests = (refl, refl, refl, refl, refl)

load-IsSafe_example : IsSafe parse loaded
unfolding then_do load validate apply_env_overrides resolve_secrets read_secret signing_enabled
load-IsSafe_example = load-IsSafe (host true) parse "cairn.toml" loaded refl
