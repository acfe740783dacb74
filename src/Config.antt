-- ===== src/Config.antt =====
-- The configuration (internal/config/config.go): its sections and their defaults. Go's `int` is ℤ.
pub mod Secrets
pub mod Checks
mod Accepted
mod Tests
use cairn_mdm.Prelude.{
  ℕ, zero, suc, String, Bool, true, false, ◌||◌, not, List, [], ◌∷◌, Option, none, some, string_eq,
  ◌==◌, if◌then◌else◌,
}
use cairn_mdm.Prelude.Dict.{Dict}
use cairn_mdm.Prelude.Int.{ℤ, pos, negsuc}

pub record LoginPolicy : Type 0 where
  pub max_attempts : ℤ
  pub window_seconds : ℤ
  pub lockout_seconds : ℤ
  pub min_password_len : ℤ
  pub idle_timeout_mins : ℤ
  pub max_lifetime_mins : ℤ

abbrev pub unless_zero : ℤ → ℤ → ℤ
unless_zero (pos zero) default = default
unless_zero (pos (suc n)) default = pos (suc n)
unless_zero (negsuc n) default = negsuc n

-- `LoginPolicy.WithDefaults`
unfoldable pub with_defaults : LoginPolicy → LoginPolicy
with_defaults p = record {
  max_attempts = unless_zero p.max_attempts (pos 5);
  window_seconds = unless_zero p.window_seconds (pos 300);
  lockout_seconds = unless_zero p.lockout_seconds (pos 900);
  min_password_len = unless_zero p.min_password_len (pos 8);
  idle_timeout_mins = unless_zero p.idle_timeout_mins (pos 60);
  max_lifetime_mins = unless_zero p.max_lifetime_mins (pos 720);
}

-- `LDAPCfg`
pub record LdapCfg : Type 0 where
  pub enabled : Bool
  pub servers : List String
  pub start_tls : Bool
  pub base_dn : String
  pub bind_dn : String
  pub bind_password : String
  pub bind_password_file : String
  pub bind_password_env : String
  pub user_filter : String
  pub group_roles : Dict String
  pub default_role : String
  pub ca_file : String

-- `OIDCCfg`
pub record OidcCfg : Type 0 where
  pub enabled : Bool
  pub issuer_url : String
  pub client_id : String
  pub client_secret : String
  pub client_secret_file : String
  pub client_secret_env : String
  pub scopes : List String
  pub group_claim : String
  pub group_roles : Dict String
  pub default_role : String
  pub username_claim : String
  pub ca_file : String

abbrev unless_none : List String → List String → List String
unless_none [] default = default
unless_none (s ∷ scopes) default = s ∷ scopes

abbrev unless_blank : String → String → String
unless_blank s default = if s == "" then default else s

-- `OIDCCfg.WithDefaults`
unfoldable pub with_oidc_defaults : OidcCfg → OidcCfg
with_oidc_defaults o = record o {
  scopes = unless_none o.scopes ("openid" ∷ "profile" ∷ "email" ∷ "groups" ∷ []);
  group_claim = unless_blank o.group_claim "groups";
  default_role = unless_blank o.default_role "user";
  username_claim = unless_blank o.username_claim "preferred_username";
}

-- `SigningCfg`
pub record SigningCfg : Type 0 where
  pub cert_file : String
  pub key_file : String

-- `SigningCfg.Enabled`
unfoldable pub signing_enabled : SigningCfg → Bool
signing_enabled s = not (s.cert_file == "") || not (s.key_file == "")

-- `TLS`; its mode is "acme", "files" or "proxy"
pub record Tls : Type 0 where
  pub mode : String
  pub cert_file : String
  pub key_file : String
  pub acme_email : String
  pub acme_cache_dir : String
  pub acme_directory : String
  pub trusted_proxies : List String

pub record Server : Type 0 where
  pub public_url : String
  pub listen : String
  pub mdm_path : String
  pub tls : Tls

-- `Storage`; its driver is "sqlite", "mysql" or "postgres"
pub record StorageCfg : Type 0 where
  pub driver : String
  pub path : String
  pub dsn : String
  pub dsn_file : String
  pub dsn_env : String

-- `CAImportCfg`
pub record CaImportCfg : Type 0 where
  pub cert_file : String
  pub key_file : String

-- `CAExternalCfg`
pub record CaExternalCfg : Type 0 where
  pub scep_url : String
  pub ca_chain_file : String
  pub crl_url : String
  pub challenge_env : String
  pub challenge_file : String
  pub challenge : String

-- `CA`; its mode is "generate", "import" or "external"
pub record Ca : Type 0 where
  pub mode : String
  pub imported : CaImportCfg
  pub external : CaExternalCfg

-- `CAMode.Embedded`
unfoldable pub embedded : String → Bool
embedded mode = mode == "generate" || mode == "import"

pub record Log : Type 0 where
  pub format : String
  pub level : String

-- `Auth`
pub record AuthCfg : Type 0 where
  pub ldap : LdapCfg
  pub oidc : OidcCfg
  pub login : LoginPolicy

-- The section [enrollment] has one field, and [profile] one section.
pub record Config : Type 0 where
  pub server : Server
  pub storage : StorageCfg
  pub ca : Ca
  pub auth : AuthCfg
  pub allow_open : Bool
  pub signing : SigningCfg
  pub log : Log

-- Every value of an error that `Load` returns.
pub data Problem : Type 0 where
  no_config_file bad_config_file no_env no_secret_file : Problem
  no_public_url bad_public_url no_listen bad_mdm_path : Problem
  no_acme_email no_tls_files bad_tls_mode : Problem
  no_storage_path no_dsn bad_driver : Problem
  no_ca_files no_scep_url no_ca_chain bad_ca_mode no_signing_files : Problem
  no_ldap_servers no_base_dn no_bind no_issuer bad_issuer no_client_id no_client_secret : Problem
  bad_ldap_server plaintext_ldap bad_role negative : String → Problem

pub data Outcome (A : Type 0) : Type 0 where
  good : A → Outcome A
  bad : List Problem → Outcome A

unfoldable pub then_do : {A : Type 0} → {B : Type 0} → Outcome A → (A → Outcome B) → Outcome B
then_do (good a) f = f a
then_do (bad ps) f = bad ps

abbrev pub no_policy : LoginPolicy
no_policy = record {
  max_attempts = pos 0;
  window_seconds = pos 0;
  lockout_seconds = pos 0;
  min_password_len = pos 0;
  idle_timeout_mins = pos 0;
  max_lifetime_mins = pos 0;
}

abbrev pub no_ldap : LdapCfg
no_ldap = record {
  enabled = false;
  servers = [];
  start_tls = false;
  base_dn = "";
  bind_dn = "";
  bind_password = "";
  bind_password_file = "";
  bind_password_env = "";
  user_filter = "";
  group_roles = [];
  default_role = "";
  ca_file = "";
}

abbrev pub no_oidc : OidcCfg
no_oidc = record {
  enabled = false;
  issuer_url = "";
  client_id = "";
  client_secret = "";
  client_secret_file = "";
  client_secret_env = "";
  scopes = [];
  group_claim = "";
  group_roles = [];
  default_role = "";
  username_claim = "";
  ca_file = "";
}

-- `Default`
abbrev pub default : Config
default = record {
  server = record {
    public_url = "";
    listen = ":443";
    mdm_path = "/mdm";
    tls = record {
      mode = "acme";
      cert_file = "";
      key_file = "";
      acme_email = "";
      acme_cache_dir = "";
      acme_directory = "";
      trusted_proxies = [];
    };
  };
  storage = record {
    driver = "sqlite";
    path = "/var/db/cairn/cairn.db";
    dsn = "";
    dsn_file = "";
    dsn_env = "";
  };
  ca = record {
    mode = "generate";
    imported = record { cert_file = ""; key_file = "" };
    external = record {
      scep_url = "";
      ca_chain_file = "";
      crl_url = "";
      challenge_env = "";
      challenge_file = "";
      challenge = "";
    };
  };
  auth = record { ldap = no_ldap; oidc = no_oidc; login = no_policy };
  allow_open = false;
  signing = record { cert_file = ""; key_file = "" };
  log = record { format = "text"; level = "info" };
}
