-- ===== src/Config/Secrets.antt =====
-- The overrides from the environment and the references to secrets (internal/config/config.go).
-- The environment and the file system are parameters, and so are the TOML decoder and
-- `strings.TrimSpace`.
use cairn_mdm.Prelude.{String, not, [], ◌∷◌, Option, none, some, string_eq, ◌==◌, if◌then◌else◌}
use cairn_mdm.Config.{Config, Outcome, good, bad, then_do, no_env, no_secret_file}

-- The process's surroundings: `os.LookupEnv`, `os.ReadFile`, the decoding of a file over a
-- configuration, and `strings.TrimSpace`.
pub record Host : Type 0 where
  pub lookup_env : String → Option String
  pub read_file : String → Option String
  pub decode : String → Config → Option Config
  pub trim_space : String → String

-- `os.Getenv`, and the value that stays when it is empty
abbrev override : Option String → String → String
override none old = old
override (some v) old = if v == "" then old else v

-- `applyEnvOverrides`
unfoldable pub apply_env_overrides : Host → Config → Config
apply_env_overrides h c = record c {
  server = record c.server {
    public_url = override (h.lookup_env "CAIRN_PUBLIC_URL") c.server.public_url;
    listen = override (h.lookup_env "CAIRN_LISTEN") c.server.listen;
  };
  storage = record c.storage { path = override (h.lookup_env "CAIRN_STORAGE_PATH") c.storage.path };
  log = record c.log {
    level = override (h.lookup_env "CAIRN_LOG_LEVEL") c.log.level;
    format = override (h.lookup_env "CAIRN_LOG_FORMAT") c.log.format;
  };
}

abbrev from_env : Option String → Outcome String
from_env none = bad (no_env ∷ [])
from_env (some v) = good v

abbrev from_file : Host → Option String → Outcome String
from_file h none = bad (no_secret_file ∷ [])
from_file h (some text) = good (h.trim_space text)

-- `readSecret`
unfoldable pub read_secret : Host → String → String → String → Outcome String
read_secret h inline file env =
    if not (env == "")
    then from_env (h.lookup_env env)
    else if not (file == "")
    then from_file h (h.read_file file)
    else good inline

-- `resolveSecrets`
unfoldable pub resolve_secrets : Host → Config → Outcome Config
unfolding read_secret
resolve_secrets h c =
    then_do (read_secret h c.storage.dsn c.storage.dsn_file c.storage.dsn_env) (λ dsn.
      then_do (read_secret h "" c.ca.external.challenge_file c.ca.external.challenge_env)
        (λ challenge.
          then_do
            (if c.auth.ldap.enabled
              then read_secret h "" c.auth.ldap.bind_password_file c.auth.ldap.bind_password_env
              else good c.auth.ldap.bind_password)
            (λ password.
              then_do
                (if c.auth.oidc.enabled
                  then read_secret h "" c.auth.oidc.client_secret_file c.auth.oidc.client_secret_env
                  else good c.auth.oidc.client_secret)
                (λ secret. good (record c {
                  storage = record c.storage { dsn = dsn };
                  ca = record c.ca { external = record c.ca.external { challenge = challenge } };
                  auth = record c.auth {
                    ldap = record c.auth.ldap { bind_password = password };
                    oidc = record c.auth.oidc { client_secret = secret };
                  };
                })))))
