-- ===== src/Config/Settings/Environment.antt =====
-- Config.applyEnv of internal/config/config.go: the environment variables, in the code's order.
use winify.Common.{
  Bool, true, false, Option, none, some, List, [], ◌∷◌, ◌++◌, ◌==◌, if◌then◌else◌, any, Text, codes,
  text_eq, trim_right, ℤ, Result, ok, err, ◌>>=◌,
}
use winify.Config.Entities.{atoi}
use winify.Config.Settings.{Config}

-- A variable with the setting that it overrides in a configuration.
pub data Setting (C : Type 0) : Type 0 where
  text : Text → (Text → C → C) → Setting C
  flag : Text → (Bool → C → C) → Setting C
  number : Text → (ℤ → C → C) → Setting C

-- The variable whose value does not parse.
pub data EnvError : Type 0 where
  not_bool not_int : Text → EnvError

-- strconv.ParseBool
unfoldable pub parse_bool : Text → Option Bool
parse_bool v =
    if any (text_eq v)
      (codes "1" ∷ codes "t" ∷ codes "T" ∷ codes "true" ∷ codes "TRUE" ∷ codes "True" ∷ [])
    then some true
    else if any (text_eq v)
        (codes "0" ∷ codes "f" ∷ codes "F" ∷ codes "false" ∷ codes "FALSE" ∷ codes "False" ∷ [])
    then some false
    else none

abbrev pub set_flag : {C : Type 0} → Text → (Bool → C → C) → C → Option Bool → Result EnvError C
set_flag name set cfg none = err (not_bool name)
set_flag name set cfg (some b) = ok (set b cfg)

abbrev pub set_number : {C : Type 0} → Text → (ℤ → C → C) → C → Option ℤ → Result EnvError C
set_number name set cfg none = err (not_int name)
set_number name set cfg (some n) = ok (set n cfg)

-- A variable that is empty or not set changes nothing.
unfoldable pub apply_setting : {C : Type 0} → (Text → Text) → Setting C → C → Result EnvError C
apply_setting getenv (text name set) cfg =
    if text_eq (getenv name) [] then ok cfg else ok (set (getenv name) cfg)
apply_setting getenv (flag name set) cfg =
    if text_eq (getenv name) [] then ok cfg else set_flag name set cfg (parse_bool (getenv name))
apply_setting getenv (number name set) cfg =
    if text_eq (getenv name) [] then ok cfg else set_number name set cfg (atoi (getenv name))

unfoldable pub apply_settings :
    {C : Type 0} → (Text → Text) → List (Setting C) → C → Result EnvError C
apply_settings getenv [] cfg = ok cfg
apply_settings getenv (s ∷ ss) cfg = apply_setting getenv s cfg >>= apply_settings getenv ss

abbrev pub server_settings : List (Setting Config)
server_settings =
    text (codes "CC_ADDR") (λ v c. record c { server = record c.server { addr = v } })
    ∷ text (codes "CC_PUBLIC_URL") (λ v c. record c {
      server = record c.server { public_url = trim_right (λ d. d == b'/') v };
    })
    ∷ text (codes "CC_DB_PATH") (λ v c. record c { database = record c.database { path = v } })
    ∷ text (codes "CC_ADMIN_USER") (λ v c. record c { auth = record c.auth { admin_user = v } })
    ∷ text (codes "CC_SETUP_TOKEN") (λ v c. record c { auth = record c.auth { setup_token = v } })
    ∷ text (codes "CC_MASTER_KEY")
        (λ v c. record c { credentials = record c.credentials { master_key = v } })
    ∷ text (codes "CC_SERVERS_FILE") (λ v c. record c { files = record c.files { servers = v } })
    ∷ text (codes "CC_PROJECTS_FILE") (λ v c. record c { files = record c.files { projects = v } })
    ∷ []

abbrev pub proxy_settings : List (Setting Config)
proxy_settings =
    flag (codes "CC_COOKIE_SECURE") (λ v c. record c { auth = record c.auth { cookie_secure = v } })
    ∷ flag (codes "CC_PROXY_ENABLED") (λ v c. record c { proxy = record c.proxy { enabled = v } })
    ∷ text (codes "CC_PROXY_ADMIN_URL")
        (λ v c. record c { proxy = record c.proxy { admin_url = v } })
    ∷ text (codes "CC_PROXY_PUBLIC_IP")
        (λ v c. record c { proxy = record c.proxy { public_ip = v } })
    ∷ flag (codes "CC_TUNNEL_ENABLED")
        (λ v c. record c { tunnel = record c.tunnel { enabled = v } })
    ∷ text (codes "CC_TUNNEL_DOMAIN") (λ v c. record c { tunnel = record c.tunnel { domain = v } })
    ∷ text (codes "CC_TUNNEL_ACCOUNT_ID")
        (λ v c. record c { tunnel = record c.tunnel { account_id = v } })
    ∷ text (codes "CC_TUNNEL_API_TOKEN_REF")
        (λ v c. record c { tunnel = record c.tunnel { api_token_ref = v } })
    ∷ []

abbrev pub deploy_settings : List (Setting Config)
deploy_settings =
    text (codes "CC_DEPLOY_WORKDIR") (λ v c. record c { deploy = record c.deploy { work_dir = v } })
    ∷ text (codes "CC_DEPLOY_IIS_WORKDIR")
        (λ v c. record c { deploy = record c.deploy { iis_work_dir = v } })
    ∷ text (codes "CC_DEPLOY_IIS_BACKUP_DIR")
        (λ v c. record c { deploy = record c.deploy { iis_backup_dir = v } })
    ∷ text (codes "CC_DEPLOY_TARGET_ROOT")
        (λ v c. record c { deploy = record c.deploy { target_root = v } })
    ∷ flag (codes "CC_ALLOW_EXTERNAL_TARGET_PATHS")
        (λ v c. record c { deploy = record c.deploy { allow_external_target_paths = v } })
    ∷ text (codes "CC_DEPLOY_NSSM_SOURCE")
        (λ v c. record c { deploy = record c.deploy { nssm_source = v } })
    ∷ text (codes "CC_DEPLOY_NSSM_SHA256")
        (λ v c. record c { deploy = record c.deploy { nssm_sha256 = v } })
    ∷ text (codes "CC_DEPLOY_KNOWN_HOSTS")
        (λ v c. record c { deploy = record c.deploy { known_hosts_file = v } })
    ∷ flag (codes "CC_ALLOW_INSECURE_SSH")
        (λ v c. record c { deploy = record c.deploy { allow_insecure_host_key = v } })
    ∷ number (codes "CC_DEPLOY_RETENTION_DAYS")
        (λ v c. record c { deploy = record c.deploy { retention_days = v } })
    ∷ number (codes "CC_DEPLOY_TIMEOUT_MINUTES")
        (λ v c. record c { deploy = record c.deploy { timeout_minutes = v } })
    ∷ []

abbrev pub bootstrap_settings : List (Setting Config)
bootstrap_settings =
    flag (codes "CC_BOOTSTRAP_ENABLED")
      (λ v c. record c { bootstrap = record c.bootstrap { enabled = v } })
    ∷ text (codes "CC_BOOTSTRAP_INSTALL_DIR")
        (λ v c. record c { bootstrap = record c.bootstrap { install_dir = v } })
    ∷ flag (codes "CC_BOOTSTRAP_ENABLE_WINRM")
        (λ v c. record c { bootstrap = record c.bootstrap { enable_winrm = v } })
    ∷ flag (codes "CC_BOOTSTRAP_CADDY_ENABLED") (λ v c. record c {
      bootstrap = record c.bootstrap { caddy = record c.bootstrap.caddy { enabled = v } };
    })
    ∷ text (codes "CC_BOOTSTRAP_CADDY_SOURCE") (λ v c. record c {
      bootstrap = record c.bootstrap { caddy = record c.bootstrap.caddy { source = v } };
    })
    ∷ text (codes "CC_BOOTSTRAP_CADDY_URL") (λ v c. record c {
      bootstrap = record c.bootstrap { caddy = record c.bootstrap.caddy { url = v } };
    })
    ∷ text (codes "CC_BOOTSTRAP_CADDY_SHA256") (λ v c. record c {
      bootstrap = record c.bootstrap { caddy = record c.bootstrap.caddy { sha256 = v } };
    })
    ∷ []

abbrev pub monitor_settings : List (Setting Config)
monitor_settings =
    flag (codes "CC_MONITOR_ENABLED")
      (λ v c. record c { monitoring = record c.monitoring { enabled = v } })
    ∷ number (codes "CC_MONITOR_INTERVAL")
        (λ v c. record c { monitoring = record c.monitoring { interval_seconds = v } })
    ∷ number (codes "CC_MONITOR_TIMEOUT")
        (λ v c. record c { monitoring = record c.monitoring { timeout_seconds = v } })
    ∷ number (codes "CC_MONITOR_RETENTION_HOURS")
        (λ v c. record c { monitoring = record c.monitoring { retention_hours = v } })
    ∷ []

abbrev pub assistant_settings : List (Setting Config)
assistant_settings =
    flag (codes "CC_ASSISTANT_ENABLED")
      (λ v c. record c { assistant = record c.assistant { enabled = v } })
    ∷ text (codes "CC_CHROMA_URL")
        (λ v c. record c { assistant = record c.assistant { chroma_url = v } })
    ∷ text (codes "CC_ASSISTANT_COLLECTION")
        (λ v c. record c { assistant = record c.assistant { collection = v } })
    ∷ text (codes "CC_OLLAMA_URL")
        (λ v c. record c { assistant = record c.assistant { ollama_url = v } })
    ∷ text (codes "CC_ASSISTANT_MODEL")
        (λ v c. record c { assistant = record c.assistant { model = v } })
    ∷ number (codes "CC_ASSISTANT_TIMEOUT")
        (λ v c. record c { assistant = record c.assistant { timeout_seconds = v } })
    ∷ []

abbrev pub remote_settings : List (Setting Config)
remote_settings =
    number (codes "CC_ASSISTANT_TOP_K")
      (λ v c. record c { assistant = record c.assistant { top_k = v } })
    ∷ text (codes "CC_GITHUB_APP_ID") (λ v c. record c { github = record c.github { app_id = v } })
    ∷ number (codes "CC_GITHUB_INSTALLATION_ID")
        (λ v c. record c { github = record c.github { installation_id = v } })
    ∷ text (codes "CC_GITHUB_PRIVATE_KEY_REF")
        (λ v c. record c { github = record c.github { private_key_ref = v } })
    ∷ text (codes "CC_GITHUB_API_URL")
        (λ v c. record c { github = record c.github { api_url = v } })
    ∷ text (codes "CC_NOTIFY_WEBHOOK_URL")
        (λ v c. record c { notify = record c.notify { webhook_url = v } })
    ∷ text (codes "CC_NOTIFY_SLACK_WEBHOOK_URL")
        (λ v c. record c { notify = record c.notify { slack_url = v } })
    ∷ []

abbrev pub env_settings : List (Setting Config)
env_settings =
    server_settings
    ++ (proxy_settings
        ++ (deploy_settings
            ++ (bootstrap_settings
                ++ (monitor_settings ++ (assistant_settings ++ (remote_settings))))))

unfoldable pub apply_env : (Text → Text) → Config → Result EnvError Config
unfolding apply_settings
apply_env getenv cfg = apply_settings getenv env_settings cfg
