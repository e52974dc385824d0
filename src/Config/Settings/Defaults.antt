-- ===== src/Config/Settings/Defaults.antt =====
-- Default of internal/config/config.go. A zero value of Go stands where Default names no value.
use winify.Common.{true, false, [], ◌∷◌, codes, pos}
use winify.Config.Settings.{
  ServerConfig, DatabaseConfig, AuthConfig, CredentialsConfig, FilesConfig, ProxyConfig,
  TunnelConfig, DeployConfig, BootstrapConfig, MonitoringConfig, AssistantConfig, GithubConfig,
  NotifyConfig, Config, tunnel_provider_cloudflare,
}

abbrev pub default_server : ServerConfig
default_server = record { addr = codes "127.0.0.1:8080"; public_url = [] }

abbrev pub default_database : DatabaseConfig
default_database = record { path = codes "data/control-center.db" }

abbrev pub default_auth : AuthConfig
default_auth = record {
  admin_user = codes "admin";
  admin_password_hash = [];
  setup_token = [];
  cookie_secure = true;
  session_ttl_hours = pos 12;
}

abbrev pub default_credentials : CredentialsConfig
default_credentials = record { master_key = [] }

abbrev pub default_files : FilesConfig
default_files = record { servers = codes "servers.yaml"; projects = codes "projects.yaml" }

abbrev pub default_proxy : ProxyConfig
default_proxy = record {
  enabled = true;
  admin_url = codes "http://127.0.0.1:2019";
  server_name = codes "srv0";
  public_ip = [];
  acme_skip = codes "*.sslip.io" ∷ [];
}

abbrev pub default_tunnel : TunnelConfig
default_tunnel = record {
  enabled = false;
  provider = tunnel_provider_cloudflare;
  domain = [];
  account_id = [];
  zone_id = [];
  tunnel_name = codes "winify";
  api_token_ref = codes "vault:cloudflare-api";
  origin = codes "http://localhost:80";
  connector_source = [];
  connector_url = [];
  connector_sha256 = [];
  service_name = codes "winify-tunnel";
}

abbrev pub default_deploy : DeployConfig
default_deploy = record {
  work_dir = codes "/opt/control-center";
  iis_work_dir = codes "C:\\ProgramData\\winify\\work";
  iis_backup_dir = codes "C:\\ProgramData\\winify\\backups";
  target_root = codes "C:\\ProgramData\\winify\\apps";
  allow_external_target_paths = false;
  nssm_source = codes "tools/nssm.exe";
  nssm_sha256 = [];
  known_hosts_file = [];
  allow_insecure_host_key = false;
  health_timeout_seconds = pos 60;
  health_interval_seconds = pos 3;
  retention_days = pos 90;
  timeout_minutes = pos 30;
}

abbrev pub default_bootstrap : BootstrapConfig
default_bootstrap = record {
  enabled = true;
  install_dir = [];
  service_name = codes "winify";
  enable_winrm = false;
  caddy = record {
    enabled = true;
    source = [];
    url =
        codes
          "https://github.com/caddyserver/caddy/releases/download/v2.11.4/caddy_2.11.4_windows_amd64.zip";
    sha256 = codes "5CB9AB71E5756CE72840B8234177A2F40C8B4AB47A806B8E841E2B784E9DF62B";
    admin = codes "127.0.0.1:2019";
  };
}

abbrev pub default_monitoring : MonitoringConfig
default_monitoring = record {
  enabled = true;
  interval_seconds = pos 30;
  timeout_seconds = pos 15;
  retention_hours = pos 24;
  history_points = pos 200;
}

abbrev pub default_assistant : AssistantConfig
default_assistant = record {
  enabled = true;
  chroma_url = codes "http://127.0.0.1:8000";
  collection = codes "control-center-docs";
  ollama_url = codes "http://127.0.0.1:11434";
  model = codes "gemma3:1b";
  timeout_seconds = pos 60;
  top_k = pos 3;
}

abbrev pub default_github : GithubConfig
default_github = record { app_id = []; installation_id = pos 0; private_key_ref = []; api_url = [] }

abbrev pub default_notify : NotifyConfig
default_notify = record { webhook_url = []; slack_url = [] }

abbrev pub default_config : Config
default_config = record {
  server = default_server;
  database = default_database;
  auth = default_auth;
  credentials = default_credentials;
  files = default_files;
  proxy = default_proxy;
  tunnel = default_tunnel;
  deploy = default_deploy;
  bootstrap = default_bootstrap;
  monitoring = default_monitoring;
  assistant = default_assistant;
  github = default_github;
  notify = default_notify;
}
