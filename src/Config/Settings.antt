-- ===== src/Config/Settings.antt =====
-- internal/config/config.go: the settings and their accessors.
pub mod Defaults
pub mod Environment
pub mod Placement
pub mod Rules
pub mod Load
use winify.Common.{
  Bool, true, false, not, ◌&&◌, List, [], ◌∷◌, if◌then◌else◌, Text, codes, text_eq, trim_space, ℤ,
  is_zero,
}

pub record ServerConfig : Type 0 where
  pub addr : Text
  pub public_url : Text

pub record DatabaseConfig : Type 0 where
  pub path : Text

pub record AuthConfig : Type 0 where
  pub admin_user : Text
  pub admin_password_hash : Text
  pub setup_token : Text
  pub cookie_secure : Bool
  pub session_ttl_hours : ℤ

pub record CredentialsConfig : Type 0 where
  pub master_key : Text

pub record FilesConfig : Type 0 where
  pub servers : Text
  pub projects : Text

pub record ProxyConfig : Type 0 where
  pub enabled : Bool
  pub admin_url : Text
  pub server_name : Text
  pub public_ip : Text
  pub acme_skip : List Text

pub record TunnelConfig : Type 0 where
  pub enabled : Bool
  pub provider : Text
  pub domain : Text
  pub account_id : Text
  pub zone_id : Text
  pub tunnel_name : Text
  pub api_token_ref : Text
  pub origin : Text
  pub connector_source : Text
  pub connector_url : Text
  pub connector_sha256 : Text
  pub service_name : Text

pub record DeployConfig : Type 0 where
  pub work_dir : Text
  pub iis_work_dir : Text
  pub iis_backup_dir : Text
  pub target_root : Text
  pub allow_external_target_paths : Bool
  pub nssm_source : Text
  pub nssm_sha256 : Text
  pub known_hosts_file : Text
  pub allow_insecure_host_key : Bool
  pub health_timeout_seconds : ℤ
  pub health_interval_seconds : ℤ
  pub retention_days : ℤ
  pub timeout_minutes : ℤ

pub record CaddyBootstrapConfig : Type 0 where
  pub enabled : Bool
  pub source : Text
  pub url : Text
  pub sha256 : Text
  pub admin : Text

pub record BootstrapConfig : Type 0 where
  pub enabled : Bool
  pub install_dir : Text
  pub service_name : Text
  pub enable_winrm : Bool
  pub caddy : CaddyBootstrapConfig

pub record MonitoringConfig : Type 0 where
  pub enabled : Bool
  pub interval_seconds : ℤ
  pub timeout_seconds : ℤ
  pub retention_hours : ℤ
  pub history_points : ℤ

pub record AssistantConfig : Type 0 where
  pub enabled : Bool
  pub chroma_url : Text
  pub collection : Text
  pub ollama_url : Text
  pub model : Text
  pub timeout_seconds : ℤ
  pub top_k : ℤ

pub record GithubConfig : Type 0 where
  pub app_id : Text
  pub installation_id : ℤ
  pub private_key_ref : Text
  pub api_url : Text

pub record NotifyConfig : Type 0 where
  pub webhook_url : Text
  pub slack_url : Text

pub record Config : Type 0 where
  pub server : ServerConfig
  pub database : DatabaseConfig
  pub auth : AuthConfig
  pub credentials : CredentialsConfig
  pub files : FilesConfig
  pub proxy : ProxyConfig
  pub tunnel : TunnelConfig
  pub deploy : DeployConfig
  pub bootstrap : BootstrapConfig
  pub monitoring : MonitoringConfig
  pub assistant : AssistantConfig
  pub github : GithubConfig
  pub notify : NotifyConfig

abbrev pub tunnel_provider_cloudflare : Text
tunnel_provider_cloudflare = codes "cloudflare"

-- GitHubConfig.Enabled
unfoldable pub is_enabled : GithubConfig → Bool
is_enabled g =
    not (text_eq g.app_id [])
    && (not (is_zero g.installation_id) && not (text_eq g.private_key_ref []))

-- TunnelConfig.Connector
unfoldable pub connector : TunnelConfig → Text
connector t =
    if text_eq (trim_space t.service_name) [] then codes "winify-tunnel" else t.service_name

-- TunnelConfig.EffectiveOrigin
unfoldable pub effective_origin : TunnelConfig → Text
effective_origin t =
    if text_eq (trim_space t.origin) [] then codes "http://localhost:80" else t.origin
