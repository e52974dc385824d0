-- ===== src/Config/Settings/Load/Paths.antt =====
-- Where the paths of a loaded configuration point (internal/config/config.go).
use winify.Common.{◌≡◌, ◌≢◌, ◌⊎◌, true, [], Text, codes, Result, ok, err}
use winify.Config.Settings.{Config}
use winify.Config.Settings.Environment.{EnvError}
use winify.Config.Settings.Load.Order.{override}
use winify.Config.Settings.Placement.{is_settled}

abbrev config_or {ℓ} : {E : Type ℓ} → Config → Result E Config → Config
config_or c (ok d) = d
config_or c (err e) = c

abbrev came : Config → Result EnvError Config
came c = ok c

-- Each path, after the environment was applied to `c`.
record Overrides (getenv : Text → Text) (c d : Config) : Type 0 where
  path : d.database.path ≡ override getenv (codes "CC_DB_PATH") c.database.path
  servers : d.files.servers ≡ override getenv (codes "CC_SERVERS_FILE") c.files.servers
  projects : d.files.projects ≡ override getenv (codes "CC_PROJECTS_FILE") c.files.projects
  work_dir : d.deploy.work_dir ≡ override getenv (codes "CC_DEPLOY_WORKDIR") c.deploy.work_dir
  iis_work_dir :
      d.deploy.iis_work_dir ≡ override getenv (codes "CC_DEPLOY_IIS_WORKDIR") c.deploy.iis_work_dir
  iis_backup_dir :
      d.deploy.iis_backup_dir
      ≡ override getenv (codes "CC_DEPLOY_IIS_BACKUP_DIR") c.deploy.iis_backup_dir
  nssm_source :
      d.deploy.nssm_source ≡ override getenv (codes "CC_DEPLOY_NSSM_SOURCE") c.deploy.nssm_source
  known_hosts_file :
      d.deploy.known_hosts_file
      ≡ override getenv (codes "CC_DEPLOY_KNOWN_HOSTS") c.deploy.known_hosts_file
  install_dir :
      d.bootstrap.install_dir
      ≡ override getenv (codes "CC_BOOTSTRAP_INSTALL_DIR") c.bootstrap.install_dir
  caddy_source :
      d.bootstrap.caddy.source
      ≡ override getenv (codes "CC_BOOTSTRAP_CADDY_SOURCE") c.bootstrap.caddy.source

-- The variable's value as it is, or a path that does not depend on the working directory.
abbrev pub Anchored : (Text → Text) → Text → Text → Type 0
Anchored getenv name value =
    ((getenv name ≢ []) × (value ≡ getenv name)) ⊎ (is_settled value ≡ true)

pub record IsAnchored (getenv : Text → Text) (cfg : Config) : Type 0 where
  pub path : Anchored getenv (codes "CC_DB_PATH") cfg.database.path
  pub servers : Anchored getenv (codes "CC_SERVERS_FILE") cfg.files.servers
  pub projects : Anchored getenv (codes "CC_PROJECTS_FILE") cfg.files.projects
  pub work_dir : Anchored getenv (codes "CC_DEPLOY_WORKDIR") cfg.deploy.work_dir
  pub iis_work_dir : Anchored getenv (codes "CC_DEPLOY_IIS_WORKDIR") cfg.deploy.iis_work_dir
  pub iis_backup_dir : Anchored getenv (codes "CC_DEPLOY_IIS_BACKUP_DIR") cfg.deploy.iis_backup_dir
  pub nssm_source : Anchored getenv (codes "CC_DEPLOY_NSSM_SOURCE") cfg.deploy.nssm_source
  pub known_hosts_file : Anchored getenv (codes "CC_DEPLOY_KNOWN_HOSTS") cfg.deploy.known_hosts_file
  pub install_dir : Anchored getenv (codes "CC_BOOTSTRAP_INSTALL_DIR") cfg.bootstrap.install_dir
  pub caddy_source : Anchored getenv (codes "CC_BOOTSTRAP_CADDY_SOURCE") cfg.bootstrap.caddy.source
