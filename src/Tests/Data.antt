-- ===== src/Tests/Data.antt =====
-- A server, a project and a history to run the deployer on.
use winify.Common.{true, false, none, [], ◌∷◌, Text, codes, pos, ok, err}
use winify.Config.Entities.{
  Server, Project, server_type_docker, project_source_dockerfile, caddy_mode_proxy,
}
use winify.Models.Deployments.{Deployment, Status, queued, success, Table}
use winify.Deployment.Deployer.{Env, Job, World}
use winify.Deployment.Deployer.Guard.{Queries}

abbrev pub host_server : Server
host_server = record {
  id = codes "web1";
  name = codes "Web";
  type = server_type_docker;
  host = codes "10.0.0.5";
  winrm_endpoint = [];
  winrm_user = [];
  winrm_transport = [];
  winrm_insecure = false;
  credential_ref = [];
  nssm_path = [];
  caddy_path = [];
  ssh_host = codes "10.0.0.5";
  ssh_port = pos 22;
  ssh_user = codes "deploy";
  ssh_key_ref = [];
  public_ip = [];
  local = false;
  services = [];
  disk_path = [];
}

abbrev pub shop : Project
shop = record {
  id = codes "shop";
  name = codes "Shop";
  server_id = codes "web1";
  strategy = [];
  source = project_source_dockerfile;
  repo_url = codes "https://github.com/acme/shop";
  dockerfile_path = [];
  compose_path = [];
  image = [];
  ports_exposes = pos 3000;
  ports_mappings = codes "8080:3000" ∷ [];
  iis_site = [];
  iis_physical_path = [];
  iis_app_pool = [];
  iis_service = [];
  iis_build_command = [];
  iis_source_subdir = [];
  iis_blue_green = false;
  service_name = [];
  service_exe = [];
  service_args = [];
  service_work_dir = [];
  service_build_command = [];
  service_source_subdir = [];
  service_log_dir = [];
  service_account = [];
  runtime = [];
  caddy_mode = caddy_mode_proxy;
  branch = codes "main";
  domain = codes "shop.example.com";
  port = pos 0;
  health_path = [];
  webhook_secret_ref = codes "vault:hook";
  github_repo = [];
  git_credential_ref = [];
  env = [];
  build_env = [];
  health_interval_seconds = pos 0;
  health_timeout_seconds = pos 0;
  health_retries = pos 0;
  health_start_period_seconds = pos 0;
  project_group = [];
  environment = [];
  disable_health_check = false;
}

abbrev pub attempt : Status → Text → Deployment
attempt st tag = record {
  id = 0;
  project_id = codes "shop";
  target_type = server_type_docker;
  commit_sha = codes "0123abc";
  ref = codes "main";
  image_tag = tag;
  status = st;
  trigger = codes "manual";
  log = [];
  error = [];
  started_at = 100;
  finished_at = 0;
}

-- Two successes, and a queued row on top.
abbrev pub history : Table
history = record {
  rows =
      record (attempt queued []) { id = 3 }
      ∷ record (attempt success (codes "shop:b")) { id = 2 }
      ∷ record (attempt success (codes "shop:a")) { id = 1 }
      ∷ [];
  next_id = 4;
}

-- The same, before the row was queued.
abbrev pub settled : Table
settled = record {
  rows =
      record (attempt success (codes "shop:b")) { id = 2 }
      ∷ record (attempt success (codes "shop:a")) { id = 1 }
      ∷ [];
  next_id = 3;
}

abbrev pub world : World
world = record {
  deployments = history;
  retired = (codes "shop", codes "old.example.com") ∷ [];
  events = [];
  calls = [];
}

abbrev pub queries : Queries
queries = record { list_ok = true; successful_ok = true; create_ok = true; now = 1000 }

-- Everything works.
abbrev pub env : Env
env = record {
  now = 1000;
  proxy_enabled = true;
  proxy_public_ip = [];
  public_url = codes "https://ops.example.com/";
  describe = λ e. codes "failed";
  set_running_ok = true;
  set_artifact_ok = true;
  append_ok = true;
  finish_ok = true;
  list_retired_ok = true;
  delete_retired_ok = true;
  database_error = [];
  shared_variables_for = λ g e. ok [];
  new_target = λ job. ok tt;
  deploy = λ job. (codes "building" ∷ [], ok (codes "shop:c"));
  roll_back = λ job. ([], ok []);
  register_route = λ d u. ok tt;
  deregister_route = λ d. ok tt;
  lookup_host = λ d. none;
  url_host = λ u. [];
}

-- The target does not answer.
abbrev pub offline : Env
offline = record env { new_target = λ job. err (codes "no route to host") }

abbrev pub job : Job
job = record {
  id = 3;
  project = shop;
  server = host_server;
  trigger = codes "manual";
  commit = codes "0123abc";
  ref = codes "main";
  artifact = [];
  previous_artifact = codes "shop:b";
  rollback = false;
}
