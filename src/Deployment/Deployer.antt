-- ===== src/Deployment/Deployer.antt =====
-- internal/deployment/deployer.go: the deploy pipeline. The store, the notifications that were
-- sent and the calls of the proxy are a `World`; what happens outside (the target, the proxy's
-- answers, DNS, a failing database) is an `Env`. Here the log, the notifications and the ends of
-- a run; Proxy has the routes and Run the run itself.
pub mod Proxy
pub mod Run
pub mod Routes
pub mod Frame
pub mod Outcome
pub mod Guard
pub mod Rollback
use winify.Common.{
  ℕ, zero, suc, Bool, true, false, not, ◌&&◌, ◌||◌, Option, none, some, List, [], ◌∷◌, ◌++◌,
  if◌then◌else◌, any, select, Text, codes, text_eq, has_prefix, has_suffix, to_lower, trim_right,
  join, ◌==◌, Result, ok, err, ◌>>=◌, ℤ,
}
use winify.Config.Entities.{Project, Server, EnvMap, effective_host_port}
use winify.Config.Entities.Ports.{decimal}
use winify.Config.Rules.{ConfigError, validate_env_values}
use winify.Models.Deployments.{
  Status, running, success, failed, Table, set_deployment_status, append_deployment_log,
  finish_deployment,
}
use winify.Deployment.Audit.{redact_audit_text}
use winify.Deployment.Revision.{event_commit, short_sha}
use winify.Deployment.Health.{print_int}
use winify.Deployment.SharedVars.{RefError, has_shared_refs, expand_shared_vars}

pub record Job : Type 0 where
  pub id : ℕ
  pub project : Project
  pub server : Server
  pub trigger : Text
  pub commit : Text
  pub ref : Text
  pub artifact : Text
  pub previous_artifact : Text
  pub rollback : Bool

-- The errors that end a run. Their texts are a parameter, `Env.describe`.
pub data RunError : Type 0 where
  shared_variables : Text → RunError
  unknown_reference : RefError → RunError
  invalid_env : ConfigError → RunError
  target : Text → RunError
  no_target_host : RunError
  register : Text → Text → RunError

pub data EventStatus : Type 0 where
  pending succeeded failure : EventStatus

-- The notify.DeployEvent of a job, without its timestamp.
pub record Event : Type 0 where
  pub deployment_id : ℕ
  pub project_id : Text
  pub project_name : Text
  pub server_id : Text
  pub status : EventStatus
  pub commit_sha : Text
  pub ref : Text
  pub error : Text
  pub github_repo : Text
  pub url : Text

pub data ProxyCall : Type 0 where
  registered : Text → Text → ProxyCall
  deregistered : Text → ProxyCall

-- Events and calls stand newest first; a retired domain is a project's id and the domain.
pub record World : Type 0 where
  pub deployments : Table
  pub retired : List (Text × Text)
  pub events : List Event
  pub calls : List ProxyCall

pub record Env : Type 0 where
  pub now : ℕ
  pub proxy_enabled : Bool
  pub proxy_public_ip : Text
  pub public_url : Text
  pub describe : RunError → Text
  -- Which writes of the database succeed.
  pub set_running_ok : Bool
  pub set_artifact_ok : Bool
  pub append_ok : Bool
  pub finish_ok : Bool
  pub list_retired_ok : Bool
  pub delete_retired_ok : Bool
  pub database_error : Text  -- the text of a failing query
  pub shared_variables_for : Text → Text → Result Text EnvMap
  -- The target: its connection, and its pipelines with the lines that they log.
  pub new_target : Job → Result Text (Unit {0})
  pub deploy : Job → List Text × Result Text Text
  pub roll_back : Job → List Text × Result Text Text
  -- The proxy and DNS; `url_host` is the host of a URL, or empty.
  pub register_route : Text → Text → Result Text (Unit {0})
  pub deregister_route : Text → Result Text (Unit {0})
  pub lookup_host : Text → Option (List Text)
  pub url_host : Text → Text

abbrev pub concat : List Text → Text
concat [] = []
concat (s ∷ ss) = s ++ concat ss

abbrev pub or_text : Text → Text → Text
or_text [] other = other
or_text (c ∷ s) other = c ∷ s

-- targetHost of internal/deployment/target.go
unfoldable pub target_host : Env → Server → Text
target_host env srv = or_text srv.host (
    if srv.local
    then codes "127.0.0.1"
    else or_text srv.ssh_host
        (if text_eq srv.winrm_endpoint [] then [] else env.url_host srv.winrm_endpoint))

unfoldable pub logf : Env → Job → List Text → World → World
logf env job line w =
    if env.append_ok
    then record w {
      deployments = append_deployment_log w.deployments job.id (concat line ++ codes "\n");
    }
    else w

unfoldable pub log_lines : Env → Job → List Text → World → World
log_lines env job [] w = w
log_lines env job (line ∷ lines) w = log_lines env job lines (logf env job (line ∷ []) w)

abbrev pub event_url : Env → Job → Text
event_url env job =
    let base = trim_right (λ c. c == b'/') env.public_url in
    if text_eq base [] then [] else base ++ (codes "/projects/" ++ job.project.id)

abbrev pub deploy_event : Env → Job → EventStatus → Text → Event
deploy_event env job status message = record {
  deployment_id = job.id;
  project_id = job.project.id;
  project_name = job.project.name;
  server_id = job.server.id;
  status = status;
  commit_sha = event_commit job.commit job.artifact;
  ref = job.ref;
  error = message;
  github_repo = job.project.github_repo;
  url = event_url env job;
}

unfoldable pub notify : Env → Job → EventStatus → Text → World → World
notify env job status message w = record w {
  events = deploy_event env job status message ∷ w.events;
}

unfoldable pub finish : Env → Job → Status → Text → World → World
finish env job status message w =
    if env.finish_ok
    then record w { deployments = finish_deployment w.deployments job.id status message env.now }
    else w

abbrev pub safe_error : Env → RunError → Text
safe_error env e = redact_audit_text (env.describe e)

-- The closure `fail` of run.
unfoldable pub fail : Env → Job → RunError → World → World
fail env job e w =
    let safe = safe_error env e in
    notify env job failure safe
      (finish env job failed safe (logf env job (codes "ERROR: " ∷ safe ∷ []) w))
