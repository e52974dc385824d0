-- ===== src/Deployment/Deployer/Run.antt =====
-- A run of a job: resolveSharedVars and run of internal/deployment/deployer.go.
use winify.Common.{suc, not, ◌&&◌, List, [], ◌∷◌, if◌then◌else◌, Text, codes, Result, ok, err}
use winify.Config.Entities.{Project, EnvMap}
use winify.Config.Entities.Ports.{decimal}
use winify.Config.Rules.{validate_env_values}
use winify.Models.Deployments.{running, success, set_deployment_status}
use winify.Deployment.Revision.{short_sha}
use winify.Deployment.SharedVars.{has_shared_refs, expand_shared_vars}
use winify.Deployment.Deployer.{
  Env, Job, RunError, World, fail, finish, invalid_env, log_lines, logf, notify, pending,
  shared_variables, succeeded, target, unknown_reference,
}
use winify.Deployment.Deployer.Proxy.{cleanup_retired_proxy, register_proxy}

abbrev pub checked_env : Project → Result RunError Project
checked_env p = elim (validate_env_values (codes "env") p.env) [
  | err e ↦ err (invalid_env e)
  | ok _ ↦ elim (validate_env_values (codes "build_env") p.build_env) [
    | err e ↦ err (invalid_env e)
    | ok _ ↦ ok p
  ]
]

abbrev pub expanded_env : Project → EnvMap → Result RunError Project
expanded_env p vars = elim (expand_shared_vars p.env vars) [
  | err e ↦ err (unknown_reference e)
  | ok env ↦ elim (expand_shared_vars p.build_env vars) [
    | err e ↦ err (unknown_reference e)
    | ok build_env ↦ checked_env (record p { env = env; build_env = build_env })
  ]
]

unfoldable pub resolve_shared_vars : Env → Project → Result RunError Project
resolve_shared_vars env p =
    if not (has_shared_refs p.env) && not (has_shared_refs p.build_env)
    then ok p
    else elim (env.shared_variables_for p.project_group p.environment) [
      | err e ↦ err (shared_variables e)
      | ok vars ↦ expanded_env p vars
    ]

abbrev pub verb : Job → Text
verb job = if job.rollback then codes "rollback" else codes "deploy"

unfoldable pub set_running : Job → Text → World → World
set_running job artifact w = record w {
  deployments = set_deployment_status w.deployments job.id running artifact;
}

-- The artifact that the target returned, if any, goes into the job and into the row.
abbrev pub with_artifact : Job → Text → Job
with_artifact job [] = job
with_artifact job (c ∷ s) = record job { artifact = c ∷ s }

unfoldable pub store_artifact : Env → Job → Text → World → World
store_artifact env job [] w = w
store_artifact env job (c ∷ s) w = if env.set_artifact_ok then set_running job (c ∷ s) w else w

-- The end of run, once the new route stands.
unfoldable pub succeed : Env → Job → World → World
succeed env job w = notify env job succeeded [] (
    finish env job success [] (
      logf env job
        (verb job
          ∷ codes " "
          ∷ decimal (suc job.id) job.id
          ∷ codes " succeeded: artifact="
          ∷ job.artifact
          ∷ [])
        (cleanup_retired_proxy env job w)))

abbrev pub after_proxy : Env → Job → World × Result RunError (Unit {0}) → World
after_proxy env job (w, err e) = fail env job e w
after_proxy env job (w, ok _) = succeed env job w

abbrev pub after_target : Env → Job → Result Text Text → World → World
after_target env job (err e) w = fail env job (target e) w
after_target env job (ok artifact) w =
    let job' = with_artifact job artifact in
    after_proxy env job' (register_proxy env job' (store_artifact env job artifact w))

abbrev pub pipeline : Env → Job → List Text × Result Text Text
pipeline env job = if job.rollback then env.roll_back job else env.deploy job

abbrev pub on_target_with : Env → Job → World → Result Text (Unit {0}) → World
on_target_with env job w (err e) = fail env job (target e) w
on_target_with env job w (ok _) =
    after_target env job (pipeline env job).1 (log_lines env job (pipeline env job).0 w)

abbrev pub on_target : Env → Job → World → World
on_target env job w = on_target_with env job w (env.new_target job)

abbrev pub started_line : Job → List Text
started_line job =
    verb job
    ∷ codes " "
    ∷ decimal (suc job.id) job.id
    ∷ codes " started: project="
    ∷ job.project.id
    ∷ codes " target="
    ∷ job.server.type
    ∷ codes " trigger="
    ∷ job.trigger
    ∷ codes " commit="
    ∷ short_sha job.commit
    ∷ []

abbrev pub started : Env → Job → World → World
started env job w =
    logf env job (started_line job) (notify env job pending [] (set_running job job.artifact w))

abbrev pub run_with : Env → Job → World → Result RunError Project → World
run_with env job w (err e) = fail env job e w
run_with env job w (ok project) = on_target env (record job { project = project }) w

unfoldable pub run : Env → Job → World → World
run env job w =
    if not env.set_running_ok
    then w
    else run_with env job (started env job w) (resolve_shared_vars env job.project)
