-- ===== src/Deployment/Docker/Pipeline.antt =====
-- The runs of the Docker pipeline (internal/deployment/docker.go): Deploy, Rollback and their parts.
use winify.Common.{
  Bool, true, false, ◌||◌, Option, none, some, [], ◌∷◌, ◌++◌, if◌then◌else◌, Text, codes, text_eq,
  contains_any, trim_space, Result, ok, err, is_zero,
}
use winify.Config.Entities.{
  EnvMap, project_source_compose, project_source_image, effective_host_port,
}
use winify.Config.Rules.{Check, validate_resource_id}
use winify.Deployment.Deployer.{Job}
use winify.Config.Paths.{path_join}
use winify.Deployment.Docker.{
  docker_source, image_tag, sorted_entries, env_file_content, compose_file, clone_command,
  build_command, write_command, clear_env_command, write_env_command, up_command, up_repo_command,
  health_command, ps_command, logs_command, merged_env, or_default,
}
use winify.Deployment.Health.{HealthConfig, health_plan_for, health_url}
use winify.Deployment.Revision.{short_sha, git_checkout_ref, deploy_revision}
use winify.Deployment.Shell.GitAuth.{GitAuth, is_sensitive, git_option, prepare_git_auth}
use winify.Deployment.Shell.{
  Host, StepError, invalid_id, refused, unhealthy, Exit, Session, Act, ◌>>=◌, ◌>>◌, pure, raise,
  on_error, say, exec_cmd, must, last_line, shell_quote,
}

-- The settings that the pipeline reads, and `%q`.
pub record DockerConfig : Type 0 where
  pub work_dir : Text
  pub health : HealthConfig
  pub quote : Text → Text

abbrev pub from_check : {S : Type 0} → Check → Act S (Unit {0})
from_check (ok u) = pure u
from_check (err e) = raise (invalid_id e)

-- validateProjectID of target.go
unfoldable pub validate_project_id : Text → Check
validate_project_id id = validate_resource_id (codes "project id") id

abbrev pub when_sensitive : Bool → Text → Option Text
when_sensitive true label = some label
when_sensitive false label = none

abbrev pub spaced : Text → Text
spaced [] = []
spaced (c ∷ s) = b' ' ∷ (c ∷ s)

abbrev pub default_compose : Text
default_compose = codes "docker-compose.yml"

abbrev pub build_label : EnvMap → Option Text
build_label [] = none
build_label (kv ∷ env) = some (codes "docker build (build args redacted)")

abbrev pub compose_path_of : Job → Text
compose_path_of job = or_default job.project.compose_path default_compose

abbrev pub restore_job : Job → Job
restore_job job = record job {
  artifact = job.previous_artifact;
  commit = job.previous_artifact;
  rollback = true;
}

abbrev pub is_invalid_image : Text → Bool
is_invalid_image image = contains_any image (codes "\r\n\"'`") || contains_any image (codes " \t")

module _ {S : Type 0} (h : Host S) (cfg : DockerConfig) where
  abbrev pub workdir : Job → Text
  workdir job = path_join cfg.work_dir job.project.id

  unfoldable pub write_generated_compose : Job → Text → Act S Text
  write_generated_compose job image =
      must h (codes "write compose file")
        (some (codes "write docker-compose.yml (contents redacted)"))
        (write_command (workdir job) (h.base64 (compose_file cfg.quote job.project image)))
        (codes "write docker-compose.yml")

  abbrev pub write_merged : Job → EnvMap → Act S Text
  write_merged job [] =
      must h (codes "clear .env") (some (codes "clear .env (contents redacted)"))
        (clear_env_command (workdir job)) (codes "clear .env")
  write_merged job (kv ∷ env) =
      must h (codes "write .env") (some (codes "write .env (contents redacted)"))
        (write_env_command (workdir job) (h.base64 (env_file_content (sorted_entries (kv ∷ env)))))
        (codes "write .env")

  unfoldable pub write_env_file : Job → Act S Text
  write_env_file job = write_merged job (merged_env job.project.env job.project.build_env)

  unfoldable pub compose_up : Job → Act S Text
  compose_up job =
      must h (codes "compose up") none (up_command (workdir job)) (codes "docker compose up -d")

  unfoldable pub compose_up_repo : Job → Text → Act S Text
  compose_up_repo job compose_path =
      must h (codes "compose up") none (up_repo_command (workdir job) compose_path)
        (codes "docker compose -f " ++ (compose_path ++ codes " up -d --build"))

  abbrev pub diagnostic : Text → Text → Act S (Unit {0})
  diagnostic cmd label = exec_cmd h none cmd label >>= λ exit. elim exit.error [
    | none ↦ pure tt
    | some e ↦ say (codes "diagnostics: " ++ e)
  ]

  unfoldable pub diagnose : Job → Text → Act S (Unit {0})
  diagnose job compose_path = do
    diagnostic (ps_command (workdir job) compose_path) (codes "compose ps (diagnostics)")
    diagnostic (logs_command (workdir job) compose_path) (codes "compose logs (diagnostics)")

  abbrev pub health_verdict : Job → Text → Exit → Act S (Unit {0})
  health_verdict job compose_path exit = elim exit.error [
    | none ↦ pure tt
    | some e ↦
        diagnose job compose_path
        >> raise (unhealthy (health_url job.project) e (effective_host_port job.project))
  ]

  unfoldable pub health_check : Job → Text → Act S (Unit {0})
  health_check job compose_path =
      if job.project.disable_health_check
      then say (codes "health check disabled; skipping")
      else if is_zero (effective_host_port job.project)
      then say (codes "no port configured; skipping health check")
      else exec_cmd h none
          (health_command (health_plan_for cfg.health job.project) (health_url job.project))
          (codes "health check " ++ health_url job.project)
        >>= health_verdict job compose_path

  abbrev pub resolved_or : Text → Text → Text
  resolved_or rev out = or_default (last_line out) rev

  abbrev pub clone_with : Job → Text → GitAuth → Act S Text
  clone_with job rev auth =
      must h (codes "clone/checkout")
        (when_sensitive (is_sensitive auth)
          (codes "git clone/fetch + checkout (credential redacted)"))
        (clone_command (spaced (git_option shell_quote auth)) job.project.repo_url (workdir job)
          (git_checkout_ref rev))
        (codes "git clone/fetch + checkout " ++ short_sha rev)
      >>= λ out. pure (resolved_or rev out)

  unfoldable pub clone_repo : Job → Text → Act S Text
  clone_repo job rev =
      if text_eq job.project.repo_url []
      then raise (refused (codes "project " ++ (job.project.id ++ codes " has no repo_url")))
      else prepare_git_auth h job.project
          (path_join cfg.work_dir (job.project.id ++ codes ".gitkey")) false
        >>= clone_with job rev

  abbrev pub build_at : Job → Text → Act S Text
  build_at job rev =
      let tag = image_tag job.project.id rev in
      must h (codes "docker build") (build_label job.project.build_env)
        (build_command tag (workdir job)
          (or_default job.project.dockerfile_path (codes "Dockerfile")) job.project.build_env)
        (codes "docker build -t " ++ tag)
      >>= λ out. pure tag

  unfoldable pub clone_and_build : Job → Act S Text
  clone_and_build job = clone_repo job (deploy_revision job.project job.commit) >>= build_at job

  -- The compose file is written, the containers are brought up and probed.
  abbrev pub up_and_probe : Job → Act S (Unit {0})
  up_and_probe job = do compose_up job; health_check job default_compose

  abbrev pub up_and_probe_repo : Job → Text → Act S (Unit {0})
  up_and_probe_repo job compose_path = do
    compose_up_repo job compose_path
    health_check job compose_path

  unfoldable pub rollback_image : Job → Act S Text
  rollback_image job =
      if text_eq job.artifact []
      then raise (refused (codes "no previous image to roll back to"))
      else do
        say (codes "rollback: reusing image " ++ (job.artifact ++ codes " (no rebuild)"))
        write_generated_compose job job.artifact
        up_and_probe job
        pure job.artifact

  unfoldable pub rollback_compose : Job → Act S Text
  rollback_compose job =
      if text_eq job.commit []
      then raise (refused (codes "no previous commit to roll back to"))
      else do
        say (
            codes "rollback: compose "
            ++ (compose_path_of job ++ (codes " @ " ++ short_sha job.commit)))
        rev ← clone_repo job job.commit
        write_env_file job
        up_and_probe_repo job (compose_path_of job)
        pure rev

  abbrev pub roll_back_source : Job → Act S Text
  roll_back_source job =
      if text_eq (docker_source job.project) project_source_compose
      then rollback_compose job
      else rollback_image job

  abbrev pub reported :
      Text → Session S × Result StepError Text → Session S × Result StepError (Unit {0})
  reported previous (s, ok artifact) =
      say (codes "restored previous successful release " ++ previous) s
  reported previous (s, err e) =
      say (codes "WARNING: failed to restore previous successful release: " ++ h.describe e) s

  unfoldable pub restore_previous : Job → Act S (Unit {0})
  restore_previous job =
      if text_eq (trim_space job.previous_artifact) []
      then say (
          codes
            "deployment failed and no previous successful artifact is available for automatic recovery")
      else λ s. reported job.previous_artifact (roll_back_source (restore_job job) s)

  unfoldable pub deploy_dockerfile : Job → Act S Text
  deploy_dockerfile job = do
    say (codes "docker pipeline: build " ++ job.project.id)
    tag ← clone_and_build job
    write_generated_compose job tag
    on_error (up_and_probe job) (restore_previous job)
    pure tag

  unfoldable pub run_image : Job → Text → Act S Text
  run_image job image = do
    say (codes "docker pipeline: run image " ++ image)
    write_generated_compose job image
    on_error (up_and_probe job) (restore_previous job)
    pure image

  unfoldable pub deploy_image : Job → Act S Text
  deploy_image job =
      let image = trim_space job.project.image in
      if text_eq image []
      then raise
          (refused (codes "project " ++ (job.project.id ++ codes " has no image configured")))
      else if is_invalid_image image
      then raise (
          refused (codes "project " ++ (job.project.id ++ codes " has an invalid image reference")))
      else run_image job image

  unfoldable pub deploy_compose : Job → Act S Text
  deploy_compose job =
      let rev = deploy_revision job.project job.commit in
      do
        say (
            codes "docker pipeline: compose "
            ++ (compose_path_of job ++ (codes " @ " ++ short_sha rev)))
        resolved ← clone_repo job rev
        write_env_file job
        on_error (up_and_probe_repo job (compose_path_of job)) (restore_previous job)
        pure resolved

  -- dockerTarget.Deploy
  unfoldable pub deploy : Job → Act S Text
  deploy job =
      from_check (validate_project_id job.project.id)
      >> (if text_eq (docker_source job.project) project_source_image
          then deploy_image job
          else if text_eq (docker_source job.project) project_source_compose
          then deploy_compose job
          else deploy_dockerfile job)

  -- dockerTarget.Rollback
  unfoldable pub roll_back : Job → Act S Text
  roll_back job = from_check (validate_project_id job.project.id) >> roll_back_source job
