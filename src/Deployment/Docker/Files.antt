-- ===== src/Deployment/Docker/Files.antt =====
-- The compose file on the host, and what leaves it alone (internal/deployment/docker.go).
use winify.Common.{
  is_zero, ◌≡◌, ◌∙◌, ◌⊎◌, inl, inr, true, Option, none, some, List, ◌∷◌, ◌++◌, Text, codes,
  Option-cases,
}
use winify.Config.Entities.{Project, effective_host_port}
use winify.Deployment.Deployer.{Job}
use winify.Deployment.Health.{HealthPlan, health_plan_for, health_url}
use winify.Config.Paths.{path_join}
use winify.Deployment.Docker.{
  compose_file, write_command, up_command, health_command, ps_command, logs_command,
}
use winify.Deployment.Shell.Keeps.{Keeps, Keeps-pure, Keeps-raise, Keeps-if, Keeps-bind, Keeps-must}
use winify.Deployment.Shell.{Host, StepError, Session, say, exec_cmd}
use winify.Deployment.Docker.Pipeline.{
  DockerConfig, default_compose, workdir, compose_up, diagnostic, diagnose, health_verdict,
  health_check, up_and_probe,
}

-- What the pipeline relies on of the host, for the compose file that stands in the project's
-- directory: a write that reports no error puts the file there, and the other commands leave it.
pub record IsDockerHost {S : Type 0} (h : Host S) (cfg : DockerConfig) (project : Project)
    (serving : S → Option Text) : Type 0 where
  pub written :
      (image : Text) (s : S)
      → (h.run
          (write_command
            (path_join cfg.work_dir project.id)
            (h.base64 (compose_file cfg.quote project image)))
          s).1.error
        ≡ none
      → serving
          (h.run
            (write_command
              (path_join cfg.work_dir project.id)
              (h.base64 (compose_file cfg.quote project image)))
            s).0
        ≡ some (compose_file cfg.quote project image)
  pub up_keeps :
      (s : S) → serving (h.run (up_command (path_join cfg.work_dir project.id)) s).0 ≡ serving s
  pub probe_keeps :
      (plan : HealthPlan) (url : Text) (s : S)
      → serving (h.run (health_command plan url) s).0 ≡ serving s
  pub ps_keeps :
      (s : S)
      → serving (h.run (ps_command (path_join cfg.work_dir project.id) default_compose) s).0
        ≡ serving s
  pub logs_keeps :
      (s : S)
      → serving (h.run (logs_command (path_join cfg.work_dir project.id) default_compose) s).0
        ≡ serving s

module _ {S : Type 0} (h : Host S) (cfg : DockerConfig) (serving : S → Option Text) where
  -- The compose file of `image` stands.
  abbrev pub Serves : Job → Text → Session S → Type 0
  Serves job image s = serving s.host ≡ some (compose_file cfg.quote job.project image)

  -- The last command on the host was a health check that succeeded, or there was none to run.
  abbrev pub Probed : Job → Session S → Type 0
  Probed job t =
      (job.project.disable_health_check ≡ true)
      ⊎ ((is_zero (effective_host_port job.project) ≡ true)
          ⊎ ((before : S) × ((h.run
                  (health_command (health_plan_for cfg.health job.project) (health_url job.project))
                  before).1.error
                ≡ none)
              × (t.host
                  ≡ (h.run
                      (health_command (health_plan_for cfg.health job.project)
                        (health_url job.project))
                      before).0)))

  abbrev pub Warned : Session S → Type 0
  Warned t =
      (e : StepError) × (rest : List Text) × (t.log
        ≡ (codes "WARNING: failed to restore previous successful release: " ++ h.describe e) ∷ rest)

  module _ (job : Job) (docker : IsDockerHost h cfg job.project serving) where
    module _ (file : Option Text) where
      abbrev Stands : Session S → Type 0
      Stands s = serving s.host ≡ file

      Keeps-say : (line : Text) → Keeps Stands (say line)
      unfolding say
      Keeps-say line = record { at = λ s k. k }

      Keeps-exec_cmd :
          (redaction : Option Text) (cmd label : Text)
          → ((s : S) → serving (h.run cmd s).0 ≡ serving s)
          → Keeps Stands (exec_cmd h redaction cmd label)
      unfolding exec_cmd
      Keeps-exec_cmd redaction cmd label same = record { at = λ s k. same s.host ∙ k }

      Keeps-diagnostic :
          (cmd label : Text)
          → ((s : S) → serving (h.run cmd s).0 ≡ serving s)
          → Keeps Stands (diagnostic h cfg cmd label)
      Keeps-diagnostic cmd label same =
          Keeps-bind (exec_cmd h none cmd label) _ (Keeps-exec_cmd none cmd label same) (λ exit.
            elim (Option-cases exit.error) [
              | inl e ↦ rw e (Keeps-pure _)
              | inr (t, e) ↦ rw e (Keeps-say _)
            ])

      Keeps-diagnose : Keeps Stands (diagnose h cfg job default_compose)
      unfolding diagnose
      Keeps-diagnose =
          Keeps-bind (diagnostic h cfg (ps_command (workdir h cfg job) default_compose) _) _
            (Keeps-diagnostic _ _ docker.ps_keeps) (λ u. Keeps-diagnostic _ _ docker.logs_keeps)

      Keeps-health : Keeps Stands (health_check h cfg job default_compose)
      unfolding health_check
      Keeps-health =
          Keeps-if job.project.disable_health_check _ _ (λ e. Keeps-say _)
            (λ e.
              Keeps-if (is_zero (effective_host_port job.project)) _ _ (λ e. Keeps-say _)
                (λ e.
                  Keeps-bind _ (health_verdict h cfg job default_compose)
                    (Keeps-exec_cmd none _ _ (
                      docker.probe_keeps (health_plan_for cfg.health job.project)
                        (health_url job.project)))
                    (λ exit. elim (Option-cases exit.error) [
                      | inl e ↦ rw e (Keeps-pure _)
                      | inr (t, e) ↦ rw e (
                          Keeps-bind (diagnose h cfg job default_compose) _ Keeps-diagnose
                            (λ u. Keeps-raise _))
                    ])))

      pub Keeps-probe : Keeps Stands (up_and_probe h cfg job)
      unfolding compose_up
      Keeps-probe =
          Keeps-bind (compose_up h cfg job) _
            (Keeps-must h _ _ _ _ (Keeps-exec_cmd none _ _ docker.up_keeps)) (λ out. Keeps-health)
