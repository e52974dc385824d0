-- ===== src/Deployment/Docker/Probes.antt =====
-- Writing the compose file and probing the containers (internal/deployment/docker.go).
use winify.Common.{
  is_zero, ◌≡◌, refl, sym, ap, ◌∙◌, ◌⊎◌, inl, inr, Option, none, some, Text, codes, Result, ok, err,
  Option-cases,
}
use winify.Config.Entities.{effective_host_port}
use winify.Deployment.Deployer.{Job}
use winify.Deployment.Health.{health_plan_for, health_url}
use winify.Deployment.Docker.{compose_file, write_command, health_command}
use winify.Deployment.Shell.Runs.{must_ends}
use winify.Deployment.Shell.Yields.{Yields, Yields-raise, Yields-if, Yields-last}
use winify.Deployment.Shell.{Host, StepError, failed, Exit, Session, and_then, exec_cmd}
use winify.Deployment.Docker.Pipeline.{
  DockerConfig, default_compose, workdir, write_generated_compose, diagnose, health_verdict,
  health_check,
}
use winify.Deployment.Docker.Files.{IsDockerHost, Serves, Probed}

module _ {S : Type 0} (h : Host S) (cfg : DockerConfig) (serving : S → Option Text) where
  module _ (job : Job) (docker : IsDockerHost h cfg job.project serving) where
    abbrev pub write_of : Text → Text
    write_of image =
        write_command (workdir h cfg job) (h.base64 (compose_file cfg.quote job.project image))

    abbrev pub Writes : Text → Session S → Type 0
    Writes image s =
        ((out : Text) × (((write_generated_compose h cfg job image s).1 ≡ ok out)
            × Serves h cfg serving job image (write_generated_compose h cfg job image s).0))
        ⊎ ((cause : Text) × (out : Text) × ((write_generated_compose h cfg job image s).1
              ≡ err (failed (codes "write compose file") cause out)))

    pub writes : (image : Text) (s : Session S) → Writes image s
    unfolding write_generated_compose
    writes image s =
        elim (must_ends h (codes "write compose file") _ (write_of image)
          (codes "write docker-compose.yml") s) [
            | inl (e, host, r) ↦ inl (_, (r, ap serving host ∙ docker.written image s.host e))
            | inr (cause, e, r) ↦ inr (cause, _, r)
          ]

    pub Yields-written :
        (image : Text)
        → Yields (Serves h cfg serving job image) (write_generated_compose h cfg job image)
    Yields-written image = record {
      at = λ s a k. elim (writes image s) [
        | inl (out, (r, f)) ↦ f
        | inr (cause, out, r) ↦ let no = sym r ∙ k in cc
      ];
    }

    verdict_none :
        (exit : Exit) (t : Session S)
        → exit.error ≡ none
        → health_verdict h cfg job default_compose exit t ≡ (t, ok tt)
    verdict_none exit t e = rw e refl

    Yields-verdict_some :
        {R : Session S → Type 0} (exit : Exit) (cause : Text)
        → exit.error ≡ some cause
        → Yields R (health_verdict h cfg job default_compose exit)
    Yields-verdict_some exit cause e =
        rw e (Yields-last (diagnose h cfg job default_compose) _ (λ u. Yields-raise _))

    abbrev probe : Text
    probe = health_command (health_plan_for cfg.health job.project) (health_url job.project)

    Yields-run_probe :
        (label : Text)
        → Yields (Probed h cfg serving job) (λ s.
          and_then (exec_cmd h none probe label s) (health_verdict h cfg job default_compose))
    unfolding exec_cmd
    Yields-run_probe label = record {
      at = λ s a k.
          let t = (exec_cmd h none probe label s).0 in
          let exit = (h.run probe s.host).1 in
          elim (Option-cases exit.error) [
            | inl e ↦ inr (
                inr (
                  s.host,
                  e,
                  ap (λ (p : Session S × Result StepError (Unit {0})). p.0.host)
                      (verdict_none exit t e),
                ))
            | inr (cause, e) ↦
                (Yields-verdict_some {R = Probed h cfg serving job} exit cause e).at t a k
          ];
    }

    pub Yields-Probed : Yields (Probed h cfg serving job) (health_check h cfg job default_compose)
    unfolding health_check
    Yields-Probed =
        Yields-if job.project.disable_health_check _ _ (λ e. record { at = λ s a k. inl e })
          (λ d.
            Yields-if (is_zero (effective_host_port job.project)) _ _
              (λ e. record { at = λ s a k. inr (inl e) }) (λ z. Yields-run_probe _))
