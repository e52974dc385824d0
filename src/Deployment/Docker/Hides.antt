-- ===== src/Deployment/Docker/Hides.antt =====
-- No secret stands in a command that the audit log records as it is (internal/deployment/docker.go).
use winify.Common.{[], All, Text, text_eq, trim_space, Result, ok, err}
use winify.Config.Entities.{project_source_compose, project_source_image}
use winify.Config.Rules.{Check}
use winify.Deployment.Deployer.{Job}
use winify.Deployment.Revision.{deploy_revision}
use winify.Deployment.Docker.{docker_source}
use winify.Deployment.Shell.Keeps.{Keeps-pure, Keeps-raise, Keeps-if, Keeps-bind, Keeps-on_error}
use winify.Deployment.Shell.Sends.{Sends-say}
use winify.Deployment.Shell.{Host, StepError, fresh, Session, on_error, say}
use winify.Deployment.Docker.Pipeline.{
  DockerConfig, from_check, validate_project_id, write_generated_compose, write_env_file,
  compose_up, compose_up_repo, clone_repo, clone_and_build, up_and_probe, up_and_probe_repo,
  rollback_image, compose_path_of, rollback_compose, restore_job, roll_back_source, reported,
  restore_previous, deploy_dockerfile, run_image, deploy_image, is_invalid_image, deploy_compose,
  deploy, roll_back,
}
use winify.Deployment.Docker.Covers.{
  IsCovered, Covers, Covers-compose, Covers-env, Covers-up, Covers-up_repo, Covers-health,
  Covers-clone, Covers-clone_and_build,
}

module _ {S : Type 0} (h : Host S) where
  module _ (cfg : DockerConfig) (job : Job) where
    Covers-probe : Covers h (up_and_probe h cfg job)
    Covers-probe =
        Keeps-bind (compose_up h cfg job) _ (Covers-up h cfg job) (λ out. Covers-health h cfg job _)

    Covers-probe_repo : (path : Text) → Covers h (up_and_probe_repo h cfg job path)
    Covers-probe_repo path =
        Keeps-bind (compose_up_repo h cfg job path) _ (Covers-up_repo h cfg job path)
          (λ out. Covers-health h cfg job path)

    Covers-rollback_image : Covers h (rollback_image h cfg job)
    unfolding rollback_image
    Covers-rollback_image =
        Keeps-if (text_eq job.artifact []) _ _ (λ e. Keeps-raise _)
          (λ e. Keeps-bind (say _) _ (Sends-say _) (λ u.
            Keeps-bind (write_generated_compose h cfg job job.artifact) _
              (Covers-compose h cfg job job.artifact)
              (λ out. Keeps-bind (up_and_probe h cfg job) _ Covers-probe (λ u. Keeps-pure _))))

    Covers-rollback_compose : Covers h (rollback_compose h cfg job)
    unfolding rollback_compose
    Covers-rollback_compose =
        Keeps-if (text_eq job.commit []) _ _ (λ e. Keeps-raise _)
          (λ e. Keeps-bind (say _) _ (Sends-say _) (λ u.
            Keeps-bind (clone_repo h cfg job job.commit) _ (Covers-clone h cfg job job.commit)
              (λ rev. Keeps-bind (write_env_file h cfg job) _ (Covers-env h cfg job) (λ out.
                Keeps-bind (up_and_probe_repo h cfg job (compose_path_of job)) _
                  (Covers-probe_repo _) (λ u. Keeps-pure rev)))))

    Covers-source : Covers h (roll_back_source h cfg job)
    Covers-source =
        Keeps-if (text_eq (docker_source job.project) project_source_compose) _ _
          (λ e. Covers-rollback_compose) (λ e. Covers-rollback_image)

  module _ (cfg : DockerConfig) where
    Covers-restore : (job : Job) → Covers h (restore_previous h cfg job)
    unfolding restore_previous
    Covers-restore job =
        Keeps-if (text_eq (trim_space job.previous_artifact) []) _ _ (λ e. Sends-say _)
          (λ e. record {
            at = λ s q.
                let (t, r) = roll_back_source h cfg (restore_job job) s in
                go t r ((Covers-source cfg (restore_job job)).at s q);
          })
      where
        go :
            (t : Session S) (r : Result StepError Text)
            → All IsCovered t.sent
            → All IsCovered (reported h cfg job.previous_artifact (t, r)).0.sent
        go t (ok a) q = (Sends-say _).at t q
        go t (err e) q = (Sends-say _).at t q

    Covers-dockerfile : (job : Job) → Covers h (deploy_dockerfile h cfg job)
    unfolding deploy_dockerfile
    Covers-dockerfile job = Keeps-bind (say _) _ (Sends-say _) (λ u.
        Keeps-bind (clone_and_build h cfg job) _ (Covers-clone_and_build h cfg job) (λ tag.
          Keeps-bind (write_generated_compose h cfg job tag) _ (Covers-compose h cfg job tag)
            (λ out.
              Keeps-bind (on_error (up_and_probe h cfg job) (restore_previous h cfg job)) _
                (Keeps-on_error _ _ (Covers-probe cfg job) (Covers-restore job))
                (λ u. Keeps-pure tag))))

    Covers-run_image : (job : Job) (image : Text) → Covers h (run_image h cfg job image)
    unfolding run_image
    Covers-run_image job image = Keeps-bind (say _) _ (Sends-say _) (λ u.
        Keeps-bind (write_generated_compose h cfg job image) _ (Covers-compose h cfg job image)
          (λ out.
            Keeps-bind (on_error (up_and_probe h cfg job) (restore_previous h cfg job)) _
              (Keeps-on_error _ _ (Covers-probe cfg job) (Covers-restore job))
              (λ u. Keeps-pure image)))

    Covers-deploy_image : (job : Job) → Covers h (deploy_image h cfg job)
    unfolding deploy_image
    Covers-deploy_image job =
        Keeps-if (text_eq (trim_space job.project.image) []) _ _ (λ e. Keeps-raise _)
          (λ e.
            Keeps-if (is_invalid_image (trim_space job.project.image)) _ _ (λ e. Keeps-raise _)
              (λ e. Covers-run_image job (trim_space job.project.image)))

    Covers-deploy_compose : (job : Job) → Covers h (deploy_compose h cfg job)
    unfolding deploy_compose
    Covers-deploy_compose job = Keeps-bind (say _) _ (Sends-say _) (λ u.
        Keeps-bind (clone_repo h cfg job (deploy_revision job.project job.commit)) _
          (Covers-clone h cfg job _)
          (λ rev. Keeps-bind (write_env_file h cfg job) _ (Covers-env h cfg job) (λ out.
            Keeps-bind
              (on_error (up_and_probe_repo h cfg job (compose_path_of job))
                (restore_previous h cfg job))
              _ (Keeps-on_error _ _ (Covers-probe_repo cfg job _) (Covers-restore job))
              (λ u. Keeps-pure rev))))

    Covers-checked_id : (c : Check) → Covers h (from_check c)
    Covers-checked_id (ok u) = Keeps-pure u
    Covers-checked_id (err e) = Keeps-raise _

    Covers-deploy : (job : Job) → Covers h (deploy h cfg job)
    unfolding deploy
    Covers-deploy job =
        Keeps-bind (from_check (validate_project_id job.project.id)) _
          (Covers-checked_id (validate_project_id job.project.id))
          (λ u.
            Keeps-if (text_eq (docker_source job.project) project_source_image) _ _
              (λ e. Covers-deploy_image job)
              (λ e.
                Keeps-if (text_eq (docker_source job.project) project_source_compose) _ _
                  (λ e. Covers-deploy_compose job) (λ e. Covers-dockerfile job)))

    Covers-roll_back : (job : Job) → Covers h (roll_back h cfg job)
    unfolding roll_back
    Covers-roll_back job =
        Keeps-bind (from_check (validate_project_id job.project.id)) _
          (Covers-checked_id (validate_project_id job.project.id)) (λ u. Covers-source cfg job)

-- Whatever the host answers and wherever the pipeline stops: for every command that a Docker
-- deployment or rollback sends, the audit log gets a label, or the command is of a form that
-- holds no value of an environment, no build argument and no token.
pub deploy_hides :
    {S : Type 0} (h : Host S) (cfg : DockerConfig) (job : Job) (start : S)
    → All IsCovered (deploy h cfg job (fresh start)).0.sent
      × All IsCovered (roll_back h cfg job (fresh start)).0.sent
deploy_hides h cfg job start = (
  (Covers-deploy h cfg job).at (fresh start) tt,
  (Covers-roll_back h cfg job).at (fresh start) tt,
)
