-- ===== src/Deployment/Docker/Restores.antt =====
-- What a deployment of an image leaves on the host (internal/deployment/docker.go).
use winify.Common.{
  ◌≡◌, refl, sym, ◌∙◌, ◌⊎◌, inl, inr, true, false, Option, some, [], ◌++◌, Text, codes, text_eq,
  text_eq_iff, trim_space, Result, ok, err, Bool-cases,
}
use winify.Config.Entities.{project_source_compose, project_source_image}
use winify.Config.Rules.{Check}
use winify.Deployment.Deployer.{Job}
use winify.Deployment.Docker.{compose_file, docker_source}
use winify.Deployment.Shell.Keeps.{Keeps-pure, Keeps-bind}
use winify.Deployment.Shell.Yields.{Yields, Yields-raise, Yields-if, Yields-last, Yields-first}
use winify.Deployment.Shell.{
  Host, StepError, failed, Session, Act, ◌>>=◌, ◌>>◌, and_then, recover, on_error, say, pure,
}
use winify.Deployment.Docker.Pipeline.{
  DockerConfig, write_generated_compose, compose_up, up_and_probe, rollback_image, restore_job,
  roll_back_source, reported, restore_previous, run_image, deploy, from_check, validate_project_id,
  deploy_image, is_invalid_image,
}
use winify.Deployment.Docker.Files.{IsDockerHost, Serves, Probed, Warned, Keeps-probe}
use winify.Deployment.Docker.Probes.{writes, Yields-written, Yields-Probed}

module _ {S : Type 0} (h : Host S) (cfg : DockerConfig) (serving : S → Option Text) where
  -- The compose file of the previous release stands, or the log ends in a warning, or there was no
  -- previous release.
  abbrev pub Recovered : Job → Session S → Type 0
  Recovered job t =
      Serves h cfg serving job job.previous_artifact t
      ⊎ (Warned h cfg serving t ⊎ (trim_space job.previous_artifact ≡ []))

  -- How a deployment of `image` from `start` has ended in `t`.
  pub data Ending (job : Job) (image : Text) (start : S) (t : Session S)
      : Result StepError Text → Type 0 where
    released :
        Serves h cfg serving job image t
        → Probed h cfg serving job t
        → Ending job image start t (ok image)
    refusal : (e : StepError) → t.host ≡ start → Ending job image start t (err e)
    not_written :
        (cause out : Text)
        → Ending job image start t (err (failed (codes "write compose file") cause out))
    recovered : (e : StepError) → Recovered job t → Ending job image start t (err e)

  module _ (job : Job) (docker : IsDockerHost h cfg job.project serving) where
    Yields-rollback_image :
        Yields (Serves h cfg serving job job.artifact) (rollback_image h cfg job)
    unfolding rollback_image
    Yields-rollback_image =
        Yields-if (text_eq job.artifact []) _ _ (λ e. Yields-raise _)
          (λ e. Yields-last (say _) _ (λ u.
            Yields-first (write_generated_compose h cfg job job.artifact) _
              (Yields-written h cfg serving job docker job.artifact)
              (λ out.
                Keeps-bind (up_and_probe h cfg job) _
                  (Keeps-probe h cfg serving job docker
                    (some (compose_file cfg.quote job.project job.artifact)))
                  (λ u. Keeps-pure _))))

    Yields-source :
        text_eq (docker_source job.project) project_source_compose ≡ false
        → Yields (Serves h cfg serving job job.artifact) (roll_back_source h cfg job)
    Yields-source not_compose =
        Yields-if (text_eq (docker_source job.project) project_source_compose) _ _
          (λ e. let no = sym e ∙ not_compose in cc) (λ e. Yields-rollback_image)

  module _ (job : Job) (docker : IsDockerHost h cfg job.project serving)
      (not_compose : text_eq (docker_source job.project) project_source_compose ≡ false) where
    reported-Recovered :
        (t : Session S) (r : Result StepError Text)
        → ((a : Text) → r ≡ ok a → Serves h cfg serving job job.previous_artifact t)
        → Recovered job (reported h cfg job.previous_artifact (t, r)).0
    unfolding say
    reported-Recovered t (ok a) k = inl (k a refl)
    reported-Recovered t (err e) k = inr (inl (e, t.log, refl))

    restore-Recovered : (s : Session S) → Recovered job (restore_previous h cfg job s).0
    unfolding restore_previous
    restore-Recovered s = elim (Bool-cases (text_eq (trim_space job.previous_artifact) [])) [
      | inl e ↦ inr (inr ((text_eq_iff _ _).0 e))
      | inr e ↦
          let (t, r) = roll_back_source h cfg (restore_job job) s in
          rw e (reported-Recovered t r ((Yields-source (restore_job job) docker not_compose).at s))
    ]

    abbrev probing : Act S (Unit {0})
    probing = up_and_probe h cfg job

    probed-Ending :
        (image : Text) (start : S) (t : Session S) (r : Result StepError (Unit {0}))
        → Serves h cfg serving job image t
        → ((u : Unit {0}) → r ≡ ok u → Probed h cfg serving job t)
        → Ending job image start
            (and_then (recover (restore_previous h cfg job) (t, r)) (λ u. pure image)).0
            (and_then (recover (restore_previous h cfg job) (t, r)) (λ u. pure image)).1
    probed-Ending image start t (ok u) stands probed = released stands (probed u refl)
    probed-Ending image start t (err e) stands probed = recovered e (restore-Recovered t)

    probing-Ending :
        (image : Text) (start : S) (s : Session S)
        → Serves h cfg serving job image s
        → Ending job image start
            (and_then (recover (restore_previous h cfg job) (probing s)) (λ u. pure image)).0
            (and_then (recover (restore_previous h cfg job) (probing s)) (λ u. pure image)).1
    probing-Ending image start s stands =
        let (t, r) = probing s in
        probed-Ending image start t r
          ((Keeps-probe h cfg serving job docker
              (some (compose_file cfg.quote job.project image))).at
            s stands)
          ((Yields-last (compose_up h cfg job) _ (λ out. Yields-Probed h cfg serving job docker)).at
            s)

    written-Ending :
        (image : Text) (start : S) (t : Session S) (r : Result StepError Text)
        → ((out : Text) × ((r ≡ ok out) × Serves h cfg serving job image t))
          ⊎ ((cause : Text) × (out : Text) × (r
                ≡ err (failed (codes "write compose file") cause out)))
        → Ending job image start
            (and_then
              (t, r)
              (λ out. on_error probing (restore_previous h cfg job) >>= λ u. pure image)).0
            (and_then
              (t, r)
              (λ out. on_error probing (restore_previous h cfg job) >>= λ u. pure image)).1
    written-Ending image start t r (inl (out, (e, stands))) =
        rw e (probing-Ending image start t stands)
    written-Ending image start t r (inr (cause, out, e)) = rw e (not_written cause out)

    run_image-Ending :
        (image : Text) (s : Session S)
        → Ending job image s.host (run_image h cfg job image s).0 (run_image h cfg job image s).1
    unfolding run_image say
    run_image-Ending image s =
        let line = codes "docker pipeline: run image " ++ image in
        let began = (say line s).0 in
        let (t, r) = write_generated_compose h cfg job image began in
        written-Ending image s.host t r (writes h cfg serving job docker image began)

    deploy_image-Ending :
        (s : Session S)
        → Ending job
            (trim_space job.project.image)
            s.host
            (deploy_image h cfg job s).0
            (deploy_image h cfg job s).1
    unfolding deploy_image
    deploy_image-Ending s =
        let image = trim_space job.project.image in
        elim (Bool-cases (text_eq image [])) [
          | inl e ↦ rw e (refusal _ refl)
          | inr e ↦ elim (Bool-cases (is_invalid_image image)) [
            | inl v ↦ rw e (rw v (refusal _ refl))
            | inr v ↦ rw e (rw v (run_image-Ending image s))
          ]
        ]

  checked-Ending :
      (job : Job) (image : Text) (s : Session S) (c : Check) (m : Act S Text)
      → Ending job image s.host (m s).0 (m s).1
      → Ending job image s.host ((from_check c >> m) s).0 ((from_check c >> m) s).1
  checked-Ending job image s (ok u) m k = k
  checked-Ending job image s (err e) m k = refusal _ refl

image_is_not_compose :
    (source : Text)
    → text_eq source project_source_image ≡ true
    → text_eq source project_source_compose ≡ false
unfolding text_eq
image_is_not_compose source e = rw ((text_eq_iff source project_source_image).0 e) refl

-- On a host that behaves as documented, a deployment of a registry image ends in one of four
-- ways. It succeeds: the compose file of that image stands, and the last command was a health
-- check that succeeded, unless the project has none. It is refused with the host untouched. The
-- file could not be written. Or it fails later on: then the file of the previous release stands
-- again, unless the log's last line warns that it could not be restored, or there is no previous
-- release.
pub deploy-Ending :
    {S : Type 0} (h : Host S) (cfg : DockerConfig) (serving : S → Option Text) (job : Job)
    (s : Session S)
    → IsDockerHost h cfg job.project serving
    → text_eq (docker_source job.project) project_source_image ≡ true
    → Ending h cfg serving job
        (trim_space job.project.image)
        s.host
        (deploy h cfg job s).0
        (deploy h cfg job s).1
unfolding deploy
deploy-Ending h cfg serving job s docker source =
    let image = trim_space job.project.image in
    let not_compose = image_is_not_compose (docker_source job.project) source in
    rw source (
      checked-Ending h cfg serving job image s (validate_project_id job.project.id)
        (deploy_image h cfg job) (deploy_image-Ending h cfg serving job docker not_compose s))
