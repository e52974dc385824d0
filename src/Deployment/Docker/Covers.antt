-- ===== src/Deployment/Docker/Covers.antt =====
-- The commands that hold no secret, and the steps of the Docker pipeline that send them
-- (internal/deployment/docker.go, gitcred.go).
use winify.Common.{
  is_zero, ◌≡◌, refl, inl, inr, Bool, true, false, Option, none, some, [], ◌∷◌, Text, codes,
  text_eq, trim_space, Result, Option-cases,
}
use winify.Config.Entities.{EnvMap, effective_host_port}
use winify.Deployment.Deployer.{Job}
use winify.Deployment.Health.{HealthPlan}
use winify.Deployment.Docker.{
  clone_command, build_command, up_command, up_repo_command, health_command, ps_command,
  logs_command,
}
use winify.Deployment.Shell.GitAuth.{
  GitAuth, is_sensitive, git_option, prepare_git_auth, auth_of, resolved_auth, staged, uploaded,
  is_private_key_pem, upload_secret_file,
}
use winify.Deployment.Shell.Keeps.{Keeps-pure, Keeps-raise, Keeps-if, Keeps-bind, Keeps-from_vault}
use winify.Deployment.Shell.Sends.{Sends, Sends-say, Sends-exec_cmd, Sends-must}
use winify.Deployment.Shell.{Host, Exit, Sent, Act, shell_quote, exec_cmd, from_vault, resolve_ref}
use winify.Deployment.Docker.Pipeline.{
  DockerConfig, when_sensitive, spaced, build_label, workdir, write_generated_compose, write_merged,
  write_env_file, compose_up, compose_up_repo, diagnostic, diagnose, health_verdict, health_check,
  clone_with, clone_repo, build_at, clone_and_build,
}

-- The commands that hold no value of an environment, no build argument and no token.
pub data Public : Text → Type 0 where
  clone :
      (auth : GitAuth) (repo workdir checkout : Text)
      → is_sensitive auth ≡ false
      → Public (clone_command (spaced (git_option shell_quote auth)) repo workdir checkout)
  build : (tag workdir dockerfile : Text) → Public (build_command tag workdir dockerfile [])
  up : (workdir : Text) → Public (up_command workdir)
  up_repo : (workdir compose_path : Text) → Public (up_repo_command workdir compose_path)
  probe : (plan : HealthPlan) (url : Text) → Public (health_command plan url)
  ps : (workdir compose_path : Text) → Public (ps_command workdir compose_path)
  logs : (workdir compose_path : Text) → Public (logs_command workdir compose_path)

-- The audit log gets a label in place of the command, or the command is public.
abbrev pub Hidden : Option Text → Text → Type 0
Hidden (some label) cmd = Unit {0}
Hidden none cmd = Public cmd

abbrev pub IsCovered : Sent → Type 0
IsCovered c = Hidden c.redaction c.command

Hidden-when :
    (b : Bool) (label cmd : Text) → (b ≡ false → Public cmd) → Hidden (when_sensitive b label) cmd
Hidden-when true label cmd h = tt
Hidden-when false label cmd h = h refl

Hidden-build :
    (tag workdir dockerfile : Text) (env : EnvMap)
    → Hidden (build_label env) (build_command tag workdir dockerfile env)
Hidden-build tag workdir dockerfile [] = build tag workdir dockerfile
Hidden-build tag workdir dockerfile (kv ∷ env) = tt

module _ {S : Type 0} (h : Host S) where
  abbrev pub Covers : {A : Type 0} → Act S A → Type 0
  Covers m = Sends IsCovered m

  Covers-uploaded : (path : Text) (exit : Exit) → Covers (uploaded h path exit)
  Covers-uploaded path exit = elim (Option-cases exit.error) [
    | inl e ↦ rw e (Keeps-pure _)
    | inr (t, e) ↦ rw e (Keeps-raise _)
  ]

  Covers-staged :
      (path : Text) (windows : Bool) (value : Text) → Covers (staged h path windows value)
  unfolding upload_secret_file
  Covers-staged path windows value =
      Keeps-if (text_eq path []) _ _ (λ e. Keeps-raise _)
        (λ e.
          Keeps-bind (upload_secret_file h path value windows) (uploaded h path)
            (Sends-exec_cmd h _ _ _ tt) (Covers-uploaded path))

  Covers-auth_of :
      (ref path : Text) (windows : Bool) (value : Text) → Covers (auth_of h ref path windows value)
  Covers-auth_of ref path windows value =
      Keeps-if (text_eq value []) _ _ (λ e. Keeps-raise _)
        (λ e.
          Keeps-if (is_private_key_pem value) _ _ (λ e. Covers-staged path windows value)
            (λ e. Keeps-pure _))

  Covers-resolved :
      (ref path : Text) (windows : Bool) (get : Option (Text → Result Text Text))
      → Covers (resolved_auth h ref path windows get)
  Covers-resolved ref path windows none = Keeps-raise _
  Covers-resolved ref path windows (some get) =
      Keeps-bind (from_vault h (codes "resolve git credential") (resolve_ref h get ref)) _
        (Keeps-from_vault h _ _) (λ value. Covers-auth_of ref path windows (trim_space value))

  module _ (cfg : DockerConfig) (job : Job) where
    Covers-prepare :
        (path : Text) (windows : Bool) → Covers (prepare_git_auth h job.project path windows)
    unfolding prepare_git_auth
    Covers-prepare path windows =
        Keeps-if (text_eq (trim_space job.project.git_credential_ref) []) _ _ (λ e. Keeps-pure _)
          (λ e. Covers-resolved (trim_space job.project.git_credential_ref) path windows h.secrets)

    pub Covers-compose : (image : Text) → Covers (write_generated_compose h cfg job image)
    unfolding write_generated_compose
    Covers-compose image = Sends-must h _ _ _ _ tt

    Covers-write_merged : (env : EnvMap) → Covers (write_merged h cfg job env)
    Covers-write_merged [] = Sends-must h _ _ _ _ tt
    Covers-write_merged (kv ∷ env) = Sends-must h _ _ _ _ tt

    pub Covers-env : Covers (write_env_file h cfg job)
    unfolding write_env_file
    Covers-env = Covers-write_merged _

    pub Covers-up : Covers (compose_up h cfg job)
    unfolding compose_up
    Covers-up = Sends-must h _ _ _ _ (up (workdir h cfg job))

    pub Covers-up_repo : (path : Text) → Covers (compose_up_repo h cfg job path)
    unfolding compose_up_repo
    Covers-up_repo path = Sends-must h _ _ _ _ (up_repo (workdir h cfg job) path)

    Covers-diagnostic : (cmd label : Text) → Public cmd → Covers (diagnostic h cfg cmd label)
    Covers-diagnostic cmd label k =
        Keeps-bind (exec_cmd h none cmd label) _ (Sends-exec_cmd h none cmd label k) (λ exit.
          elim (Option-cases exit.error) [
            | inl e ↦ rw e (Keeps-pure _)
            | inr (t, e) ↦ rw e (Sends-say _)
          ])

    Covers-diagnose : (path : Text) → Covers (diagnose h cfg job path)
    unfolding diagnose
    Covers-diagnose path =
        Keeps-bind (diagnostic h cfg (ps_command (workdir h cfg job) path) _) _
          (Covers-diagnostic _ _ (ps (workdir h cfg job) path))
          (λ u. Covers-diagnostic _ _ (logs (workdir h cfg job) path))

    Covers-verdict : (path : Text) (exit : Exit) → Covers (health_verdict h cfg job path exit)
    Covers-verdict path exit = elim (Option-cases exit.error) [
      | inl e ↦ rw e (Keeps-pure _)
      | inr (t, e) ↦
          rw e (Keeps-bind (diagnose h cfg job path) _ (Covers-diagnose path) (λ u. Keeps-raise _))
    ]

    pub Covers-health : (path : Text) → Covers (health_check h cfg job path)
    unfolding health_check
    Covers-health path =
        Keeps-if job.project.disable_health_check _ _ (λ e. Sends-say _)
          (λ e.
            Keeps-if (is_zero (effective_host_port job.project)) _ _ (λ e. Sends-say _)
              (λ e.
                Keeps-bind _ (health_verdict h cfg job path) (Sends-exec_cmd h none _ _ (probe _ _))
                  (Covers-verdict path)))

    Covers-clone_with : (rev : Text) (auth : GitAuth) → Covers (clone_with h cfg job rev auth)
    Covers-clone_with rev auth =
        Keeps-bind _ _
          (Sends-must h _ (when_sensitive (is_sensitive auth) _) _ _ (
            Hidden-when (is_sensitive auth) _ _
              (clone auth job.project.repo_url (workdir h cfg job) _)))
          (λ out. Keeps-pure _)

    pub Covers-clone : (rev : Text) → Covers (clone_repo h cfg job rev)
    unfolding clone_repo
    Covers-clone rev =
        Keeps-if (text_eq job.project.repo_url []) _ _ (λ e. Keeps-raise _)
          (λ e.
            Keeps-bind _ (clone_with h cfg job rev) (Covers-prepare _ false)
              (Covers-clone_with rev))

    Covers-build : (rev : Text) → Covers (build_at h cfg job rev)
    Covers-build rev =
        Keeps-bind _ _ (Sends-must h _ _ _ _ (Hidden-build _ _ _ job.project.build_env))
          (λ out. Keeps-pure _)

    pub Covers-clone_and_build : Covers (clone_and_build h cfg job)
    unfolding clone_and_build
    Covers-clone_and_build = Keeps-bind _ (build_at h cfg job) (Covers-clone _) Covers-build
