-- ===== src/Tests/Shells.antt =====
-- Commands and Docker deployments on a host that holds one compose file.
use winify.Common.{
  ℕ, ◌≡◌, refl, ap, Bool, true, false, Option, none, some, List, [], ◌++◌, if◌then◌else◌, All, Text,
  codes, text_eq, has_prefix, drop, length, is_positive, pos, Result, ok, err, Bool-cases, inl, inr,
}
use winify.Config.Paths.{path_join}
use winify.Config.Entities.{Project, project_source_image}
use winify.Deployment.Deployer.{Job}
use winify.Deployment.Docker.{
  docker_source, compose_file, write_command, up_command, health_command, ps_command, logs_command,
}
use winify.Deployment.Docker.Files.{IsDockerHost}
use winify.Deployment.Docker.Covers.{IsCovered}
use winify.Deployment.Docker.Hides.{deploy_hides}
use winify.Deployment.Docker.Pipeline.{DockerConfig, default_compose, deploy, roll_back}
use winify.Deployment.Docker.Restores.{Ending, deploy-Ending}
use winify.Deployment.Shell.Quoting.{sh_word, bare, ps_word, sh_word-shell_quote, ps_word-ps_quote}
use winify.Deployment.Shell.{Host, Exit, fresh, shell_quote, ps_quote}
use winify.Tests.Data.{shop, job}

-- "it's; here" between quotes, and a second word.
sh_word-shell_quote_example :
    sh_word bare (shell_quote (codes "it's; $HOME") ++ codes " next")
    ≡ some (codes "it's; $HOME", codes " next")
sh_word-shell_quote_example = sh_word-shell_quote (codes "it's; $HOME") (codes " next") refl

ps_word-ps_quote_example :
    ps_word (ps_quote (codes "a'b") ++ codes " -Force") ≡ some (codes "a'b", codes " -Force")
ps_word-ps_quote_example =
    ps_word-ps_quote (codes "a'b") (codes " -Force") (refl, (refl, (refl, tt))) refl

abbrev image_project : Project
image_project = record shop { source = project_source_image; image = codes "acme/shop:2" }

abbrev image_job : Job
image_job = record job { project = image_project; previous_artifact = codes "acme/shop:1" }

abbrev docker_config : DockerConfig
docker_config = record {
  work_dir = codes "/srv";
  health = record { health_interval_seconds = pos 5; health_timeout_seconds = pos 60 };
  quote = λ s. s;
}

-- What stands before the encoded file in the command that writes it.
abbrev write_head : Text
write_head = codes "umask 077; mkdir -p '/srv/shop' && echo "

abbrev first_word : Option (Text × Text) → Option Text
first_word none = none
first_word (some (w, rest)) = some w

abbrev fails_on : Text → Option Text → Option Text
fails_on bad none = none
fails_on bad (some file) = if text_eq file bad then some (codes "exit 1") else none

abbrev success : Exit
success = record { out = []; error = none }

-- A host on which the health check of the new image fails.
abbrev host : Host (Option Text)
host = record {
  run = λ cmd s.
      if has_prefix cmd write_head
      then (first_word (sh_word bare (drop (length write_head) cmd)), success)
      else (
        s,
        record {
          out = [];
          error =
              if has_prefix cmd (codes "last=")
              then fails_on (compose_file (λ s. s) image_project (codes "acme/shop:2")) s
              else none;
        },
      );
  secrets = none;
  base64 = shell_quote;
  describe = λ e. codes "failed";
}

abbrev serving : Option Text → Option Text
serving s = s

host_keeps :
    (cmd : Text) (s : Option Text)
    → has_prefix cmd write_head ≡ false
    → serving (host.run cmd s).0 ≡ serving s
host_keeps cmd s e = rw e refl

host_is_docker : IsDockerHost host docker_config image_project serving
unfolding write_command has_prefix path_join up_command health_command ps_command logs_command
    sh_word shell_quote winify.Common.replace_byte winify.Config.Paths.clean winify.Common.join
    winify.Config.Paths.clean_loop winify.Common.split winify.Config.Paths.clean_step text_eq
host_is_docker = record {
  written = λ image s e.
      ap first_word (sh_word-shell_quote (compose_file (λ s. s) image_project image) _ refl);
  up_keeps = λ s. host_keeps (up_command (codes "/srv/shop")) s refl;
  probe_keeps = λ plan url s. elim (Bool-cases (is_positive plan.start_period)) [
    | inl e ↦ host_keeps (health_command plan url) s (rw e refl)
    | inr e ↦ host_keeps (health_command plan url) s (rw e refl)
  ];
  ps_keeps = λ s. host_keeps (ps_command (codes "/srv/shop") default_compose) s refl;
  logs_keeps = λ s. host_keeps (logs_command (codes "/srv/shop") default_compose) s refl;
}

deploy-Ending_example :
    Ending host docker_config serving image_job
      (codes "acme/shop:2")
      none
      (deploy host docker_config image_job (fresh none)).0
      (deploy host docker_config image_job (fresh none)).1
unfolding text_eq docker_source winify.Common.trim_space
deploy-Ending_example =
    deploy-Ending host docker_config serving image_job (fresh none) host_is_docker refl

deploy_hides_example :
    All IsCovered (deploy host docker_config image_job (fresh none)).0.sent
    × All IsCovered (roll_back host docker_config image_job (fresh none)).0.sent
deploy_hides_example = deploy_hides host docker_config image_job none
