-- ===== src/Deployment/Docker.antt =====
-- internal/deployment/docker.go: the Docker pipeline over SSH. Here the commands and the files
-- that it writes; Pipeline runs them. A Go map is a list of keys and values.
pub mod Pipeline
pub mod Covers
pub mod Hides
pub mod Files
pub mod Probes
pub mod Restores
use winify.Common.{
  ℕ, zero, suc, Bool, true, false, not, ◌&&◌, ◌||◌, Option, none, some, List, [], ◌∷◌, ◌++◌, ◌==◌,
  ltb, leb, if◌then◌else◌, map, Text, codes, text_eq, contains_any, trim_space, to_lower, is_lower,
  is_digit, join, Result, ok, err, ℤ, pos, negsuc, is_positive,
}
use winify.Config.Entities.{
  Project, EnvMap, PortError, project_source_compose, project_source_image,
  project_source_dockerfile, parse_port_mapping, effective_host_port,
}
use winify.Config.Paths.{path_join}
use winify.Deployment.Health.{HealthConfig, HealthPlan, health_plan_for, health_url, print_int}
use winify.Deployment.Shell.{shell_quote}

unfoldable pub docker_source : Project → Text
docker_source p =
    if text_eq p.source project_source_compose
      || (text_eq p.source project_source_image || text_eq p.source project_source_dockerfile)
    then p.source
    else project_source_dockerfile

abbrev pub sanitize_byte : ℕ → ℕ
sanitize_byte c =
    if is_lower c || (is_digit c || (c == b'-' || (c == b'_' || c == b'.'))) then c else b'-'

-- sanitize of target.go, for ASCII.
unfoldable pub sanitize : Text → Text
sanitize s = map sanitize_byte (to_lower s)

unfoldable pub image_tag : Text → Text → Text
image_tag project_id revision = codes "cc/" ++ (sanitize project_id ++ (b':' ∷ sanitize revision))

-- The byte order of Go's strings.
unfoldable pub text_lt : Text → Text → Bool
text_lt [] [] = false
text_lt [] (b ∷ t) = true
text_lt (a ∷ s) [] = false
text_lt (a ∷ s) (b ∷ t) =
    let rest = text_lt s t in if ltb a b then true else if a == b then rest else false

abbrev pub insert_key : Text × Text → EnvMap → EnvMap
insert_key kv [] = kv ∷ []
insert_key (k, v) ((j, w) ∷ env) =
    let rest = insert_key (k, v) env in
    elim (text_lt j k) [ true ↦ (j, w) ∷ rest | false ↦ (k, v) ∷ ((j, w) ∷ env) ]

-- The entries in the order of sortedKeys.
unfoldable pub sorted_entries : EnvMap → EnvMap
sorted_entries [] = []
sorted_entries (kv ∷ env) = insert_key kv (sorted_entries env)

unfoldable pub env_file_content : EnvMap → Text
env_file_content [] = []
env_file_content ((k, v) ∷ env) = k ++ (b'=' ∷ (v ++ (b'\n' ∷ env_file_content env)))

abbrev pub port_entry : ℤ → ℤ → Text
port_entry host container = print_int host ++ (b':' ∷ print_int container)

abbrev pub mapping_entry : Text → Result PortError (ℕ × ℕ) → Text
mapping_entry mapping (ok (host, container)) = port_entry (pos host) (pos container)
mapping_entry mapping (err e) = mapping

abbrev pub published : Project → List Text
published p =
    if is_positive p.ports_exposes
    then port_entry p.ports_exposes p.ports_exposes ∷ []
    else if is_positive p.port
    then port_entry p.port p.port ∷ []
    else []

abbrev pub mapped_or : List Text → List Text → List Text
mapped_or [] other = other
mapped_or (m ∷ ms) other = map (λ e. mapping_entry e (parse_port_mapping e)) (m ∷ ms)

unfoldable pub compose_ports : Project → List Text
compose_ports p = mapped_or p.ports_mappings (published p)

-- `%q` is the parameter `quote`.
module _ (quote : Text → Text) where
  abbrev pub port_lines : List Text → Text
  port_lines [] = []
  port_lines (p ∷ ps) = codes "      - " ++ (quote p ++ (b'\n' ∷ port_lines ps))

  abbrev pub env_lines : EnvMap → Text
  env_lines [] = []
  env_lines ((k, v) ∷ env) =
      codes "      " ++ (k ++ (codes ": " ++ (quote v ++ (b'\n' ∷ env_lines env))))

  abbrev pub ports_block : List Text → Text
  ports_block [] = []
  ports_block (p ∷ ps) = codes "    ports:\n" ++ port_lines (p ∷ ps)

  abbrev pub env_block : EnvMap → Text
  env_block [] = []
  env_block (kv ∷ env) = codes "    environment:\n" ++ env_lines (sorted_entries (kv ∷ env))

  unfoldable pub compose_file : Project → Text → Text
  compose_file p image =
      codes "services:\n  app:\n    image: "
      ++ (image
          ++ (codes "\n    container_name: cc-"
              ++ (sanitize p.id
                  ++ (codes "\n    restart: unless-stopped\n"
                      ++ (ports_block (compose_ports p) ++ env_block p.env)))))

unfoldable pub clone_command : Text → Text → Text → Text → Text
clone_command opt repo workdir checkout =
    codes "mkdir -p "
    ++ (shell_quote workdir
        ++ (codes " && if [ -d "
            ++ (shell_quote workdir
                ++ (codes "/.git ]; then cd "
                    ++ (shell_quote workdir
                        ++ (codes " && git"
                            ++ (opt
                                ++ (codes " fetch --all --prune && git"
                                    ++ (opt
                                        ++ (codes " checkout --force "
                                            ++ (shell_quote checkout
                                                ++ (codes " --; else git"
                                                    ++ (opt
                                                        ++ (codes " clone "
                                                            ++ (shell_quote repo
                                                            ++ (codes " "
                                                            ++ (shell_quote workdir
                                                            ++ (codes " && cd "
                                                            ++ (shell_quote workdir
                                                            ++ (codes " && git"
                                                            ++ (opt
                                                            ++ (codes " checkout --force "
                                                            ++ (shell_quote checkout
                                                            ++ codes
                                                            " --; fi && git clean -fdx && git rev-parse HEAD")))))))))))))))))))))))

abbrev pub build_args : EnvMap → Text
build_args [] = []
build_args ((k, v) ∷ env) =
    codes " --build-arg " ++ (shell_quote (k ++ (b'=' ∷ v)) ++ build_args env)

unfoldable pub build_command : Text → Text → Text → EnvMap → Text
build_command tag workdir dockerfile env =
    codes "docker build -t "
    ++ (shell_quote tag
        ++ (codes " -f "
            ++ (shell_quote (path_join workdir dockerfile)
                ++ (build_args (sorted_entries env) ++ (codes " " ++ shell_quote workdir)))))

abbrev pub compose_path_in : Text → Text
compose_path_in workdir = shell_quote (path_join workdir (codes "docker-compose.yml"))

unfoldable pub write_command : Text → Text → Text
write_command workdir encoded =
    codes "umask 077; mkdir -p "
    ++ (shell_quote workdir
        ++ (codes " && echo "
            ++ (encoded
                ++ (codes " | base64 -d > "
                    ++ (compose_path_in workdir
                        ++ (codes " && chmod 600 " ++ compose_path_in workdir))))))

abbrev pub env_path_in : Text → Text
env_path_in workdir = shell_quote (path_join workdir (codes ".env"))

unfoldable pub clear_env_command : Text → Text
clear_env_command workdir =
    codes "umask 077; : > "
    ++ (env_path_in workdir ++ (codes " && chmod 600 " ++ env_path_in workdir))

unfoldable pub write_env_command : Text → Text → Text
write_env_command workdir encoded =
    codes "umask 077; echo "
    ++ (encoded
        ++ (codes " | base64 -d > "
            ++ (env_path_in workdir ++ (codes " && chmod 600 " ++ env_path_in workdir))))

unfoldable pub up_command : Text → Text
up_command workdir =
    codes "cd "
    ++ (shell_quote workdir
        ++ codes " && docker compose -f docker-compose.yml up -d --remove-orphans")

unfoldable pub up_repo_command : Text → Text → Text
up_repo_command workdir compose_path =
    codes "cd "
    ++ (shell_quote workdir
        ++ (codes " && docker compose -f "
            ++ (shell_quote compose_path ++ codes " up -d --build --remove-orphans")))

abbrev pub start_delay : ℤ → Text
start_delay n = if is_positive n then codes "sleep " ++ (print_int n ++ codes "; ") else []

unfoldable pub health_command : HealthPlan → Text → Text
health_command plan url =
    start_delay plan.start_period
    ++ (codes "last=''; for i in $(seq 1 "
        ++ (print_int (pos plan.attempts)
            ++ (codes "); do out=$(curl -fsS --max-time "
                ++ (print_int (pos plan.timeout)
                    ++ (codes " "
                        ++ (shell_quote url
                            ++ (codes " 2>&1) && { echo healthy; exit 0; }; last=\"$out\"; sleep "
                                ++ (print_int (pos plan.interval)
                                    ++ codes
                                        "; done; echo \"health check failed: $last\"; exit 1"))))))))

unfoldable pub ps_command : Text → Text → Text
ps_command workdir compose_path =
    codes "cd "
    ++ (shell_quote workdir
        ++ (codes " && docker compose -f " ++ (shell_quote compose_path ++ codes " ps")))

unfoldable pub logs_command : Text → Text → Text
logs_command workdir compose_path =
    codes "cd "
    ++ (shell_quote workdir
        ++ (codes " && docker compose -f "
            ++ (shell_quote compose_path ++ codes " logs --tail=30 --no-color 2>&1")))

-- The .env of a compose project: build values replace run values of the same name.
abbrev pub without : Text → EnvMap → EnvMap
without k [] = []
without k ((j, w) ∷ env) =
    let rest = without k env in elim (text_eq j k) [ true ↦ rest | false ↦ (j, w) ∷ rest ]

unfoldable pub merged_env : EnvMap → EnvMap → EnvMap
merged_env env [] = env
merged_env env ((k, v) ∷ build) = merged_env (without k env ++ ((k, v) ∷ [])) build

unfoldable pub or_default : Text → Text → Text
or_default [] other = other
or_default (c ∷ s) other = c ∷ s
