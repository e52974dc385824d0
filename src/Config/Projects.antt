-- ===== src/Config/Projects.antt =====
-- ValidateProject of internal/config/entities.go. The code ranges over a map of four paths, in an
-- order that Go leaves open; here they come in the order of the text. An `invalid_project` holds
-- its message without what it quotes.
pub mod Deployable
use winify.Common.{
  ℕ, Bool, true, false, not, ◌&&◌, ◌||◌, Option, none, some, List, [], ◌∷◌, ◌++◌, ◌==◌,
  if◌then◌else◌, length, all, drop, Text, codes, text_eq, has_prefix, contains_any, trim_space,
  trim_prefix, split, is_digit, leb, is_zero, is_positive, is_negative, exceeds, Result, ok, err,
  ◌>>◌, fail_if, check_all,
}
use winify.Config.Entities.{
  Server, Project, server_type_iis, server_type_windows_service, project_source_image,
  project_source_compose, project_source_dockerfile, caddy_mode_none, caddy_mode_static,
  effective_host_port, PortError, parse_port_mapping, cut,
}
use winify.Config.Paths.{validate_repo_relative_path, validate_target_path, looks_like_windows_abs}
use winify.Config.Rules.{
  invalid_project, in_field, Check, control_bytes, is_id_char, validate_resource_id,
  validate_domain, validate_env_map, validate_service_name,
}
use winify.Config.Servers.{ParseUrl, validate_repo_url}

abbrev pub is_filled : (ℕ → Bool) → Text → Bool
is_filled p [] = false
is_filled p (c ∷ s) = all p (c ∷ s)

-- `^[A-Za-z0-9_.-]+/[A-Za-z0-9_.-]+$`
unfoldable pub github_repo_pattern : Text → Bool
github_repo_pattern s = elim (cut b'/' s) [
  | none ↦ false
  | some (owner, repo) ↦ is_filled is_id_char owner && is_filled is_id_char repo
]

abbrev pub is_hex_digit : ℕ → Bool
is_hex_digit c = is_digit c || ((leb b'a' c && leb c b'f') || (leb b'A' c && leb c b'F'))

-- A name, which may end in a colon and what `p` takes.
abbrev pub name_with : (Text → Bool) → Text → Bool
name_with p s = elim (cut b':' s) [
  | none ↦ is_filled is_id_char s
  | some (name, rest) ↦ is_filled is_id_char name && p rest
]

abbrev pub image_names : List Text → Bool
image_names [] = false
image_names (s ∷ []) = name_with (is_filled is_id_char) s
image_names (s ∷ t ∷ ss) = is_filled is_id_char s && image_names (t ∷ ss)

abbrev pub image_path : List Text → Bool
image_path [] = false
image_path (s ∷ []) = name_with (is_filled is_id_char) s
image_path (s ∷ t ∷ ss) = name_with (is_filled is_digit) s && image_names (t ∷ ss)

abbrev pub is_image_digest : Text → Bool
is_image_digest s =
    has_prefix s (codes "sha256:") && (length (drop 7 s) == 64 && all is_hex_digit (drop 7 s))

-- `^(?:name(?::[0-9]+)?/)?name(?:/name)*(?::tag)?(?:@sha256:[a-fA-F0-9]{64})?$`
unfoldable pub image_ref_pattern : Text → Bool
image_ref_pattern image = elim (cut b'@' image) [
  | none ↦ image_path (split b'/' image)
  | some (path, digest) ↦ image_path (split b'/' path) && is_image_digest digest
]

abbrev pub bad : Bool → Text → Check
bad b message = fail_if b (invalid_project message)

abbrev pub check_git_ref : Text → Check
check_git_ref ref =
    bad (text_eq ref [] || contains_any ref (codes "\"'`" ++ control_bytes))
      (codes "git_credential_ref must be a credential name (vault:name)")

abbrev pub check_identity : ParseUrl → Project → Check
check_identity parse p =
    bad (text_eq (trim_space p.name) []) (codes "name is required")
    >> (bad (text_eq (trim_space p.server_id) []) (codes "server is required")
        >> (bad (contains_any p.branch control_bytes)
              (codes "branch contains an invalid control character")
            >> (bad (contains_any p.health_path control_bytes)
                  (codes "health_path contains an invalid control character")
                >> (validate_domain p.domain
                    >> (bad
                          (not (text_eq p.github_repo [])
                            && not (github_repo_pattern p.github_repo))
                          (codes "github_repo must be owner/repo")
                        >> ((if text_eq p.git_credential_ref []
                              then ok tt
                              else check_git_ref
                                  (trim_prefix p.git_credential_ref (codes "vault:")))
                            >> validate_repo_url parse p.repo_url))))))

abbrev pub check_path : Text × Text → Check
check_path (field, value) = validate_repo_relative_path field value

abbrev pub check_mapping : Text → Check
check_mapping mapping = elim (parse_port_mapping mapping) [
  | ok ports ↦ ok tt
  | err e ↦ err (invalid_project (codes "invalid port mapping"))
]

abbrev pub check_paths : Project → Check
check_paths p = check_all check_path (
    (codes "dockerfile_path", p.dockerfile_path)
    ∷ (codes "compose_path", p.compose_path)
    ∷ (codes "iis_source_subdir", p.iis_source_subdir)
    ∷ (codes "service_source_subdir", p.service_source_subdir)
    ∷ [])

abbrev pub bad_ports : Text
bad_ports = codes "ports_exposes must be between 1 and 65535"

unfoldable pub check_ports : Project → Check
check_ports p =
    check_all check_mapping p.ports_mappings
    >> (bad (is_negative p.ports_exposes || exceeds p.ports_exposes 65535) bad_ports
        >> (bad (is_negative (effective_host_port p) || exceeds (effective_host_port p) 65535)
              bad_ports
            >> bad
                (is_zero (effective_host_port p)
                  && (not p.disable_health_check || not (text_eq p.domain [])))
                (codes "ports_exposes is required")))

abbrev pub is_empty_map : {A : Type 0} → List A → Bool
is_empty_map [] = true
is_empty_map (x ∷ xs) = false

abbrev pub if_set : Text → Check → Check
if_set value c = if text_eq value [] then ok tt else c

abbrev pub check_iis : Project → Check
check_iis p =
    bad (text_eq p.repo_url []) (codes "repo_url is required")
    >> (bad (text_eq p.iis_physical_path []) (codes "iis_physical_path is required")
        >> (bad (text_eq p.iis_app_pool []) (codes "iis_app_pool is required")
            >> (bad (not (is_empty_map p.env)) (codes "runtime env is not supported")
                >> (bad
                      (contains_any (p.iis_physical_path ++ (p.iis_service ++ p.iis_app_pool))
                        control_bytes)
                      (codes "IIS fields contain an invalid control character")
                    >> if_set p.iis_service (validate_service_name p.iis_service)))))

abbrev pub in_service_exe : Check → Check
in_service_exe (ok u) = ok tt
in_service_exe (err e) = err (in_field (codes "service_exe") e)

abbrev pub check_executable : Project → Check
check_executable p =
    if looks_like_windows_abs p.service_exe
    then in_service_exe (validate_target_path p.service_work_dir p.service_exe)
    else validate_repo_relative_path (codes "service_exe") p.service_exe

abbrev pub is_static_only : Project → Bool
is_static_only p = text_eq p.service_exe [] && text_eq p.caddy_mode caddy_mode_static

abbrev pub is_known_caddy_mode : Text → Bool
is_known_caddy_mode mode =
    text_eq mode [] || (text_eq mode caddy_mode_none || text_eq mode caddy_mode_static)

abbrev pub check_service : Project → Check
check_service p =
    bad (text_eq p.repo_url []) (codes "repo_url is required for a Windows service project")
    >> (if_set p.service_name (validate_service_name p.service_name)
        >> (bad (not (is_static_only p) && text_eq p.service_name [])
              (codes "service_name is required")
            >> (bad (not (is_static_only p) && text_eq p.service_exe [])
                  (codes "service_exe is required")
                >> (bad (text_eq p.service_work_dir []) (codes "service_work_dir is required")
                    >> (bad
                          (contains_any
                            (p.service_name
                              ++ (p.service_exe ++ (p.service_work_dir ++ p.service_log_dir)))
                            control_bytes)
                          (codes "Windows service fields contain an invalid control character")
                        >> (if_set p.service_exe (check_executable p)
                            >> bad (not (is_known_caddy_mode p.caddy_mode))
                                (codes "caddy_mode is not supported")))))))

abbrev pub is_repo_source : Text → Bool
is_repo_source source =
    text_eq source project_source_compose
    || (text_eq source [] || text_eq source project_source_dockerfile)

unfoldable pub check_docker_project : Project → Check
check_docker_project p =
    if text_eq p.source project_source_image
    then bad (text_eq (trim_space p.image) []) (codes "image is required")
      >> bad (not (image_ref_pattern (trim_space p.image)))
          (codes "image must be a valid Docker image reference")
    else if is_repo_source p.source
    then bad (text_eq p.repo_url []) (codes "repo_url is required")
    else err (invalid_project (codes "source must be dockerfile, compose or image"))

abbrev pub check_target_type : Text → Project → Check
check_target_type type p =
    if text_eq type server_type_iis
    then check_iis p
    else if text_eq type server_type_windows_service
    then check_service p
    else check_docker_project p

abbrev pub is_runtime : Text → Bool
is_runtime r =
    text_eq r (codes "python")
    || (text_eq r (codes "node") || (text_eq r (codes "go") || text_eq r (codes "dotnet")))

unfoldable pub validate_project : ParseUrl → Project → Server → Check
validate_project parse p srv =
    validate_resource_id (codes "id") p.id
    >> (check_identity parse p
        >> (check_paths p
            >> (validate_env_map (codes "env") p.env
                >> (validate_env_map (codes "build_env") p.build_env
                    >> (check_ports p
                        >> (check_target_type srv.type p
                            >> bad (not (text_eq p.runtime []) && not (is_runtime p.runtime))
                                (codes "runtime must be python, node, go, or dotnet")))))))
