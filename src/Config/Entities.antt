-- ===== src/Config/Entities.antt =====
-- internal/config/entities.go: servers, projects and their port mappings. A Go map is a list of
-- keys and values; ints are `ℤ`; `strings.SplitN(s, ":", 2)` is `cut` at the first colon.
pub mod Ports
use winify.Common.{
  ℕ, zero, suc, ◌+◌, ◌-◌, ◌*◌, ◌^◌, Bool, true, false, ◌&&◌, ◌||◌, Option, none, some, List, [],
  ◌∷◌, reverse, leb, ltb, ◌==◌, if◌then◌else◌, Text, codes, text_eq, trim_space, is_digit, ℤ, pos,
  negsuc, is_positive, Result, ok, err,
}

abbrev pub server_type_docker : Text
server_type_docker = codes "docker"

abbrev pub server_type_iis : Text
server_type_iis = codes "iis"

abbrev pub server_type_windows_service : Text
server_type_windows_service = codes "winsvc"

abbrev pub caddy_mode_none : Text
caddy_mode_none = codes "none"

abbrev pub caddy_mode_proxy : Text
caddy_mode_proxy = codes "proxy"

abbrev pub caddy_mode_static : Text
caddy_mode_static = codes "static"

abbrev pub project_source_dockerfile : Text
project_source_dockerfile = codes "dockerfile"

abbrev pub project_source_compose : Text
project_source_compose = codes "compose"

abbrev pub project_source_image : Text
project_source_image = codes "image"

pub record Server : Type 0 where
  pub id : Text
  pub name : Text
  pub type : Text
  pub host : Text
  pub winrm_endpoint : Text
  pub winrm_user : Text
  pub winrm_transport : Text
  pub winrm_insecure : Bool
  pub credential_ref : Text
  pub nssm_path : Text
  pub caddy_path : Text
  pub ssh_host : Text
  pub ssh_port : ℤ
  pub ssh_user : Text
  pub ssh_key_ref : Text
  pub public_ip : Text
  pub local : Bool
  pub services : List Text
  pub disk_path : Text

abbrev pub EnvMap : Type 0
EnvMap = List (Text × Text)

pub record Project : Type 0 where
  pub id : Text
  pub name : Text
  pub server_id : Text
  pub strategy : Text
  pub source : Text
  pub repo_url : Text
  pub dockerfile_path : Text
  pub compose_path : Text
  pub image : Text
  pub ports_exposes : ℤ
  pub ports_mappings : List Text
  pub iis_site : Text
  pub iis_physical_path : Text
  pub iis_app_pool : Text
  pub iis_service : Text
  pub iis_build_command : Text
  pub iis_source_subdir : Text
  pub iis_blue_green : Bool
  pub service_name : Text
  pub service_exe : Text
  pub service_args : Text
  pub service_work_dir : Text
  pub service_build_command : Text
  pub service_source_subdir : Text
  pub service_log_dir : Text
  pub service_account : Text
  pub runtime : Text
  pub caddy_mode : Text
  pub branch : Text
  pub domain : Text
  pub port : ℤ
  pub health_path : Text
  pub webhook_secret_ref : Text
  pub github_repo : Text
  pub git_credential_ref : Text
  pub env : EnvMap
  pub build_env : EnvMap
  pub health_interval_seconds : ℤ
  pub health_timeout_seconds : ℤ
  pub health_retries : ℤ
  pub health_start_period_seconds : ℤ
  pub project_group : Text
  pub environment : Text
  pub disable_health_check : Bool

-- The digits of strconv.Atoi behind the sign.
unfoldable pub parse_digits : ℕ → Text → Option ℕ
parse_digits n [] = some n
parse_digits n (c ∷ s) =
    let rest = parse_digits (n * 10 + (c - b'0')) s in if is_digit c then rest else none

abbrev pub unsigned : Text → Option ℕ
unsigned [] = none
unsigned (c ∷ s) = parse_digits 0 (c ∷ s)

abbrev pub in_range : ℕ → (ℕ → ℤ) → Option ℕ → Option ℤ
in_range limit sign none = none
in_range limit sign (some n) = if leb n limit then some (sign n) else none

abbrev pub negated : ℕ → ℤ
negated zero = pos 0
negated (suc n) = negsuc n

-- strconv.Atoi, where an int has 64 bits.
unfoldable pub atoi : Text → Option ℤ
unfolding parse_digits
atoi [] = none
atoi (c ∷ s) =
    if c == b'+'
    then in_range (2 ^ 63 - 1) pos (unsigned s)
    else if c == b'-'
    then in_range (2 ^ 63) negated (unsigned s)
    else in_range (2 ^ 63 - 1) pos (unsigned (c ∷ s))

-- The text before the first `sep` and the text behind it.
unfoldable pub cut : ℕ → Text → Option (Text × Text)
cut sep [] = none
cut sep (c ∷ s) = elim (cut sep s) [
  | none ↦ if c == sep then some ([], s) else none
  | some (a, b) ↦ if c == sep then some ([], s) else some (c ∷ a, b)
]

pub data PortError : Type 0 where
  invalid_port_mapping : Text → PortError

-- `n, err := strconv.Atoi(strings.TrimSpace(s))`, and the test `err != nil || n < 1 || n > 65535`.
unfoldable pub port_number : Text → Option ℕ
port_number s = elim (atoi (trim_space s)) [
  | none ↦ none
  | some (pos n) ↦ if leb 1 n && leb n 65535 then some n else none
  | some (negsuc n) ↦ none
]

abbrev pub port_pair : Text → Option ℕ → Option ℕ → Result PortError (ℕ × ℕ)
port_pair s (some host) (some container) = ok (host, container)
port_pair s _ _ = err (invalid_port_mapping s)

unfoldable pub parse_port_mapping : Text → Result PortError (ℕ × ℕ)
parse_port_mapping s = elim (cut b':' (trim_space s)) [
  | none ↦ port_pair s (port_number (trim_space s)) (port_number (trim_space s))
  | some (host, container) ↦ port_pair s (port_number host) (port_number container)
]

abbrev pub exposed_port : Project → ℤ
exposed_port p = if is_positive p.ports_exposes then p.ports_exposes else p.port

abbrev pub mapped_port : Result PortError (ℕ × ℕ) → ℤ → ℤ
mapped_port (ok (host, container)) other = if ltb 0 host then pos host else other
mapped_port (err e) other = other

abbrev pub first_mapping : List Text → ℤ → ℤ
first_mapping [] other = other
first_mapping (m ∷ ms) other = mapped_port (parse_port_mapping m) other

unfoldable pub effective_host_port : Project → ℤ
effective_host_port p = first_mapping p.ports_mappings (exposed_port p)
