-- ===== src/Config/Servers.antt =====
-- ValidateRepoURL and ValidateServer of internal/config/entities.go. url.Parse is a parameter,
-- with what the code reads of a URL. An `invalid_server` holds its message without what it quotes.
pub mod Repos
pub mod Targets
use winify.Common.{
  ℕ, Bool, true, false, not, ◌&&◌, ◌||◌, Option, none, some, List, [], ◌∷◌, ◌++◌, ◌==◌,
  if◌then◌else◌, Text, codes, text_eq, has_prefix, contains, contains_any, trim_space, all, ℤ,
  is_negative, exceeds, Result, ok, err, ◌>>◌, fail_if, check_all,
}
use winify.Config.Entities.{
  Server, server_type_docker, server_type_iis, server_type_windows_service,
}
use winify.Config.Rules.{
  ConfigError, repo_url_control, repo_url_not_approved, repo_url_credentials, repo_url_scheme,
  invalid_server, Check, control_bytes, is_id_char, validate_resource_id, validate_service_name,
}
use winify.Config.Paths.{looks_like_windows_abs}
use winify.Deployment.Audit.{is_pattern_space}

-- What the rules read of a net/url.URL.
pub record Url : Type 0 where
  pub scheme : Text
  pub hostname : Text
  pub has_user : Bool
  pub has_password : Bool

abbrev pub ParseUrl : Type 0
ParseUrl = Text → Option Url

-- `[^\s]+$`
abbrev pub scp_path : Text → Bool
scp_path [] = false
scp_path (c ∷ s) = all (λ d. not (is_pattern_space d)) (c ∷ s)

-- `[A-Za-z0-9._-]*:[^\s]+$`, and the same behind at least one character.
unfoldable pub scp_host : Text → Bool
scp_host [] = false
scp_host (c ∷ s) =
    let rest = scp_host s in if c == b':' then scp_path s else if is_id_char c then rest else false

abbrev pub scp_host_start : Text → Bool
scp_host_start [] = false
scp_host_start (c ∷ s) = is_id_char c && scp_host s

unfoldable pub scp_user : Text → Bool
scp_user [] = false
scp_user (c ∷ s) =
    let rest = scp_user s in
    if c == b'@' then scp_host_start s else if is_id_char c then rest else false

-- `^[A-Za-z0-9._-]+@[A-Za-z0-9._-]+:[^\s]+$`
unfoldable pub scp_repo_pattern : Text → Bool
scp_repo_pattern [] = false
scp_repo_pattern (c ∷ s) = is_id_char c && scp_user s

abbrev pub check_repo_scheme : Url → Check
check_repo_scheme u =
    if text_eq u.scheme (codes "https")
    then fail_if u.has_user repo_url_credentials
    else if text_eq u.scheme (codes "ssh")
    then fail_if (u.has_user && u.has_password) repo_url_credentials
    else err repo_url_scheme

abbrev pub check_repo_host : Option Url → Check
check_repo_host none = err repo_url_not_approved
check_repo_host (some u) =
    fail_if (text_eq u.hostname []) repo_url_not_approved >> check_repo_scheme u

abbrev pub is_local_path : Text → Bool
is_local_path s = has_prefix s (codes "/") || looks_like_windows_abs s

abbrev pub check_repo_remote : ParseUrl → Text → Check
check_repo_remote parse s = if scp_repo_pattern s then ok tt else check_repo_host (parse s)

abbrev pub check_repo_place : ParseUrl → Text → Check
check_repo_place parse s =
    if is_local_path s
    then ok tt
    else fail_if (has_prefix s (codes ".") || contains s (codes "..")) repo_url_not_approved
      >> check_repo_remote parse s

-- The tests of ValidateRepoURL on a URL that is trimmed and not empty.
unfoldable pub check_repo_url : ParseUrl → Text → Check
check_repo_url parse s =
    fail_if (contains_any s control_bytes) repo_url_control >> check_repo_place parse s

unfoldable pub validate_repo_url : ParseUrl → Text → Check
validate_repo_url parse repo_url =
    if text_eq (trim_space repo_url) [] then ok tt else check_repo_url parse (trim_space repo_url)

abbrev pub require : Text → Text → Check
require field message = fail_if (text_eq field []) (invalid_server message)

abbrev pub has_web_scheme : Url → Bool
has_web_scheme u = text_eq u.scheme (codes "http") || text_eq u.scheme (codes "https")

abbrev pub check_endpoint_url : Server → Option Url → Check
check_endpoint_url srv none =
    err (invalid_server (codes "winrm_endpoint must be an http or https URL"))
check_endpoint_url srv (some u) =
    fail_if (text_eq u.hostname [] || not (has_web_scheme u))
      (invalid_server (codes "winrm_endpoint must be an http or https URL"))
    >> (fail_if u.has_user
          (invalid_server (codes "winrm_endpoint must not contain embedded credentials"))
        >> (fail_if (text_eq u.scheme (codes "http") && not srv.winrm_insecure)
              (invalid_server (codes "winrm_endpoint over HTTP requires winrm_insecure: true"))
            >> fail_if
                (text_eq srv.winrm_transport (codes "basic")
                  && not (text_eq u.scheme (codes "https")))
                (invalid_server (codes "winrm_transport=basic requires an https winrm_endpoint"))))

abbrev pub check_endpoint : ParseUrl → Server → Check
check_endpoint parse srv =
    if text_eq srv.winrm_endpoint []
    then ok tt
    else check_endpoint_url srv (parse srv.winrm_endpoint)

abbrev pub check_docker : Server → Check
check_docker srv =
    require srv.ssh_host (codes "ssh_host is required for a docker server")
    >> (require srv.ssh_user (codes "ssh_user is required for a docker server")
        >> require srv.ssh_key_ref (codes "ssh_key_ref is required for a docker server"))

abbrev pub check_windows : Server → Check
check_windows srv =
    if srv.local
    then ok tt
    else require srv.winrm_endpoint (codes "winrm_endpoint is required")
      >> (require srv.winrm_user (codes "winrm_user is required")
          >> require srv.credential_ref (codes "credential_ref is required"))

abbrev pub is_windows_type : Text → Bool
is_windows_type t = text_eq t server_type_iis || text_eq t server_type_windows_service

abbrev pub check_type : Server → Check
check_type srv =
    if text_eq srv.type server_type_docker
    then check_docker srv
    else if is_windows_type srv.type
    then check_windows srv
    else err (invalid_server (codes "unknown type"))

abbrev pub is_known_transport : Text → Bool
is_known_transport t = text_eq t [] || (text_eq t (codes "ntlm") || text_eq t (codes "basic"))

-- The tests of ValidateServer on the fields alone.
abbrev pub check_fields : Server → Check
check_fields srv =
    validate_resource_id (codes "id") srv.id
    >> (fail_if (text_eq (trim_space srv.name) []) (invalid_server (codes "name is required"))
        >> (fail_if
              (contains_any (srv.ssh_host ++ (srv.ssh_user ++ (srv.nssm_path ++ srv.caddy_path)))
                control_bytes)
              (invalid_server (codes "server fields contain an invalid control character"))
            >> (fail_if (is_negative srv.ssh_port || exceeds srv.ssh_port 65535)
                  (invalid_server (codes "ssh_port must be between 1 and 65535"))
                >> (fail_if (not (is_known_transport srv.winrm_transport))
                      (invalid_server (codes "winrm_transport must be ntlm or basic"))
                    >> check_all validate_service_name srv.services))))

unfoldable pub validate_server : ParseUrl → Server → Check
validate_server parse srv = check_fields srv >> (check_endpoint parse srv >> check_type srv)
