-- ===== src/Tests/Servers.antt =====
-- A Windows server and a repository that are accepted.
use winify.Common.{
  arith, ℕ, ◌≡◌, ◌≢◌, refl, true, false, none, some, Option, [], ◌∷◌, Bool, Text, codes, text_eq,
  pos, Result, ok, err, contains_any, trim_space,
}
use winify.Config.Entities.{Server, server_type_windows_service}
use winify.Config.Rules.{control_bytes}
use winify.Config.Servers.{Url, ParseUrl, validate_repo_url, validate_server}
use winify.Config.Servers.Repos.{IsApproved, validate_repo_url-IsApproved}
use winify.Config.Servers.Targets.{IsReachable, HasSafeEndpoint, validate_server-IsReachable}
use winify.Tests.Data.{host_server}

abbrev parse : ParseUrl
parse s = some (record {
  scheme = codes "https";
  hostname = codes "win01";
  has_user = false;
  has_password = false;
})

abbrev win : Server
win = record host_server {
  type = server_type_windows_service;
  winrm_endpoint = codes "https://win01:5986/wsman";
  winrm_user = codes "Administrator";
  winrm_transport = codes "ntlm";
  credential_ref = codes "vault:win01";
}

win_is_accepted : validate_server parse win ≡ ok tt
unfolding validate_server winify.Config.Rules.validate_resource_id
    winify.Config.Rules.resource_id_pattern winify.Common.contains winify.Common.has_suffix text_eq
    trim_space contains_any
win_is_accepted = refl

validate_server-IsReachable_example : IsReachable win × HasSafeEndpoint parse win
validate_server-IsReachable_example = validate_server-IsReachable parse win win_is_accepted

abbrev repo : Text
repo = codes "git@github.com:acme/shop"

repo_is_accepted : validate_repo_url parse repo ≡ ok tt
unfolding validate_repo_url text_eq trim_space winify.Config.Servers.check_repo_url contains_any
    winify.Common.has_prefix winify.Config.Paths.looks_like_windows_abs winify.Common.contains
    winify.Config.Servers.scp_repo_pattern winify.Config.Servers.scp_user
    winify.Config.Servers.scp_host
repo_is_accepted = refl

repo_is_there : trim_space repo ≢ []
unfolding trim_space winify.Common.trim_right
repo_is_there e = cc

validate_repo_url-IsApproved_example :
    (contains_any (trim_space repo) control_bytes ≡ false) × IsApproved parse (trim_space repo)
validate_repo_url-IsApproved_example =
    validate_repo_url-IsApproved parse repo repo_is_accepted repo_is_there
