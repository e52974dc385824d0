-- ===== src/Tests/Accepted.antt =====
-- A project that ValidateProject accepts, and image references.
use winify.Common.{◌≡◌, refl, true, false, some, [], codes, ok}
use winify.Config.Entities.{project_source_image}
use winify.Config.Projects.{image_ref_pattern, validate_project}
use winify.Config.Projects.Deployable.{IsDeployable, validate_project-IsDeployable}
use winify.Config.Servers.{ParseUrl}
use winify.Tests.Data.{host_server, shop}

abbrev parse_https : ParseUrl
parse_https s = some (record {
  scheme = codes "https";
  hostname = codes "github.com";
  has_user = false;
  has_password = false;
})

shop_is_accepted : validate_project parse_https shop host_server ≡ ok tt
unfolding validate_project winify.Config.Rules.validate_resource_id
    winify.Config.Rules.resource_id_pattern winify.Common.contains winify.Common.has_suffix
    winify.Common.text_eq winify.Common.trim_space winify.Common.contains_any
    winify.Config.Rules.validate_domain winify.Config.Rules.check_domain
    winify.Config.Rules.domain_labels winify.Common.split winify.Common.trim_suffix
    winify.Config.Rules.check_label winify.Config.Rules.domain_label_pattern
    winify.Config.Servers.validate_repo_url winify.Config.Servers.check_repo_url
    winify.Config.Paths.looks_like_windows_abs winify.Common.has_prefix winify.Common.split_loop
    winify.Common.trim_right winify.Config.Entities.atoi winify.Config.Entities.cut
    winify.Config.Entities.effective_host_port winify.Config.Entities.parse_digits
    winify.Config.Entities.parse_port_mapping winify.Config.Entities.port_number
    winify.Config.Paths.validate_repo_relative_path winify.Config.Projects.check_docker_project
    winify.Config.Projects.check_ports winify.Config.Rules.validate_env_map
    winify.Config.Servers.scp_repo_pattern winify.Config.Servers.scp_user
    winify.Config.Servers.scp_host
shop_is_accepted = refl

validate_project-IsDeployable_example : IsDeployable shop
validate_project-IsDeployable_example =
    validate_project-IsDeployable parse_https shop host_server refl shop_is_accepted

registry_image : image_ref_pattern (codes "ghcr.io:443/acme/shop:1.2") ≡ true
unfolding image_ref_pattern winify.Config.Entities.cut winify.Common.split
registry_image = refl

shell_image : image_ref_pattern (codes "shop;id") ≡ false
unfolding image_ref_pattern winify.Config.Entities.cut winify.Common.split
shell_image = refl
