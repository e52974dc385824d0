-- ===== src/Tests/Rules.antt =====
-- Names, paths, ports and references that are accepted.
use winify.Common.{
  arith, ℕ, suc, ◌+◌, ◌*◌, ◌≤◌, ◌≡◌, ◌≢◌, refl, true, false, none, some, List, [], ◌∷◌, ◌++◌, Bool,
  All, Text, codes, text_eq, length, Result, ok, err, contains, has_prefix, has_suffix, split,
  trim_space, match_string, pos,
}
use winify.Config.Entities.{Project, EnvMap, parse_port_mapping}
use winify.Config.Entities.Ports.{decimal, parse_port_mapping-decimal}
use winify.Config.Rules.{
  validate_resource_id, validate_domain, domain_labels, validate_env_values, is_id_char,
}
use winify.Config.Paths.{
  slashed, validate_repo_relative_path, validate_target_path, looks_like_windows_abs, normal_target,
}
use winify.Config.Paths.Inside.{walk, validate_repo_relative_path_inside}
use winify.Config.Paths.Target.{validate_target_path_climbs}
use winify.Deployment.Audit.{AuditContext, audited_run, with_audit_redaction}
use winify.Deployment.Audit.Redaction.{audited_run_hides}
use winify.Deployment.Health.{HealthConfig}

path_is_accepted : validate_repo_relative_path (codes "f") (codes "deploy/app") ≡ ok tt
unfolding validate_repo_relative_path text_eq trim_space winify.Config.Paths.check_repo_relative
    has_prefix slashed winify.Common.replace_byte contains winify.Config.Paths.clean
    winify.Common.join winify.Config.Paths.clean_loop split winify.Config.Paths.clean_step
path_is_accepted = refl

path_is_there : trim_space (codes "deploy/app") ≢ []
unfolding trim_space winify.Common.trim_right
path_is_there e = cc

validate_repo_relative_path_inside_example :
    (has_prefix (slashed (codes "deploy/app")) (codes "/") ≡ false)
    × (contains (slashed (codes "deploy/app")) (codes ":") ≡ false)
    × (walk 0 (split b'/' (slashed (codes "deploy/app"))) ≢ none)
validate_repo_relative_path_inside_example =
    validate_repo_relative_path_inside (codes "f") (codes "deploy/app") path_is_accepted
      path_is_there

id_is_accepted : validate_resource_id (codes "project") (codes "shop-1") ≡ ok tt
unfolding validate_resource_id winify.Config.Rules.resource_id_pattern contains has_suffix
id_is_accepted = refl

abbrev site : Text
site = codes "shop.example.com"

domain_is_accepted : validate_domain site ≡ ok tt
unfolding validate_domain text_eq trim_space winify.Config.Rules.check_domain
    winify.Common.contains_any domain_labels split winify.Common.trim_suffix
    winify.Config.Rules.check_label winify.Config.Rules.domain_label_pattern
domain_is_accepted = refl

domain_is_there : trim_space site ≢ []
unfolding trim_space winify.Common.trim_right
domain_is_there e = cc

abbrev settings : EnvMap
settings = (codes "PORT", codes "8080") ∷ (codes "_MODE", []) ∷ []

settings_are_accepted : validate_env_values (codes "env") settings ≡ ok tt
unfolding validate_env_values winify.Config.Rules.validate_env_key
    winify.Config.Rules.env_key_pattern winify.Common.contains_any
settings_are_accepted = refl

abbrev apps : Text
apps = codes "C:\\apps"

apps_is_absolute : looks_like_windows_abs apps ≡ true
unfolding looks_like_windows_abs
apps_is_absolute = refl

apps_is_normal : normal_target apps ≡ apps
unfolding normal_target winify.Common.trim_right winify.Common.replace_byte trim_space
apps_is_normal = refl

climbing_is_normal :
    normal_target (apps ++ (codes "\\..\\" ++ codes "tools"))
    ≡ apps ++ (codes "\\..\\" ++ codes "tools")
unfolding normal_target winify.Common.trim_right winify.Common.replace_byte trim_space
climbing_is_normal = refl

validate_target_path_climbs_example :
    (validate_target_path apps (apps ++ (codes "\\..\\" ++ codes "tools")) ≡ ok tt)
    × (walk 0 (codes ".." ∷ split b'\\' (codes "tools")) ≡ none)
validate_target_path_climbs_example =
    validate_target_path_climbs apps (codes "tools") apps_is_absolute apps_is_normal
      climbing_is_normal

mapping_is_accepted : parse_port_mapping (codes "8080:3000") ≡ ok (8080, 3000)
unfolding parse_port_mapping winify.Config.Entities.cut trim_space
    winify.Config.Entities.port_number winify.Config.Entities.atoi
mapping_is_accepted = refl

parse_port_mapping-decimal_example :
    (parse_port_mapping (decimal (suc 80) 80 ++ b':' ∷ decimal (suc 443) 443) ≡ ok (80, 443))
    × (parse_port_mapping (decimal (suc 80) 80) ≡ ok (80, 80))
parse_port_mapping-decimal_example =
    parse_port_mapping-decimal 80 443 (omega arith) (omega arith) (omega arith) (omega arith)

abbrev silent : AuditContext → Text → Result Text Text
silent ctx command = ok []

abbrev audited : AuditContext
audited = record { meta = none; redaction = none }

audited_run_hides_example :
    ((audited_run silent (with_audit_redaction audited (codes "login")) (codes "a") []).1
      ≡ (audited_run silent (with_audit_redaction audited (codes "login")) (codes "b") []).1)
    × ((audited_run silent (with_audit_redaction audited (codes "login")) (codes "a") []).0
        ≡ silent (with_audit_redaction audited (codes "login")) (codes "a"))
audited_run_hides_example =
    audited_run_hides silent audited (codes "login") (codes "a") (codes "b") [] refl

abbrev health : HealthConfig
health = record { health_interval_seconds = pos 2; health_timeout_seconds = pos 0 }
