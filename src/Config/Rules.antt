-- ===== src/Config/Rules.antt =====
-- internal/config/entities.go: the rules for names, domains and environment variables. An error
-- is a constructor with what the message quotes.
pub mod Names
pub mod Env
use winify.Common.{
  ℕ, Bool, true, false, not, ◌&&◌, ◌||◌, List, [], ◌∷◌, ltb, leb, ◌==◌, if◌then◌else◌, length, all,
  Text, codes, text_eq, contains, contains_any, has_suffix, trim_suffix, trim_space, split,
  is_letter, is_digit, Result, ok, err, ◌>>◌, fail_if, check_all,
}
use winify.Config.Entities.{EnvMap}

pub data ConfigError : Type 0 where
  invalid_resource_id : Text → ConfigError
  not_repo_relative : Text → ConfigError
  domain_not_hostname : ConfigError
  domain_one_label : ConfigError
  domain_label : Text → ConfigError
  target_not_absolute : ConfigError
  target_outside_root : Text → Text → ConfigError
  invalid_service_name : Text → ConfigError
  invalid_env_key : Text → ConfigError
  env_contains : Text → ConfigError → ConfigError
  env_newline : Text → Text → ConfigError
  repo_url_control : ConfigError
  repo_url_not_approved : ConfigError
  repo_url_credentials : ConfigError
  repo_url_scheme : ConfigError
  invalid_server : Text → ConfigError
  invalid_project : Text → ConfigError
  in_field : Text → ConfigError → ConfigError

abbrev pub Check : Type 0
Check = Result ConfigError (Unit {0})

abbrev pub is_alnum : ℕ → Bool
is_alnum c = is_letter c || is_digit c

-- `[A-Za-z0-9._-]`
abbrev pub is_id_char : ℕ → Bool
is_id_char c = is_alnum c || (c == b'.' || (c == b'_' || c == b'-'))

-- `^[A-Za-z0-9][A-Za-z0-9._-]{0,127}$`
unfoldable pub resource_id_pattern : Text → Bool
resource_id_pattern [] = false
resource_id_pattern (c ∷ s) = is_alnum c && (leb (length s) 127 && all is_id_char s)

unfoldable pub validate_resource_id : Text → Text → Check
validate_resource_id kind id =
    fail_if
      (not (resource_id_pattern id) || (contains id (codes "..") || has_suffix id (codes ".")))
      (invalid_resource_id kind)

-- `^[A-Za-z0-9][A-Za-z0-9 ._-]{0,127}$`
unfoldable pub service_name_pattern : Text → Bool
service_name_pattern [] = false
service_name_pattern (c ∷ s) =
    is_alnum c && (leb (length s) 127 && all (λ d. is_id_char d || d == b' ') s)

unfoldable pub validate_service_name : Text → Check
validate_service_name name =
    fail_if (not (service_name_pattern name) || contains name (codes ".."))
      (invalid_service_name name)

abbrev pub is_label_char : ℕ → Bool
is_label_char c = is_alnum c || c == b'-'

-- `(?:[A-Za-z0-9-]{0,61}[A-Za-z0-9])?$`, behind the first character of a label.
abbrev pub label_rest : Text → Bool
label_rest [] = true
label_rest (c ∷ []) = is_alnum c
label_rest (c ∷ d ∷ s) = is_label_char c && label_rest (d ∷ s)

-- `^[A-Za-z0-9](?:[A-Za-z0-9-]{0,61}[A-Za-z0-9])?$`
unfoldable pub domain_label_pattern : Text → Bool
domain_label_pattern [] = false
domain_label_pattern (c ∷ s) = is_alnum c && (leb (length s) 62 && label_rest s)

unfoldable pub check_label : Text → Check
check_label label = fail_if (not (domain_label_pattern label)) (domain_label label)

unfoldable pub domain_labels : Text → List Text
domain_labels domain = split b'.' (trim_suffix domain (codes "."))

-- ValidateDomain, behind the trimming and the test for an empty domain.
unfoldable pub check_domain : Text → Check
check_domain domain =
    fail_if (ltb 253 (length domain) || contains_any domain (codes "/:@ \t\r\n"))
      domain_not_hostname
    >> (fail_if (ltb (length (domain_labels domain)) 2) domain_one_label
        >> check_all check_label (domain_labels domain))

unfoldable pub validate_domain : Text → Check
validate_domain domain =
    if text_eq (trim_space domain) [] then ok tt else check_domain (trim_space domain)

-- `^[A-Za-z_][A-Za-z0-9_]*$`
unfoldable pub env_key_pattern : Text → Bool
env_key_pattern [] = false
env_key_pattern (c ∷ s) = (is_letter c || c == b'_') && all (λ d. is_alnum d || d == b'_') s

unfoldable pub validate_env_key : Text → Check
validate_env_key key = fail_if (not (env_key_pattern key)) (invalid_env_key key)

abbrev pub control_bytes : Text
control_bytes = 0 ∷ 13 ∷ 10 ∷ []

abbrev pub env_key_error : Text → Check → Check
env_key_error field (ok u) = ok u
env_key_error field (err e) = err (env_contains field e)

unfoldable pub validate_env_map : Text → EnvMap → Check
validate_env_map field [] = ok tt
validate_env_map field ((key, value) ∷ env) =
    env_key_error field (validate_env_key key)
    >> (fail_if (contains_any value control_bytes) (env_newline field key)
        >> validate_env_map field env)

unfoldable pub validate_env_values : Text → EnvMap → Check
unfolding validate_env_map
validate_env_values field env = validate_env_map field env
