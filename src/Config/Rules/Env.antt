-- ===== src/Config/Rules/Env.antt =====
-- What an accepted environment looks like (internal/config/entities.go).
use winify.Common.{
  ◌≡◌, ◌≢◌, true, false, [], ◌∷◌, arith, All, Text, contains_any, ok, fail_if, ok_of_fail_if,
  ok_of_>>,
}
use winify.Config.Entities.{EnvMap}
use winify.Config.Rules.{
  env_key_pattern, validate_env_key, control_bytes, env_key_error, validate_env_map,
  validate_env_values,
}

-- No NUL and no line break.
abbrev pub IsOneLine : Text → Type 0
IsOneLine s = All (λ c. (c ≢ 0) × (c ≢ 13) × (c ≢ 10)) s

IsOneLine-sound : (s : Text) → contains_any s control_bytes ≡ false → IsOneLine s
unfolding contains_any
IsOneLine-sound [] h = tt
IsOneLine-sound (c ∷ s) h = (ground arith, IsOneLine-sound s (ground arith))

pub record IsEnvEntry (entry : Text × Text) : Type 0 where
  pub key : env_key_pattern entry.0 ≡ true
  pub value : IsOneLine entry.1

-- In an accepted environment every key is an identifier and every value is one line: a generated
-- .env file has one line for each entry.
pub validate_env_values_sound :
    (field : Text) (env : EnvMap) → validate_env_values field env ≡ ok tt → All IsEnvEntry env
unfolding validate_env_values validate_env_key
validate_env_values_sound field [] h = tt
validate_env_values_sound field ((key, value) ∷ env) h =
    let (first, more) = ok_of_>> (env_key_error field (validate_env_key key)) _ h in
    let (second, rest) =
      ok_of_>> (fail_if (contains_any value control_bytes) _) (validate_env_map field env) more in
    (
      record { key = ground arith; value = IsOneLine-sound value (ok_of_fail_if _ _ tt second) },
      validate_env_values_sound field env rest,
    )
