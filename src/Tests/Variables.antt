-- ===== src/Tests/Variables.antt =====
-- A shared variable that is written twice.
use winify.Common.{◌≡◌, refl, true, some, List, [], ◌∷◌, codes, Text, Result, ok, err, ap, sym}
use winify.Config.Entities.{EnvMap}
use winify.Models.Variables.{
  SecretCodec, SharedVariable, project_scope, is_visible, encode_secret, decode_secret,
  upsert_shared_variable, shared_variables_for,
}
use winify.Models.Variables.Latest.{empty, wrote, Shows, upsert_shared_variable-Shows}
use winify.Models.Variables.Secrets.{IsLossless}

abbrev behind_mark : Text → Text
behind_mark [] = []
behind_mark (c ∷ s) = s

abbrev text_or_none : Result Text Text → Text
text_or_none (ok s) = s
text_or_none (err e) = []

abbrev ok_of : Text → Result Text Text
ok_of s = ok s

-- A codec that puts a mark in front.
abbrev pub codec : SecretCodec
codec = record {
  encrypt = λ name value. ok (b'#' ∷ value);
  decrypt = λ name encoded. ok (behind_mark encoded);
}

pub codec-IsLossless : IsLossless codec
codec-IsLossless = record {
  decrypts = λ name value encoded h. ap (λ x. ok_of (behind_mark (text_or_none x))) (sym h);
}

abbrev variable : Text → SharedVariable
variable value = record {
  scope = project_scope;
  scope_id = codes "acme";
  key = codes "API_KEY";
  value = value;
}

abbrev one_row : List SharedVariable
one_row = variable (codes "enc:v1:#one") ∷ []

abbrev two_rows : List SharedVariable
two_rows = variable (codes "enc:v1:#two") ∷ []

abbrev before : EnvMap
before = (codes "project.API_KEY", codes "one") ∷ []

first_write : upsert_shared_variable (some codec) (variable (codes "one")) [] ≡ ok one_row
unfolding upsert_shared_variable winify.Common.text_eq winify.Common.trim_space
    winify.Config.Rules.validate_env_key winify.Config.Rules.env_key_pattern
    winify.Common.contains_any encode_secret winify.Models.Variables.put_row
first_write = refl

second_write : upsert_shared_variable (some codec) (variable (codes "two")) one_row ≡ ok two_rows
unfolding upsert_shared_variable winify.Common.text_eq winify.Common.trim_space
    winify.Config.Rules.validate_env_key winify.Config.Rules.env_key_pattern
    winify.Common.contains_any encode_secret winify.Models.Variables.put_row
    winify.Models.Variables.same_row
second_write = refl

is_seen : shared_variables_for (some codec) (codes "acme") (codes "prod") one_row ≡ ok before
unfolding shared_variables_for winify.Models.Variables.collect is_visible winify.Common.text_eq
    winify.Models.Variables.decoded_row decode_secret winify.Common.has_prefix
    winify.Models.Variables.ref_name winify.Common.trim_prefix
is_seen = refl

is_shown : is_visible (codes "acme") (codes "prod") (variable (codes "two")) ≡ true
unfolding is_visible winify.Common.text_eq
is_shown = refl

upsert_shared_variable-Shows_example :
    Shows codec (codes "acme") (codes "prod") (variable (codes "two")) before two_rows
upsert_shared_variable-Shows_example =
    upsert_shared_variable-Shows codec (codes "acme") (codes "prod") (variable (codes "two"))
      one_row two_rows before codec-IsLossless
      (wrote (variable (codes "one")) [] one_row empty first_write) is_seen is_shown second_write
