-- ===== src/Models/Variables.antt =====
-- The shared_variables table of internal/models/store.go, with the encryption of its values. The
-- rows stand in the order in which SQLite may return them, which the code does not fix.
pub mod Secrets
pub mod Names
pub mod Writes
pub mod Visible
pub mod Latest
use winify.Common.{
  ℕ, Bool, true, false, not, ◌&&◌, ◌||◌, Option, none, some, List, [], ◌∷◌, ◌++◌, select,
  if◌then◌else◌, Text, codes, text_eq, has_prefix, trim_prefix, trim_space, contains_any, Result,
  ok, err, ◌>>=◌, ◌>>◌, fail_if,
}
use winify.Config.Entities.{EnvMap}
use winify.Config.Rules.{ConfigError, Check, validate_env_key, control_bytes}

-- What the application's master key encrypts and decrypts with.
pub record SecretCodec : Type 0 where
  pub encrypt : Text → Text → Result Text Text
  pub decrypt : Text → Text → Result Text Text

pub data StoreError : Type 0 where
  not_encrypted not_decrypted : Text → Text → StoreError
  needs_master_key : Text → StoreError
  bad_scope no_scope_id : StoreError
  bad_key : ConfigError → StoreError
  control_byte : Text → StoreError

abbrev pub encrypted_secret_prefix : Text
encrypted_secret_prefix = codes "enc:v1:"

abbrev pub sealed : Text → Result Text Text → Result StoreError Text
sealed name (ok encoded) = ok (encrypted_secret_prefix ++ encoded)
sealed name (err e) = err (not_encrypted name e)

unfoldable pub encode_secret : Option SecretCodec → Text → Text → Result StoreError Text
encode_secret none name value = ok value
encode_secret (some codec) name value =
    if text_eq value [] || text_eq value (codes "null")
    then ok value
    else sealed name (codec.encrypt name value)

abbrev pub opened : Text → Result Text Text → Result StoreError Text
opened name (ok value) = ok value
opened name (err e) = err (not_decrypted name e)

abbrev pub open_with : Option SecretCodec → Text → Text → Result StoreError Text
open_with none name encoded = err (needs_master_key name)
open_with (some codec) name encoded = opened name (codec.decrypt name encoded)

unfoldable pub decode_secret : Option SecretCodec → Text → Text → Result StoreError Text
decode_secret codec name value =
    if not (has_prefix value encrypted_secret_prefix)
    then ok value
    else open_with codec name (trim_prefix value encrypted_secret_prefix)

pub record SharedVariable : Type 0 where
  pub scope : Text
  pub scope_id : Text
  pub key : Text
  pub value : Text

abbrev pub shared_secret_name : Text → Text → Text → Text
shared_secret_name scope scope_id key =
    codes "shared:" ++ (scope ++ (codes ":" ++ (scope_id ++ (codes ":" ++ key))))

abbrev pub project_scope : Text
project_scope = codes "project"

abbrev pub environment_scope : Text
environment_scope = codes "environment"

-- The primary key.
unfoldable pub same_row : SharedVariable → SharedVariable → Bool
same_row r v = text_eq r.scope v.scope && (text_eq r.scope_id v.scope_id && text_eq r.key v.key)

-- INSERT ... ON CONFLICT DO UPDATE
unfoldable pub put_row : SharedVariable → List SharedVariable → List SharedVariable
put_row v [] = v ∷ []
put_row v (r ∷ rs) = let rest = put_row v rs in if same_row r v then v ∷ rs else r ∷ rest

abbrev pub checked_key : Check → Result StoreError (Unit {0})
checked_key (ok u) = ok tt
checked_key (err e) = err (bad_key e)

abbrev pub check_variable : SharedVariable → Result StoreError (Unit {0})
check_variable v =
    fail_if (not (text_eq v.scope project_scope) && not (text_eq v.scope environment_scope))
      bad_scope
    >> (fail_if (text_eq (trim_space v.scope_id) []) no_scope_id
        >> (checked_key (validate_env_key v.key)
            >> fail_if (contains_any v.value control_bytes) (control_byte v.key)))

abbrev pub stored : SharedVariable → Text → SharedVariable
stored v value = record v { value = value }

-- UpsertSharedVariable, when the statement succeeds.
unfoldable pub upsert_shared_variable :
    Option SecretCodec
    → SharedVariable
    → List SharedVariable
    → Result StoreError (List SharedVariable)
upsert_shared_variable codec v rows =
    check_variable v
    >> (encode_secret codec (shared_secret_name v.scope v.scope_id v.key) v.value >>= λ value.
        ok (put_row (stored v value) rows))

-- DeleteSharedVariable
unfoldable pub delete_shared_variable : SharedVariable → List SharedVariable → List SharedVariable
delete_shared_variable v rows = select (λ r. not (same_row r v)) rows

-- The name under which projects refer to a variable.
unfoldable pub ref_name : SharedVariable → Text
ref_name r = r.scope ++ (b'.' ∷ r.key)

module _ (group environment : Text) where
  abbrev pub environment_id : Text
  environment_id = group ++ (codes "/" ++ environment)

  -- The WHERE clause.
  unfoldable pub is_visible : SharedVariable → Bool
  is_visible r =
      (text_eq r.scope project_scope && text_eq r.scope_id group)
      || (text_eq r.scope environment_scope && text_eq r.scope_id environment_id)

  abbrev pub scope_id_of : Text → Text
  scope_id_of scope = if text_eq scope project_scope then group else environment_id

module _ (codec : Option SecretCodec) (group environment : Text) where
  unfoldable pub decoded_row : SharedVariable → Result StoreError Text
  decoded_row r =
      decode_secret codec (shared_secret_name r.scope (scope_id_of group environment r.scope) r.key)
        r.value

  -- The loop over the rows; the entry in front is the last that was set.
  unfoldable pub collect : List SharedVariable → EnvMap → Result StoreError EnvMap
  collect [] out = ok out
  collect (r ∷ rs) out = elim (is_visible group environment r) [
    | true ↦ (decoded_row r >>= λ value. collect rs ((ref_name r, value) ∷ out))
    | false ↦ collect rs out
  ]

  unfoldable pub shared_variables_for : List SharedVariable → Result StoreError EnvMap
  shared_variables_for rows = collect rows []
