-- ===== src/Models/Variables/Latest.antt =====
-- A shared variable that was written is the one that projects see (UpsertSharedVariable and
-- SharedVariablesFor of internal/models/store.go).
use winify.Common.{
  ◌≡◌, ◌≢◌, refl, sym, ap, ◌∙◌, true, inr, Option, none, some, List, [], Text, Result, ok, err,
  ◌>>◌, >>=-eq-ok,
}
use mathlib.Core.Path.{subst}
use winify.Config.Entities.{EnvMap}
use winify.Deployment.SharedVars.{lookup_var}
use winify.Models.Variables.{
  SecretCodec, StoreError, SharedVariable, shared_secret_name, put_row, stored, check_variable,
  encode_secret, upsert_shared_variable, is_visible, decoded_row, ref_name, shared_variables_for,
  decode_secret, delete_shared_variable,
}
use winify.Models.Variables.Names.{scope_id-visible}
use winify.Models.Variables.Secrets.{IsLossless, decode-encode_secret}
use winify.Models.Variables.Visible.{
  IsReadable, collect-IsReadable, readable_collects, lookup-collect, seen-put_row, seen_other_name,
}
use winify.Models.Variables.Writes.{
  IsKeyed, put_row-All, put_row-IsKeyed, delete_shared_variable-IsKeyed,
}

abbrev rows_or : List SharedVariable → Result StoreError (List SharedVariable) → List SharedVariable
rows_or rows (ok t) = t
rows_or rows (err e) = rows

after_check :
    {A : Type 0} (m : Result StoreError (Unit {0})) (k : Result StoreError A) {a : A}
    → (m >> k) ≡ ok a
    → k ≡ ok a
after_check (ok u) k h = h
after_check (err e) k h = cc

-- What an upsert that succeeds has stored.
upsert_stores :
    (codec : Option SecretCodec) (v : SharedVariable) (rows after : List SharedVariable)
    → upsert_shared_variable codec v rows ≡ ok after
    → (value : Text) × (encode_secret codec (shared_secret_name v.scope v.scope_id v.key) v.value
        ≡ ok value)
      × (put_row (stored v value) rows ≡ after)
unfolding upsert_shared_variable
upsert_stores codec v rows after h =
    let rest = after_check (check_variable v) _ h in
    let (value, encoded, put) =
      >>=-eq-ok (encode_secret codec (shared_secret_name v.scope v.scope_id v.key) v.value) _
        rest in
    (value, encoded, ap (rows_or rows) put)

-- The table that is reached by writing and deleting variables.
pub data Written (codec : Option SecretCodec) : List SharedVariable → Type 0 where
  empty : Written codec []
  wrote :
      (v : SharedVariable) (rows after : List SharedVariable)
      → Written codec rows
      → upsert_shared_variable codec v rows ≡ ok after
      → Written codec after
  deleted :
      (v : SharedVariable) (rows : List SharedVariable)
      → Written codec rows
      → Written codec (delete_shared_variable v rows)

Written-IsKeyed :
    (codec : Option SecretCodec) (rows : List SharedVariable) → Written codec rows → IsKeyed rows
Written-IsKeyed codec _ empty = tt
Written-IsKeyed codec _ (wrote v rows after w h) =
    let (value, encoded, put) = upsert_stores codec v rows after h in
    subst IsKeyed put (put_row-IsKeyed (stored v value) rows (Written-IsKeyed codec rows w))
Written-IsKeyed codec _ (deleted v before w) =
    delete_shared_variable-IsKeyed v before (Written-IsKeyed codec before w)

module _ (codec : SecretCodec) (group environment : Text) where
  -- What the project sees afterwards.
  abbrev pub Shows : SharedVariable → EnvMap → List SharedVariable → Type 0
  Shows v before rows =
      (vars : EnvMap) × (shared_variables_for (some codec) group environment rows ≡ ok vars)
      × (lookup_var (ref_name v) vars ≡ some v.value)
      × ((name : Text) → ref_name v ≢ name → lookup_var name vars ≡ lookup_var name before)

module _ (codec : SecretCodec) (lossless : IsLossless codec) (group environment : Text) where
  decoded_stored :
      (v : SharedVariable) (value : Text)
      → is_visible group environment v ≡ true
      → encode_secret (some codec) (shared_secret_name v.scope v.scope_id v.key) v.value ≡ ok value
      → decoded_row (some codec) group environment (stored v value) ≡ ok v.value
  unfolding decoded_row
  decoded_stored v value shown encoded =
      ap (λ place. decode_secret (some codec) (shared_secret_name v.scope place v.key) value)
        (scope_id-visible group environment v shown)
      ∙ decode-encode_secret codec (shared_secret_name v.scope v.scope_id v.key) v.value value
          lossless encoded

  put-Shows :
      (v : SharedVariable) (value : Text) (rows : List SharedVariable) (before : EnvMap)
      → IsKeyed rows
      → shared_variables_for (some codec) group environment rows ≡ ok before
      → is_visible group environment v ≡ true
      → encode_secret (some codec) (shared_secret_name v.scope v.scope_id v.key) v.value ≡ ok value
      → Shows codec group environment v before (put_row (stored v value) rows)
  unfolding shared_variables_for is_visible ref_name lookup_var
  put-Shows v value rows before keyed sees shown encoded =
      let w = stored v value in
      let dec = decoded_stored v value shown encoded in
      let readable = collect-IsReadable (some codec) group environment rows [] before sees in
      let all =
        put_row-All (IsReadable (some codec) group environment) w rows readable
          (inr (v.value, dec)) in
      let (vars, k) = readable_collects (some codec) group environment (put_row w rows) [] all in
      (
        vars,
        k,
        lookup-collect (some codec) group environment (ref_name v) (put_row w rows) [] vars k
            ∙ seen-put_row (some codec) group environment (ref_name v) w v.value rows none shown
                refl dec keyed,
        λ name ne.
            lookup-collect (some codec) group environment name (put_row w rows) [] vars k
            ∙ (seen_other_name (some codec) group environment name w rows none ne
                ∙ sym (lookup-collect (some codec) group environment name rows [] before sees)),
      )

-- In a table that was only written by UpsertSharedVariable and DeleteSharedVariable, with a codec
-- that loses nothing: if a variable is upserted, every project of its scope that could read its
-- variables can read them still, sees the new value under the variable's name, and sees the old
-- value under every other name.
pub upsert_shared_variable-Shows :
    (codec : SecretCodec) (group environment : Text) (v : SharedVariable)
    (rows after : List SharedVariable) (before : EnvMap)
    → IsLossless codec
    → Written (some codec) rows
    → shared_variables_for (some codec) group environment rows ≡ ok before
    → is_visible group environment v ≡ true
    → upsert_shared_variable (some codec) v rows ≡ ok after
    → Shows codec group environment v before after
upsert_shared_variable-Shows codec group environment v rows after before lossless written sees shown
      h =
    let (value, encoded, put) = upsert_stores (some codec) v rows after h in
    subst (λ t. Shows codec group environment v before t) put
      (put-Shows codec lossless group environment v value rows before
        (Written-IsKeyed (some codec) rows written) sees shown encoded)
