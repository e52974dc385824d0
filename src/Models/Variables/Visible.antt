-- ===== src/Models/Variables/Visible.antt =====
-- What a project sees of the table (SharedVariablesFor of internal/models/store.go).
use winify.Common.{
  ◌≡◌, ◌≢◌, refl, sym, ap, ◌∙◌, Bool, true, false, ◌&&◌, Bool-cases, inl, inr, ◌⊎◌, Option, none,
  some, List, [], ◌∷◌, All, if◌then◌else◌, Text, text_eq, text_eq_iff, Result, ok, err, ◌>>=◌,
  >>=-eq-ok, if_true, if_false, true_of_and, arith,
}
use winify.Config.Entities.{EnvMap}
use winify.Deployment.SharedVars.{lookup_var}
use winify.Models.Variables.{
  SecretCodec, StoreError, SharedVariable, same_row, put_row, is_visible, decoded_row, ref_name,
  collect,
}
use winify.Models.Variables.Names.{ref_name-same_row}
use winify.Models.Variables.Writes.{IsOther, IsKeyed, same_row_parts, IsOther-like}

abbrev pub value_of : Result StoreError Text → Option Text
value_of (ok value) = some value
value_of (err e) = none

abbrev vars_or : EnvMap → Result StoreError EnvMap → EnvMap
vars_or out (ok vars) = vars
vars_or out (err e) = out

ref_name_of : (r v : SharedVariable) → r.scope ≡ v.scope → r.key ≡ v.key → ref_name r ≡ ref_name v
unfolding ref_name
ref_name_of r v a b = rw a (rw b refl)

module _ (codec : Option SecretCodec) (group environment : Text) where
  collect-shown :
      (r : SharedVariable) (rs : List SharedVariable) (out : EnvMap)
      → is_visible group environment r ≡ true
      → collect codec group environment (r ∷ rs) out ≡ (
          decoded_row codec group environment r >>= λ value.
          collect codec group environment rs ((ref_name r, value) ∷ out))
  unfolding collect
  collect-shown r rs out e = rw (collect, e) refl

  collect-hidden :
      (r : SharedVariable) (rs : List SharedVariable) (out : EnvMap)
      → is_visible group environment r ≡ false
      → collect codec group environment (r ∷ rs) out ≡ collect codec group environment rs out
  unfolding collect
  collect-hidden r rs out e = rw (collect, e) refl

  -- A row that the project does not see, or whose value is decrypted.
  abbrev pub IsReadable : SharedVariable → Type 0
  IsReadable r =
      (is_visible group environment r ≡ false)
      ⊎ ((value : Text) × (decoded_row codec group environment r ≡ ok value))

  pub collect-IsReadable :
      (rows : List SharedVariable) (out vars : EnvMap)
      → collect codec group environment rows out ≡ ok vars
      → All IsReadable rows
  collect-IsReadable [] out vars h = tt
  collect-IsReadable (r ∷ rs) out vars h = elim (Bool-cases (is_visible group environment r)) [
    | inl e ↦
        let (d, dec, rest) =
          >>=-eq-ok (decoded_row codec group environment r) _
            (sym (collect-shown r rs out e) ∙ h) in
        (inr (d, dec), collect-IsReadable rs _ vars rest)
    | inr e ↦ (inl e, collect-IsReadable rs out vars (sym (collect-hidden r rs out e) ∙ h))
  ]

  pub readable_collects :
      (rows : List SharedVariable) (out : EnvMap)
      → All IsReadable rows
      → (vars : EnvMap) × (collect codec group environment rows out ≡ ok vars)
  unfolding collect
  readable_collects [] out a = (out, refl)
  readable_collects (r ∷ rs) out (readable, a) =
      elim (Bool-cases (is_visible group environment r)) [
        | inr e ↦
            let (vars, k) = readable_collects rs out a in (vars, collect-hidden r rs out e ∙ k)
        | inl e ↦ elim readable [
          | inl hidden ↦ let no = sym e ∙ hidden in cc
          | inr (d, dec) ↦
              let (vars, k) = readable_collects rs ((ref_name r, d) ∷ out) a in
              (vars, collect-shown r rs out e ∙ rw dec k)
        ]
      ]

  module _ (name : Text) where
    abbrev pub is_named : SharedVariable → Bool
    is_named r = is_visible group environment r && text_eq (ref_name r) name

    -- The value of the last row of that name.
    abbrev pub seen : List SharedVariable → Option Text → Option Text
    seen [] old = old
    seen (r ∷ rs) old =
        seen rs (if is_named r then value_of (decoded_row codec group environment r) else old)

    pub lookup-collect :
        (rows : List SharedVariable) (out vars : EnvMap)
        → collect codec group environment rows out ≡ ok vars
        → lookup_var name vars ≡ seen rows (lookup_var name out)
    unfolding collect lookup_var
    lookup-collect [] out vars h = ap (λ x. lookup_var name (vars_or out x)) (sym h)
    lookup-collect (r ∷ rs) out vars h = elim (Bool-cases (is_visible group environment r)) [
      | inl e ↦
          let (d, dec, rest) =
            >>=-eq-ok (decoded_row codec group environment r) _
              (sym (collect-shown r rs out e) ∙ h) in
          lookup-collect rs ((ref_name r, d) ∷ out) vars rest ∙ ap (seen rs) (rw e (rw dec refl))
      | inr e ↦
          lookup-collect rs out vars (sym (collect-hidden r rs out e) ∙ h)
          ∙ ap (seen rs) (rw e refl)
    ]

    unnamed : (r : SharedVariable) → ref_name r ≢ name → is_named r ≡ false
    unnamed r ne = elim (Bool-cases (text_eq (ref_name r) name)) [
      | inl e ↦ absurd (ne ((text_eq_iff (ref_name r) name).0 e))
      | inr e ↦ ground arith
    ]

    named_value :
        (v : SharedVariable) (value : Text) (old : Option Text)
        → is_visible group environment v ≡ true
        → ref_name v ≡ name
        → decoded_row codec group environment v ≡ ok value
        → (if is_named v then value_of (decoded_row codec group environment v) else old)
          ≡ some value
    named_value v value old shown named dec =
        if_true (is_named v) _ _ (rw shown ((text_eq_iff (ref_name v) name).1 named))
        ∙ ap value_of dec

    seen_others :
        (v : SharedVariable) (rows : List SharedVariable) (old : Option Text)
        → is_visible group environment v ≡ true
        → ref_name v ≡ name
        → All (IsOther v) rows
        → seen rows old ≡ old
    seen_others v [] old shown named a = refl
    seen_others v (r ∷ rs) old shown named (o, a) = elim (Bool-cases (is_named r)) [
      | inl e ↦
          let (shows, same) = true_of_and (is_visible group environment r) _ e in
          let both = (text_eq_iff (ref_name r) name).0 same ∙ sym named in
          let no = sym (ref_name-same_row group environment r v shows shown both) ∙ o in cc
      | inr e ↦ ap (seen rs) (if_false (is_named r) _ _ e) ∙ seen_others v rs old shown named a
    ]

    pub seen-put_row :
        (v : SharedVariable) (value : Text) (rows : List SharedVariable) (old : Option Text)
        → is_visible group environment v ≡ true
        → ref_name v ≡ name
        → decoded_row codec group environment v ≡ ok value
        → IsKeyed rows
        → seen (put_row v rows) old ≡ some value
    unfolding put_row
    seen-put_row v value [] old shown named dec k = named_value v value old shown named dec
    seen-put_row v value (r ∷ rs) old shown named dec (o, k) = elim (Bool-cases (same_row r v)) [
      | inl e ↦ rw e (
          ap (seen rs) (named_value v value old shown named dec)
          ∙ seen_others v rs (some value) shown named (IsOther-like r v rs e o))
      | inr e ↦ rw e (seen-put_row v value rs _ shown named dec k)
    ]

    pub seen_other_name :
        (v : SharedVariable) (rows : List SharedVariable) (old : Option Text)
        → ref_name v ≢ name
        → seen (put_row v rows) old ≡ seen rows old
    unfolding put_row
    seen_other_name v [] old ne = if_false (is_named v) _ _ (unnamed v ne)
    seen_other_name v (r ∷ rs) old ne = elim (Bool-cases (same_row r v)) [
      | inl e ↦ rw e (
          let (scope, place, key) = same_row_parts r v e in
          ap (seen rs) (
            if_false (is_named v) _ _ (unnamed v ne)
            ∙ sym (
                if_false (is_named r) _ _
                  (unnamed r (λ q. ne (sym (ref_name_of r v scope key) ∙ q))))))
      | inr e ↦ rw e (seen_other_name v rs _ ne)
    ]
