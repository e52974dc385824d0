-- ===== src/Models/Variables/Names.antt =====
-- The reference names of the variables that one project sees (internal/models/store.go).
use winify.Common.{
  ◌≡◌, refl, sym, ap, ◌∙◌, true, ◌&&◌, Bool-cases, inl, inr, ◌⊎◌, [], ◌∷◌, ◌++◌, Text, text_eq,
  text_eq_iff, arith, ℕ, drop, true_of_and, if_true, if_false,
}
use winify.Models.Variables.{
  SharedVariable, project_scope, environment_scope, same_row, environment_id, is_visible,
  scope_id_of, ref_name,
}

abbrev first_byte : Text → ℕ
first_byte [] = 0
first_byte (c ∷ s) = c

same_parts :
    (r v : SharedVariable)
    → r.scope ≡ v.scope
    → r.scope_id ≡ v.scope_id
    → r.key ≡ v.key
    → same_row r v ≡ true
unfolding same_row
same_parts r v a b c =
    rw ((text_eq_iff r.scope v.scope).1 a)
      (rw ((text_eq_iff r.scope_id v.scope_id).1 b) ((text_eq_iff r.key v.key).1 c))

with_scopes :
    (a b : Text) (r v : SharedVariable)
    → r.scope ≡ a
    → v.scope ≡ b
    → ref_name r ≡ ref_name v
    → a ++ (b'.' ∷ r.key) ≡ b ++ (b'.' ∷ v.key)
unfolding ref_name
with_scopes a b r v sr sv e =
    sym (ap (λ (s : Text). s ++ (b'.' ∷ r.key)) sr) ∙ e ∙ ap (λ (s : Text). s ++ (b'.' ∷ v.key)) sv

module _ (group environment : Text) where
  -- The scope of a visible row, with its scope id.
  abbrev Scoped : SharedVariable → Type 0
  Scoped r =
      ((r.scope ≡ project_scope) × (r.scope_id ≡ group))
      ⊎ ((r.scope ≡ environment_scope) × (r.scope_id ≡ environment_id group environment))

  scoped : (r : SharedVariable) → is_visible group environment r ≡ true → Scoped r
  unfolding is_visible
  scoped r h = elim (Bool-cases (text_eq r.scope project_scope && text_eq r.scope_id group)) [
    | inl e ↦
        let (x, y) = true_of_and (text_eq r.scope project_scope) _ e in
        inl ((text_eq_iff r.scope project_scope).0 x, (text_eq_iff r.scope_id group).0 y)
    | inr e ↦
        let place = environment_id group environment in
        let k : (text_eq r.scope environment_scope && text_eq r.scope_id place) ≡ true =
          ground arith in
        let (x, y) = true_of_and (text_eq r.scope environment_scope) (text_eq r.scope_id place) k in
        inr ((text_eq_iff r.scope environment_scope).0 x, (text_eq_iff r.scope_id place).0 y)
  ]

  pub scope_id-visible :
      (r : SharedVariable)
      → is_visible group environment r ≡ true
      → scope_id_of group environment r.scope ≡ r.scope_id
  unfolding text_eq
  scope_id-visible r h = elim (scoped r h) [
    | inl (s, i) ↦
        if_true (text_eq r.scope project_scope) group _ ((text_eq_iff r.scope project_scope).1 s)
        ∙ sym i
    | inr (s, i) ↦ if_false (text_eq r.scope project_scope) group _ (rw s refl) ∙ sym i
  ]

  -- Two visible rows with the same name are the same row.
  pub ref_name-same_row :
      (r v : SharedVariable)
      → is_visible group environment r ≡ true
      → is_visible group environment v ≡ true
      → ref_name r ≡ ref_name v
      → same_row r v ≡ true
  unfolding same_row ref_name
  ref_name-same_row r v h k e = elim (scoped r h) [
    | inl (sr, ir) ↦ elim (scoped v k) [
      | inl (sv, iv) ↦
          same_parts r v (sr ∙ sym sv) (ir ∙ sym iv)
            (ap (drop 8) (with_scopes project_scope project_scope r v sr sv e))
      | inr (sv, iv) ↦
          let no : 112 ≡ 101 =
            ap first_byte (with_scopes project_scope environment_scope r v sr sv e) in
          absurd (omega (arith, no))
    ]
    | inr (sr, ir) ↦ elim (scoped v k) [
      | inl (sv, iv) ↦
          let no : 101 ≡ 112 =
            ap first_byte (with_scopes environment_scope project_scope r v sr sv e) in
          absurd (omega (arith, no))
      | inr (sv, iv) ↦
          same_parts r v (sr ∙ sym sv) (ir ∙ sym iv)
            (ap (drop 12) (with_scopes environment_scope environment_scope r v sr sv e))
    ]
  ]
