-- ===== src/Models/Variables/Writes.antt =====
-- The primary key of the table (UpsertSharedVariable and DeleteSharedVariable of
-- internal/models/store.go).
use winify.Common.{
  ◌≡◌, refl, sym, ◌∙◌, Bool, true, false, not, Bool-cases, inl, inr, List, [], ◌∷◌, select, All,
  All-select, text_eq, text_eq_iff, text_eq_sym, true_of_and,
}
use winify.Models.Variables.{SharedVariable, same_row, put_row, delete_shared_variable}

abbrev pub IsOther : SharedVariable → SharedVariable → Type 0
IsOther v r = same_row r v ≡ false

-- No two rows have the same key.
abbrev pub IsKeyed : List SharedVariable → Type 0
IsKeyed [] = Unit {0}
IsKeyed (r ∷ rs) = All (IsOther r) rs × IsKeyed rs

pub same_row_parts :
    (r v : SharedVariable)
    → same_row r v ≡ true
    → (r.scope ≡ v.scope) × (r.scope_id ≡ v.scope_id) × (r.key ≡ v.key)
unfolding same_row
same_row_parts r v h =
    let (a, rest) = true_of_and (text_eq r.scope v.scope) _ h in
    let (b, c) = true_of_and (text_eq r.scope_id v.scope_id) _ rest in
    (
      (text_eq_iff r.scope v.scope).0 a,
      (text_eq_iff r.scope_id v.scope_id).0 b,
      (text_eq_iff r.key v.key).0 c,
    )

-- A row is like another in every comparison if it has the same key.
same_row_like : (x r v : SharedVariable) → same_row r v ≡ true → same_row x r ≡ same_row x v
unfolding same_row
same_row_like x r v h = let (a, b, c) = same_row_parts r v h in rw a (rw b (rw c refl))

same_row_sym : (r v : SharedVariable) → same_row r v ≡ same_row v r
unfolding same_row
same_row_sym r v =
    rw (text_eq_sym r.scope v.scope)
      (rw (text_eq_sym r.scope_id v.scope_id) (rw (text_eq_sym r.key v.key) refl))

pub put_row-All :
    (P : SharedVariable → Type 0) (v : SharedVariable) (rows : List SharedVariable)
    → All P rows
    → P v
    → All P (put_row v rows)
unfolding put_row
put_row-All P v [] a p = (p, tt)
put_row-All P v (r ∷ rs) (q, a) p = elim (Bool-cases (same_row r v)) [
  | inl e ↦ rw e (p, a)
  | inr e ↦ rw e (q, put_row-All P v rs a p)
]

pub IsOther-like :
    (r v : SharedVariable) (rs : List SharedVariable)
    → same_row r v ≡ true
    → All (IsOther r) rs
    → All (IsOther v) rs
IsOther-like r v [] h a = tt
IsOther-like r v (x ∷ xs) h (o, a) = (sym (same_row_like x r v h) ∙ o, IsOther-like r v xs h a)

pub put_row-IsKeyed :
    (v : SharedVariable) (rows : List SharedVariable) → IsKeyed rows → IsKeyed (put_row v rows)
unfolding put_row
put_row-IsKeyed v [] k = (tt, tt)
put_row-IsKeyed v (r ∷ rs) (o, k) = elim (Bool-cases (same_row r v)) [
  | inl e ↦ rw e (IsOther-like r v rs e o, k)
  | inr e ↦ rw e (put_row-All (IsOther r) v rs o (same_row_sym v r ∙ e), put_row-IsKeyed v rs k)
]

select-IsKeyed :
    (q : SharedVariable → Bool) (rows : List SharedVariable)
    → IsKeyed rows
    → IsKeyed (select q rows)
select-IsKeyed q [] k = tt
select-IsKeyed q (r ∷ rs) (o, k) =
    kept r (select q rs) (q r) (All-select (IsOther r) q rs o) (select-IsKeyed q rs k)
  where
    kept :
        (r : SharedVariable) (rest : List SharedVariable) (b : Bool)
        → All (IsOther r) rest
        → IsKeyed rest
        → IsKeyed (elim b [ true ↦ r ∷ rest | false ↦ rest ])
    kept r rest true o k = (o, k)
    kept r rest false o k = k

pub delete_shared_variable-IsKeyed :
    (v : SharedVariable) (rows : List SharedVariable)
    → IsKeyed rows
    → IsKeyed (delete_shared_variable v rows)
unfolding delete_shared_variable
delete_shared_variable-IsKeyed v rows k = select-IsKeyed (λ r. not (same_row r v)) rows k
