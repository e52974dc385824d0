-- ===== src/Common/Results.antt =====
-- A value or an error, as Go's `(T, error)` returns: a function here never returns both.
use mathlib.Core.Path.{◌≡◌, refl}
use mathlib.Core.Bool.{Bool, true, false}
use mathlib.Core.List.{List, [], ◌∷◌}

pub data Result {ℓ κ} (E : Type ℓ) (A : Type κ) : Type (ℓ ⊔ κ) where
  err : E → Result E A
  ok : A → Result E A

module _ {ℓ κ} {E : Type ℓ} {A B : Type κ} where
  -- `x, err := first(); if err != nil { return err }` and then the rest.
  infixl 5 ◌>>=◌
  abbrev pub ◌>>=◌ : Result E A → (A → Result E B) → Result E B
  err failure >>= rest = err failure
  ok value >>= rest = rest value

module _ {ℓ} {E : Type ℓ} where
  -- The same where only the error counts.
  infixl 5 ◌>>◌
  abbrev pub ◌>>◌ {κ} : {B : Type κ} → Result E (Unit {0}) → Result E B → Result E B
  err failure >> rest = err failure
  ok done >> rest = rest

  -- `if bad { return err }`
  abbrev pub fail_if : Bool → E → Result E (Unit {0})
  fail_if true e = err e
  fail_if false e = ok tt

  -- `for _, x := range xs { if err := check(x); err != nil { return err } }`
  abbrev pub check_all {κ} : {A : Type κ} → (A → Result E (Unit {0})) → List A → Result E (Unit {0})
  check_all f [] = ok tt
  check_all f (x ∷ xs) = f x >> check_all f xs

module _ {ℓ} {E : Type ℓ} where
  pub ok_of_fail_if : (b : Bool) (e : E) (u : Unit {0}) → fail_if b e ≡ ok u → b ≡ false
  ok_of_fail_if true e u h = cc
  ok_of_fail_if false e u h = refl

  pub ok_of_>> :
      (m : Result E (Unit {0})) (k : Result E (Unit {0}))
      → (m >> k) ≡ ok tt
      → (m ≡ ok tt) × (k ≡ ok tt)
  ok_of_>> (ok tt) k h = (refl, h)
  ok_of_>> (err e) k h = cc

-- A chain that came to a value: its first part did, and the rest went on from there.
pub >>=-eq-ok {ℓ κ} :
    {E : Type ℓ} {A B : Type κ} (first : Result E A) (rest : A → Result E B) {out : B}
    → (first >>= rest) ≡ ok out
    → (value : A) × (first ≡ ok value) × (rest value ≡ ok out)
>>=-eq-ok (err failure) rest same = cc
>>=-eq-ok (ok value) rest same = (value, refl, same)
