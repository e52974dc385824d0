-- ===== src/Common/Trims.antt =====
-- When trimming changes nothing, and what a cut at a byte gives.
use Prim.Native.Nat.{ℕ}
use mathlib.Core.Path.{◌≡◌, refl}
use mathlib.Core.Logic.{◌≢◌}
use mathlib.Core.Bool.{Bool, true, false}
use mathlib.Core.List.{List, [], ◌∷◌, reverse, reverse-cons, reverse-reverse}
use native.Mathlib.Omega.{arith}
use winify.Common.Lists.{All, All-append}
use winify.Common.Strings.{
  Text, text_eq, text_eq_refl, drop_while, trim_right, trim_space, is_space,
}

pub All-reverse {ℓ κ} : {A : Type ℓ} (P : A → Type κ) (xs : List A) → All P xs → All P (reverse xs)
All-reverse P [] h = tt
All-reverse P (x ∷ xs) (p, h) =
    rw reverse-cons (All-append P (reverse xs) (x ∷ []) (All-reverse P xs h) (p, tt))

module _ (p : ℕ → Bool) where
  abbrev pub Fails : ℕ → Type 0
  Fails c = p c ≡ false

  pub drop_while_of_Fails : (s : Text) → All Fails s → drop_while p s ≡ s
  drop_while_of_Fails [] h = refl
  drop_while_of_Fails (c ∷ s) h = ground arith

  pub trim_right_of_Fails : (s : Text) → All Fails s → trim_right p s ≡ s
  unfolding trim_right
  trim_right_of_Fails s h =
      rw (drop_while_of_Fails (reverse s) (All-reverse Fails s h)) (reverse-reverse s)

-- A text without white space is its own trimmed form.
pub trim_space_of_Fails : (s : Text) → All (Fails is_space) s → trim_space s ≡ s
unfolding trim_space
trim_space_of_Fails s h = rw (drop_while_of_Fails is_space s h) (trim_right_of_Fails is_space s h)

pub ne_of_text_eq : (s t : Text) → text_eq s t ≡ false → s ≢ t
ne_of_text_eq s t h e = let k : text_eq s t ≡ true = rw e (text_eq_refl t) in cc
