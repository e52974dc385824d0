-- ===== src/Common/Scan.antt =====
-- regexp.ReplaceAllStringFunc and MatchString, for a pattern given by what it matches at the
-- head of a text: the number of bytes of the leftmost match there, and a value read from it.
use Prim.Native.Nat.{ℕ, zero, suc, ◌-◌}
use mathlib.Core.Path.{◌≡◌, refl}
use mathlib.Core.Bool.{Bool, true, false, ◌||◌}
use mathlib.Core.Option.{Option, none, some}
use mathlib.Core.List.{List, [], ◌∷◌, ◌++◌}
use native.Mathlib.Omega.{arith}
use winify.Common.Strings.{Text}

-- What stands at the head of a text: a match of so many bytes, with its value.
abbrev pub Matcher {ℓ} : Type ℓ → Type ℓ
Matcher A = Text → Option (ℕ × A)

abbrev pub is_match {ℓ} : {A : Type ℓ} → Option (ℕ × A) → Bool
is_match none = false
is_match (some m) = true

module _ {ℓ} {A : Type ℓ} (matcher : Matcher A) where
  unfoldable pub match_string : Text → Bool
  match_string [] = is_match (matcher [])
  match_string (c ∷ s) = is_match (matcher (c ∷ s)) || match_string s

  -- The values of the matches, from left to right; `skip` bytes belong to the last match.
  unfoldable pub find_all : ℕ → Text → List A
  find_all skip [] = []
  find_all (suc skip) (c ∷ s) = find_all skip s
  find_all zero (c ∷ s) = elim (matcher (c ∷ s)) [
    | none ↦ find_all zero s
    | some (n, a) ↦ a ∷ find_all (n - 1) s
  ]

  module _ (replacement : A → Text) where
    unfoldable pub replace_all : ℕ → Text → Text
    replace_all skip [] = []
    replace_all (suc skip) (c ∷ s) = replace_all skip s
    replace_all zero (c ∷ s) = elim (matcher (c ∷ s)) [
      | none ↦ c ∷ replace_all zero s
      | some (n, a) ↦ replacement a ++ replace_all (n - 1) s
    ]

  pub replace_all_of_no_match :
      (replacement : A → Text) (s : Text)
      → match_string s ≡ false
      → replace_all replacement zero s ≡ s
  unfolding match_string replace_all
  replace_all_of_no_match replacement [] h = refl
  replace_all_of_no_match replacement (c ∷ s) h =
      ground (arith, replace_all_of_no_match replacement s)

  pub find_all_of_no_match : (s : Text) → match_string s ≡ false → find_all zero s ≡ []
  unfolding match_string find_all
  find_all_of_no_match [] h = refl
  find_all_of_no_match (c ∷ s) h = ground (arith, find_all_of_no_match s)
