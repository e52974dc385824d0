-- ===== src/Config/Paths/Target.antt =====
-- What the check of a Windows target path establishes, and what it does not
-- (internal/config/entities.go).
use winify.Common.{
  ◌≡◌, refl, true, false, none, [], ◌∷◌, ◌++◌, arith, Text, codes, text_eq, has_prefix, to_lower,
  split, ok,
}
use mathlib.Core.List.{append_assoc, map-append}
use winify.Config.Paths.{
  looks_like_windows_abs, normal_target, check_target, validate_target_path, backslash,
}
use winify.Config.Paths.Inside.{walk}

has_prefix-append : (p s : Text) → has_prefix (p ++ s) p ≡ true
unfolding has_prefix
has_prefix-append [] [] = refl
has_prefix-append [] (c ∷ s) = refl
has_prefix-append (c ∷ p) s = ground (arith, has_prefix-append p s)

looks_like_windows_abs-append :
    (r s : Text) → looks_like_windows_abs r ≡ true → looks_like_windows_abs (r ++ s) ≡ true
unfolding looks_like_windows_abs
looks_like_windows_abs-append (a ∷ b ∷ []) [] h = h
looks_like_windows_abs-append (a ∷ b ∷ []) (c ∷ s) h = ground arith
looks_like_windows_abs-append (a ∷ b ∷ c ∷ r) s h = h
looks_like_windows_abs-append (a ∷ []) s h = cc
looks_like_windows_abs-append [] s h = cc

below-has_prefix :
    (root u : Text)
    → has_prefix (to_lower (root ++ (backslash ++ u))) (to_lower (root ++ backslash)) ≡ true
unfolding to_lower
below-has_prefix root u =
    rw (← append_assoc, map-append) (has_prefix-append (to_lower (root ++ backslash)) (to_lower u))

absolute-ne-nil : (r : Text) → looks_like_windows_abs r ≡ true → text_eq r [] ≡ false
unfolding looks_like_windows_abs text_eq
absolute-ne-nil [] h = cc
absolute-ne-nil (c ∷ r) h = refl

check_target_below :
    (root u : Text)
    → looks_like_windows_abs root ≡ true
    → check_target root (root ++ (backslash ++ u)) ≡ ok tt
unfolding check_target
check_target_below root u h =
    let absolute = looks_like_windows_abs-append root (backslash ++ u) h in
    ground (
      arith,
      absolute-ne-nil root h,
      absolute-ne-nil (root ++ (backslash ++ u)) absolute,
      below-has_prefix root u,
    )

-- The test is one of text, and does not resolve "..": for every absolute root and every rest that
-- normalisation leaves alone, the path that climbs out of the root and goes on with the rest is
-- accepted, though followed from the root its elements leave it.
pub validate_target_path_climbs :
    (root rest : Text)
    → looks_like_windows_abs root ≡ true
    → normal_target root ≡ root
    → normal_target (root ++ (codes "\\..\\" ++ rest)) ≡ root ++ (codes "\\..\\" ++ rest)
    → (validate_target_path root (root ++ (codes "\\..\\" ++ rest)) ≡ ok tt)
      × (walk 0 (codes ".." ∷ split b'\\' rest) ≡ none)
unfolding validate_target_path text_eq
validate_target_path_climbs root rest absolute same kept =
    (rw (same, kept) (check_target_below root (codes "..\\" ++ rest) absolute), refl)
