-- ===== src/Config/Paths/Inside.antt =====
-- A path that is accepted as repository-relative never leaves the repository
-- (internal/config/entities.go).
use winify.Common.{
  ℕ, zero, suc, ◌-◌, sym, ◌≤◌, ◌≡◌, refl, ◌≢◌, inl, inr, true, false, Option, none, some, List, [],
  ◌∷◌, reverse, arith, if◌then◌else◌, length, Text, codes, text_eq, text_eq_iff, has_prefix,
  contains, join, split, trim_space, ok, fail_if, ok_of_fail_if, ok_of_>>, Bool-cases,
}
use mathlib.Core.Path.{subst}
use winify.Config.Paths.{
  Cleaned, is_skipped, clean_step, clean_loop, add_ups, dot_if_empty, rendered, nothing, clean,
  is_outside, slashed, check_repo_relative, validate_repo_relative_path,
}

-- Following the elements of a path from a depth below a root: the depth at the end, or none if
-- the walk ever leaves the root.
abbrev pub walk : ℕ → List Text → Option ℕ
walk depth [] = some depth
walk depth (seg ∷ segs) =
    let same = walk depth segs in
    let deeper = walk (suc depth) segs in
    if is_skipped seg
    then same
    else if text_eq seg (codes "..")
    then elim depth [ zero ↦ none | suc d ↦ walk d segs ]
    else deeper

clean_step-ups : (c : Cleaned) (seg : Text) → c.ups ≤ (clean_step false c seg).ups
unfolding clean_step
clean_step-ups c seg = ground arith

clean_loop-ups : (c : Cleaned) (segs : List Text) → c.ups ≤ (clean_loop false c segs).ups
unfolding clean_loop
clean_loop-ups c [] = omega arith
clean_loop-ups c (seg ∷ segs) =
    omega (arith, clean_loop-ups (clean_step false c seg) segs, clean_step-ups c seg)

-- A walk that leaves the root leaves an unresolved ".." in the cleaned path.
clean_loop-escape :
    (names segs : List Text)
    → walk (length names) segs ≡ none
    → 1 ≤ (clean_loop false (record { ups = 0; names = names }) segs).ups
unfolding clean_loop clean_step
clean_loop-escape names [] h = cc
clean_loop-escape [] (seg ∷ segs) h = ground (
  arith,
  clean_loop-escape [] segs,
  clean_loop-escape (seg ∷ []) segs,
  clean_loop-ups (record { ups = 1; names = [] }) segs,
)
clean_loop-escape (n ∷ ns) (seg ∷ segs) h = ground (
  arith,
  clean_loop-escape (n ∷ ns) segs,
  clean_loop-escape ns segs,
  clean_loop-escape (seg ∷ n ∷ ns) segs,
)

outside_of_ups :
    (n : ℕ) (names : List Text)
    → is_outside (dot_if_empty (join (codes "/") (add_ups (suc n) names))) ≡ true
unfolding join text_eq has_prefix
outside_of_ups zero [] = refl
outside_of_ups zero (x ∷ xs) = refl
outside_of_ups (suc n) names = refl

rendered-outside : (c : Cleaned) → 1 ≤ c.ups → is_outside (rendered false c) ≡ true
rendered-outside c h =
    let e : c.ups ≡ suc (c.ups - 1) = omega arith in
    subst (λ u. is_outside (dot_if_empty (join (codes "/") (add_ups u (reverse c.names)))) ≡ true)
      (sym e) (outside_of_ups (c.ups - 1) (reverse c.names))

clean-outside :
    (p : Text)
    → has_prefix p (codes "/") ≡ false
    → walk 0 (split b'/' p) ≡ none
    → is_outside (clean p) ≡ true
unfolding clean
clean-outside p relative escapes = rw relative (
    rendered-outside (clean_loop false nothing (split b'/' p))
      (clean_loop-escape [] (split b'/' p) escapes))

check_repo_relative_sound :
    (field p : Text)
    → check_repo_relative field p ≡ ok tt
    → (has_prefix p (codes "/") ≡ false)
      × (contains p (codes ":") ≡ false)
      × (walk 0 (split b'/' p) ≢ none)
unfolding check_repo_relative
check_repo_relative_sound field p h =
    let (first, second) = ok_of_>> (fail_if _ _) (fail_if _ _) h in
    let syntax = ok_of_fail_if _ _ tt first in
    let inside = ok_of_fail_if _ _ tt second in
    let relative : has_prefix p (codes "/") ≡ false = ground arith in
    (relative, ground arith, λ e. cc (clean-outside p relative e))

-- An accepted path that is not empty is relative, names no drive, and followed element by element
-- from the repository's root (with either separator) it never leaves that root.
pub validate_repo_relative_path_inside :
    (field value : Text)
    → validate_repo_relative_path field value ≡ ok tt
    → trim_space value ≢ []
    → (has_prefix (slashed value) (codes "/") ≡ false)
      × (contains (slashed value) (codes ":") ≡ false)
      × (walk 0 (split b'/' (slashed value)) ≢ none)
unfolding validate_repo_relative_path
validate_repo_relative_path_inside field value h ne =
    elim (Bool-cases (text_eq (trim_space value) [])) [
      | inl e ↦ absurd (ne ((text_eq_iff _ _).0 e))
      | inr e ↦ check_repo_relative_sound field (slashed value) (rw e at h)
    ]
