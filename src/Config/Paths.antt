-- ===== src/Config/Paths.antt =====
-- internal/config/entities.go and config.go: paths inside a repository, and target paths on
-- Windows. `clean` is path.Clean of Go's standard library.
pub mod Inside
pub mod Target
use winify.Common.{
  ℕ, zero, suc, ◌+◌, Bool, true, false, not, ◌&&◌, ◌||◌, List, [], ◌∷◌, ◌++◌, reverse, leb, ◌==◌,
  if◌then◌else◌, length, Text, codes, text_eq, contains, has_prefix, replace_byte, split, join,
  trim_space, trim_right, to_lower, equal_fold, is_letter, ok, err, ◌>>◌, fail_if,
}
use winify.Config.Rules.{
  ConfigError, not_repo_relative, target_not_absolute, target_outside_root, Check,
}

-- The `..` elements that could not be resolved, and the names behind them, last first.
pub record Cleaned : Type 0 where
  pub ups : ℕ
  pub names : List Text

abbrev pub pop : Bool → Cleaned → Cleaned
pop is_rooted c = elim c.names [
  | [] ↦ if is_rooted then c else record { ups = c.ups + 1; names = [] }
  | n ∷ ns ↦ record { ups = c.ups; names = ns }
]

abbrev pub is_skipped : Text → Bool
is_skipped seg = text_eq seg [] || text_eq seg (codes ".")

unfoldable pub clean_step : Bool → Cleaned → Text → Cleaned
clean_step is_rooted c seg =
    if is_skipped seg
    then c
    else if text_eq seg (codes "..")
    then pop is_rooted c
    else record c { names = seg ∷ c.names }

unfoldable pub clean_loop : Bool → Cleaned → List Text → Cleaned
clean_loop is_rooted c [] = c
clean_loop is_rooted c (seg ∷ segs) = clean_loop is_rooted (clean_step is_rooted c seg) segs

abbrev pub add_ups : ℕ → List Text → List Text
add_ups zero names = names
add_ups (suc n) names = codes ".." ∷ add_ups n names

abbrev pub dot_if_empty : Text → Text
dot_if_empty [] = codes "."
dot_if_empty (c ∷ s) = c ∷ s

abbrev pub nothing : Cleaned
nothing = record { ups = 0; names = [] }

abbrev pub rendered : Bool → Cleaned → Text
rendered is_rooted c =
    let body = join (codes "/") (add_ups c.ups (reverse c.names)) in
    if is_rooted then b'/' ∷ body else dot_if_empty body

unfoldable pub clean : Text → Text
clean path =
    let is_rooted = has_prefix path (codes "/") in
    rendered is_rooted (clean_loop is_rooted nothing (split b'/' path))

-- path.Join(a, b)
unfoldable pub path_join : Text → Text → Text
path_join [] [] = []
path_join [] (c ∷ s) = clean (c ∷ s)
path_join (c ∷ s) [] = clean (c ∷ s)
path_join (c ∷ s) (d ∷ t) = clean ((c ∷ s) ++ (b'/' ∷ (d ∷ t)))

abbrev pub is_outside : Text → Bool
is_outside p = text_eq p (codes "..") || has_prefix p (codes "../")

unfoldable pub slashed : Text → Text
slashed value = replace_byte b'\\' (codes "/") (trim_space value)

-- ValidateRepoRelativePath, behind the test for an empty value.
unfoldable pub check_repo_relative : Text → Text → Check
check_repo_relative field normalized =
    fail_if
      (has_prefix normalized (codes "/")
        || (is_outside normalized || contains normalized (codes ":")))
      (not_repo_relative field)
    >> fail_if (is_outside (clean normalized)) (not_repo_relative field)

unfoldable pub validate_repo_relative_path : Text → Text → Check
validate_repo_relative_path field value =
    if text_eq (trim_space value) [] then ok tt else check_repo_relative field (slashed value)

-- looksLikeWindowsAbs, and windowsAbsPath of internal/deployment/winservice.go
unfoldable pub looks_like_windows_abs : Text → Bool
looks_like_windows_abs (a ∷ b ∷ []) = a == b'\\' && b == b'\\'
looks_like_windows_abs (a ∷ b ∷ c ∷ s) =
    (a == b'\\' && b == b'\\') || (is_letter a && (b == b':' && (c == b'\\' || c == b'/')))
looks_like_windows_abs _ = false

abbrev pub backslash : Text
backslash = codes "\\"

unfoldable pub normal_target : Text → Text
normal_target path = trim_right (λ c. c == b'\\') (replace_byte b'/' backslash (trim_space path))

-- The tests of ValidateTargetPath on a normalised root and candidate.
unfoldable pub check_target : Text → Text → Check
check_target root candidate =
    fail_if (text_eq root [] || (text_eq candidate [] || not (looks_like_windows_abs candidate)))
      target_not_absolute
    >> fail_if
        (not (equal_fold candidate root)
          && not (has_prefix (to_lower candidate) (to_lower (root ++ backslash))))
        (target_outside_root candidate root)

unfoldable pub validate_target_path : Text → Text → Check
validate_target_path root candidate = check_target (normal_target root) (normal_target candidate)
