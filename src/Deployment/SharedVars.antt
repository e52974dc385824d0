-- ===== src/Deployment/SharedVars.antt =====
-- internal/deployment/sharedvars.go: `{{project.KEY}}` and `{{environment.KEY}}` references.
use winify.Common.{
  ℕ, zero, ◌-◌, ◌≡◌, refl, ◌≢◌, Bool, true, false, ◌&&◌, ◌||◌, Option, none, some, List, [], ◌∷◌,
  arith, ◌==◌, if◌then◌else◌, length, All, Text, text_eq, is_letter, is_digit, Matcher,
  match_string, find_all, replace_all, replace_all_of_no_match, find_all_of_no_match, Result, ok,
  err, ◌>>=◌, >>=-eq-ok,
}
use winify.Config.Entities.{EnvMap}
use winify.Deployment.Audit.{is_pattern_space}

-- `[a-zA-Z0-9_.-]`
abbrev pub is_ref_char : ℕ → Bool
is_ref_char c = is_letter c || (is_digit c || (c == b'_' || (c == b'.' || c == b'-')))

abbrev pub drop_spaces : Text → Text
drop_spaces [] = []
drop_spaces (c ∷ s) =
    let rest = drop_spaces s in elim (is_pattern_space c) [ true ↦ rest | false ↦ c ∷ s ]

-- The longest run of name characters at the head, and what stands behind it.
abbrev pub span_name : Text → Text × Text
span_name [] = ([], [])
span_name (c ∷ s) =
    let rest = span_name s in
    elim (is_ref_char c) [ true ↦ (c ∷ rest.0, rest.1) | false ↦ ([], c ∷ s) ]

-- `\s*\}\}` behind a name, in a match that began at `whole`.
abbrev pub closing : Text → Text → Text → Option (ℕ × Text)
closing whole name (b ∷ c ∷ rest) =
    if b == b'}' && c == b'}' then some (length whole - length rest, name) else none
closing whole name _ = none

abbrev pub named : Text → Text × Text → Option (ℕ × Text)
named whole ([], rest) = none
named whole (c ∷ name, rest) = closing whole (c ∷ name) (drop_spaces rest)

-- `\{\{\s*([a-zA-Z0-9_.-]+)\s*\}\}`, with the reference's name.
unfoldable pub shared_var_ref : Matcher Text
shared_var_ref (a ∷ b ∷ s) =
    if a == b'{' && b == b'{' then named (a ∷ b ∷ s) (span_name (drop_spaces s)) else none
shared_var_ref _ = none

unfoldable pub has_shared_refs : EnvMap → Bool
has_shared_refs [] = false
has_shared_refs ((k, v) ∷ m) = match_string shared_var_ref v || has_shared_refs m

unfoldable pub lookup_var : Text → EnvMap → Option Text
lookup_var name [] = none
lookup_var name ((k, v) ∷ m) = if text_eq k name then some v else lookup_var name m

pub data RefError : Type 0 where
  unknown_shared_variable : Text → RefError
  in_env : Text → RefError → RefError

-- `refErr` after the last match: the last unknown name.
unfoldable pub last_unknown : EnvMap → List Text → Option Text
last_unknown vars [] = none
last_unknown vars (name ∷ names) = elim (last_unknown vars names) [
  | some bad ↦ some bad
  | none ↦ elim (lookup_var name vars) [ none ↦ some name | some v ↦ none ]
]

abbrev pub value_of : EnvMap → Text → Text
value_of vars name = elim (lookup_var name vars) [ none ↦ [] | some v ↦ v ]

-- A match of an unknown name stays as it is in the source, but then the result is dropped.
unfoldable pub expand_value : Text → EnvMap → Result RefError Text
expand_value v vars = elim (last_unknown vars (find_all shared_var_ref zero v)) [
  | some name ↦ err (unknown_shared_variable name)
  | none ↦ ok (replace_all shared_var_ref (value_of vars) zero v)
]

abbrev pub in_env_error : Text → Result RefError Text → Result RefError Text
in_env_error k (ok v) = ok v
in_env_error k (err e) = err (in_env k e)

unfoldable pub expand_shared_vars : EnvMap → EnvMap → Result RefError EnvMap
expand_shared_vars [] vars = ok []
expand_shared_vars ((k, v) ∷ m) vars = in_env_error k (expand_value v vars) >>= λ expanded.
    expand_shared_vars m vars >>= λ rest. ok ((k, expanded) ∷ rest)

abbrev pub keys : EnvMap → List Text
keys [] = []
keys ((k, v) ∷ m) = k ∷ keys m

-- Every name of a list is defined.
abbrev pub AllKnown : EnvMap → List Text → Type 0
AllKnown vars names = All (λ name. lookup_var name vars ≢ none) names

-- Expansion keeps the keys and their order, and without a reference it changes nothing.
pub expand_shared_vars-keys :
    (m vars out : EnvMap) → expand_shared_vars m vars ≡ ok out → keys out ≡ keys m
unfolding expand_shared_vars
expand_shared_vars-keys [] vars out h = ground arith
expand_shared_vars-keys ((k, v) ∷ m) vars out h =
    let (expanded, first, more) = >>=-eq-ok (in_env_error k (expand_value v vars)) _ h in
    let (rest, later, last) = >>=-eq-ok (expand_shared_vars m vars) _ more in
    ground (arith, expand_shared_vars-keys m vars rest later)

pub expand_shared_vars_of_no_ref :
    (m vars : EnvMap) → has_shared_refs m ≡ false → expand_shared_vars m vars ≡ ok m
unfolding expand_shared_vars has_shared_refs expand_value last_unknown
expand_shared_vars_of_no_ref [] vars h = refl
expand_shared_vars_of_no_ref ((k, v) ∷ m) vars h = ground (
  arith,
  find_all_of_no_match shared_var_ref v,
  replace_all_of_no_match shared_var_ref (value_of vars) v,
  expand_shared_vars_of_no_ref m vars,
)
