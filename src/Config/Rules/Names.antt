-- ===== src/Config/Rules/Names.antt =====
-- What an accepted id and an accepted domain look like (internal/config/entities.go).
use winify.Common.{
  ℕ, ◌≤◌, ◌≡◌, ◌≢◌, inl, inr, Bool, true, false, ◌||◌, List, [], ◌∷◌, arith, ltb, leb, length, all,
  All, Text, codes, text_eq, text_eq_iff, Bool-cases, contains, has_suffix, trim_space, ok, fail_if,
  check_all, ok_of_fail_if, ok_of_>>, true_of_and,
}
use winify.Config.Rules.{
  is_alnum, is_id_char, resource_id_pattern, validate_resource_id, is_label_char, label_rest,
  domain_label_pattern, check_label, domain_labels, check_domain, validate_domain,
}

all→All : (p : ℕ → Bool) (s : Text) → all p s ≡ true → All (λ c. p c ≡ true) s
all→All p [] h = tt
all→All p (c ∷ s) h = let both = true_of_and (p c) (all p s) h in (both.0, all→All p s both.1)

IsAlnum-IsIdChar : (c : ℕ) → is_alnum c ≡ true → is_id_char c ≡ true
IsAlnum-IsIdChar c h = ground arith

resource_id_pattern_sound :
    (id : Text)
    → resource_id_pattern id ≡ true
    → (1 ≤ length id) × (length id ≤ 128) × All (λ c. is_id_char c ≡ true) id
unfolding resource_id_pattern
resource_id_pattern_sound [] h = cc
resource_id_pattern_sound (c ∷ s) h =
    let first = true_of_and (is_alnum c) _ h in
    let second = true_of_and (leb (length s) 127) _ first.1 in
    (omega arith, ground arith, (IsAlnum-IsIdChar c first.0, all→All is_id_char s second.1))

-- An accepted id has 1 to 128 characters, each a letter, a digit, '.', '_' or '-': no separator
-- and no drive colon. It holds no "..", and is not ".".
pub validate_resource_id_sound :
    (kind id : Text)
    → validate_resource_id kind id ≡ ok tt
    → (1 ≤ length id)
      × (length id ≤ 128)
      × All (λ c. is_id_char c ≡ true) id
      × (contains id (codes "..") ≡ false)
      × (has_suffix id (codes ".") ≡ false)
unfolding validate_resource_id
validate_resource_id_sound kind id h =
    let passed = ok_of_fail_if _ _ tt h in let sound = resource_id_pattern_sound id in ground arith

label_rest_sound : (s : Text) → label_rest s ≡ true → All (λ c. is_label_char c ≡ true) s
label_rest_sound [] h = tt
label_rest_sound (c ∷ []) h = (ground arith, tt)
label_rest_sound (c ∷ d ∷ s) h =
    let both = true_of_and (is_label_char c) _ h in (both.0, label_rest_sound (d ∷ s) both.1)

-- The shape of a DNS label.
pub record IsLabel (label : Text) : Type 0 where
  pub nonempty : 1 ≤ length label
  pub short : length label ≤ 63
  pub chars : All (λ c. is_label_char c ≡ true) label

domain_label_pattern_sound : (s : Text) → domain_label_pattern s ≡ true → IsLabel s
unfolding domain_label_pattern
domain_label_pattern_sound [] h = cc
domain_label_pattern_sound (c ∷ s) h =
    let first = true_of_and (is_alnum c) _ h in
    let second = true_of_and (leb (length s) 62) _ first.1 in
    record {
      nonempty = omega arith;
      short = ground arith;
      chars = (ground arith, label_rest_sound s second.1);
    }

check_labels_sound : (ls : List Text) → check_all check_label ls ≡ ok tt → All IsLabel ls
unfolding check_label
check_labels_sound [] h = tt
check_labels_sound (l ∷ ls) h =
    let (here, later) = ok_of_>> (check_label l) (check_all check_label ls) h in
    (domain_label_pattern_sound l (ground arith), check_labels_sound ls later)

check_domain_sound :
    (d : Text)
    → check_domain d ≡ ok tt
    → (length d ≤ 253) × (2 ≤ length (domain_labels d)) × All IsLabel (domain_labels d)
unfolding check_domain
check_domain_sound d h =
    let (first, more) = ok_of_>> (fail_if (ltb 253 (length d) || _) _) _ h in
    let (second, rest) =
      ok_of_>> (fail_if (ltb (length (domain_labels d)) 2) _) (check_all check_label _) more in
    let size = ok_of_fail_if _ _ tt first in
    let count = ok_of_fail_if _ _ tt second in
    (ground arith, ground arith, check_labels_sound (domain_labels d) rest)

-- An accepted domain is empty, or has at most 253 bytes and at least two labels, each of 1 to 63
-- letters, digits and hyphens: so it holds no slash, colon, '@', space or line break.
pub validate_domain_sound :
    (domain : Text)
    → validate_domain domain ≡ ok tt
    → trim_space domain ≢ []
    → (length (trim_space domain) ≤ 253)
      × (2 ≤ length (domain_labels (trim_space domain)))
      × All IsLabel (domain_labels (trim_space domain))
unfolding validate_domain
validate_domain_sound domain h ne = elim (Bool-cases (text_eq (trim_space domain) [])) [
  | inl e ↦ absurd (ne ((text_eq_iff _ _).0 e))
  | inr e ↦ check_domain_sound (trim_space domain) (rw e at h)
]
