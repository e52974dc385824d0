-- ===== src/Config/Entities/Ports.antt =====
-- Port mappings: the bounds of what is accepted, and the round trip (internal/config/entities.go).
use winify.Common.{
  ℕ, zero, suc, ◌+◌, ◌-◌, ◌*◌, ◌/◌, ◌%◌, ◌≤◌, ◌<◌, ◌≡◌, refl, ◌≢◌, inl, inr, true, false, Option,
  none, some, List, [], ◌∷◌, ◌++◌, arith, ltb, ◌==◌, All, All-append, Text, pos, ok, trim_space,
  is_space, is_digit, Option-cases, Fails, trim_space_of_Fails,
}
use mathlib.Core.List.{concat-ne-nil}
use winify.Config.Entities.{
  Project, parse_digits, atoi, cut, port_number, parse_port_mapping, port_pair, effective_host_port,
}

port_number_bounds : (s : Text) (n : ℕ) → port_number s ≡ some n → (1 ≤ n) × (n ≤ 65535)
unfolding port_number
port_number_bounds s n h = ground arith

port_pair_ok :
    (s : Text) (a b : Option ℕ) (m n : ℕ)
    → port_pair s a b ≡ ok (m, n)
    → (a ≡ some m) × (b ≡ some n)
port_pair_ok s (some a) (some b) m n h = ground arith
port_pair_ok s (some a) none m n h = cc
port_pair_ok s none b m n h = cc

-- Both ports of an accepted mapping lie between 1 and 65535.
pub parse_port_mapping_bounds :
    (s : Text) (host container : ℕ)
    → parse_port_mapping s ≡ ok (host, container)
    → (1 ≤ host) × (host ≤ 65535) × (1 ≤ container) × (container ≤ 65535)
unfolding parse_port_mapping
parse_port_mapping_bounds s host container h = elim (Option-cases (cut b':' (trim_space s))) [
  | inl e ↦
      let both = port_pair_ok s _ _ host container (rw (e, parse_port_mapping) at h) in
      ground
        (arith, port_number_bounds (trim_space s) host, port_number_bounds (trim_space s) container)
  | inr ((a, b), e) ↦
      let both = port_pair_ok s _ _ host container (rw (e, parse_port_mapping) at h) in
      ground (arith, port_number_bounds a host, port_number_bounds b container)
]

-- The decimal digits of a number below 10 to the fuel.
abbrev pub decimal : ℕ → ℕ → Text
decimal zero n = []
decimal (suc f) n =
    let rest = decimal f (n / 10) in
    elim (ltb n 10) [ true ↦ (b'0' + n) ∷ [] | false ↦ rest ++ (b'0' + n % 10) ∷ [] ]

parse_digits-append :
    (s t : Text) (n m : ℕ) → parse_digits n s ≡ some m → parse_digits n (s ++ t) ≡ parse_digits m t
unfolding parse_digits
parse_digits-append [] t n m h = ground arith
parse_digits-append (c ∷ s) t n m h =
    ground (arith, parse_digits-append s t (n * 10 + (c - b'0')) m)

parse_digits-decimal : (f n : ℕ) → n < f → parse_digits 0 (decimal f n) ≡ some n
unfolding parse_digits
parse_digits-decimal zero n h = elim h [ ]
parse_digits-decimal (suc f) n h = ground (
  arith,
  parse_digits-decimal f (n / 10),
  parse_digits-append (decimal f (n / 10)) ((b'0' + n % 10) ∷ []) 0 (n / 10),
)

abbrev IsDigit : ℕ → Type 0
IsDigit c = is_digit c ≡ true

All-decimal : (f n : ℕ) → All IsDigit (decimal f n)
All-decimal zero n = tt
All-decimal (suc f) n =
    ground (
      arith,
      All-append IsDigit (decimal f (n / 10)) ((b'0' + n % 10) ∷ []) (All-decimal f (n / 10)),
    )

IsDigit-not_space : (c : ℕ) → IsDigit c → is_space c ≡ false
IsDigit-not_space c h = ground arith

All-not_space : (s : Text) → All IsDigit s → All (Fails is_space) s
All-not_space [] h = tt
All-not_space (c ∷ s) (p, h) = (IsDigit-not_space c p, All-not_space s h)

atoi_of_digits :
    (s : Text) (n : ℕ)
    → All IsDigit s
    → s ≢ []
    → parse_digits 0 s ≡ some n
    → n ≤ 65535
    → atoi s ≡ some (pos n)
unfolding atoi
atoi_of_digits [] n h k e l = absurd (k refl)
atoi_of_digits (c ∷ s) n h k e l = ground arith

decimal-ne-nil : (f n : ℕ) → decimal (suc f) n ≢ []
decimal-ne-nil f n = grind (arith, concat-ne-nil)

port_number-decimal : (n : ℕ) → 1 ≤ n → n ≤ 65535 → port_number (decimal (suc n) n) ≡ some n
unfolding port_number
port_number-decimal n h k =
    rw
      (
        port_number,
        trim_space_of_Fails (decimal (suc n) n) (All-not_space _ (All-decimal (suc n) n)),
      )
      (rw
        (atoi_of_digits (decimal (suc n) n) n (All-decimal (suc n) n) (decimal-ne-nil n n)
          (parse_digits-decimal (suc n) n (omega arith)) k)
        (ground arith))

cut-none : (sep : ℕ) (s : Text) → All (λ c. (c == sep) ≡ false) s → cut sep s ≡ none
unfolding cut
cut-none sep [] h = refl
cut-none sep (c ∷ s) (p, h) = ground (arith, cut-none sep s h)

cut_first :
    (sep : ℕ) (s t : Text) → All (λ c. (c == sep) ≡ false) s → cut sep (s ++ sep ∷ t) ≡ some (s, t)
unfolding cut
cut_first sep [] t h = grind arith
cut_first sep (c ∷ s) t (p, h) = ground (arith, cut_first sep s t h)

All-not_colon : (s : Text) → All IsDigit s → All (λ c. (c == b':') ≡ false) s
All-not_colon [] h = tt
All-not_colon (c ∷ s) (p, h) = (ground arith, All-not_colon s h)

-- Ports from 1 to 65535, printed in decimal as "host:container", are parsed to themselves, and a
-- single port is parsed as both.
pub parse_port_mapping-decimal :
    (host container : ℕ)
    → 1 ≤ host
    → host ≤ 65535
    → 1 ≤ container
    → container ≤ 65535
    → (parse_port_mapping (decimal (suc host) host ++ b':' ∷ decimal (suc container) container)
        ≡ ok (host, container))
      × (parse_port_mapping (decimal (suc host) host) ≡ ok (host, host))
unfolding parse_port_mapping
parse_port_mapping-decimal host container h k p q =
    let digits_h = All-decimal (suc host) host in
    let digits_c = All-decimal (suc container) container in
    let plain =
      All-append (Fails is_space) (decimal (suc host) host)
        (b':' ∷ decimal (suc container) container) (All-not_space _ digits_h)
        (refl, All-not_space _ digits_c) in
    (
      rw (
        parse_port_mapping,
        trim_space_of_Fails _ plain,
        cut_first b':' _ _ (All-not_colon _ digits_h),
        port_number-decimal host h k,
        port_number-decimal container p q,
      ),
      rw (
        parse_port_mapping,
        trim_space_of_Fails _ (All-not_space _ digits_h),
        cut-none b':' _ (All-not_colon _ digits_h),
        trim_space_of_Fails _ (All-not_space _ digits_h),
        port_number-decimal host h k,
      ),
    )

-- If the first mapping of a project is accepted, the project is reached at its host port.
pub effective_host_port_first :
    (p : Project) (m : Text) (ms : List Text) (host container : ℕ)
    → p.ports_mappings ≡ m ∷ ms
    → parse_port_mapping m ≡ ok (host, container)
    → effective_host_port p ≡ pos host
unfolding effective_host_port
effective_host_port_first p m ms host container e k =
    rw (e, k) (ground (arith, parse_port_mapping_bounds m host container k))
