-- ===== src/Deployment/Shell/Quoting.antt =====
-- How the shells read a quoted text (shellQuote and psQuote of internal/deployment/target.go).
use winify.Common.{
  ℕ, ◌≡◌, refl, Bool, true, false, ◌&&◌, ◌||◌, leb, All, Option, none, some, [], ◌∷◌, ◌++◌, arith,
  ◌==◌, if◌then◌else◌, Text, codes, replace_byte,
}
use winify.Deployment.Shell.{shell_quote, ps_quote}

abbrev pub Read : Type 0
Read = Option (Text × Text)

abbrev prepend : ℕ → Read → Read
prepend c none = none
prepend c (some (w, rest)) = some (c ∷ w, rest)

-- A blank or an operator, at which a word of sh ends.
abbrev ends_word : ℕ → Bool
ends_word c =
    c == b' '
    || (c == b'\n'
        || (c == b'\t'
            || (c == b';'
                || (c == b'&'
                    || (c == b'|' || (c == b'<' || (c == b'>' || (c == b'(' || c == b')'))))))))

-- Bytes that sh expands or gives a meaning outside quotes.
abbrev is_active : ℕ → Bool
is_active c =
    c == b'$'
    || (c == b'`'
        || (c == b'"'
            || (c == b'*'
                || (c == b'?'
                    || (c == b'[' || (c == b'~' || (c == b'#' || (c == b'{' || c == b'!'))))))))

pub data Place : Type 0 where
  bare quoted escaped : Place

-- A word of a POSIX shell that has no expansion in it, and the rest of the line.
unfoldable pub sh_word : Place → Text → Read
sh_word bare [] = some ([], [])
sh_word quoted [] = none
sh_word escaped [] = none
sh_word escaped (c ∷ s) = prepend c (sh_word bare s)
sh_word quoted (c ∷ s) = elim (c == b'\'') [
  | true ↦ sh_word bare s
  | false ↦ prepend c (sh_word quoted s)
]
sh_word bare (c ∷ s) = elim (c == b'\'') [
  | true ↦ sh_word quoted s
  | false ↦ elim (c == b'\\') [
    | true ↦ sh_word escaped s
    | false ↦ elim (ends_word c) [
      | true ↦ some ([], c ∷ s)
      | false ↦ elim (is_active c) [ true ↦ none | false ↦ prepend c (sh_word bare s) ]
    ]
  ]
]

abbrev StartsBlank : Text → Type 0
StartsBlank [] = Unit {0}
StartsBlank (c ∷ s) = ends_word c ≡ true

sh_word-end : (rest : Text) → StartsBlank rest → sh_word bare rest ≡ some ([], rest)
unfolding sh_word
sh_word-end [] h = refl
sh_word-end (c ∷ s) h = ground arith

sh_word-body :
    (s rest : Text)
    → StartsBlank rest
    → sh_word quoted ((replace_byte b'\'' (codes "'\\''") s ++ codes "'") ++ rest) ≡ some (s, rest)
unfolding sh_word replace_byte
sh_word-body [] rest h = sh_word-end rest h
sh_word-body (c ∷ s) rest h = ground (arith, sh_word-body s rest h)

-- A POSIX shell reads a quoted text as one word, which is that text byte for byte, whatever the
-- text holds; what follows it, from a blank or an operator on, is left alone.
pub sh_word-shell_quote :
    (s rest : Text) → StartsBlank rest → sh_word bare (shell_quote s ++ rest) ≡ some (s, rest)
unfolding sh_word shell_quote
sh_word-shell_quote s rest h = sh_word-body s rest h

-- The single quotation marks that PowerShell takes for a quote, beside `'`: U+2018 to U+201B.
-- Here a text is a list of code points.
abbrev is_curly : ℕ → Bool
is_curly c = leb 0x2018 c && leb c 0x201B

abbrev is_quote : ℕ → Bool
is_quote c = c == b'\'' || is_curly c

-- The body of a single-quoted string of PowerShell, in which a quote is doubled.
unfoldable pub ps_body : Text → Read
ps_body [] = none
ps_body (c ∷ []) = if is_quote c then some ([], []) else none
ps_body (c ∷ d ∷ s) = elim (is_quote c) [
  | true ↦ elim (is_quote d) [ true ↦ prepend d (ps_body s) | false ↦ some ([], d ∷ s) ]
  | false ↦ prepend c (ps_body (d ∷ s))
]

unfoldable pub ps_word : Text → Read
unfolding ps_body
ps_word [] = none
ps_word (c ∷ s) = if is_quote c then ps_body s else none

abbrev StartsPlain : Text → Type 0
StartsPlain [] = Unit {0}
StartsPlain (c ∷ s) = is_quote c ≡ false

abbrev IsStraight : ℕ → Type 0
IsStraight c = is_curly c ≡ false

ps_body-end : (rest : Text) → StartsPlain rest → ps_body (b'\'' ∷ rest) ≡ some ([], rest)
unfolding ps_body
ps_body-end [] h = refl
ps_body-end (c ∷ s) h = ground arith

ps_body-plain :
    (c : ℕ) (s w rest : Text)
    → is_quote c ≡ false
    → ps_body s ≡ some (w, rest)
    → ps_body (c ∷ s) ≡ some (c ∷ w, rest)
unfolding ps_body
ps_body-plain c [] w rest e h = ground arith
ps_body-plain c (d ∷ s) w rest e h = ground arith

ps_body_double : (s : Text) → ps_body (b'\'' ∷ b'\'' ∷ s) ≡ prepend b'\'' (ps_body s)
unfolding ps_body
ps_body_double s = refl

ps_body-escaped :
    (s rest : Text)
    → All IsStraight s
    → StartsPlain rest
    → ps_body ((replace_byte b'\'' (codes "''") s ++ codes "'") ++ rest) ≡ some (s, rest)
unfolding replace_byte
ps_body-escaped [] rest a h = ps_body-end rest h
ps_body-escaped (c ∷ s) rest (p, a) h =
    let body = (replace_byte b'\'' (codes "''") s ++ codes "'") ++ rest in
    ground (arith, ps_body-escaped s rest a h, ps_body-plain c body s rest, ps_body_double body)

-- PowerShell reads a quoted text without curly quotation marks as one string, which is that text,
-- if what follows does not start with a quote.
pub ps_word-ps_quote :
    (s rest : Text)
    → All IsStraight s
    → StartsPlain rest
    → ps_word (ps_quote s ++ rest) ≡ some (s, rest)
unfolding ps_word ps_quote
ps_word-ps_quote s rest a h = ps_body-escaped s rest a h

abbrev IsPlain : ℕ → Type 0
IsPlain c = is_quote c ≡ false
