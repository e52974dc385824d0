-- ===== src/Deployment/Revision.antt =====
-- Git revisions: internal/deployment/target.go, docker.go, deployer.go and webhook.go.
use winify.Common.{
  ℕ, ◌≤◌, ◌≡◌, ◌⊎◌, Bool, true, false, ◌&&◌, ◌||◌, Option, none, some, [], ◌∷◌, ◌++◌, arith, ltb,
  leb, ◌==◌, if◌then◌else◌, length, length-take, take, all, Text, codes, is_digit, trim_prefix,
}
use winify.Config.Entities.{Project}

abbrev pub is_hex : ℕ → Bool
is_hex c = is_digit c || ((leb b'a' c && leb c b'f') || (leb b'A' c && leb c b'F'))

unfoldable pub is_hex_revision : Text → Bool
is_hex_revision rev = if ltb (length rev) 7 || ltb 64 (length rev) then false else all is_hex rev

-- `origin/<branch>` for a branch, and a full or short SHA as it is.
unfoldable pub git_checkout_ref : Text → Text
git_checkout_ref rev = if is_hex_revision rev then rev else codes "origin/" ++ rev

unfoldable pub short_sha : Text → Text
short_sha [] = codes "unknown"
short_sha (c ∷ s) = if ltb 7 (length (c ∷ s)) then take 7 (c ∷ s) else c ∷ s

-- The first text that is not empty.
abbrev pub or_else : Text → Text → Text
or_else [] t = t
or_else (c ∷ s) t = c ∷ s

unfoldable pub deploy_revision : Project → Text → Text
deploy_revision project commit = or_else commit (or_else project.branch (codes "main"))

unfoldable pub branch_of : Text → Text
branch_of ref = trim_prefix ref (codes "refs/heads/")

-- `s[strings.LastIndex(s, sep)+1:]`, if `sep` occurs.
unfoldable pub behind_last : ℕ → Text → Option Text
behind_last sep [] = none
behind_last sep (c ∷ s) = elim (behind_last sep s) [
  | none ↦ if c == sep then some s else none
  | some t ↦ some t
]

abbrev pub hex_or_empty : Option Text → Text
hex_or_empty none = []
hex_or_empty (some rev) = if is_hex_revision rev then rev else []

-- eventCommit, by the commit and the artifact of a job.
unfoldable pub event_commit : Text → Text → Text
event_commit commit artifact =
    if is_hex_revision commit
    then commit
    else if is_hex_revision artifact
    then artifact
    else hex_or_empty (behind_last b':' artifact)

-- A commit reported to the outside is empty or a hexadecimal revision of 7 to 64 digits; the
-- job's own commit is reported whenever it is one.
pub event_commit_is_hex :
    (commit artifact : Text)
    → ((event_commit commit artifact ≡ [])
        ⊎ (is_hex_revision (event_commit commit artifact) ≡ true))
      × (is_hex_revision commit ≡ true → event_commit commit artifact ≡ commit)
unfolding event_commit
event_commit_is_hex commit artifact = (ground arith, ground arith)

-- A short SHA has at most seven bytes.
pub short_sha-length : (sha : Text) → length (short_sha sha) ≤ 7
unfolding short_sha
short_sha-length [] = omega arith
short_sha-length (c ∷ s) = ground (arith, length-take 7 (c ∷ s))
