-- ===== src/Deployment/Audit.antt =====
-- internal/deployment/audit.go: credentials in URLs are redacted, and the audited runner. The
-- command runner that is wrapped is a parameter.
pub mod Redaction
use winify.Common.{
  ℕ, zero, suc, ◌+◌, Bool, true, false, ◌&&◌, ◌||◌, Option, none, some, List, [], ◌∷◌, ◌++◌, ◌==◌,
  if◌then◌else◌, length, drop, take, Text, codes, has_prefix, to_lower, Matcher, replace_all,
  Result,
}

-- `\s` of a Go pattern.
abbrev pub is_pattern_space : ℕ → Bool
is_pattern_space c = c == 9 || (c == 10 || (c == 12 || (c == 13 || c == 32)))

-- `[^/\s@]`
abbrev pub is_user_info : ℕ → Bool
is_user_info c =
    if c == b'/'
    then false
    else if c == b'@'
    then false
    else if is_pattern_space c
    then false
    else true

-- The number of bytes of `[^/\s@]*@`, if the text starts so, the bytes before the `@`.
unfoldable pub user_info_at : Text → Option ℕ
user_info_at [] = none
user_info_at (c ∷ s) = elim (user_info_at s) [
  | none ↦ if c == b'@' then some 0 else none
  | some n ↦ if c == b'@' then some 0 else if is_user_info c then some (suc n) else none
]

-- `[^/\s@]+@` behind a scheme, and the length of the whole match with the scheme as its value.
abbrev pub behind_scheme : Text → ℕ → Option ℕ → Option (ℕ × Text)
behind_scheme s n none = none
behind_scheme s n (some zero) = none
behind_scheme s n (some (suc k)) = some (n + (suc k + 1), take n s)

-- `(?i)(https?://)[^/\s@]+@`
unfoldable pub audit_user_info : Matcher Text
unfolding user_info_at
audit_user_info s =
    if has_prefix (to_lower (take 8 s)) (codes "https://")
    then behind_scheme s 8 (user_info_at (drop 8 s))
    else if has_prefix (to_lower (take 7 s)) (codes "http://")
    then behind_scheme s 7 (user_info_at (drop 7 s))
    else none

abbrev pub redacted : Text → Text
redacted scheme = scheme ++ codes "[redacted]@"

unfoldable pub redact_audit_text : Text → Text
redact_audit_text s = replace_all audit_user_info redacted zero s

pub record AuditMeta : Type 0 where
  pub server_id : Text
  pub server_type : Text
  pub action : Text
  pub deployment_id : ℕ

-- What a context carries for the recorder: the metadata, and the label of a sensitive command.
pub record AuditContext : Type 0 where
  pub meta : Option AuditMeta
  pub redaction : Option Text

pub record AuditRecord : Type 0 where
  pub meta : AuditMeta
  pub command : Text
  pub failed : Bool

abbrev pub no_meta : AuditMeta
no_meta = record { server_id = []; server_type = []; action = []; deployment_id = 0 }

unfoldable pub with_audit : AuditContext → AuditMeta → AuditContext
with_audit ctx meta = record ctx { meta = some meta }

unfoldable pub with_audit_redaction : AuditContext → Text → AuditContext
with_audit_redaction ctx label = record ctx { redaction = some label }

abbrev pub meta_or_zero : Option AuditMeta → AuditMeta
meta_or_zero none = no_meta
meta_or_zero (some m) = m

abbrev pub recorded_command : Option Text → Text → Text
recorded_command none command = command
recorded_command (some label) command = label

abbrev pub is_err {ℓ} : {A : Type ℓ} → Result {0, ℓ} Text A → Bool
is_err (Result.ok a) = false
is_err (Result.err e) = true

-- auditedRunner.Run: the command's result is passed on, and one record is written.
unfoldable pub audited_run :
    (AuditContext → Text → Result Text Text)
    → AuditContext
    → Text
    → List AuditRecord
    → Result Text Text × List AuditRecord
audited_run inner ctx command log =
    let out = inner ctx command in
    (
      out,
      record {
        meta = meta_or_zero ctx.meta;
        command = redact_audit_text (recorded_command ctx.redaction command);
        failed = is_err out;
      }
          ∷ log,
    )
