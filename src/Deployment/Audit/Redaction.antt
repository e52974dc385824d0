-- ===== src/Deployment/Audit/Redaction.antt =====
-- What the audit log keeps of a command (internal/deployment/audit.go).
use winify.Common.{◌≡◌, refl, false, List, Text, match_string, replace_all_of_no_match, Result}
use winify.Deployment.Audit.{
  audit_user_info, redacted, redact_audit_text, AuditContext, AuditRecord, audited_run,
  with_audit_redaction,
}

-- A text with no credential in a URL is kept as it is.
pub redact_audit_text_of_no_match :
    (s : Text) → match_string audit_user_info s ≡ false → redact_audit_text s ≡ s
unfolding redact_audit_text
redact_audit_text_of_no_match s h = replace_all_of_no_match audit_user_info redacted s h

-- Under a redaction label nothing of the command reaches the audit log: two commands with the
-- same outcome leave the same log. The inner runner's result is passed on unchanged.
pub audited_run_hides :
    (inner : AuditContext → Text → Result Text Text) (ctx : AuditContext) (label c d : Text)
    (log : List AuditRecord)
    → inner (with_audit_redaction ctx label) c ≡ inner (with_audit_redaction ctx label) d
    → ((audited_run inner (with_audit_redaction ctx label) c log).1
        ≡ (audited_run inner (with_audit_redaction ctx label) d log).1)
      × ((audited_run inner (with_audit_redaction ctx label) c log).0
          ≡ inner (with_audit_redaction ctx label) c)
unfolding audited_run with_audit_redaction
audited_run_hides inner ctx label c d log h = (rw h, refl)
