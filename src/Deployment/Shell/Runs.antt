-- ===== src/Deployment/Shell/Runs.antt =====
-- How a command that must succeed ends (execCmd of internal/deployment/target.go).
use winify.Common.{
  ◌≡◌, refl, ap, ◌⊎◌, inl, inr, Option, none, some, Text, Result, ok, err, Option-cases,
}
use winify.Deployment.Shell.{Host, StepError, failed, Exit, Session, exec_cmd, checked, must}

module _ {S : Type 0} (h : Host S) where
  checked-none :
      (stage : Text) (exit : Exit) (t : Session S)
      → exit.error ≡ none
      → checked h stage exit t ≡ (t, ok exit.out)
  checked-none stage exit t e = rw e refl

  checked-some :
      (stage : Text) (exit : Exit) (t : Session S) (cause : Text)
      → exit.error ≡ some cause
      → checked h stage exit t ≡ (t, err (failed stage cause exit.out))
  checked-some stage exit t cause e = rw e refl

  abbrev pub Succeeds : Text → Option Text → Text → Text → Session S → Type 0
  Succeeds stage redaction cmd log_cmd s =
      ((h.run cmd s.host).1.error ≡ none)
      × ((must h stage redaction cmd log_cmd s).0.host ≡ (h.run cmd s.host).0)
      × ((must h stage redaction cmd log_cmd s).1 ≡ ok (h.run cmd s.host).1.out)

  abbrev pub Breaks : Text → Option Text → Text → Text → Session S → Type 0
  Breaks stage redaction cmd log_cmd s =
      (cause : Text) × ((h.run cmd s.host).1.error ≡ some cause)
      × ((must h stage redaction cmd log_cmd s).1
          ≡ err (failed stage cause (h.run cmd s.host).1.out))

  pub must_ends :
      (stage : Text) (redaction : Option Text) (cmd log_cmd : Text) (s : Session S)
      → Succeeds stage redaction cmd log_cmd s ⊎ Breaks stage redaction cmd log_cmd s
  unfolding must exec_cmd
  must_ends stage redaction cmd log_cmd s =
      let t = (exec_cmd h redaction cmd log_cmd s).0 in
      let exit = (h.run cmd s.host).1 in
      elim (Option-cases exit.error) [
        | inl e ↦ inl (
          e,
          ap (λ (p : Session S × Result StepError Text). p.0.host) (checked-none stage exit t e),
          ap (λ (p : Session S × Result StepError Text). p.1) (checked-none stage exit t e),
        )
        | inr (cause, e) ↦ inr (
          cause,
          e,
          ap (λ (p : Session S × Result StepError Text). p.1) (checked-some stage exit t cause e),
        )
      ]
