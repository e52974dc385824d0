-- ===== src/Deployment/Shell.antt =====
-- internal/deployment/target.go, runner.go and gitcred.go: commands on a target host. A pipeline
-- is an action on a `Session`: the state of the host, the lines of the deployment's log and the
-- commands that were sent, both newest first.
pub mod Quoting
pub mod GitAuth
pub mod Keeps
pub mod Runs
pub mod Sends
pub mod Yields
use winify.Common.{
  ℕ, zero, suc, Bool, true, false, Option, none, some, List, [], ◌∷◌, ◌++◌, reverse, ◌-◌, ltb, leb,
  ◌==◌, if◌then◌else◌, length, take, drop, Text, codes, text_eq, trim_prefix, trim_space, contains,
  replace_byte, split, Result, ok, err, ℤ,
}
use winify.Config.Entities.{Project}
use winify.Config.Rules.{ConfigError}
use winify.Deployment.Audit.{redact_audit_text}

-- What Runner.Run returns: the output, and the error if there is one.
pub record Exit : Type 0 where
  pub out : Text
  pub error : Option Text

-- A command with the label that its context carries for the audit log.
pub record Sent : Type 0 where
  pub command : Text
  pub redaction : Option Text

pub record Session (S : Type 0) : Type 0 where
  pub host : S
  pub log : List Text
  pub sent : List Sent

abbrev pub fresh : {S : Type 0} → S → Session S
fresh start = record { host = start; log = []; sent = [] }

-- The errors of a pipeline. `refused` and `credential` hold the message; `failed` holds the
-- stage, the command's error and its output.
pub data StepError : Type 0 where
  invalid_id : ConfigError → StepError
  refused : Text → StepError
  credential : Text → Text → StepError
  failed : Text → Text → Text → StepError
  unhealthy : Text → Text → ℤ → StepError

-- What a pipeline is given: the runner, the credential store if there is one, base64 and the
-- texts of errors.
pub record Host (S : Type 0) : Type 0 where
  pub run : Text → S → S × Exit
  pub secrets : Option (Text → Result Text Text)
  pub base64 : Text → Text
  pub describe : StepError → Text

abbrev pub Act : Type 0 → Type 0 → Type 0
Act S A = Session S → Session S × Result StepError A

module _ {S : Type 0} where
  abbrev pub and_then :
      {A B : Type 0}
      → Session S × Result StepError A
      → (A → Act S B)
      → Session S × Result StepError B
  and_then (s, ok a) k = k a s
  and_then (s, err e) k = (s, err e)

  infixl 5 ◌>>=◌ ◌>>◌
  abbrev pub ◌>>=◌ : {A B : Type 0} → Act S A → (A → Act S B) → Act S B
  m >>= k = λ s. and_then (m s) k

  abbrev pub ◌>>◌ : {A B : Type 0} → Act S A → Act S B → Act S B
  m >> n = m >>= λ _. n

  abbrev pub pure : {A : Type 0} → A → Act S A
  pure a s = (s, ok a)

  abbrev pub raise : {A : Type 0} → StepError → Act S A
  raise e s = (s, err e)

  abbrev pub recover :
      {A : Type 0}
      → Act S (Unit {0})
      → Session S × Result StepError A
      → Session S × Result StepError A
  recover handler (s, ok a) = (s, ok a)
  recover handler (s, err e) = ((handler s).0, err e)

  -- `if err := m(); err != nil { handler(); return err }`
  abbrev pub on_error : {A : Type 0} → Act S A → Act S (Unit {0}) → Act S A
  on_error m handler s = recover handler (m s)

  unfoldable pub say : Text → Act S (Unit {0})
  say line s = (record s { log = line ∷ s.log }, ok tt)

-- 2 MiB
abbrev pub max_command_output : ℕ
max_command_output = 2097152

unfoldable pub cap_command_output : Text → Text
cap_command_output value =
    if leb (length value) max_command_output
    then value
    else take 1048576 value
      ++ (codes "\n...[command output truncated]...\n" ++ drop (length value - 1048576) value)

-- The lines that execCmd logs for an output.
abbrev pub output_lines : Option Text → Text → List Text
output_lines (some label) out = if text_eq (trim_space out) [] then [] else label ∷ []
output_lines none out =
    if text_eq (trim_space out) []
    then []
    else redact_audit_text (cap_command_output (trim_space out)) ∷ []

module _ {S : Type 0} (h : Host S) where
  abbrev pub after_run :
      Option Text → Text → Text → Session S → S × Exit → Session S × Result StepError Exit
  after_run redaction cmd log_cmd s (t, exit) = (
    record {
      host = t;
      log = output_lines redaction exit.out ++ ((codes "$ " ++ log_cmd) ∷ s.log);
      sent = record { command = cmd; redaction = redaction } ∷ s.sent;
    },
    ok exit,
  )

  -- execCmd, with the label of a context marked by withAuditRedaction.
  unfoldable pub exec_cmd : Option Text → Text → Text → Act S Exit
  exec_cmd redaction cmd log_cmd s = after_run redaction cmd log_cmd s (h.run cmd s.host)

  -- `if err != nil { return fmt.Errorf("<stage>: %w\n%s", err, out) }`
  abbrev pub checked : Text → Exit → Act S Text
  checked stage exit = elim exit.error [
    | none ↦ pure exit.out
    | some e ↦ raise (failed stage e exit.out)
  ]

  -- A command that must succeed.
  unfoldable pub must : Text → Option Text → Text → Text → Act S Text
  unfolding exec_cmd
  must stage redaction cmd log_cmd = exec_cmd redaction cmd log_cmd >>= checked stage

  abbrev pub from_vault : Text → Result Text Text → Act S Text
  from_vault prefix (ok value) = pure value
  from_vault prefix (err e) = raise (credential prefix e)

  abbrev pub no_reference : Text
  no_reference = codes "no credential reference configured"

  -- ResolveRef
  unfoldable pub resolve_ref : (Text → Result Text Text) → Text → Result Text Text
  resolve_ref get ref =
      if text_eq (trim_prefix ref (codes "vault:")) []
      then err no_reference
      else get (trim_prefix ref (codes "vault:"))

-- The lines of a text from the last to the first, trimmed.
abbrev pub first_full : List Text → Text
first_full [] = []
first_full (l ∷ ls) = if text_eq (trim_space l) [] then first_full ls else trim_space l

unfoldable pub last_line : Text → Text
last_line out = first_full (reverse (split b'\n' (trim_space out)))

unfoldable pub shell_quote : Text → Text
shell_quote s = b'\'' ∷ (replace_byte b'\'' (codes "'\\''") s ++ codes "'")

unfoldable pub ps_quote : Text → Text
ps_quote s = b'\'' ∷ (replace_byte b'\'' (codes "''") s ++ codes "'")
