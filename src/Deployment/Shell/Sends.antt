-- ===== src/Deployment/Shell/Sends.antt =====
-- What a pipeline sends to its host (internal/deployment/target.go).
use winify.Common.{Option, All, Text}
use winify.Deployment.Shell.Keeps.{Keeps, Keeps-must}
use winify.Deployment.Shell.{Host, Sent, Act, say, exec_cmd, must}

-- Every command that `m` sends meets `Q`, whether it returns or fails.
abbrev pub Sends : {S A : Type 0} → (Sent → Type 0) → Act S A → Type 0
Sends Q m = Keeps (λ s. All Q s.sent) m

module _ {S : Type 0} {Q : Sent → Type 0} where
  pub Sends-say : (line : Text) → Sends Q (say {S = S} line)
  unfolding say
  Sends-say line = record { at = λ s q. q }

  module _ (h : Host S) where
    pub Sends-exec_cmd :
        (redaction : Option Text) (cmd log_cmd : Text)
        → Q (record { command = cmd; redaction = redaction })
        → Sends Q (exec_cmd h redaction cmd log_cmd)
    unfolding exec_cmd
    Sends-exec_cmd redaction cmd log_cmd k = record { at = λ s q. (k, q) }

    pub Sends-must :
        (stage : Text) (redaction : Option Text) (cmd log_cmd : Text)
        → Q (record { command = cmd; redaction = redaction })
        → Sends Q (must h stage redaction cmd log_cmd)
    Sends-must stage redaction cmd log_cmd k =
        Keeps-must h stage redaction cmd log_cmd (Sends-exec_cmd redaction cmd log_cmd k)
