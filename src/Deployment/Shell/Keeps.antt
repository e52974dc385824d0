-- ===== src/Deployment/Shell/Keeps.antt =====
-- Invariants of pipelines: one rule for each way to build an action
-- (internal/deployment/target.go).
use winify.Common.{
  ◌≡◌, refl, Bool, true, false, Option, if◌then◌else◌, Text, Result, ok, err, Option-cases, inl,
  inr,
}
use winify.Deployment.Shell.{
  Host, StepError, Exit, Session, Act, and_then, ◌>>=◌, pure, raise, recover, on_error, exec_cmd,
  checked, must, from_vault,
}

-- `m` keeps `I`, whether it returns or fails.
pub record Keeps {S A : Type 0} (I : Session S → Type 0) (m : Act S A) : Type 0 where
  pub at : (s : Session S) → I s → I (m s).0

module _ {S A : Type 0} {I : Session S → Type 0} where
  pub Keeps-pure : (a : A) → Keeps I (pure {S = S} a)
  Keeps-pure a = record { at = λ s q. q }

  pub Keeps-raise : (e : StepError) → Keeps I (raise {S = S} {A = A} e)
  Keeps-raise e = record { at = λ s q. q }

  pub Keeps-if :
      (b : Bool) (m n : Act S A)
      → (b ≡ true → Keeps I m)
      → (b ≡ false → Keeps I n)
      → Keeps I (if b then m else n)
  Keeps-if true m n km kn = km refl
  Keeps-if false m n km kn = kn refl

  pub Keeps-bind :
      {B : Type 0} (m : Act S A) (f : A → Act S B)
      → Keeps I m
      → ((a : A) → Keeps I (f a))
      → Keeps I (m >>= f)
  Keeps-bind m f km kf = record { at = λ s q. let (t, r) = m s in go t r (km.at s q) }
    where
      go : (t : Session S) (r : Result StepError A) → I t → I (and_then (t, r) f).0
      go t (ok a) q = (kf a).at t q
      go t (err e) q = q

  pub Keeps-on_error :
      (m : Act S A) (handler : Act S (Unit {0}))
      → Keeps I m
      → Keeps I handler
      → Keeps I (on_error m handler)
  Keeps-on_error m handler km kh = record { at = λ s q. let (t, r) = m s in go t r (km.at s q) }
    where
      go : (t : Session S) (r : Result StepError A) → I t → I (recover handler (t, r)).0
      go t (ok a) q = q
      go t (err e) q = kh.at t q

module _ {S : Type 0} {I : Session S → Type 0} (h : Host S) where
  pub Keeps-checked : (stage : Text) (exit : Exit) → Keeps I (checked h stage exit)
  Keeps-checked stage exit = elim (Option-cases exit.error) [
    | inl e ↦ rw e (Keeps-pure exit.out)
    | inr (t, e) ↦ rw e (Keeps-raise _)
  ]

  pub Keeps-from_vault : (prefix : Text) (r : Result Text Text) → Keeps I (from_vault h prefix r)
  Keeps-from_vault prefix (ok v) = Keeps-pure v
  Keeps-from_vault prefix (err e) = Keeps-raise _

  pub Keeps-must :
      (stage : Text) (redaction : Option Text) (cmd log_cmd : Text)
      → Keeps I (exec_cmd h redaction cmd log_cmd)
      → Keeps I (must h stage redaction cmd log_cmd)
  unfolding must
  Keeps-must stage redaction cmd log_cmd k =
      Keeps-bind (exec_cmd h redaction cmd log_cmd) (checked h stage) k (Keeps-checked stage)
