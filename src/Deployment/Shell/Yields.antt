-- ===== src/Deployment/Shell/Yields.antt =====
-- What holds when a pipeline returns a value: one rule for each way to build an action
-- (internal/deployment/target.go).
use winify.Common.{◌≡◌, refl, Bool, true, false, if◌then◌else◌, Result, ok, err}
use winify.Deployment.Shell.Keeps.{Keeps}
use winify.Deployment.Shell.{StepError, Session, Act, and_then, ◌>>=◌, raise}

-- If `m` returns, it does so in a session that meets `R`.
pub record Yields {S A : Type 0} (R : Session S → Type 0) (m : Act S A) : Type 0 where
  pub at : (s : Session S) (a : A) → (m s).1 ≡ ok a → R (m s).0

abbrev pub error_result : {A : Type 0} → StepError → Result StepError A
error_result e = err e

module _ {S A : Type 0} {R : Session S → Type 0} where
  pub Yields-raise : (e : StepError) → Yields R (raise {S = S} {A = A} e)
  Yields-raise e = record { at = λ s a h. cc }

  pub Yields-if :
      (b : Bool) (m n : Act S A)
      → (b ≡ true → Yields R m)
      → (b ≡ false → Yields R n)
      → Yields R (if b then m else n)
  Yields-if true m n km kn = km refl
  Yields-if false m n km kn = kn refl

  -- The last part establishes it.
  pub Yields-last :
      {B : Type 0} (m : Act S A) (f : A → Act S B) → ((a : A) → Yields R (f a)) → Yields R (m >>= f)
  Yields-last {B = B} m f kf = record { at = λ s b h. let (t, r) = m s in go t r b h }
    where
      go :
          (t : Session S) (r : Result StepError A) (b : B)
          → (and_then (t, r) f).1 ≡ ok b
          → R (and_then (t, r) f).0
      go t (ok a) b h = (kf a).at t b h
      go t (err e) b h = cc

  -- The first part establishes it, and the rest keeps it.
  pub Yields-first :
      {B : Type 0} (m : Act S A) (f : A → Act S B)
      → Yields R m
      → ((a : A) → Keeps R (f a))
      → Yields R (m >>= f)
  Yields-first {B = B} m f km kf = record { at = λ s b h. let (t, r) = m s in go t r b (km.at s) h }
    where
      go :
          (t : Session S) (r : Result StepError A) (b : B)
          → ((a : A) → r ≡ ok a → R t)
          → (and_then (t, r) f).1 ≡ ok b
          → R (and_then (t, r) f).0
      go t (ok a) b k h = (kf a).at t (k a refl)
      go t (err e) b k h = cc
