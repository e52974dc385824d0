-- ===== src/Auth/Throttle.antt =====
-- The backoff on failed logins: LoginRetryAfter, RecordLoginFailure and ClearLoginFailures of
-- internal/auth/auth.go. Times are in nanoseconds, and the zero time is 0.
use winify.Common.{
  ℕ, suc, ◌+◌, ◌-◌, ◌≤◌, ◌<◌, ◌≡◌, ◌≢◌, refl, ap, ◌∙◌, ◌||◌, Option, none, some, List, [], ◌∷◌,
  arith, ◌==◌, if◌then◌else◌, ltb, leb, length, All, Text, text_eq, text_eq_refl, text_eq_iff,
}

pub record LoginAttempt : Type 0 where
  pub count : ℕ
  pub first : ℕ
  pub locked_until : ℕ

-- The map from a login's key to its attempts.
abbrev pub Failures : Type 0
Failures = Text → Option LoginAttempt

-- Fifteen minutes, and five.
abbrev pub window : ℕ
window = 900000000000

abbrev pub lock : ℕ
lock = 300000000000

abbrev pub update : Text → Option LoginAttempt → Failures → Failures
update key a fs k = if text_eq key k then a else fs k

abbrev pub zero_attempt : LoginAttempt
zero_attempt = record { count = 0; first = 0; locked_until = 0 }

abbrev pub attempt_of : Option LoginAttempt → LoginAttempt
attempt_of none = zero_attempt
attempt_of (some a) = a

abbrev pub retry_of : ℕ → Text → Failures → Option LoginAttempt → Failures × ℕ
retry_of now key fs none = (fs, 0)
retry_of now key fs (some a) =
    if ltb now a.locked_until
    then (fs, a.locked_until - now)
    else if ltb (a.first + window) now
    then (update key none fs, 0)
    else (fs, 0)

unfoldable pub login_retry_after : ℕ → Text → Failures → Failures × ℕ
login_retry_after now key fs = retry_of now key fs (fs key)

abbrev pub counted : ℕ → LoginAttempt → LoginAttempt
counted now a = record {
  count = suc a.count;
  first = a.first;
  locked_until = if leb 5 (suc a.count) then now + lock else a.locked_until;
}

abbrev pub failed_again : ℕ → LoginAttempt → LoginAttempt
failed_again now a =
    if a.first == 0 || ltb (a.first + window) now
    then counted now (record { count = 0; first = now; locked_until = 0 })
    else counted now a

unfoldable pub record_login_failure : ℕ → Text → Failures → Failures
record_login_failure now key fs = update key (some (failed_again now (attempt_of (fs key)))) fs

unfoldable pub clear_login_failures : Text → Failures → Failures
clear_login_failures key fs = update key none fs

-- Failures of one key, one after another.
abbrev pub record_all : List ℕ → Text → Failures → Failures
record_all [] key fs = fs
record_all (t ∷ ts) key fs = record_all ts key (record_login_failure t key fs)

abbrev last : ℕ → List ℕ → ℕ
last t [] = t
last t (u ∷ us) = last u us

-- The attempts of a key after failures within the window of the first.
abbrev grown : ℕ → ℕ → ℕ → LoginAttempt
grown first n latest = record {
  count = n;
  first = first;
  locked_until = if leb 5 n then latest + lock else 0;
}

failed_again-grown :
    (first n latest t : ℕ)
    → 0 < first
    → t ≤ first + window
    → failed_again t (grown first n latest) ≡ grown first (suc n) t
failed_again-grown first n latest t pos h = ground arith

recorded :
    (t : ℕ) (key : Text) (fs : Failures)
    → record_login_failure t key fs key ≡ some (failed_again t (attempt_of (fs key)))
unfolding record_login_failure
recorded t key fs = rw (text_eq_refl key) refl

record_all-grown :
    (first n latest : ℕ) (ts : List ℕ) (key : Text) (fs : Failures)
    → 0 < first
    → All (λ t. t ≤ first + window) ts
    → fs key ≡ some (grown first n latest)
    → record_all ts key fs key ≡ some (grown first (n + length ts) (last latest ts))
record_all-grown first n latest [] key fs pos h e =
    e ∙ ap (λ m. some (grown first m latest)) (omega arith)
record_all-grown first n latest (t ∷ ts) key fs pos (h, hs) e =
    record_all-grown first (suc n) t ts key (record_login_failure t key fs) pos hs (
      recorded t key fs
      ∙ ap some
          (ap (λ o. failed_again t (attempt_of o)) e ∙ failed_again-grown first n latest t pos h))
    ∙ ap (λ m. some (grown first m (last t ts))) (omega arith)

first_failure : (t : ℕ) → failed_again t zero_attempt ≡ grown t 1 t
first_failure t = ground arith

retry_of-grown :
    (now : ℕ) (key : Text) (fs : Failures) (first n latest : ℕ)
    → (retry_of now key fs (some (grown first (1 + n) latest))).1
      ≡ (if leb 4 n then latest + lock - now else 0)
retry_of-grown now key fs first n latest = ground arith

retry_of-other :
    (now : ℕ) (key other : Text) (fs : Failures) (o : Option LoginAttempt)
    → other ≢ key
    → (retry_of now other fs o).0 key ≡ fs key
retry_of-other now key other fs none ne = refl
retry_of-other now key other fs (some a) ne = ground (arith, text_eq_iff other key)

-- From no failure on record: failures that fall within fifteen minutes of the first one lock the
-- login exactly if they are five or more, until five minutes after the last of them.
pub record_all-locks :
    (t : ℕ) (ts : List ℕ) (now : ℕ) (key : Text) (fs : Failures)
    → fs key ≡ none
    → 0 < t
    → All (λ u. u ≤ t + window) ts
    → (login_retry_after now key (record_all (t ∷ ts) key fs)).1
      ≡ (if leb 4 (length ts) then last t ts + lock - now else 0)
unfolding login_retry_after
record_all-locks t ts now key fs fresh pos h =
    let once : record_login_failure t key fs key ≡ some (grown t 1 t) =
      recorded t key fs
      ∙ ap (λ o. some (failed_again t (attempt_of o))) fresh
      ∙ ap some (first_failure t) in
    let whole = record_all-grown t 1 t ts key (record_login_failure t key fs) pos h once in
    rw whole (retry_of-grown now key (record_all (t ∷ ts) key fs) t (length ts) (last t ts))

-- A login is judged by its own failures: those of another key, and their clearing, do not show;
-- and a login that succeeded starts anew.
pub failures_are_separate :
    (now : ℕ) (key other : Text) (fs : Failures)
    → (other ≢ key
        → (record_login_failure now other fs key ≡ fs key)
          × (clear_login_failures other fs key ≡ fs key)
          × ((login_retry_after now other fs).0 key ≡ fs key))
      × ((login_retry_after now key (clear_login_failures key fs)).1 ≡ 0)
unfolding record_login_failure clear_login_failures login_retry_after
failures_are_separate now key other fs = (
  λ ne. (
    ground (arith, text_eq_iff other key),
    ground (arith, text_eq_iff other key),
    retry_of-other now key other fs (fs other) ne,
  ),
  rw (text_eq_refl key) refl,
)
