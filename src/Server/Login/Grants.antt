-- ===== src/Server/Login/Grants.antt =====
-- Who is signed in (internal/server/handlers.go).
use winify.Common.{
  ℕ, zero, suc, ◌+◌, ◌/◌, ◌<◌, ◌≡◌, refl, ap, ◌∙◌, Bool, true, false, not, ◌&&◌, none, some, arith,
  if◌then◌else◌, ok,
}
use winify.Auth.Throttle.{Failures, login_retry_after}
use winify.Auth.Accounts.{User, Accounts, user_by_username}
use winify.Server.Login.{
  LoginEnv, LoginState, LoginRequest, LoginReply, locked, to_register, bad_form, nanoseconds,
  login_key, has_no_users, limited, handle_login,
}

-- What holds of a login that was let in, with the account and the state that it leaves.
pub record IsGranted (env : LoginEnv) (req : LoginRequest) (st st' : LoginState) (u : User)
    : Type 0 where
  pub not_locked : (login_retry_after env.now (login_key req) st.failures).1 ≡ 0
  pub account : user_by_username st.accounts req.username ≡ ok u
  pub password : env.auth.compare u.password_hash req.password ≡ true
  pub users : st'.accounts.users ≡ st.accounts.users
  pub forgiven : st'.failures (login_key req) ≡ none
  pub session :
      st'.accounts.sessions (env.auth.hash_token env.token)
      ≡ some (record { user_id = u.id; expires_at = env.now / nanoseconds + env.auth.ttl })

record IsStarted (env : LoginEnv) (u : User) (a b : Accounts) : Type 0 where
  users : b.users ≡ a.users
  session :
      b.sessions (env.auth.hash_token env.token)
      ≡ some (record { user_id = u.id; expires_at = env.now / nanoseconds + env.auth.ttl })

abbrev second : LoginState × LoginReply → LoginReply
second p = p.1

-- The parts of a login that was let in, once its key is known not to be locked.
record IsVerified (env : LoginEnv) (req : LoginRequest) (st st' : LoginState) (u : User)
    : Type 0 where
  started : IsStarted env u st.accounts st'.accounts
  forgiven : st'.failures (login_key req) ≡ none

past_guards :
    (b c d : Bool) (x y z : LoginState × LoginReply)
    → c ≡ false
    → d ≡ true
    → (if b && c then x else if not d then y else z) ≡ z
past_guards b c d x y z h k = ground arith

limited-locked :
    (env : LoginEnv) (req : LoginRequest) (st : LoginState) (r : Failures × ℕ)
    → 0 < r.1
    → ((limited env req st r).0.accounts ≡ st.accounts)
      × ((limited env req st r).1 ≡ locked (r.1 / nanoseconds + 1))
limited-locked env req st (fs, zero) h = absurd (omega arith)
limited-locked env req st (fs, suc n) h = (refl, refl)

-- A locked key is turned away before the password is looked at: whatever the password is, the
-- accounts stay as they are and the answer is the same, with the seconds to wait rounded up.
pub locked_login :
    (env : LoginEnv) (req : LoginRequest) (st : LoginState)
    → has_no_users st ≡ false
    → req.form_parses ≡ true
    → 0 < (login_retry_after env.now (login_key req) st.failures).1
    → ((handle_login env req st).0.accounts ≡ st.accounts)
      × ((handle_login env req st).1
          ≡ locked ((login_retry_after env.now (login_key req) st.failures).1 / nanoseconds + 1))
unfolding handle_login
locked_login env req st users parses late =
    let r = login_retry_after env.now (login_key req) st.failures in
    let past =
      past_guards env.count_ok (has_no_users st) req.form_parses (st, to_register) (st, bad_form)
        (limited env req st r) users parses in
    let (same, answer) = limited-locked env req st r late in
    (ap (λ (p : LoginState × LoginReply). p.0.accounts) past ∙ same, ap second past ∙ answer)
