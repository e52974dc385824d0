-- ===== src/Server/Login.antt =====
-- The sign-in and the first registration: handleLogin and handleRegister of
-- internal/server/handlers.go, on the backoff and the accounts of internal/auth. The clock is in
-- nanoseconds; the sessions table has seconds.
pub mod Grants
pub mod Setup
use winify.Common.{
  ℕ, zero, suc, ◌+◌, ◌/◌, Bool, true, false, not, ◌&&◌, Option, none, some, List, [], ◌∷◌, ◌++◌,
  if◌then◌else◌, ◌==◌, ltb, length, Text, codes, text_eq, to_lower, trim_space, Result, ok, err,
}
use winify.Auth.Throttle.{Failures, login_retry_after, record_login_failure, clear_login_failures}
use winify.Auth.Accounts.{
  User, Accounts, AuthEnv, AuthError, invalid_credentials, registration_closed, database_failed,
  count_users, authenticate, register, start_session,
}

pub record LoginEnv : Type 0 where
  pub auth : AuthEnv
  pub now : ℕ
  pub setup_token : Text
  pub token : Text  -- the next random session token
  -- Which queries succeed.
  pub count_ok : Bool
  pub lookup_ok : Bool
  pub session_ok : Bool

pub record LoginState : Type 0 where
  pub failures : Failures
  pub accounts : Accounts

pub record LoginRequest : Type 0 where
  pub remote_addr : Text
  pub form_parses : Bool
  pub username : Text
  pub password : Text
  pub confirm : Text
  pub setup_token : Text

pub data LoginReply : Type 0 where
  to_register to_login bad_form bad_credentials server_error : LoginReply
  locked : ℕ → LoginReply
  to_dashboard : Text → LoginReply
  setup_token_required username_required password_too_short passwords_differ : LoginReply

abbrev pub nanoseconds : ℕ
nanoseconds = 1000000000

abbrev pub login_key : LoginRequest → Text
login_key req = req.remote_addr ++ (codes "|" ++ to_lower (trim_space req.username))

abbrev pub has_no_users : LoginState → Bool
has_no_users st = count_users st.accounts == 0

abbrev pub session_of : LoginEnv → User → LoginState → Result AuthError Accounts
session_of env u st =
    if env.session_ok
    then start_session env.auth st.accounts env.token u.id (env.now / nanoseconds)
    else err database_failed

abbrev pub sessioned :
    LoginEnv → LoginReply → LoginState → Result AuthError Accounts → LoginState × LoginReply
sessioned env otherwise st (err e) = (st, otherwise)
sessioned env otherwise st (ok a) = (record st { accounts = a }, to_dashboard env.token)

abbrev pub cleared : LoginRequest → LoginState → LoginState
cleared req st = record st { failures = clear_login_failures (login_key req) st.failures }

abbrev pub verified :
    LoginEnv → LoginRequest → LoginState → Result AuthError User → LoginState × LoginReply
verified env req st (ok u) =
    sessioned env server_error (cleared req st) (session_of env u (cleared req st))
verified env req st (err invalid_credentials) = (
  record st { failures = record_login_failure env.now (login_key req) st.failures },
  bad_credentials,
)
verified env req st (err e) = (st, server_error)

abbrev pub credentials : LoginEnv → LoginRequest → LoginState → Result AuthError User
credentials env req st =
    if env.lookup_ok
    then authenticate env.auth st.accounts req.username req.password
    else err database_failed

abbrev pub limited : LoginEnv → LoginRequest → LoginState → Failures × ℕ → LoginState × LoginReply
limited env req st (fs, zero) =
    let st' = record st { failures = fs } in verified env req st' (credentials env req st')
limited env req st (fs, suc n) = (record st { failures = fs }, locked (suc n / nanoseconds + 1))

unfoldable pub handle_login : LoginEnv → LoginRequest → LoginState → LoginState × LoginReply
handle_login env req st =
    if env.count_ok && has_no_users st
    then (st, to_register)
    else if not req.form_parses
    then (st, bad_form)
    else limited env req st (login_retry_after env.now (login_key req) st.failures)

unfoldable pub valid_setup_token : Text → Text → Bool
valid_setup_token expected supplied =
    ltb 0 (length expected) && (length expected == length supplied && text_eq supplied expected)

-- The tests of handleRegister, in the order in which they are made.
abbrev pub form_error : LoginEnv → LoginRequest → Option LoginReply
form_error env req =
    if not req.form_parses
    then some bad_form
    else if not (text_eq env.setup_token [])
        && not (valid_setup_token env.setup_token req.setup_token)
    then some setup_token_required
    else if text_eq (trim_space req.username) []
    then some username_required
    else if ltb (length req.password) 8
    then some password_too_short
    else if not (text_eq req.password req.confirm)
    then some passwords_differ
    else none

abbrev pub registered :
    LoginEnv → LoginState → Accounts × Result AuthError User → LoginState × LoginReply
registered env st (a, err registration_closed) = (record st { accounts = a }, to_login)
registered env st (a, err e) = (record st { accounts = a }, server_error)
registered env st (a, ok u) =
    let st' = record st { accounts = a } in sessioned env to_login st' (session_of env u st')

abbrev pub register_unless :
    LoginEnv → LoginRequest → LoginState → Option LoginReply → LoginState × LoginReply
register_unless env req st (some reply) = (st, reply)
register_unless env req st none =
    registered env st (register env.auth st.accounts (trim_space req.username) req.password)

unfoldable pub handle_register : LoginEnv → LoginRequest → LoginState → LoginState × LoginReply
handle_register env req st =
    if not env.count_ok
    then (st, server_error)
    else if not (has_no_users st)
    then (st, to_login)
    else register_unless env req st (form_error env req)
