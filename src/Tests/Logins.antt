-- ===== src/Tests/Logins.antt =====
-- Logins that are counted, a first account and its session.
use winify.Common.{
  arith, ℕ, ◌+◌, ◌-◌, ◌≡◌, ◌≢◌, refl, none, some, Option, List, [], ◌∷◌, Text, codes, text_eq, ok,
  err, if◌then◌else◌, ltb, leb, length,
}
use winify.Common.{ap, ◌/◌, ◌<◌, true, false}
use winify.Server.Login.{
  LoginEnv, LoginState, LoginRequest, LoginReply, locked, has_no_users, login_key, nanoseconds,
  handle_login, handle_register,
}
use winify.Server.Login.Setup.{IsFirst, handle_register-IsFirst}
use winify.Auth.Throttle.{Failures, lock, login_retry_after, record_all, record_all-locks}
use winify.Auth.Accounts.{
  User, Accounts, Session, AuthEnv, AuthError, invalid_credentials, find_id, insert_user,
  authenticate, start_session, end_session, delete_expired_sessions, require_auth, admitted,
  rejected,
}
use winify.Auth.Accounts.Registration.{register_all, register_once}
use winify.Auth.Accounts.Sessions.{session_life}

abbrev no_failures : Failures
no_failures k = none

abbrev minutes : List ℕ
minutes = 60000000001 ∷ 120000000001 ∷ 180000000001 ∷ 240000000001 ∷ []

record_all-locks_example :
    (login_retry_after 300000000000
      (codes "admin")
      (record_all (1 ∷ minutes) (codes "admin") no_failures)).1
    ≡ (if leb 4 (length minutes) then 240000000001 + lock - 300000000000 else 0)
record_all-locks_example =
    record_all-locks 1 minutes 300000000000 (codes "admin") no_failures refl (omega arith)
      (omega arith, (omega arith, (omega arith, (omega arith, tt))))

-- A hash that is the password itself.
abbrev auth : AuthEnv
auth = record {
  generate = λ password. some password;
  compare = text_eq;
  hash_token = λ token. token;
  ttl = 3600;
}

abbrev no_sessions : Text → Option Session
no_sessions k = none

abbrev fresh : Accounts
fresh = record { next_id = 1; users = []; sessions = no_sessions }

register_once_example :
    (register_all auth fresh ((codes "ada", codes "secret") ∷ (codes "eve", codes "x") ∷ [])
      ≡ insert_user fresh (codes "ada") (codes "secret"))
    × ((other : Text)
        → authenticate auth
            (register_all auth fresh
              ((codes "ada", codes "secret") ∷ (codes "eve", codes "x") ∷ []))
            (codes "ada")
            other
          ≡ (if auth.compare (codes "secret") other
              then ok (record { id = 1; username = codes "ada"; password_hash = codes "secret" })
              else err invalid_credentials))
register_once_example =
    register_once auth fresh (codes "ada") (codes "secret") (codes "secret")
      ((codes "eve", codes "x") ∷ []) refl refl

abbrev ada : User
ada = record { id = 1; username = codes "ada"; password_hash = codes "secret" }

abbrev known : Accounts
known = insert_user fresh (codes "ada") (codes "secret")

abbrev new_session : Text → Option Session
new_session k =
    if text_eq (codes "token") k then some (record { user_id = 1; expires_at = 4600 }) else none

abbrev logged_in : Accounts
logged_in = record known { sessions = new_session }

session_starts : start_session auth known (codes "token") 1 1000 ≡ ok logged_in
unfolding start_session winify.Auth.Accounts.create_session
session_starts = refl

session_life_example :
    (require_auth auth logged_in 2000 (codes "/") (some (codes "token"))
      ≡ (if ltb 2000 4600 then admitted (codes "ada") else rejected (codes "/")))
    × (require_auth auth
          (end_session auth logged_in (some (codes "token")))
          2000
          (codes "/")
          (some (codes "token"))
        ≡ rejected (codes "/"))
    × (require_auth auth
          (delete_expired_sessions logged_in 2000)
          2000
          (codes "/")
          (some (codes "token"))
        ≡ require_auth auth logged_in 2000 (codes "/") (some (codes "token")))
session_life_example =
    session_life auth known logged_in ada (codes "token") (codes "/") 1000 2000 refl session_starts

abbrev login_env : LoginEnv
login_env = record {
  auth = auth;
  now = 1000000000000;
  setup_token = codes "setup_1";
  token = codes "token";
  count_ok = true;
  lookup_ok = true;
  session_ok = true;
}

abbrev form : LoginRequest
form = record {
  remote_addr = codes "10.0.0.9";
  form_parses = true;
  username = codes "ada";
  password = codes "password";
  confirm = codes "password";
  setup_token = codes "setup_1";
}

abbrev someone : LoginState
someone = record {
  failures = no_failures;
  accounts = insert_user fresh (codes "ada") (codes "password");
}

abbrev nobody : LoginState
nobody = record { failures = no_failures; accounts = fresh }

abbrev let_in : LoginState
let_in = (handle_login login_env form someone).0

abbrev five : Failures
five k = some (record { count = 5; first = 900000000000; locked_until = 1200000000000 })

abbrev shut_out : LoginState
shut_out = record someone { failures = five }

someone_is_there : has_no_users shut_out ≡ false
unfolding winify.Auth.Accounts.count_users
someone_is_there = refl

is_late : 0 < (login_retry_after 1000000000000 (login_key form) five).1
unfolding login_retry_after
is_late = omega arith

nobody_is_changed : (handle_register login_env form nobody).0 ≢ nobody
unfolding handle_register winify.Auth.Accounts.count_users text_eq
    winify.Server.Login.valid_setup_token winify.Common.trim_space winify.Auth.Accounts.register
    winify.Auth.Accounts.create_first_user winify.Auth.Accounts.user_by_username start_session
    winify.Auth.Accounts.create_session
nobody_is_changed e =
    let k : (record ada { password_hash = codes "password" } ∷ []) ≡ [] =
      ap (λ (st : LoginState). st.accounts.users) e in
    cc

handle_register-IsFirst_example : IsFirst login_env form nobody
handle_register-IsFirst_example = handle_register-IsFirst login_env form nobody nobody_is_changed
