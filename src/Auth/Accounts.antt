-- ===== src/Auth/Accounts.antt =====
-- Accounts and sessions: internal/auth/auth.go on the users and sessions tables of
-- internal/models/store.go. bcrypt, SHA-256 and the random tokens are an `AuthEnv`; times are
-- Unix seconds.
pub mod Registration
pub mod Sessions
use winify.Common.{
  ℕ, zero, suc, ◌+◌, Bool, true, false, not, ◌&&◌, Option, none, some, List, [], ◌∷◌, ◌++◌,
  if◌then◌else◌, ◌==◌, ltb, length, Text, codes, text_eq, has_prefix, Result, ok, err,
}

pub record User : Type 0 where
  pub id : ℕ
  pub username : Text
  pub password_hash : Text

pub record Session : Type 0 where
  pub user_id : ℕ
  pub expires_at : ℕ

-- Users in the order of their rows; sessions by their primary key, the hash of the token.
pub record Accounts : Type 0 where
  pub next_id : ℕ
  pub users : List User
  pub sessions : Text → Option Session

pub data AuthError : Type 0 where
  not_found already_initialized registration_closed invalid_credentials : AuthError
  hash_failed session_exists database_failed : AuthError

pub record AuthEnv : Type 0 where
  pub generate : Text → Option Text  -- bcrypt.GenerateFromPassword
  pub compare : Text → Text → Bool  -- bcrypt.CompareHashAndPassword
  pub hash_token : Text → Text
  pub ttl : ℕ

abbrev pub find_name : Text → List User → Option User
find_name name [] = none
find_name name (u ∷ us) = if text_eq u.username name then some u else find_name name us

abbrev pub find_id : ℕ → List User → Option User
find_id id [] = none
find_id id (u ∷ us) = if u.id == id then some u else find_id id us

abbrev pub or_error {ℓ} : {A : Type ℓ} → AuthError → Option A → Result AuthError A
or_error e none = err e
or_error e (some a) = ok a

unfoldable pub user_by_username : Accounts → Text → Result AuthError User
user_by_username a name = or_error not_found (find_name name a.users)

unfoldable pub count_users : Accounts → ℕ
count_users a = length a.users

abbrev pub replace_hash : Text → Text → List User → List User
replace_hash name hash [] = []
replace_hash name hash (u ∷ us) =
    (if text_eq u.username name then record u { password_hash = hash } else u)
    ∷ replace_hash name hash us

abbrev pub insert_user : Accounts → Text → Text → Accounts
insert_user a name hash = record a {
  next_id = suc a.next_id;
  users = a.users ++ (record { id = a.next_id; username = name; password_hash = hash } ∷ []);
}

abbrev pub upserted : Accounts → Text → Text → Option User → Accounts
upserted a name hash none = insert_user a name hash
upserted a name hash (some u) = record a { users = replace_hash name hash a.users }

unfoldable pub upsert_user : Accounts → Text → Text → Accounts
upsert_user a name hash = upserted a name hash (find_name name a.users)

abbrev pub first_of : Accounts → Text → Text → List User → Accounts × Result AuthError User
first_of a name hash [] = let a' = insert_user a name hash in (a', user_by_username a' name)
first_of a name hash (u ∷ us) = (a, err already_initialized)

unfoldable pub create_first_user : Accounts → Text → Text → Accounts × Result AuthError User
create_first_user a name hash = first_of a name hash a.users

abbrev pub closed : Result AuthError User → Result AuthError User
closed (ok u) = ok u
closed (err already_initialized) = err registration_closed
closed (err e) = err e

abbrev pub register_with : Accounts → Text → Option Text → Accounts × Result AuthError User
register_with a name none = (a, err hash_failed)
register_with a name (some hash) = let (a', r) = create_first_user a name hash in (a', closed r)

unfoldable pub register : AuthEnv → Accounts → Text → Text → Accounts × Result AuthError User
register env a name password = register_with a name (env.generate password)

abbrev pub checked : AuthEnv → Text → Result AuthError User → Result AuthError User
checked env password (err e) = err invalid_credentials
checked env password (ok u) =
    if env.compare u.password_hash password then ok u else err invalid_credentials

unfoldable pub authenticate : AuthEnv → Accounts → Text → Text → Result AuthError User
authenticate env a name password = checked env password (user_by_username a name)

abbrev pub set_session : Text → Option Session → Accounts → Accounts
set_session id s a = record a { sessions = λ k. if text_eq id k then s else a.sessions k }

abbrev pub created : Accounts → Text → Session → Option Session → Result AuthError Accounts
created a id s none = ok (set_session id (some s) a)
created a id s (some t) = err session_exists

unfoldable pub create_session : Accounts → Text → ℕ → ℕ → Result AuthError Accounts
create_session a id user_id expires =
    created a id (record { user_id = user_id; expires_at = expires }) (a.sessions id)

abbrev pub owner : ℕ → List User → Option Session → Option User
owner now us none = none
owner now us (some s) = if ltb now s.expires_at then find_id s.user_id us else none

abbrev pub name_of : Option User → Option Text
name_of none = none
name_of (some u) = some u.username

unfoldable pub username_by_session : Accounts → Text → ℕ → Option Text
username_by_session a id now = name_of (owner now a.users (a.sessions id))

unfoldable pub delete_session : Accounts → Text → Accounts
delete_session a id = set_session id none a

abbrev pub unexpired : ℕ → Option Session → Option Session
unexpired now none = none
unexpired now (some s) = if ltb now s.expires_at then some s else none

unfoldable pub delete_expired_sessions : Accounts → ℕ → Accounts
delete_expired_sessions a now = record a { sessions = λ k. unexpired now (a.sessions k) }

-- StartSession and EndSession, on the token in the cookie.
unfoldable pub start_session : AuthEnv → Accounts → Text → ℕ → ℕ → Result AuthError Accounts
start_session env a token user_id now =
    create_session a (env.hash_token token) user_id (now + env.ttl)

abbrev pub ended : AuthEnv → Accounts → Option Text → Accounts
ended env a none = a
ended env a (some token) = delete_session a (env.hash_token token)

unfoldable pub end_session : AuthEnv → Accounts → Option Text → Accounts
end_session env a cookie = ended env a cookie

pub data Access : Type 0 where
  admitted : Text → Access
  unauthorized to_login : Access

abbrev pub rejected : Text → Access
rejected path = if has_prefix path (codes "/api/") then unauthorized else to_login

abbrev pub admit : Text → Option Text → Access
admit path none = rejected path
admit path (some name) = admitted name

unfoldable pub validate : AuthEnv → Accounts → Text → ℕ → Option Text
validate env a token now = username_by_session a (env.hash_token token) now

abbrev pub admit_cookie : AuthEnv → Accounts → ℕ → Text → Option Text → Access
admit_cookie env a now path none = rejected path
admit_cookie env a now path (some token) = admit path (validate env a token now)

-- RequireAuth, for a request with this path and this session cookie.
unfoldable pub require_auth : AuthEnv → Accounts → ℕ → Text → Option Text → Access
require_auth env a now path cookie = admit_cookie env a now path cookie
