-- ===== src/Auth/Accounts/Sessions.antt =====
-- The life of a session (internal/auth/auth.go).
use winify.Common.{
  ℕ, ◌+◌, ◌≡◌, refl, ap, Bool, true, false, Option, none, some, List, arith, if◌then◌else◌, ltb,
  Text, text_eq_refl, ok,
}
use winify.Auth.Accounts.{
  User, Session, Accounts, AuthEnv, create_session, created, set_session, find_id,
  username_by_session, delete_session, start_session, end_session, delete_expired_sessions,
  admitted, rejected, admit, validate, require_auth, unexpired, owner, name_of,
}

started :
    (env : AuthEnv) (a b : Accounts) (token : Text) (id now : ℕ)
    → start_session env a token id now ≡ ok b
    → b
      ≡ set_session
          (env.hash_token token)
          (some (record { user_id = id; expires_at = now + env.ttl }))
          a
unfolding start_session create_session
started env a b token id now h = go (a.sessions (env.hash_token token)) h
  where
    go :
        (o : Option Session)
        → created a (env.hash_token token) (record { user_id = id; expires_at = now + env.ttl }) o
          ≡ ok b
        → b
          ≡ set_session
              (env.hash_token token)
              (some (record { user_id = id; expires_at = now + env.ttl }))
              a
    go none k = cc
    go (some s) k = cc

found :
    (us : List User) (u : User) (later end : ℕ)
    → find_id u.id us ≡ some u
    → name_of (owner later us (some (record { user_id = u.id; expires_at = end })))
      ≡ (if ltb later end then some u.username else none)
found us u later end known = ground arith

admit-if :
    (path name : Text) (c : Bool) (o : Option Text)
    → o ≡ (if c then some name else none)
    → admit path o ≡ (if c then admitted name else rejected path)
admit-if path name true o e = ap (admit path) e
admit-if path name false o e = ap (admit path) e

owner-unexpired :
    (later : ℕ) (us : List User) (o : Option Session)
    → owner later us (unexpired later o) ≡ owner later us o
owner-unexpired later us none = refl
owner-unexpired later us (some s) = ground arith

-- A session that was started for an account admits its token, under that account's name, until its time
-- to live is over; then, and after a logout, the token is turned away as any stranger is, and
-- the pruning of expired sessions changes none of it.
pub session_life :
    (env : AuthEnv) (a b : Accounts) (u : User) (token path : Text) (now later : ℕ)
    → find_id u.id a.users ≡ some u
    → start_session env a token u.id now ≡ ok b
    → (require_auth env b later path (some token)
        ≡ (if ltb later (now + env.ttl) then admitted u.username else rejected path))
      × (require_auth env (end_session env b (some token)) later path (some token) ≡ rejected path)
      × (require_auth env (delete_expired_sessions b later) later path (some token)
          ≡ require_auth env b later path (some token))
unfolding require_auth validate username_by_session end_session delete_session
    delete_expired_sessions
session_life env a b u token path now later known h = (
  rw (started env a b token u.id now h) (
      rw (text_eq_refl (env.hash_token token)) (
        admit-if path u.username (ltb later (now + env.ttl)) _
          (found a.users u later (now + env.ttl) known))),
  rw (text_eq_refl (env.hash_token token)) refl,
  ap (λ (o : Option User). admit path (name_of o))
      (owner-unexpired later b.users (b.sessions (env.hash_token token))),
)
