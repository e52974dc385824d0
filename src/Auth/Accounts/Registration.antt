-- ===== src/Auth/Accounts/Registration.antt =====
-- The first account (internal/auth/auth.go).
use winify.Common.{
  ◌≡◌, refl, ap, ◌∙◌, Option, none, some, List, [], ◌∷◌, if◌then◌else◌, Text, text_eq_refl, Result,
  ok, err,
}
use winify.Auth.Accounts.{
  User, Accounts, AuthEnv, AuthError, registration_closed, invalid_credentials, user_by_username,
  create_first_user, register_with, register, authenticate, insert_user,
}

-- Attempts to register, one after another in any order: the name and the password of each.
abbrev pub register_all : AuthEnv → Accounts → List (Text × Text) → Accounts
register_all env a [] = a
register_all env a ((name, password) ∷ rs) = register_all env (register env a name password).0 rs

register-closed :
    (env : AuthEnv) (a : Accounts) (u : User) (us : List User) (name password hash : Text)
    → a.users ≡ u ∷ us
    → env.generate password ≡ some hash
    → register env a name password ≡ (a, err registration_closed)
unfolding register create_first_user
register-closed env a u us name password hash e g = rw g (rw e refl)

register-keeps :
    (env : AuthEnv) (a : Accounts) (u : User) (us : List User) (name password : Text)
    → a.users ≡ u ∷ us
    → (register env a name password).0 ≡ a
unfolding register create_first_user
register-keeps env a u us name password e = go (env.generate password)
  where
    go : (o : Option Text) → (register_with a name o).0 ≡ a
    go none = refl
    go (some hash) = rw e refl

register_all-keeps :
    (env : AuthEnv) (a : Accounts) (u : User) (us : List User) (rs : List (Text × Text))
    → a.users ≡ u ∷ us
    → register_all env a rs ≡ a
register_all-keeps env a u us [] e = refl
register_all-keeps env a u us ((name, password) ∷ rs) e =
    rw (register-keeps env a u us name password e) (register_all-keeps env a u us rs e)

register-first :
    (env : AuthEnv) (a : Accounts) (name password hash : Text)
    → a.users ≡ []
    → env.generate password ≡ some hash
    → register env a name password ≡ (
      insert_user a name hash,
      ok (record { id = a.next_id; username = name; password_hash = hash }),
    )
unfolding register create_first_user user_by_username
register-first env a name password hash e g = rw g (rw e (rw (text_eq_refl name) refl))

-- The first registration makes the only account, and every later attempt leaves it as it is. If
-- bcrypt takes back its own hashes, that account's password, and no other that bcrypt tells
-- apart from it, logs in.
pub register_once :
    (env : AuthEnv) (a : Accounts) (name password hash : Text) (rs : List (Text × Text))
    → a.users ≡ []
    → env.generate password ≡ some hash
    → (register_all env a ((name, password) ∷ rs) ≡ insert_user a name hash)
      × ((other : Text)
          → authenticate env (register_all env a ((name, password) ∷ rs)) name other ≡ (
              if env.compare hash other
              then ok (record { id = a.next_id; username = name; password_hash = hash })
              else err invalid_credentials))
unfolding authenticate user_by_username
register_once env a name password hash rs e g =
    let one : User = record { id = a.next_id; username = name; password_hash = hash } in
    let whole : register_all env (register env a name password).0 rs ≡ insert_user a name hash =
      ap (λ (r : Accounts × Result AuthError User). register_all env r.0 rs)
        (register-first env a name password hash e g)
      ∙ register_all-keeps env (insert_user a name hash) one [] rs (rw e refl) in
    (whole, λ other. rw whole (rw e (rw (text_eq_refl name) refl)))
