-- ===== src/Server/Login/Setup.antt =====
-- Who may make the first account (internal/server/handlers.go).
use winify.Common.{
  ◌≤◌, ◌≡◌, ◌≢◌, ◌⊎◌, refl, Bool, true, false, not, ◌&&◌, Option, none, some, List, [], ◌∷◌, arith,
  if◌then◌else◌, ◌==◌, length, Text, text_eq, text_eq_iff, text_eq→eq, trim_space,
}
use winify.Auth.Accounts.{User, count_users}
use winify.Server.Login.{
  LoginEnv, LoginState, LoginRequest, LoginReply, has_no_users, valid_setup_token, form_error,
  register_unless, handle_register, bad_form, setup_token_required, username_required,
  password_too_short, passwords_differ, server_error, to_login,
}

-- What holds of a request that changes anything.
pub record IsFirst (env : LoginEnv) (req : LoginRequest) (st : LoginState) : Type 0 where
  pub no_users : st.accounts.users ≡ []
  pub token : (env.setup_token ≡ []) ⊎ (req.setup_token ≡ env.setup_token)
  pub named : trim_space req.username ≢ []
  pub long : 8 ≤ length req.password
  pub confirmed : req.password ≡ req.confirm

form_guards :
    (a b c d e : Bool) (x1 x2 x3 x4 x5 : LoginReply)
    → (if not a
        then some x1
        else if b
        then some x2
        else if c
        then some x3
        else if d
        then some x4
        else if not e
        then some x5
        else none)
      ≡ none
    → (b ≡ false) × (c ≡ false) × (d ≡ false) × (e ≡ true)
form_guards a b c d e x1 x2 x3 x4 x5 h = (ground arith, ground arith, ground arith, ground arith)

token_sound :
    (expected supplied : Text)
    → (not (text_eq expected []) && not (valid_setup_token expected supplied)) ≡ false
    → (expected ≡ []) ⊎ (supplied ≡ expected)
unfolding valid_setup_token
token_sound expected supplied h =
    ground (arith, text_eq_iff expected [], text_eq_iff supplied expected)

no_users_of_count : (us : List User) → (length us == 0) ≡ true → us ≡ []
no_users_of_count [] h = refl
no_users_of_count (u ∷ us) h = ground arith

ne_of_text_eq : (s : Text) → text_eq s [] ≡ false → s ≢ []
ne_of_text_eq s h e = ground (arith, text_eq_iff s [])

form_sound :
    (env : LoginEnv) (req : LoginRequest) (st : LoginState)
    → has_no_users st ≡ true
    → form_error env req ≡ none
    → IsFirst env req st
unfolding count_users
form_sound env req st fresh h =
    let (token, named, long, confirmed) =
      form_guards _ _ _ _ _ bad_form setup_token_required username_required password_too_short
        passwords_differ h in
    record {
      no_users = no_users_of_count st.accounts.users fresh;
      token = token_sound env.setup_token req.setup_token token;
      named = ne_of_text_eq _ named;
      long = ground arith;
      confirmed = text_eq→eq req.password req.confirm confirmed;
    }

register_guards :
    (b c : Bool) (st : LoginState) (x y : LoginReply) (z : LoginState × LoginReply)
    → (if not b then (st, x) else if not c then (st, y) else z).0 ≢ st
    → (c ≡ true) × (z.0 ≢ st)
register_guards false c st x y z h = absurd (h refl)
register_guards true false st x y z h = absurd (h refl)
register_guards true true st x y z h = (refl, h)

register_unless-none :
    (env : LoginEnv) (req : LoginRequest) (st : LoginState) (o : Option LoginReply)
    → (register_unless env req st o).0 ≢ st
    → o ≡ none
register_unless-none env req st (some r) h = absurd (h refl)
register_unless-none env req st none h = refl

-- If the registration form changes anything, there was no account, the setup token was right or
-- none was set, the username is not blank, and the password has at least 8 bytes and was
-- confirmed.
pub handle_register-IsFirst :
    (env : LoginEnv) (req : LoginRequest) (st : LoginState)
    → (handle_register env req st).0 ≢ st
    → IsFirst env req st
unfolding handle_register
handle_register-IsFirst env req st h =
    let (fresh, changed) =
      register_guards env.count_ok (has_no_users st) st server_error to_login
        (register_unless env req st (form_error env req)) h in
    form_sound env req st fresh (register_unless-none env req st (form_error env req) changed)
