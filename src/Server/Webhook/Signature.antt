-- ===== src/Server/Webhook/Signature.antt =====
-- Which signatures are taken (internal/deployment/webhook.go).
use winify.Common.{
  ◌≡◌, ◌≢◌, ◌↔◌, refl, ap, Bool, true, false, not, Option, none, some, [], ◌∷◌, ◌++◌, arith,
  if◌then◌else◌, drop, length, Text, text_eq, text_eq_iff, text_eq_refl, text_eq→eq, has_prefix,
  trim_prefix,
}
use winify.Server.Webhook.{
  WebhookEnv, hex_decode, is_digest, signature_prefix, verify_github_signature, verify_gitlab_token,
}

prefix_split : (s p : Text) → has_prefix s p ≡ true → s ≡ p ++ drop (length p) s
unfolding has_prefix
prefix_split s [] h = ground arith
prefix_split [] (b ∷ p) h = cc
prefix_split (a ∷ s) (b ∷ p) h = ground (arith, prefix_split s p)

has_prefix-append : (p s : Text) → has_prefix (p ++ s) p ≡ true
unfolding has_prefix
has_prefix-append [] s = refl
has_prefix-append (b ∷ p) s = ground (arith, has_prefix-append p s)

drop-append : (p s : Text) → drop (length p) (p ++ s) ≡ s
drop-append [] s = refl
drop-append (b ∷ p) s = drop-append p s

is_digest_iff : (mac : Text) (got : Option Text) → is_digest mac got ≡ true → got ≡ some mac
is_digest_iff mac none h = cc
is_digest_iff mac (some got) h = ap some (text_eq→eq got mac h)

-- What GitHub's header has to be.
pub record IsGithubSigned (env : WebhookEnv) (secret body header : Text) : Type 0 where
  pub has_secret : secret ≢ []
  pub hex : Text
  pub framed : header ≡ signature_prefix ++ hex
  pub digest : hex_decode hex ≡ some (env.hmac_sha256 secret body)

github_guards :
    (b c d : Bool)
    → (if b then false else if not c then false else d) ≡ true
    → (b ≡ false) × (c ≡ true) × (d ≡ true)
github_guards b c d h = ground arith

ne_of_text_eq : (s : Text) → text_eq s [] ≡ false → s ≢ []
ne_of_text_eq s h e = ground (arith, text_eq_iff s [])

text_eq_of_ne : (s : Text) → s ≢ [] → text_eq s [] ≡ false
text_eq_of_ne s h = ground (arith, text_eq_iff s [])

trim_prefix-append : (p s : Text) → trim_prefix (p ++ s) p ≡ s
unfolding trim_prefix
trim_prefix-append p s = rw (has_prefix-append p s) (drop-append p s)

trim_prefix_split : (s p : Text) → has_prefix s p ≡ true → s ≡ p ++ trim_prefix s p
unfolding trim_prefix
trim_prefix_split s p h = rw h (prefix_split s p h)

-- A signature is taken exactly if there is a secret and the header is "sha256=" with the
-- hexadecimal text of the body's HMAC under that secret.
pub verify_github_signature_iff :
    (env : WebhookEnv) (secret body header : Text)
    → verify_github_signature env secret body header ≡ true ↔ IsGithubSigned env secret body header
unfolding verify_github_signature
verify_github_signature_iff env secret body header = (forth, back)
  where
    forth :
        verify_github_signature env secret body header ≡ true
        → IsGithubSigned env secret body header
    forth h =
        let (a, b, c) = github_guards _ _ _ h in
        record {
          has_secret = ne_of_text_eq secret a;
          hex = trim_prefix header signature_prefix;
          framed = trim_prefix_split header signature_prefix b;
          digest = is_digest_iff _ _ c;
        }

    back :
        IsGithubSigned env secret body header
        → verify_github_signature env secret body header ≡ true
    back x = rw (text_eq_of_ne secret x.has_secret) (
        rw x.framed (
          rw (has_prefix-append signature_prefix x.hex)
            (rw (trim_prefix-append signature_prefix x.hex) (rw x.digest (text_eq_refl _)))))

-- A token is taken exactly if it is the project's secret and that is not empty.
pub verify_gitlab_token_iff :
    (secret token : Text)
    → verify_gitlab_token secret token ≡ true ↔ (secret ≢ []) × (token ≡ secret)
unfolding verify_gitlab_token
verify_gitlab_token_iff secret token = (
  λ h. (ne_of_text_eq secret (ground arith), text_eq→eq token secret (ground arith)),
  λ (h, p). rw (text_eq_of_ne secret h) (rw p (text_eq_refl secret)),
)
