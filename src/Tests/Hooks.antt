-- ===== src/Tests/Hooks.antt =====
-- Webhooks that are signed, forged and replayed.
use winify.Common.{
  ap, ℕ, ◌+◌, ◌≤◌, ◌≡◌, ◌≢◌, ◌↔◌, refl, true, false, none, some, Option, List, [], ◌∷◌, ◌++◌, Bool,
  Text, codes, text_eq, Result, ok, err, if◌then◌else◌,
}
use winify.Models.Deployments.{Table}
use winify.Models.Deliveries.{Deliveries, record_webhook_delivery}
use winify.Deployment.Deployer.Guard.{Deployer, guarded, Queries}
use winify.Deployment.Deployer.Guard.Invariant.{idle}
use winify.Server.Webhook.{
  WebhookEnv, WebState, Request, Provider, github, Push, Reply, refused, invalid_signature,
  in_progress, delivery_key, handle_webhook, verify_github_signature, hex_decode, webhook_secret,
  is_too_large, status_code, signature_prefix,
}
use winify.Server.Webhook.Signature.{IsGithubSigned, verify_github_signature_iff}
use winify.Server.Webhook.Authentic.{IsAuthentic, github_signature, handle_webhook-IsAuthentic}
use winify.Server.Webhook.Replay.{retry_is_taken}
use winify.Tests.Data.{host_server, shop, world, queries}

-- A digest that is the secret's first byte, and a decoder that reads the branch off the body.
abbrev hmac : Text → Text → Text
hmac [] body = []
hmac (c ∷ secret) body = c ∷ []

abbrev field : Text → Text
field name = if text_eq name (codes "ref") then codes "refs/heads/main" else codes "0123abc"

abbrev hooks : WebhookEnv
hooks = record {
  get_project = λ id. ok shop;
  get_server = λ id. some host_server;
  get_secret = λ name. some (codes "key");
  hmac_sha256 = hmac;
  sha256_hex = λ body. codes "00";
  unmarshal = λ names body. some field;
  purge_ok = true;
  record_ok = true;
  delete_ok = true;
  queries = queries;
}

abbrev later : WebhookEnv
later = record hooks { queries = record queries { now = 1300 } }

-- "k" in hexadecimal is 6b.
abbrev header : Text → Text
header name =
    if text_eq name (codes "X-GitHub-Event")
    then codes "push"
    else if text_eq name github_signature
    then codes "sha256=6b"
    else []

abbrev signed : Request
signed = record {
  provider = github;
  project_id = codes "shop";
  header = header;
  body = codes "{}";
  body_arrives = true;
}

abbrev forged_header : Text → Text
forged_header name =
    if text_eq name (codes "X-GitHub-Event") then codes "push" else codes "sha256=00"

abbrev forged : Request
forged = record signed { header = forged_header }

abbrev no_deliveries : Deliveries
no_deliveries k = none

abbrev quiet : WebState
quiet = record { deliveries = no_deliveries; deployer = idle world }

abbrev busy : WebState
busy = record quiet { deployer = guarded (codes "shop") (idle world) }

-- The push is taken while the deployer is idle, and turned away while it is busy.
abbrev taken : WebState
taken = (handle_webhook hooks signed quiet).0

abbrev turned_away : WebState
turned_away = (handle_webhook hooks signed busy).0

busy_is_refused : handle_webhook hooks signed busy ≡ (turned_away, in_progress)
unfolding handle_webhook winify.Server.Webhook.authorize webhook_secret text_eq
    winify.Common.trim_prefix verify_github_signature hex_decode
    winify.Server.Webhook.parse_github_push winify.Deployment.Revision.branch_of
    record_webhook_delivery winify.Deployment.Deployer.Guard.trigger
    winify.Deployment.Deployer.Guard.load_or_store
busy_is_refused = refl

retry_is_taken_example :
    (record_webhook_delivery true 1010
      (delivery_key hooks signed)
      (codes "0123abc")
      turned_away.deliveries).1
    ≡ true
retry_is_taken_example =
    retry_is_taken hooks signed busy turned_away true 1010 (codes "0123abc") busy_is_refused refl

quiet_is_changed : (handle_webhook hooks signed quiet).0 ≢ quiet
unfolding handle_webhook winify.Server.Webhook.authorize webhook_secret text_eq
    winify.Common.trim_prefix verify_github_signature hex_decode
    winify.Server.Webhook.parse_github_push winify.Deployment.Revision.branch_of
    record_webhook_delivery winify.Deployment.Deployer.Guard.trigger
    winify.Deployment.Deployer.Guard.load_or_store winify.Deployment.Deployer.Guard.launch
    winify.Models.Deployments.create_deployment
quiet_is_changed e =
    let k : (codes "shop" ∷ []) ≡ [] = ap (λ (st : WebState). st.deployer.in_flight) e in cc

handle_webhook-IsAuthentic_example : (push : Push) × IsAuthentic hooks signed push
handle_webhook-IsAuthentic_example = handle_webhook-IsAuthentic hooks signed quiet quiet_is_changed

secret_is_found : webhook_secret hooks shop ≡ some (codes "key")
unfolding webhook_secret text_eq winify.Common.trim_prefix
secret_is_found = refl

forged_is_small : is_too_large forged ≡ false
forged_is_small = refl

forged_is_push : forged_header (codes "X-GitHub-Event") ≡ codes "push"
unfolding text_eq
forged_is_push = refl

forged_is_not_signed :
    verify_github_signature hooks (codes "key") (codes "{}") (forged_header github_signature)
    ≡ false
unfolding verify_github_signature text_eq winify.Common.has_prefix hex_decode
    winify.Common.trim_prefix
forged_is_not_signed = refl

forged_has_no_signature :
    ¬ IsGithubSigned hooks (codes "key") (codes "{}") (forged_header github_signature)
forged_has_no_signature x =
    let signs =
      (verify_github_signature_iff hooks (codes "key") (codes "{}")
          (forged_header github_signature)).1
        x in
    let unsigned = forged_is_not_signed in cc

verify_github_signature_iff_example :
    verify_github_signature hooks (codes "key") (codes "{}") (codes "sha256=6b") ≡ true
    ↔ IsGithubSigned hooks (codes "key") (codes "{}") (codes "sha256=6b")
verify_github_signature_iff_example =
    verify_github_signature_iff hooks (codes "key") (codes "{}") (codes "sha256=6b")
