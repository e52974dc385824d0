-- ===== src/Server/Webhook.antt =====
-- The push webhooks: internal/server/webhook.go and internal/deployment/webhook.go. The hash
-- functions, the JSON decoder, the vault and the reads of the database are a `WebhookEnv`.
pub mod Signature
pub mod Authentic
pub mod Replay
use winify.Common.{
  ℕ, zero, suc, ◌+◌, ◌-◌, ◌*◌, Bool, true, false, not, ◌&&◌, Option, none, some, List, [], ◌∷◌,
  ◌++◌, if◌then◌else◌, ◌==◌, ltb, leb, length, Text, codes, text_eq, has_prefix, trim_prefix,
  is_digit, Result, ok, err, fail_if, ◌>>◌, ◌>>=◌,
}
use winify.Config.Entities.{Project, Server}
use winify.Models.Deliveries.{
  DeliveryKey, Deliveries, after_purge, record_webhook_delivery, delete_webhook_delivery,
}
use winify.Deployment.Revision.{branch_of}
use winify.Deployment.Deployer.Guard.{Deployer, DeployError, deploy_in_progress, Queries, trigger}

pub data Provider : Type 0 where
  github gitlab other : Provider

pub record Request : Type 0 where
  pub provider : Provider
  pub project_id : Text
  pub header : Text → Text
  pub body : Text
  pub body_arrives : Bool

pub data LoadError : Type 0 where
  not_found load_failed : LoadError

-- How the checks turn a request away.
pub data Refusal : Type 0 where
  unknown_project not_configured too_large invalid_signature invalid_payload : Refusal
  unsupported_provider load_error no_target : Refusal
  ignored : Text → Refusal

-- The answers of the handler, each with its HTTP status in `status_code`.
pub data Reply : Type 0 where
  refused : Refusal → Reply
  not_recorded duplicate in_progress not_started : Reply
  accepted : ℕ → Reply

abbrev pub refusal_code : Refusal → ℕ
refusal_code unknown_project = 404
refusal_code not_configured = 404
refusal_code too_large = 413
refusal_code invalid_signature = 401
refusal_code invalid_payload = 400
refusal_code unsupported_provider = 400
refusal_code load_error = 500
refusal_code no_target = 500
refusal_code (ignored reason) = 202

unfoldable pub status_code : Reply → ℕ
status_code (refused r) = refusal_code r
status_code not_recorded = 500
status_code duplicate = 202
status_code in_progress = 409
status_code not_started = 500
status_code (accepted id) = 202

pub record PushEvent : Type 0 where
  pub ref : Text
  pub commit : Text

pub record WebhookEnv : Type 0 where
  pub get_project : Text → Result LoadError Project
  pub get_server : Text → Option Server
  pub get_secret : Text → Option Text
  pub hmac_sha256 : Text → Text → Text
  pub sha256_hex : Text → Text
  -- json.Unmarshal into a struct of string fields with these names; a field that is missing
  -- is empty.
  pub unmarshal : List Text → Text → Option (Text → Text)
  pub purge_ok : Bool
  pub record_ok : Bool
  pub delete_ok : Bool
  pub queries : Queries

-- What a request changes.
pub record WebState : Type 0 where
  pub deliveries : Deliveries
  pub deployer : Deployer

abbrev pub max_webhook_body : ℕ
max_webhook_body = 1048576

abbrev pub hex_value : ℕ → Option ℕ
hex_value c =
    if is_digit c
    then some (c - b'0')
    else if leb b'a' c && leb c b'f'
    then some (c - b'a' + 10)
    else if leb b'A' c && leb c b'F'
    then some (c - b'A' + 10)
    else none

abbrev pub hex_cons : Option ℕ → Option ℕ → Option Text → Option Text
hex_cons (some h) (some l) (some s) = some ((h * 16 + l) ∷ s)
hex_cons _ _ _ = none

-- hex.DecodeString
unfoldable pub hex_decode : Text → Option Text
hex_decode [] = some []
hex_decode (h ∷ []) = none
hex_decode (h ∷ l ∷ s) = hex_cons (hex_value h) (hex_value l) (hex_decode s)

abbrev pub signature_prefix : Text
signature_prefix = codes "sha256="

abbrev pub is_digest : Text → Option Text → Bool
is_digest mac none = false
is_digest mac (some got) = text_eq got mac

unfoldable pub verify_github_signature : WebhookEnv → Text → Text → Text → Bool
verify_github_signature env secret body header =
    if text_eq secret []
    then false
    else if not (has_prefix header signature_prefix)
    then false
    else is_digest (env.hmac_sha256 secret body) (hex_decode (trim_prefix header signature_prefix))

unfoldable pub verify_gitlab_token : Text → Text → Bool
verify_gitlab_token secret token = if text_eq secret [] then false else text_eq token secret

abbrev pub push_of : Option (Text → Text) → ((Text → Text) → Text) → Result Refusal PushEvent
push_of none commit = err invalid_payload
push_of (some field) commit = ok (record { ref = field (codes "ref"); commit = commit field })

unfoldable pub parse_github_push : WebhookEnv → Text → Result Refusal PushEvent
parse_github_push env body =
    push_of (env.unmarshal (codes "ref" ∷ codes "after" ∷ []) body) (λ field. field (codes "after"))

abbrev pub gitlab_commit : (Text → Text) → Text
gitlab_commit field =
    if text_eq (field (codes "checkout_sha")) []
    then field (codes "after")
    else field (codes "checkout_sha")

unfoldable pub parse_gitlab_push : WebhookEnv → Text → Result Refusal PushEvent
parse_gitlab_push env body =
    push_of (env.unmarshal (codes "ref" ∷ codes "after" ∷ codes "checkout_sha" ∷ []) body)
      gitlab_commit

unfoldable pub webhook_secret : WebhookEnv → Project → Option Text
webhook_secret env p =
    if text_eq p.webhook_secret_ref []
    then none
    else if text_eq (trim_prefix p.webhook_secret_ref (codes "vault:")) []
    then none
    else env.get_secret (trim_prefix p.webhook_secret_ref (codes "vault:"))

unfoldable pub webhook_delivery_id : WebhookEnv → Text → Text
webhook_delivery_id env body = codes "body:" ++ env.sha256_hex body

-- The checks of the provider's headers, before the payload is read.
abbrev pub check_headers : WebhookEnv → Request → Text → Result Refusal (Unit {0})
check_headers env req secret = elim req.provider [
  | github ↦
      fail_if (not (text_eq (req.header (codes "X-GitHub-Event")) (codes "push")))
        (ignored (codes "not a push event"))
      >> fail_if
          (not (
            verify_github_signature env secret req.body (req.header (codes "X-Hub-Signature-256"))))
          invalid_signature
  | gitlab ↦
      fail_if (not (text_eq (req.header (codes "X-Gitlab-Event")) (codes "Push Hook")))
        (ignored (codes "not a push event"))
      >> fail_if (not (verify_gitlab_token secret (req.header (codes "X-Gitlab-Token"))))
          invalid_signature
  | other ↦ err unsupported_provider
]

abbrev pub parse_push : WebhookEnv → Request → Result Refusal PushEvent
parse_push env req = elim req.provider [
  | github ↦ parse_github_push env req.body
  | gitlab ↦ parse_gitlab_push env req.body
  | other ↦ err unsupported_provider
]

abbrev pub project_or : Result LoadError Project → Result Refusal Project
project_or (ok p) = ok p
project_or (err not_found) = err unknown_project
project_or (err load_failed) = err load_error

abbrev pub or_reply {ℓ} : {A : Type ℓ} → Refusal → Option A → Result Refusal A
or_reply r none = err r
or_reply r (some a) = ok a

abbrev pub is_too_large : Request → Bool
is_too_large req = not (req.body_arrives && leb (length req.body) max_webhook_body)

abbrev pub is_other_branch : Project → PushEvent → Bool
is_other_branch p event = not (text_eq p.branch []) && not (text_eq (branch_of event.ref) p.branch)

pub record Push : Type 0 where
  pub project : Project
  pub server : Server
  pub event : PushEvent

-- The event of a request whose headers are in order.
abbrev pub read_push : WebhookEnv → Request → Text → Result Refusal PushEvent
read_push env req secret =
    fail_if (is_too_large req) too_large >> (check_headers env req secret >> parse_push env req)

abbrev pub push_to : Project → PushEvent → Server → Push
push_to p event srv = record { project = p; server = srv; event = event }

abbrev pub route_to : Project → PushEvent → Result Refusal Server → Result Refusal Push
route_to p event (ok srv) = ok (push_to p event srv)
route_to p event (err r) = err r

abbrev pub find_server : WebhookEnv → Project → PushEvent → Result Refusal Server
find_server env p event =
    fail_if (is_other_branch p event) (ignored (codes "branch mismatch"))
    >> or_reply no_target (env.get_server p.server_id)

abbrev pub route_push : WebhookEnv → Project → PushEvent → Result Refusal Push
route_push env p event = route_to p event (find_server env p event)

abbrev pub check_push : WebhookEnv → Request → Project → Text → Result Refusal Push
check_push env req p secret = read_push env req secret >>= route_push env p

abbrev pub check_project : WebhookEnv → Request → Project → Result Refusal Push
check_project env req p = or_reply not_configured (webhook_secret env p) >>= check_push env req p

-- The part of the handler that only reads: every check up to the delivery.
unfoldable pub authorize : WebhookEnv → Request → Result Refusal Push
authorize env req = project_or (env.get_project req.project_id) >>= check_project env req

abbrev pub provider_name : Provider → Text
provider_name github = codes "github"
provider_name gitlab = codes "gitlab"
provider_name other = []

abbrev pub delivery_key : WebhookEnv → Request → DeliveryKey
delivery_key env req = record {
  provider = provider_name req.provider;
  project_id = req.project_id;
  delivery_id = webhook_delivery_id env req.body;
}

abbrev pub released : WebhookEnv → Request → Deliveries → Deliveries
released env req t = if env.delete_ok then delete_webhook_delivery (delivery_key env req) t else t

-- The answer of Trigger, behind a delivery that was recorded in `t`.
abbrev pub after_trigger :
    WebhookEnv → Request → Deliveries → Deployer × Result DeployError ℕ → WebState × Reply
after_trigger env req t (d, ok id) = (record { deliveries = t; deployer = d }, accepted id)
after_trigger env req t (d, err deploy_in_progress) =
    (record { deliveries = released env req t; deployer = d }, in_progress)
after_trigger env req t (d, err e) =
    (record { deliveries = released env req t; deployer = d }, not_started)

abbrev pub triggered : WebhookEnv → Push → Deployer → Deployer × Result DeployError ℕ
triggered env push d =
    trigger env.queries d push.project push.server (codes "webhook") push.event.commit
      push.event.ref

abbrev pub delivered : WebhookEnv → Request → Push → Deployer → Deliveries × Bool → WebState × Reply
delivered env req push d (t, false) = (record { deliveries = t; deployer = d }, duplicate)
delivered env req push d (t, true) = after_trigger env req t (triggered env push d)

abbrev pub recorded : WebhookEnv → Request → WebState → Push → Deliveries × Bool
recorded env req st push =
    record_webhook_delivery env.purge_ok env.queries.now (delivery_key env req) push.event.commit
      st.deliveries

abbrev pub deliver : WebhookEnv → Request → WebState → Push → WebState × Reply
deliver env req st push =
    if not env.record_ok
    then (
      record st { deliveries = after_purge env.purge_ok env.queries.now st.deliveries },
      not_recorded,
    )
    else delivered env req push st.deployer (recorded env req st push)

abbrev pub handle_authorized :
    WebhookEnv → Request → WebState → Result Refusal Push → WebState × Reply
handle_authorized env req st (err r) = (st, refused r)
handle_authorized env req st (ok push) = deliver env req st push

unfoldable pub handle_webhook : WebhookEnv → Request → WebState → WebState × Reply
handle_webhook env req st = handle_authorized env req st (authorize env req)
