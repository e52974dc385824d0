-- ===== src/Server/Webhook/Authentic.antt =====
-- Only an authentic push starts a deployment (internal/server/webhook.go).
use winify.Common.{
  ◌≡◌, ◌≢◌, ◌⊎◌, refl, Bool, true, false, not, Option, none, some, [], arith, Text, codes, text_eq,
  text_eq_iff, text_eq_refl, text_eq→eq, Result, ok, err, fail_if, ◌>>◌, >>=-eq-ok, ok_of_fail_if,
  ok_of_>>,
}
use winify.Config.Entities.{Project, Server}
use mathlib.Core.Path.{subst}
use winify.Deployment.Revision.{branch_of}
use winify.Server.Webhook.{
  WebhookEnv, WebState, Request, Provider, github, gitlab, other, LoadError, not_found, load_failed,
  Refusal, refused, no_target, invalid_signature, too_large, not_configured, PushEvent, Push,
  webhook_secret, verify_github_signature, check_headers, parse_push, project_or, or_reply,
  is_too_large, read_push, push_to, route_to, find_server, route_push, check_push, check_project,
  status_code, is_other_branch, authorize, handle_authorized, handle_webhook,
}
use winify.Server.Webhook.Signature.{
  IsGithubSigned, verify_github_signature_iff, verify_gitlab_token_iff,
}

abbrev pub github_signature : Text
github_signature = codes "X-Hub-Signature-256"

abbrev pub gitlab_token : Text
gitlab_token = codes "X-Gitlab-Token"

-- A push event that carries its provider's proof of the secret.
pub data IsSigned (env : WebhookEnv) (req : Request) (secret : Text) : Type 0 where
  by_github :
      req.provider ≡ github
      → req.header (codes "X-GitHub-Event") ≡ codes "push"
      → IsGithubSigned env secret req.body (req.header github_signature)
      → IsSigned env req secret
  by_gitlab :
      req.provider ≡ gitlab
      → req.header (codes "X-Gitlab-Event") ≡ codes "Push Hook"
      → (secret ≢ [])
      → req.header gitlab_token ≡ secret
      → IsSigned env req secret

pub record IsAuthentic (env : WebhookEnv) (req : Request) (push : Push) : Type 0 where
  pub known : env.get_project req.project_id ≡ ok push.project
  pub secret : Text
  pub configured : webhook_secret env push.project ≡ some secret
  pub small : is_too_large req ≡ false
  pub signed : IsSigned env req secret
  pub payload : parse_push env req ≡ ok push.event
  pub on_branch : (push.project.branch ≡ []) ⊎ (branch_of push.event.ref ≡ push.project.branch)
  pub target : env.get_server push.project.server_id ≡ some push.server

ok_of_or_reply {ℓ} :
    {A : Type ℓ} (r : Refusal) (o : Option A) (a : A) → or_reply r o ≡ ok a → o ≡ some a
ok_of_or_reply r none a h = cc
ok_of_or_reply r (some b) a h = cc

ok_of_project_or : (r : Result LoadError Project) (p : Project) → project_or r ≡ ok p → r ≡ ok p
ok_of_project_or (ok q) p h = cc
ok_of_project_or (err not_found) p h = cc
ok_of_project_or (err load_failed) p h = cc

ok_of_then {ℓ} :
    {A : Type ℓ} (m : Result Refusal (Unit {0})) (k : Result Refusal A) (a : A)
    → (m >> k) ≡ ok a
    → (m ≡ ok tt) × (k ≡ ok a)
ok_of_then (ok tt) k a h = (refl, h)
ok_of_then (err e) k a h = cc

not-false : (b : Bool) → not b ≡ false → b ≡ true
not-false b h = ground arith

github_headers :
    (env : WebhookEnv) (req : Request) (secret : Text)
    → req.provider ≡ github
    → check_headers env req secret ≡ ok tt
    → IsSigned env req secret
github_headers env req secret e h =
    let (a, b) = ok_of_>> _ _ (rw e at h) in
    by_github e (text_eq→eq _ _ (not-false _ (ok_of_fail_if _ _ tt a))) (
      (verify_github_signature_iff env secret req.body (req.header github_signature)).0
        (not-false _ (ok_of_fail_if _ _ tt b)))

gitlab_headers :
    (env : WebhookEnv) (req : Request) (secret : Text)
    → req.provider ≡ gitlab
    → check_headers env req secret ≡ ok tt
    → IsSigned env req secret
gitlab_headers env req secret e h =
    let (a, b) = ok_of_>> _ _ (rw e at h) in
    let (full, same) =
      (verify_gitlab_token_iff secret (req.header gitlab_token)).0
        (not-false _ (ok_of_fail_if _ _ tt b)) in
    by_gitlab e (text_eq→eq _ _ (not-false _ (ok_of_fail_if _ _ tt a))) full same

other_headers :
    (env : WebhookEnv) (req : Request) (secret : Text)
    → req.provider ≡ other
    → check_headers env req secret ≢ ok tt
other_headers env req secret e h = let k = rw e at h in cc

check_headers_sound :
    (env : WebhookEnv) (req : Request) (secret : Text)
    → check_headers env req secret ≡ ok tt
    → IsSigned env req secret
check_headers_sound env req secret h = go req.provider refl
  where
    go : (p : Provider) → req.provider ≡ p → IsSigned env req secret
    go github e = github_headers env req secret e h
    go gitlab e = gitlab_headers env req secret e h
    go other e = absurd (other_headers env req secret e h)

branch_sound :
    (p : Project) (event : PushEvent)
    → is_other_branch p event ≡ false
    → (p.branch ≡ []) ⊎ (branch_of event.ref ≡ p.branch)
branch_sound p event h =
    ground (arith, text_eq_iff p.branch [], text_eq_iff (branch_of event.ref) p.branch)

ok_of_route_to :
    (p : Project) (event : PushEvent) (r : Result Refusal Server) (push : Push)
    → route_to p event r ≡ ok push
    → (srv : Server) × (r ≡ ok srv) × (push_to p event srv ≡ push)
ok_of_route_to p event (ok srv) push h = (srv, refl, cc)
ok_of_route_to p event (err r) push h = cc

-- Every push that passes the checks is authentic.
pub authorize_sound :
    (env : WebhookEnv) (req : Request) (push : Push)
    → authorize env req ≡ ok push
    → IsAuthentic env req push
unfolding authorize
authorize_sound env req push h =
    let (p, known, h1) =
      >>=-eq-ok (project_or (env.get_project req.project_id)) (check_project env req) h in
    let (secret, configured, h2) =
      >>=-eq-ok (or_reply not_configured (webhook_secret env p)) (check_push env req p) h1 in
    let (event, parsed, h3) = >>=-eq-ok (read_push env req secret) (route_push env p) h2 in
    let (srv, found, same) = ok_of_route_to p event (find_server env p event) push h3 in
    let (small, h5) =
      ok_of_then (fail_if (is_too_large req) too_large)
        (check_headers env req secret >> parse_push env req) event parsed in
    let (headers, payload) =
      ok_of_then (check_headers env req secret) (parse_push env req) event h5 in
    let (branch, target) =
      ok_of_then (fail_if (is_other_branch p event) _)
        (or_reply no_target (env.get_server p.server_id)) srv found in
    subst (IsAuthentic env req) same (record {
      known = ok_of_project_or _ p known;
      secret = secret;
      configured = ok_of_or_reply _ _ secret configured;
      small = ok_of_fail_if _ _ tt small;
      signed = check_headers_sound env req secret headers;
      payload = payload;
      on_branch = branch_sound p event (ok_of_fail_if _ _ tt branch);
      target = ok_of_or_reply _ _ srv target;
    })

handle_authorized-push :
    (env : WebhookEnv) (req : Request) (st : WebState) (r : Result Refusal Push)
    → (handle_authorized env req st r).0 ≢ st
    → (push : Push) × (r ≡ ok push)
handle_authorized-push env req st (err e) h = absurd (h refl)
handle_authorized-push env req st (ok push) h = (push, refl)

-- If a request changes anything (a delivery is recorded, a deployment row is created, a guard is
-- taken), it is an authentic push: of a known project with a webhook secret, within the size
-- limit, signed under that secret by its provider's scheme, and on the project's branch.
pub handle_webhook-IsAuthentic :
    (env : WebhookEnv) (req : Request) (st : WebState)
    → (handle_webhook env req st).0 ≢ st
    → (push : Push) × IsAuthentic env req push
unfolding handle_webhook
handle_webhook-IsAuthentic env req st h =
    let (push, e) = handle_authorized-push env req st (authorize env req) h in
    (push, authorize_sound env req push e)

refused_headers :
    (env : WebhookEnv) (req : Request) (secret : Text)
    → req.provider ≡ github
    → text_eq (req.header (codes "X-GitHub-Event")) (codes "push") ≡ true
    → verify_github_signature env secret req.body (req.header github_signature) ≡ false
    → check_headers env req secret ≡ err invalid_signature
refused_headers env req secret e event h = rw e (rw event (rw h refl))

refused_authorize :
    (env : WebhookEnv) (req : Request) (p : Project) (secret : Text)
    → env.get_project req.project_id ≡ ok p
    → webhook_secret env p ≡ some secret
    → is_too_large req ≡ false
    → check_headers env req secret ≡ err invalid_signature
    → authorize env req ≡ err invalid_signature
unfolding authorize
refused_authorize env req p secret known configured small headers =
    rw known (rw configured (rw small (rw headers refl)))

-- A push to a configured project that does not carry GitHub's signature under its secret is
-- answered with 401 and changes nothing.
pub forged_push_refused :
    (env : WebhookEnv) (req : Request) (st : WebState) (p : Project) (secret : Text)
    → env.get_project req.project_id ≡ ok p
    → webhook_secret env p ≡ some secret
    → is_too_large req ≡ false
    → req.provider ≡ github
    → req.header (codes "X-GitHub-Event") ≡ codes "push"
    → ¬ IsGithubSigned env secret req.body (req.header github_signature)
    → (handle_webhook env req st ≡ (st, refused invalid_signature))
      × (status_code (handle_webhook env req st).1 ≡ 401)
unfolding handle_webhook status_code
forged_push_refused env req st p secret known configured small provider event forged =
    let unsigned : verify_github_signature env secret req.body (req.header github_signature)
        ≡ false =
      ground
        (arith, verify_github_signature_iff env secret req.body (req.header github_signature)) in
    let headers = refused_headers env req secret provider (rw event (text_eq_refl _)) unsigned in
    let whole = refused_authorize env req p secret known configured small headers in
    rw whole (refl, refl)
