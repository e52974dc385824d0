-- ===== src/Server/Webhook/Replay.antt =====
-- Deliveries that come twice (internal/server/webhook.go).
use winify.Common.{ℕ, ◌≡◌, Bool, true, false, some, Text, Bool-cases, Result, ok, err, inl, inr}
use winify.Models.Deliveries.{Deliveries, record_webhook_delivery, released_is_accepted}
use winify.Deployment.Deployer.Guard.{
  Deployer, DeployError, deploy_in_progress, no_success, no_previous_success, database,
}
use winify.Server.Webhook.{
  WebhookEnv, WebState, Request, Refusal, in_progress, recorded, Push, authorize, delivery_key,
  webhook_delivery_id, released, after_trigger, triggered, delivered, deliver, handle_authorized,
  handle_webhook,
}

-- The row of the request's delivery, as it was accepted.
record IsRecorded (env : WebhookEnv) (req : Request) (st : WebState) : Type 0 where
  commit : Text
  row :
      st.deliveries (delivery_key env req)
      ≡ some (record { commit_sha = commit; received_at = env.queries.now })

after_trigger-in_progress :
    (env : WebhookEnv) (req : Request) (t : Deliveries) (r : Deployer × Result DeployError ℕ)
    (st : WebState)
    → after_trigger env req t r ≡ (st, in_progress)
    → (st.deliveries ≡ released env req t)
after_trigger-in_progress env req t (d, ok n) st h = cc
after_trigger-in_progress env req t (d, err deploy_in_progress) st h = cc
after_trigger-in_progress env req t (d, err no_success) st h = cc
after_trigger-in_progress env req t (d, err no_previous_success) st h = cc
after_trigger-in_progress env req t (d, err database) st h = cc

delivered-in_progress :
    (env : WebhookEnv) (req : Request) (push : Push) (d : Deployer) (r : Deliveries × Bool)
    (st : WebState)
    → delivered env req push d r ≡ (st, in_progress)
    → (t : Deliveries) × (st.deliveries ≡ released env req t)
delivered-in_progress env req push d (t, false) st h = cc
delivered-in_progress env req push d (t, true) st h =
    (t, after_trigger-in_progress env req t (triggered env push d) st h)

deliver-in_progress :
    (env : WebhookEnv) (req : Request) (st st' : WebState) (push : Push)
    → deliver env req st push ≡ (st', in_progress)
    → (t : Deliveries) × (st'.deliveries ≡ released env req t)
unfolding webhook_delivery_id
deliver-in_progress env req st st' push h = elim (Bool-cases env.record_ok) [
  | inl e ↦
      delivered-in_progress env req push st.deployer (recorded env req st push) st' (rw e at h)
  | inr e ↦ let k = rw e at h in cc
]

handle-in_progress :
    (env : WebhookEnv) (req : Request) (st st' : WebState) (r : Result Refusal Push)
    → handle_authorized env req st r ≡ (st', in_progress)
    → (t : Deliveries) × (st'.deliveries ≡ released env req t)
handle-in_progress env req st st' (err e) h = cc
handle-in_progress env req st st' (ok push) h = deliver-in_progress env req st st' push h

-- A delivery that finds a deployment in progress is released, if the database lets it: the
-- provider's retry is taken as new, at any time and whatever commit it names.
pub retry_is_taken :
    (env : WebhookEnv) (req : Request) (st st' : WebState) (p : Bool) (later : ℕ) (c : Text)
    → handle_webhook env req st ≡ (st', in_progress)
    → env.delete_ok ≡ true
    → (record_webhook_delivery p later (delivery_key env req) c st'.deliveries).1 ≡ true
unfolding handle_webhook webhook_delivery_id authorize
retry_is_taken env req st st' p later c h deletes =
    let (t, same) = handle-in_progress env req st st' (authorize env req) h in
    rw same (rw deletes (released_is_accepted p later (delivery_key env req) c t))
