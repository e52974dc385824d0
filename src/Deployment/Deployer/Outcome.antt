-- ===== src/Deployment/Deployer/Outcome.antt =====
-- How a run ends (internal/deployment/deployer.go).
use winify.Common.{
  ℕ, ◌≡◌, refl, ap, ◌∙◌, ◌≢◌, true, not, Option, none, some, List, [], ◌∷◌, arith, ◌==◌,
  if◌then◌else◌, Text, text_eq, Result, ok, err,
}
use mathlib.Core.Option
use winify.Config.Entities.{Project}
use winify.Models.Deployments.{Deployment, Status, success, failed, with_finish}
use winify.Models.Deployments.Order.{get-finish_deployment}
use mathlib.Core.Path.{subst}
use winify.Deployment.Deployer.{
  Job, Env, World, Event, EventStatus, pending, succeeded, failure, RunError, target,
  no_target_host, register, deploy_event, safe_error, notify, finish, fail, target_host,
}
use winify.Deployment.Deployer.Proxy.{register_proxy, upstream}
use winify.Deployment.Deployer.Run.{
  succeed, set_running, started, started_line, with_artifact, after_proxy, after_target, pipeline,
  on_target_with, run_with, run, resolve_shared_vars,
}
use winify.Deployment.Deployer.Frame.{
  row, Quiet, Quiet-trans, Quiet-logf, Quiet-log_lines, Quiet-set_running, Quiet-store_artifact,
  Quiet-register_proxy, Quiet-cleanup_retired_proxy,
}

-- What registerProxy comes to, read off the environment alone.
abbrev pub route_answer : Text → Result Text (Unit {0}) → Result RunError (Unit {0})
route_answer domain (err e) = err (register domain e)
route_answer domain (ok _) = ok tt

abbrev pub route_outcome : Env → Job → Result RunError (Unit {0})
route_outcome env job =
    if text_eq job.project.domain []
    then ok tt
    else if not env.proxy_enabled
    then ok tt
    else if text_eq (target_host env job.server) []
    then err no_target_host
    else route_answer job.project.domain
        (env.register_route job.project.domain (upstream (target_host env job.server) job))

-- The job as it stood at the end, with the error that ended it if it failed.
abbrev pub Outcome : Type 0
Outcome = Result (Job × RunError) Job

abbrev pub end_route : Job → Result RunError (Unit {0}) → Outcome
end_route job (err e) = err (job, e)
end_route job (ok _) = ok job

abbrev pub end_pipeline : Env → Job → Result Text Text → Outcome
end_pipeline env job (err e) = err (job, target e)
end_pipeline env job (ok artifact) =
    let job' = with_artifact job artifact in end_route job' (route_outcome env job')

abbrev pub end_target : Env → Job → Result Text (Unit {0}) → Outcome
end_target env job (err e) = err (job, target e)
end_target env job (ok _) = end_pipeline env job (pipeline env job).1

abbrev pub end_vars : Env → Job → Result RunError Project → Outcome
end_vars env job (err e) = err (job, e)
end_vars env job (ok project) =
    let job' = record job { project = project } in end_target env job' (env.new_target job')

-- The outcome of a run as a chain of questions to the environment: it never looks at the world.
unfoldable pub outcome : Env → Job → Outcome
outcome env job = end_vars env job (resolve_shared_vars env job.project)

abbrev pub status_at : World → ℕ → Option Status
status_at w j = Option.map (λ (d : Deployment). d.status) (row w j)

abbrev pub final_status : Outcome → Status
final_status (err e) = failed
final_status (ok job) = success

abbrev pub final_event : Env → Outcome → Event
final_event env (err (job, e)) = deploy_event env job failure (safe_error env e)
final_event env (ok job) = deploy_event env job succeeded []

-- From `u` to `v` the row of `id` was closed with a status, no other row was written, and one event
-- was sent.
pub record Closes (id : ℕ) (st : Status) (ev : Event) (u v : World) : Type 0 where
  pub frame : (j : ℕ) → id ≢ j → row v j ≡ row u j
  pub closed : row u id ≢ none → status_at v id ≡ some st
  pub events : v.events ≡ ev ∷ u.events

Closes-after :
    {id : ℕ} {st : Status} {ev : Event} {u v w : World}
    → Quiet id u v
    → Closes id st ev v w
    → Closes id st ev u w
Closes-after {ev} q c = record {
  frame = λ j ne. c.frame j ne ∙ q.frame j ne;
  closed = λ h. c.closed (q.kept h);
  events = c.events ∙ ap (λ (es : List Event). ev ∷ es) q.events;
}

status_of_finish :
    (o o' : Option Deployment) (st : Status) (m : Text) (now id : ℕ)
    → o' ≡ (if id == id then Option.map (with_finish st m now) o else o)
    → o ≢ none
    → Option.map (λ (d : Deployment). d.status) o' ≡ some st
status_of_finish none o' st m now id e h = absurd (h refl)
status_of_finish (some d) o' st m now id e h = ground arith

pub register_proxy-answer :
    (env : Env) (job : Job) (w : World) → (register_proxy env job w).1 ≡ route_outcome env job
unfolding register_proxy
register_proxy-answer env job w = ground arith

module _ (env : Env) (finishes : env.finish_ok ≡ true) where
  -- Finishing a row and then notifying.
  Closes-finish :
      (job : Job) (st : Status) (m : Text) (ev : EventStatus) (w : World)
      → Closes job.id st (deploy_event env job ev m) w (notify env job ev m (finish env job st m w))
  unfolding notify finish
  Closes-finish job st m ev w = record {
    frame = λ j ne. ground (arith, get-finish_deployment w.deployments job.id j st m env.now);
    closed = λ h. rw finishes (
        status_of_finish (row w job.id) _ st m env.now job.id
          (get-finish_deployment w.deployments job.id job.id st m env.now) h);
    events = ground arith;
  }

  Closes-fail :
      (job : Job) (e : RunError) (w : World)
      → Closes job.id failed (deploy_event env job failure (safe_error env e)) w (fail env job e w)
  unfolding fail
  Closes-fail job e w =
      Closes-after (Quiet-logf env job _ w) (Closes-finish job failed (safe_error env e) failure _)

  Closes-succeed :
      (job : Job) (w : World)
      → Closes job.id success (deploy_event env job succeeded []) w (succeed env job w)
  unfolding succeed
  Closes-succeed job w =
      Closes-after (Quiet-cleanup_retired_proxy env job w)
        (Closes-after (Quiet-logf env job _ _) (Closes-finish job success [] succeeded _))

  -- What is said of an outcome, for the row of `id`.
  abbrev Ends : ℕ → Outcome → World → World → Type 0
  Ends id o u v = Closes id (final_status o) (final_event env o) u v

  Ends-after_proxy :
      (job : Job) (u w : World) (r : Result RunError (Unit {0}))
      → Quiet job.id u w
      → Ends job.id (end_route job r) u (after_proxy env job (w, r))
  Ends-after_proxy job u w (err e) q = Closes-after q (Closes-fail job e w)
  Ends-after_proxy job u w (ok _) q = Closes-after q (Closes-succeed job w)

  Ends-with_artifact :
      (job : Job) (u w : World)
      → Quiet job.id u w
      → Ends job.id
          (end_route job (route_outcome env job))
          u
          (after_proxy env job (register_proxy env job w))
  Ends-with_artifact job u w q =
      let reg = register_proxy env job w in
      subst (λ r. Ends job.id (end_route job r) u (after_proxy env job reg))
        (register_proxy-answer env job w)
        (Ends-after_proxy job u reg.0 reg.1 (Quiet-trans q (Quiet-register_proxy env job w)))

  Ends-after_target :
      (job : Job) (r : Result Text Text) (w : World)
      → Ends job.id (end_pipeline env job r) w (after_target env job r w)
  Ends-after_target job (err e) w = Closes-fail job (target e) w
  Ends-after_target job (ok []) w = Ends-with_artifact job w _ (Quiet-store_artifact env job [] w)
  Ends-after_target job (ok (c ∷ s)) w =
      Ends-with_artifact (with_artifact job (c ∷ s)) w _ (Quiet-store_artifact env job (c ∷ s) w)

  Ends-on_target :
      (job : Job) (r : Result Text (Unit {0})) (w : World)
      → Ends job.id (end_target env job r) w (on_target_with env job w r)
  Ends-on_target job (err e) w = Closes-fail job (target e) w
  Ends-on_target job (ok _) w =
      Closes-after (Quiet-log_lines env job (pipeline env job).0 w)
        (Ends-after_target job (pipeline env job).1 _)

  Ends-run_with :
      (job : Job) (r : Result RunError Project) (w : World)
      → Ends job.id (end_vars env job r) w (run_with env job w r)
  Ends-run_with job (err e) w = Closes-fail job e w
  Ends-run_with job (ok project) w =
      Ends-on_target (record job { project = project })
        (env.new_target (record job { project = project })) w

-- What stands when the target is asked: the first event is out, and the row is still there.
record Opens (env : Env) (job : Job) (w : World) : Type 0 where
  frame : (j : ℕ) → job.id ≢ j → row (started env job w) j ≡ row w j
  kept : row w job.id ≢ none → row (started env job w) job.id ≢ none
  events : (started env job w).events ≡ deploy_event env job pending [] ∷ w.events

Opens-started : (env : Env) (job : Job) (w : World) → Opens env job w
unfolding notify
Opens-started env job w =
    let set = Quiet-set_running env job job.artifact w in
    let logged =
      Quiet-logf env job (started_line job)
        (notify env job pending [] (set_running job job.artifact w)) in
    record {
      frame = λ j ne. logged.frame j ne ∙ set.frame j ne;
      kept = λ h. logged.kept (set.kept h);
      events =
          logged.events ∙ ap (λ (es : List Event). deploy_event env job pending [] ∷ es) set.events;
    }

run_of_set_running :
    (env : Env) (job : Job) (w : World)
    → env.set_running_ok ≡ true
    → run env job w ≡ run_with env job (started env job w) (resolve_shared_vars env job.project)
unfolding run
run_of_set_running env job w h = rw h

-- If the database accepts the first and the last write, a run closes its row and leaves every
-- other row alone. The row is a success exactly when the shared variables resolve, the target
-- connects, its pipeline returns and the route (if there is one to make) is registered, and a
-- failure otherwise. The events sent are "pending" and then one for that end, with its error
-- redacted.
pub run_ends :
    (env : Env) (job : Job) (w : World)
    → env.set_running_ok ≡ true
    → env.finish_ok ≡ true
    → row w job.id ≢ none
    → (status_at (run env job w) job.id ≡ some (final_status (outcome env job)))
      × ((j : ℕ) → job.id ≢ j → row (run env job w) j ≡ row w j)
      × ((run env job w).events
          ≡ final_event env (outcome env job) ∷ deploy_event env job pending [] ∷ w.events)
unfolding outcome
run_ends env job w sets finishes present =
    let opened = Opens-started env job w in
    let ended =
      Ends-run_with env finishes job (resolve_shared_vars env job.project) (started env job w) in
    rw (run_of_set_running env job w sets) (
      ended.closed (opened.kept present),
      λ j ne. ended.frame j ne ∙ opened.frame j ne,
      ended.events ∙ ap (λ (es : List Event). final_event env (outcome env job) ∷ es) opened.events,
    )
