-- ===== src/Deployment/Deployer/Guard.antt =====
-- The in-flight guard of internal/deployment/deployer.go: Trigger and Rollback, and the goroutines
-- that they start, under every interleaving.
pub mod Invariant
use winify.Common.{
  ℕ, zero, suc, ◌+◌, Bool, true, false, not, ◌&&◌, ◌||◌, Option, none, some, List, [], ◌∷◌,
  if◌then◌else◌, ◌==◌, any, select, Text, codes, text_eq, Result, ok, err, ◌≡◌, ◌<◌,
}
use winify.Config.Entities.{
  Project, Server, server_type_iis, server_type_windows_service, project_source_compose,
}
use winify.Models.Deployments.{
  Deployment, Status, queued, success, status_eq, Table, create_deployment, list_deployments,
  successful_deployments,
}
use winify.Deployment.Deployer.{Job, Env, World}
use winify.Deployment.Deployer.Run.{run}

pub data DeployError : Type 0 where
  deploy_in_progress no_success no_previous_success database : DeployError

-- `starting` holds the projects whose Trigger or Rollback has taken the guard and not yet started
-- its goroutine; `workers` are the goroutines whose deferred Delete has not run.
pub record Deployer : Type 0 where
  pub in_flight : List Text
  pub starting : List Text
  pub workers : List Job
  pub world : World

-- Which queries of a call succeed, and the clock.
pub record Queries : Type 0 where
  pub list_ok : Bool
  pub successful_ok : Bool
  pub create_ok : Bool
  pub now : ℕ

abbrev pub member : Text → List Text → Bool
member p xs = any (λ q. text_eq q p) xs

-- inFlight.Delete
unfoldable pub remove : Text → List Text → List Text
remove p xs = select (λ q. not (text_eq q p)) xs

unfoldable pub remove_one : Text → List Text → List Text
remove_one p [] = []
remove_one p (q ∷ qs) = let rest = q ∷ remove_one p qs in if text_eq q p then qs else rest

abbrev pub guarded : Text → Deployer → Deployer
guarded p d = record d { in_flight = p ∷ d.in_flight; starting = p ∷ d.starting }

-- inFlight.LoadOrStore: none if the project was there.
unfoldable pub load_or_store : Text → Deployer → Option Deployer
load_or_store p d = if member p d.in_flight then none else some (guarded p d)

-- The error path behind CreateDeployment.
unfoldable pub release : Text → Deployer → Deployer
release p d = record d { in_flight = remove p d.in_flight; starting = remove_one p d.starting }

-- The row is created and the goroutine started.
unfoldable pub launch : Deployment → Job → Deployer → Deployer × ℕ
launch row job d =
    let (t, id) = create_deployment d.world.deployments row in
    (
      record d {
        starting = remove_one job.project.id d.starting;
        workers = record job { id = id } ∷ d.workers;
        world = record d.world { deployments = t };
      },
      id,
    )

abbrev pub head_artifact : List Deployment → Text
head_artifact [] = []
head_artifact (d ∷ ds) = d.image_tag

abbrev pub previous_artifact_of : Queries → Table → Text → Text
previous_artifact_of q t p =
    if q.successful_ok then head_artifact (successful_deployments t p 1) else []

abbrev pub new_row : Queries → Project → Server → Text → Text → Text → Text → Deployment
new_row q project srv trigger commit ref image_tag = record {
  id = 0;
  project_id = project.id;
  target_type = srv.type;
  commit_sha = commit;
  ref = ref;
  image_tag = image_tag;
  status = queued;
  trigger = trigger;
  log = [];
  error = [];
  started_at = q.now;
  finished_at = 0;
}

-- The end of Trigger and of Rollback, with the guard taken.
abbrev pub begin_with : Bool → Deployment → Job → Deployer → Deployer × Result DeployError ℕ
begin_with true row job d = let (d', id) = launch row job d in (d', ok id)
begin_with false row job d = (release job.project.id d, err database)

abbrev pub begin : Queries → Deployment → Job → Deployer → Deployer × Result DeployError ℕ
begin q row job d = begin_with q.create_ok row job d

abbrev pub begin_if_free :
    Queries → Deployment → Job → Deployer → Option Deployer → Deployer × Result DeployError ℕ
begin_if_free q row job d none = (d, err deploy_in_progress)
begin_if_free q row job d (some d') = begin q row job d'

abbrev pub trigger_job : Queries → Table → Project → Server → Text → Text → Text → Job
trigger_job q t project srv trig commit ref = record {
  id = 0;
  project = project;
  server = srv;
  trigger = trig;
  commit = commit;
  ref = ref;
  artifact = [];
  previous_artifact = previous_artifact_of q t project.id;
  rollback = false;
}

unfoldable pub trigger :
    Queries → Deployer → Project → Server → Text → Text → Text → Deployer × Result DeployError ℕ
trigger q d project srv trig commit ref =
    begin_if_free q (new_row q project srv trig commit ref [])
      (trigger_job q d.world.deployments project srv trig commit ref) d (load_or_store project.id d)

abbrev pub is_success : List Deployment → Bool
is_success [] = false
is_success (d ∷ ds) = status_eq d.status success

-- The choice of previousSuccessful, by the latest attempt and the last two successes.
abbrev pub choose_previous : List Deployment → List Deployment → Result DeployError Deployment
choose_previous latest [] = err no_success
choose_previous latest (s ∷ []) = if is_success latest then err no_previous_success else ok s
choose_previous latest (s ∷ t ∷ ts) = if is_success latest then ok t else ok s

unfoldable pub previous_successful : Queries → Table → Text → Result DeployError Deployment
previous_successful q t p =
    if not q.list_ok || not q.successful_ok
    then err database
    else choose_previous (list_deployments t p 1) (successful_deployments t p 2)

abbrev pub no_deployment : Deployment
no_deployment = record {
  id = 0;
  project_id = [];
  target_type = [];
  commit_sha = [];
  ref = [];
  image_tag = [];
  status = queued;
  trigger = [];
  log = [];
  error = [];
  started_at = 0;
  finished_at = 0;
}

abbrev pub rollback_commit : Project → Deployment → Text
rollback_commit project prev =
    if text_eq project.source project_source_compose && not (text_eq prev.image_tag [])
    then prev.image_tag
    else prev.commit_sha

-- IIS and native services restore a backup found on the target.
abbrev pub restores_backup : Server → Bool
restores_backup srv =
    text_eq srv.type server_type_iis || text_eq srv.type server_type_windows_service

abbrev pub rollback_to :
    Queries
    → Deployer
    → Project
    → Server
    → Result DeployError Deployment
    → Deployer × Result DeployError ℕ
rollback_to q d project srv (err e) = (d, err e)
rollback_to q d project srv (ok prev) =
    let commit = rollback_commit project prev in
    begin_if_free q (new_row q project srv (codes "rollback") commit [] prev.image_tag)
      (record {
        id = 0;
        project = project;
        server = srv;
        trigger = codes "rollback";
        commit = commit;
        ref = prev.ref;
        artifact = prev.image_tag;
        previous_artifact = [];
        rollback = true;
      })
      d (load_or_store project.id d)

unfoldable pub rollback : Queries → Deployer → Project → Server → Deployer × Result DeployError ℕ
rollback q d project srv = rollback_to q d project srv (
    if restores_backup srv
    then ok no_deployment
    else previous_successful q d.world.deployments project.id)

unfoldable pub find_worker : ℕ → List Job → Option Job
find_worker id [] = none
find_worker id (j ∷ js) = if j.id == id then some j else find_worker id js

unfoldable pub remove_worker : ℕ → List Job → List Job
remove_worker id [] = []
remove_worker id (j ∷ js) = let rest = j ∷ remove_worker id js in if j.id == id then js else rest

-- The goroutine's deferred calls.
unfoldable pub leave : Job → Deployer → Deployer
leave job d = record d {
  in_flight = remove job.project.id d.in_flight;
  workers = remove_worker job.id d.workers;
}

-- A whole goroutine: the run, and the deferred calls.
unfoldable pub work : Env → Job → Deployer → Deployer
work env job d = leave job (record d { world = run env job d.world })

-- The interleavings: a call takes the guard, and then gives it back or starts its goroutine; a
-- goroutine writes to the world, and at last leaves. Any other call may come between.
pub data Step (d : Deployer) : Deployer → Type 0 where
  take_guard : (p : Text) {d' : Deployer} → load_or_store p d ≡ some d' → Step d d'
  give_back : (p : Text) → member p d.starting ≡ true → Step d (release p d)
  start :
      (row : Deployment) (job : Job)
      → member job.project.id d.starting ≡ true
      → Step d (launch row job d).0
  write : (w : World) → Step d (record d { world = w })
  done : (job : Job) → find_worker job.id d.workers ≡ some job → Step d (leave job d)

pub data Reach (d : Deployer) : Deployer → Type 0 where
  here : Reach d d
  next : {e f : Deployer} → Reach d e → Step e f → Reach d f
