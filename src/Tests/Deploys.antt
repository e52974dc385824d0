-- ===== src/Tests/Deploys.antt =====
-- Deployments that run, fail and go back.
use winify.Common.{ℕ, ◌+◌, ◌≤◌, ◌≡◌, ◌≢◌, refl, none, some, [], ◌∷◌, codes, text_eq}
use winify.Models.Deployments.{Deployment, success, get_deployment, find_row}
use winify.Deployment.Deployer.{deploy_event, pending}
use winify.Deployment.Deployer.Run.{run}
use winify.Deployment.Deployer.Frame.{row}
use winify.Deployment.Deployer.Outcome.{run_ends, outcome, final_status, final_event, status_at}
use winify.Deployment.Deployer.Rollback.{nth, successes_of}
use winify.Deployment.Deployer.Guard.{
  Deployer, load_or_store, guarded, trigger, take_guard, here, next,
}
use winify.Deployment.Deployer.Guard.Invariant.{idle, count, count_jobs, one_job_per_project}
use winify.Tests.Data.{settled, world, env, job}

row_is_there : row world 3 ≢ none
unfolding get_deployment find_row
row_is_there e = cc

run_ends_example :
    (status_at (run env job world) 3 ≡ some (final_status (outcome env job)))
    × ((j : ℕ) → 3 ≢ j → row (run env job world) j ≡ row world j)
    × ((run env job world).events
        ≡ final_event env (outcome env job) ∷ deploy_event env job pending [] ∷ [])
run_ends_example = run_ends env job world refl refl row_is_there

abbrev newest : Deployment
newest = record {
  id = 2;
  project_id = codes "shop";
  target_type = codes "docker";
  commit_sha = codes "0123abc";
  ref = codes "main";
  image_tag = codes "shop:b";
  status = success;
  trigger = codes "manual";
  log = [];
  error = [];
  started_at = 100;
  finished_at = 0;
}

abbrev older : Deployment
older = record newest { id = 1; image_tag = codes "shop:a" }

first_success : nth 0 (successes_of settled (codes "shop")) ≡ some newest
unfolding text_eq
first_success = refl

second_success : nth 1 (successes_of settled (codes "shop")) ≡ some older
unfolding text_eq
second_success = refl

-- The guard of the shop is taken.
abbrev busy : Deployer
busy = guarded (codes "shop") (idle world)

takes : load_or_store (codes "shop") (idle world) ≡ some busy
unfolding load_or_store
takes = refl

one_job_per_project_example :
    (count (codes "shop") busy.starting + count_jobs (codes "shop") busy.workers ≤ 1)
    × (count (codes "shop") busy.in_flight
        ≡ count (codes "shop") busy.starting + count_jobs (codes "shop") busy.workers)
one_job_per_project_example =
    one_job_per_project world busy (codes "shop") (next here (take_guard (codes "shop") takes))
