-- ===== src/Deployment/Deployer/Guard/Invariant.antt =====
-- One job at a time for each project (internal/deployment/deployer.go).
use winify.Common.{
  ℕ, ◌+◌, ◌≤◌, ◌≡◌, refl, Bool, true, false, some, List, [], ◌∷◌, arith, if◌then◌else◌, Text,
  text_eq, text_eq_iff, text_eq_refl, inl, inr, Result, ok, err, Bool-cases,
}
use winify.Config.Entities.{Project, Server}
use winify.Deployment.Deployer.{Job, World}
use winify.Models.Deployments.{Deployment}
use winify.Deployment.Deployer.Guard.{
  Deployer, DeployError, Queries, member, remove, remove_one, load_or_store, release, launch,
  find_worker, remove_worker, leave, guarded, begin_with, begin_if_free, rollback_to, Step,
  take_guard, give_back, start, write, done, Reach, here, next, rollback,
}

-- How often a project stands in a list of ids, or among the jobs.
abbrev pub count : Text → List Text → ℕ
count p [] = 0
count p (q ∷ qs) = (if text_eq q p then 1 else 0) + count p qs

abbrev pub count_jobs : Text → List Job → ℕ
count_jobs p [] = 0
count_jobs p (j ∷ js) = (if text_eq j.project.id p then 1 else 0) + count_jobs p js

-- The guard of a project is held once or not at all, and then by exactly one owner: a call that
-- is starting a job, or a job's goroutine.
abbrev pub IsHeldOnce : Deployer → Text → Type 0
IsHeldOnce d p =
    (count p d.starting + count_jobs p d.workers ≡ count p d.in_flight) × (count p d.in_flight ≤ 1)

pub record IsExclusive (d : Deployer) : Type 0 where
  pub held : (p : Text) → IsHeldOnce d p

count-member : (p : Text) (xs : List Text) → member p xs ≡ false → count p xs ≡ 0
count-member p [] h = refl
count-member p (x ∷ xs) h = ground (arith, count-member p xs)

member-count : (p : Text) (xs : List Text) → member p xs ≡ true → 1 ≤ count p xs
member-count p [] h = cc
member-count p (x ∷ xs) h = ground (arith, member-count p xs)

count-remove :
    (p q : Text) (xs : List Text) → count q (remove p xs) ≡ (if text_eq p q then 0 else count q xs)
unfolding remove
count-remove p q [] = ground arith
count-remove p q (x ∷ xs) =
    ground (arith, count-remove p q xs, text_eq_iff x p, text_eq_iff x q, text_eq_iff p q)

count-remove_one :
    (p q : Text) (xs : List Text)
    → member p xs ≡ true
    → count q (remove_one p xs) + (if text_eq p q then 1 else 0) ≡ count q xs
unfolding remove_one
count-remove_one p q [] h = cc
count-remove_one p q (x ∷ xs) h =
    ground (arith, count-remove_one p q xs, text_eq_iff x p, text_eq_iff x q, text_eq_iff p q)

count-remove_worker :
    (q : Text) (id : ℕ) (job : Job) (js : List Job)
    → find_worker id js ≡ some job
    → count_jobs q (remove_worker id js) + (if text_eq job.project.id q then 1 else 0)
      ≡ count_jobs q js
unfolding find_worker remove_worker
count-remove_worker q id job [] h = cc
count-remove_worker q id job (j ∷ js) h = ground (arith, count-remove_worker q id job js)

Step-IsExclusive : {d e : Deployer} → Step d e → IsExclusive d → IsExclusive e
unfolding load_or_store release launch leave
Step-IsExclusive {d} (take_guard p e) x = record {
  held = λ q. ground (arith, x.held q, count-member p d.in_flight, text_eq_iff p q);
}
Step-IsExclusive {d} (give_back p m) x = record {
  held = λ q. ground (
    arith,
    x.held q,
    count-remove p q d.in_flight,
    count-remove_one p q d.starting,
    member-count p d.starting m,
    text_eq_iff p q,
  );
}
Step-IsExclusive {d} (start row job m) x = record {
  held = λ q. ground (arith, x.held q, count-remove_one job.project.id q d.starting);
}
Step-IsExclusive (write w) x = record { held = x.held }
Step-IsExclusive {d} (done job f) x = record {
  held = λ q. ground (
    arith,
    x.held q,
    count-remove job.project.id q d.in_flight,
    count-remove_worker q job.id job d.workers,
  );
}

-- Before any call nothing is in flight.
abbrev pub idle : World → Deployer
idle w = record { in_flight = []; starting = []; workers = []; world = w }

IsExclusive-idle : (w : World) → IsExclusive (idle w)
IsExclusive-idle w = record { held = λ p. (refl, omega arith) }

Reach-IsExclusive : {d e : Deployer} → IsExclusive d → Reach d e → IsExclusive e
Reach-IsExclusive x here = x
Reach-IsExclusive x (next r s) = Step-IsExclusive s (Reach-IsExclusive x r)

-- From the idle deployer, whatever calls and goroutines run and however their steps interleave,
-- for each project at most one call is starting a job or one job's goroutine is running, and the
-- guard is set exactly while one is.
pub one_job_per_project :
    (w : World) (d : Deployer) (p : Text)
    → Reach (idle w) d
    → (count p d.starting + count_jobs p d.workers ≤ 1)
      × (count p d.in_flight ≡ count p d.starting + count_jobs p d.workers)
one_job_per_project w d p r =
    let held = (Reach-IsExclusive (IsExclusive-idle w) r).held p in (omega arith, omega arith)

member-head : (p : Text) (xs : List Text) → member p (p ∷ xs) ≡ true
member-head p xs = ground (arith, text_eq_refl p)

taken : (p : Text) (d : Deployer) → member p d.in_flight ≡ false → Reach d (guarded p d)
unfolding load_or_store
taken p d h = next here (take_guard p (ground arith))

begin-Reach :
    (b : Bool) (row : Deployment) (job : Job) (d : Deployer)
    → member job.project.id d.in_flight ≡ false
    → Reach d (begin_with b row job (guarded job.project.id d)).0
begin-Reach true row job d free =
    next (taken job.project.id d free) (start row job (member-head job.project.id d.starting))
begin-Reach false row job d free =
    next (taken job.project.id d free)
      (give_back job.project.id (member-head job.project.id d.starting))

begin_if_free-Reach :
    (q : Queries) (row : Deployment) (job : Job) (d : Deployer)
    → Reach d (begin_if_free q row job d (load_or_store job.project.id d)).0
unfolding load_or_store
begin_if_free-Reach q row job d = elim (Bool-cases (member job.project.id d.in_flight)) [
  | inl held ↦ rw held here
  | inr free ↦ rw free (begin-Reach q.create_ok row job d free)
]

-- Every call of Rollback is a sequence of the steps too, whatever release it finds.
pub rollback_steps :
    (q : Queries) (d : Deployer) (project : Project) (srv : Server)
    → Reach d (rollback q d project srv).0
unfolding rollback
rollback_steps q d project srv = go _
  where
    go : (r : Result DeployError Deployment) → Reach d (rollback_to q d project srv r).0
    go (err e) = here
    go (ok prev) = begin_if_free-Reach q _ _ d
