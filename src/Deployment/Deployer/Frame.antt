-- ===== src/Deployment/Deployer/Frame.antt =====
-- What the parts of a run leave alone before its end (internal/deployment/deployer.go).
use winify.Common.{
  ℕ, ◌≡◌, refl, ◌∙◌, ◌≢◌, Bool, true, false, Option, none, some, List, [], ◌∷◌, ◌++◌, codes, arith,
  ◌==◌, if◌then◌else◌, Text, Result, ok, err,
}
use mathlib.Core.Option
use winify.Models.Deployments.{Deployment, running, Table, with_status, with_log, get_deployment}
use winify.Models.Deployments.Order.{get-set_deployment_status, get-append_deployment_log}
use winify.Deployment.Deployer.{Job, Env, World, logf, log_lines, ProxyCall, concat}
use winify.Deployment.Deployer.Proxy.{
  register_proxy, registered_at, warn_if_domain_not_pointed_here, retire_route, retire_routes,
  cleanup_retired_proxy, called, upstream, registered_with, retired_with,
}
use winify.Deployment.Deployer.Run.{set_running, store_artifact}

abbrev pub row : World → ℕ → Option Deployment
row w j = get_deployment w.deployments j

-- From `w` to `w'` only the row of `id` was written, it was not lost, and nothing was notified.
pub record Quiet (id : ℕ) (w w' : World) : Type 0 where
  pub frame : (j : ℕ) → id ≢ j → row w' j ≡ row w j
  pub kept : row w id ≢ none → row w' id ≢ none
  pub events : w'.events ≡ w.events

-- A branch between pairs.
Quiet-first_if {ℓ} :
    {A : Type ℓ} {id : ℕ} (b : Bool) {u : World} (v w : World × A)
    → Quiet id u v.0
    → Quiet id u w.0
    → Quiet id u (if b then v else w).0
Quiet-first_if true v w p q = p
Quiet-first_if false v w p q = q

pub Quiet-refl : (id : ℕ) (w : World) → Quiet id w w
Quiet-refl id w = record { frame = λ j ne. refl; kept = λ h. h; events = refl }

pub Quiet-trans : {id : ℕ} {u v w : World} → Quiet id u v → Quiet id v w → Quiet id u w
Quiet-trans p q = record {
  frame = λ j ne. q.frame j ne ∙ p.frame j ne;
  kept = λ h. q.kept (p.kept h);
  events = q.events ∙ p.events;
}

map-ne-none :
    (f : Deployment → Deployment) (o : Option Deployment) → o ≢ none → Option.map f o ≢ none
map-ne-none f none h e = h refl
map-ne-none f (some d) h e = cc

-- A branch, or an update by id of the deployments table.
Quiet-if :
    {id : ℕ} (b : Bool) {u v w : World}
    → Quiet id u v
    → Quiet id u w
    → Quiet id u (if b then v else w)
Quiet-if true p q = p
Quiet-if false p q = q

kept_by_update :
    (id : ℕ) (f : Deployment → Deployment) (o o' : Option Deployment)
    → o' ≡ (if id == id then Option.map f o else o)
    → o ≢ none
    → o' ≢ none
kept_by_update id f o o' e h k = map-ne-none f o h (ground arith)

Quiet-write :
    (id : ℕ) (f : Deployment → Deployment) (w : World) (t : Table)
    → ((j : ℕ)
        → get_deployment t j ≡ (
            if id == j
            then Option.map f (get_deployment w.deployments j)
            else get_deployment w.deployments j))
    → Quiet id w (record w { deployments = t })
Quiet-write id f w t law = record {
  frame = λ j ne. ground (arith, law j);
  kept = kept_by_update id f (row w id) (get_deployment t id) (law id);
  events = refl;
}

module _ (env : Env) (job : Job) where
  pub Quiet-logf : (line : List Text) (w : World) → Quiet job.id w (logf env job line w)
  unfolding logf
  Quiet-logf line w =
      Quiet-if env.append_ok
        (Quiet-write job.id (with_log (concat line ++ codes "\n")) w _
          (λ j. get-append_deployment_log w.deployments job.id j (concat line ++ codes "\n")))
        (Quiet-refl job.id w)

  pub Quiet-log_lines : (lines : List Text) (w : World) → Quiet job.id w (log_lines env job lines w)
  unfolding log_lines
  Quiet-log_lines [] w = Quiet-refl job.id w
  Quiet-log_lines (line ∷ lines) w =
      Quiet-trans (Quiet-logf (line ∷ []) w) (Quiet-log_lines lines (logf env job (line ∷ []) w))

  pub Quiet-set_running : (a : Text) (w : World) → Quiet job.id w (set_running job a w)
  unfolding set_running
  Quiet-set_running a w =
      Quiet-write job.id (with_status running a) w _
        (λ j. get-set_deployment_status w.deployments job.id j running a)

  pub Quiet-store_artifact : (a : Text) (w : World) → Quiet job.id w (store_artifact env job a w)
  unfolding store_artifact
  Quiet-store_artifact [] w = Quiet-refl job.id w
  Quiet-store_artifact (c ∷ s) w =
      Quiet-if env.set_artifact_ok (Quiet-set_running (c ∷ s) w) (Quiet-refl job.id w)

  Quiet-called : (c : ProxyCall) (w : World) → Quiet job.id w (called c w)
  Quiet-called c w = record { frame = λ j ne. refl; kept = λ h. h; events = refl }

  Quiet-retired :
      (rows : List (Text × Text)) (w : World) → Quiet job.id w (record w { retired = rows })
  Quiet-retired rows w = record { frame = λ j ne. refl; kept = λ h. h; events = refl }

  Quiet-warn : (w : World) → Quiet job.id w (warn_if_domain_not_pointed_here env job w)
  unfolding warn_if_domain_not_pointed_here
  Quiet-warn w = Quiet-if _ (Quiet-refl job.id w) (Quiet-logf _ w)

  Quiet-registered_at : (host : Text) (w : World) → Quiet job.id w (registered_at env job host w).0
  Quiet-registered_at host w = go (env.register_route job.project.domain (upstream host job))
    where
      go : (r : Result Text (Unit {0})) → Quiet job.id w (registered_with env job host w r).0
      go (err e) = Quiet-called _ w
      go (ok u) = Quiet-trans (Quiet-called _ w) (Quiet-trans (Quiet-logf _ _) (Quiet-warn _))

  pub Quiet-register_proxy : (w : World) → Quiet job.id w (register_proxy env job w).0
  unfolding register_proxy
  Quiet-register_proxy w = search (Quiet-first_if, Quiet-logf, Quiet-refl, Quiet-registered_at)

  pub Quiet-retire_route : (d : Text) (w : World) → Quiet job.id w (retire_route env job d w)
  unfolding retire_route
  Quiet-retire_route d w = go (env.deregister_route d)
    where
      go : (r : Result Text (Unit {0})) → Quiet job.id w (retired_with env job d w r)
      go (err e) = Quiet-trans (Quiet-called _ w) (Quiet-logf _ _)
      go (ok u) =
          Quiet-if env.delete_retired_ok (Quiet-trans (Quiet-called _ w) (Quiet-retired _ _))
            (Quiet-trans (Quiet-called _ w) (Quiet-logf _ _))

  pub Quiet-retire_routes :
      (ds : List Text) (w : World) → Quiet job.id w (retire_routes env job ds w)
  unfolding retire_routes
  Quiet-retire_routes [] w = Quiet-refl job.id w
  Quiet-retire_routes (d ∷ ds) w =
      Quiet-trans (Quiet-retire_route d w) (Quiet-retire_routes ds (retire_route env job d w))

  pub Quiet-cleanup_retired_proxy : (w : World) → Quiet job.id w (cleanup_retired_proxy env job w)
  unfolding cleanup_retired_proxy
  Quiet-cleanup_retired_proxy w =
      Quiet-if _ (Quiet-refl job.id w) (Quiet-if _ (Quiet-logf _ w) (Quiet-retire_routes _ w))
