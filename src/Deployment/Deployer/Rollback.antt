-- ===== src/Deployment/Deployer/Rollback.antt =====
-- Which release a rollback restores (internal/deployment/deployer.go).
use winify.Common.{
  ℕ, zero, suc, ◌≡◌, refl, inl, inr, Bool, true, Option, none, some, List, [], ◌∷◌, if◌then◌else◌,
  take, select, Text, Result, ok, err, Bool-cases,
}
use winify.Models.Deployments.{
  Deployment, Table, is_successful, list_deployments, successful_deployments,
}
use winify.Deployment.Deployer.Guard.{
  DeployError, no_success, no_previous_success, Queries, is_success, choose_previous,
  previous_successful,
}

-- The choice, of the last two successes and whether the latest attempt is one.
abbrev choose : Bool → List Deployment → Result DeployError Deployment
choose b [] = err no_success
choose b (s ∷ []) = if b then err no_previous_success else ok s
choose b (s ∷ t ∷ ts) = if b then ok t else ok s

-- Where a release stands in the list of the successes, newest first.
abbrev pub nth : ℕ → List Deployment → Option Deployment
nth i [] = none
nth zero (d ∷ ds) = some d
nth (suc i) (d ∷ ds) = nth i ds

-- The successes of a project, newest first.
abbrev pub successes_of : Table → Text → List Deployment
successes_of t p = select (is_successful p) t.rows

two_suffice :
    (latest successes : List Deployment) (first second : Deployment)
    → nth 0 successes ≡ some first
    → nth 1 successes ≡ some second
    → (prev : Deployment) × (choose_previous latest (take 2 successes) ≡ ok prev)
two_suffice latest [] first second h k = cc
two_suffice latest (s ∷ []) first second h k = cc
two_suffice latest (s ∷ t ∷ ts) first second h k = elim (Bool-cases (is_success latest)) [
  | inl e ↦ (t, rw e refl)
  | inr e ↦ (s, rw e refl)
]

-- If both queries succeed and the project has two successes, a release to restore is found.
pub previous_successful_finds :
    (q : Queries) (t : Table) (p : Text) (first second : Deployment)
    → q.list_ok ≡ true
    → q.successful_ok ≡ true
    → nth 0 (successes_of t p) ≡ some first
    → nth 1 (successes_of t p) ≡ some second
    → (prev : Deployment) × (previous_successful q t p ≡ ok prev)
unfolding previous_successful successful_deployments
previous_successful_finds q t p first second lists succeeds h k =
    rw lists
      (rw succeeds (two_suffice (list_deployments t p 1) (successes_of t p) first second h k))
