-- ===== src/Models/Deployments/Reachable.antt =====
-- The deployments table under every sequence of its operations (internal/models/store.go).
use winify.Common.{ℕ, [], Text}
use winify.Models.Deployments.{
  Table, Deployment, Status, create_deployment, set_deployment_status, append_deployment_log,
  finish_deployment, fail_interrupted_deployments, prune_deployments,
}

-- The statements that write to the table.
pub data Write (t : Table) : Table → Type 0 where
  create : (d : Deployment) → Write t (create_deployment t d).0
  set_status : (id : ℕ) (st : Status) (a : Text) → Write t (set_deployment_status t id st a)
  append : (id : ℕ) (chunk : Text) → Write t (append_deployment_log t id chunk)
  finish : (id : ℕ) (st : Status) (m : Text) (at : ℕ) → Write t (finish_deployment t id st m at)
  recover : (now : ℕ) → Write t (fail_interrupted_deployments t now).0
  prune : (before : ℕ) → Write t (prune_deployments t before)

abbrev pub empty : Table
empty = record { rows = []; next_id = 1 }

pub data Written : Table → Type 0 where
  start : Written empty
  then_write : {t u : Table} → Written t → Write t u → Written u
