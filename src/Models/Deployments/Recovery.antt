-- ===== src/Models/Deployments/Recovery.antt =====
-- What startup does with the deployments that a restart interrupted, and what pruning may delete
-- (internal/models/store.go).
use winify.Common.{
  ℕ, ◌≡◌, refl, Bool, false, ◌||◌, none, some, List, [], ◌∷◌, arith, leb, if◌then◌else◌, select,
}
use winify.Models.Deployments.{
  Deployment, Table, is_open, find_row, get_deployment, is_kept, prune_deployments,
}
use winify.Models.Deployments.Order.{IsOrdered, Descending, find_row-none}
use mathlib.Core.Option

abbrev pub IsClosed : Deployment → Type 0
IsClosed d = is_open d ≡ false

find_row-select :
    (p : Deployment → Bool) (n j : ℕ) (ds : List Deployment)
    → Descending n ds
    → find_row j (select p ds)
      ≡ elim (find_row j ds) [ none ↦ none | some d ↦ if p d then some d else none ]
unfolding find_row
find_row-select p n j [] k = refl
find_row-select p n j (d ∷ ds) (q, k) =
    ground (arith, find_row-select p d.id j ds k, find_row-none d.id j ds k)

-- Pruning deletes exactly the rows that started before the cutoff and are not open.
pub get-prune_deployments :
    (t : Table) (before j : ℕ)
    → IsOrdered t
    → get_deployment (prune_deployments t before) j ≡ elim (get_deployment t j) [
      | none ↦ none
      | some d ↦ if leb before d.started_at || is_open d then some d else none
    ]
unfolding get_deployment prune_deployments
get-prune_deployments t before j h = find_row-select (is_kept before) t.next_id j t.rows h
