-- ===== src/Models/Deployments/Order.antt =====
-- The order of the deployments table and its lookups by id (internal/models/store.go).
use winify.Common.{
  ℕ, ◌≤◌, ◌<◌, ◌≡◌, refl, Bool, none, some, List, [], ◌∷◌, arith, ◌==◌, if◌then◌else◌, select, Text,
}
use mathlib.Core.Option
use winify.Models.Deployments.{
  Status, Deployment, Table, create_deployment, update, with_status, with_log, with_finish,
  set_deployment_status, append_deployment_log, finish_deployment, find_row, get_deployment,
  interrupt_all, fail_interrupted_deployments, is_kept, prune_deployments,
}

-- The ids fall strictly, from below the bound.
abbrev pub Descending : ℕ → List Deployment → Type 0
Descending bound [] = Unit
Descending bound (d ∷ ds) = (d.id < bound) × Descending d.id ds

-- The rows stand in the order of `ORDER BY id DESC`, and the counter has not been used.
abbrev pub IsOrdered : Table → Type 0
IsOrdered t = Descending t.next_id t.rows

pub Descending-weaken : (m n : ℕ) (ds : List Deployment) → m ≤ n → Descending m ds → Descending n ds
Descending-weaken m n [] h k = tt
Descending-weaken m n (d ∷ ds) h (p, k) = (omega arith, k)

Descending-select :
    (p : Deployment → Bool) (n : ℕ) (ds : List Deployment)
    → Descending n ds
    → Descending n (select p ds)
Descending-select p n [] k = tt
Descending-select p n (d ∷ ds) (q, k) =
    let rest = Descending-select p d.id ds k in
    ground (arith, Descending-weaken d.id n (select p ds))

module _ (id : ℕ) (f : Deployment → Deployment) (same : (d : Deployment) → (f d).id ≡ d.id) where
  pub Descending-update :
      (n : ℕ) (ds : List Deployment) → Descending n ds → Descending n (update id f ds)
  unfolding update
  Descending-update n [] k = tt
  Descending-update n (d ∷ ds) (q, k) =
      let rest = Descending-update d.id ds k in ground (arith, same d)

  -- An UPDATE by id changes the row of that id, and no other.
  pub find_row-update :
      (j : ℕ) (ds : List Deployment)
      → find_row j (update id f ds)
        ≡ (if id == j then Option.map f (find_row j ds) else find_row j ds)
  unfolding update find_row
  find_row-update j [] = ground arith
  find_row-update j (d ∷ ds) = ground (arith, find_row-update j ds, same d)

pub IsOrdered-set_deployment_status :
    (t : Table) (id : ℕ) (st : Status) (a : Text)
    → IsOrdered t
    → IsOrdered (set_deployment_status t id st a)
unfolding set_deployment_status
IsOrdered-set_deployment_status t id st a h =
    Descending-update id (with_status st a) (λ d. refl) t.next_id t.rows h

pub IsOrdered-append_deployment_log :
    (t : Table) (id : ℕ) (c : Text) → IsOrdered t → IsOrdered (append_deployment_log t id c)
unfolding append_deployment_log
IsOrdered-append_deployment_log t id c h =
    Descending-update id (with_log c) (λ d. refl) t.next_id t.rows h

pub IsOrdered-finish_deployment :
    (t : Table) (id : ℕ) (st : Status) (m : Text) (now : ℕ)
    → IsOrdered t
    → IsOrdered (finish_deployment t id st m now)
unfolding finish_deployment
IsOrdered-finish_deployment t id st m now h =
    Descending-update id (with_finish st m now) (λ d. refl) t.next_id t.rows h

pub IsOrdered-create_deployment :
    (t : Table) (d : Deployment) → IsOrdered t → IsOrdered (create_deployment t d).0
unfolding create_deployment
IsOrdered-create_deployment t d h = (omega arith, h)

pub IsOrdered-prune_deployments :
    (t : Table) (before : ℕ) → IsOrdered t → IsOrdered (prune_deployments t before)
unfolding prune_deployments
IsOrdered-prune_deployments t before h = Descending-select (is_kept before) t.next_id t.rows h

Descending-interrupt_all :
    (now n : ℕ) (ds : List Deployment) → Descending n ds → Descending n (interrupt_all now ds)
unfolding interrupt_all
Descending-interrupt_all now n [] k = tt
Descending-interrupt_all now n (d ∷ ds) (q, k) =
    let rest = Descending-interrupt_all now d.id ds k in ground arith

pub IsOrdered-fail_interrupted_deployments :
    (t : Table) (now : ℕ) → IsOrdered t → IsOrdered (fail_interrupted_deployments t now).0
unfolding fail_interrupted_deployments
IsOrdered-fail_interrupted_deployments t now h = Descending-interrupt_all now t.next_id t.rows h

-- An id at or above the bound is not there.
pub find_row-none :
    (n j : ℕ) (ds : List Deployment) → Descending n ds → n ≤ j → find_row j ds ≡ none
unfolding find_row
find_row-none n j [] k h = refl
find_row-none n j (d ∷ ds) (q, k) h = ground (arith, find_row-none d.id j ds k)

module _ (t : Table) (id j : ℕ) where
  pub get-set_deployment_status :
      (st : Status) (a : Text)
      → get_deployment (set_deployment_status t id st a) j ≡ (
          if id == j
          then Option.map (with_status st a) (get_deployment t j)
          else get_deployment t j)
  unfolding get_deployment set_deployment_status
  get-set_deployment_status st a = find_row-update id (with_status st a) (λ d. refl) j t.rows

  pub get-append_deployment_log :
      (c : Text)
      → get_deployment (append_deployment_log t id c) j
        ≡ (if id == j then Option.map (with_log c) (get_deployment t j) else get_deployment t j)
  unfolding get_deployment append_deployment_log
  get-append_deployment_log c = find_row-update id (with_log c) (λ d. refl) j t.rows

  pub get-finish_deployment :
      (st : Status) (m : Text) (now : ℕ)
      → get_deployment (finish_deployment t id st m now) j ≡ (
          if id == j
          then Option.map (with_finish st m now) (get_deployment t j)
          else get_deployment t j)
  unfolding get_deployment finish_deployment
  get-finish_deployment st m now = find_row-update id (with_finish st m now) (λ d. refl) j t.rows

-- A created row is found under the id that is returned, as it was given but for the columns that
-- start empty; every other id is found as before; and the order is kept.
pub get-create_deployment :
    (t : Table) (d : Deployment) (j : ℕ)
    → IsOrdered t
    → (get_deployment (create_deployment t d).0 j ≡ (
        if (create_deployment t d).1 == j
        then some (record d { id = t.next_id; log = []; error = []; finished_at = 0 })
        else get_deployment t j))
      × (get_deployment t (create_deployment t d).1 ≡ none)
      × IsOrdered (create_deployment t d).0
unfolding get_deployment create_deployment
get-create_deployment t d j h =
    (refl, find_row-none t.next_id t.next_id t.rows h (omega arith), (omega arith, h))
