-- ===== src/Models/Deployments.antt =====
-- internal/models/store.go: the deployments table. A row is a `Deployment`, and the rows stand
-- newest first, which is the order of every query (`ORDER BY id DESC`). Times are Unix seconds.
pub mod Order
pub mod Bounds
pub mod Recovery
pub mod Reachable
use winify.Common.{
  ℕ, suc, ◌+◌, ◌-◌, Bool, true, false, ◌&&◌, ◌||◌, Option, none, some, List, [], ◌∷◌, ◌++◌, ltb,
  leb, ◌==◌, if◌then◌else◌, length, take, drop, select, Text, codes, text_eq,
}

pub data Status : Type 0 where
  queued running success failed : Status

abbrev pub status_eq : Status → Status → Bool
status_eq queued queued = true
status_eq running running = true
status_eq success success = true
status_eq failed failed = true
status_eq _ _ = false

pub record Deployment : Type 0 where
  pub id : ℕ
  pub project_id : Text
  pub target_type : Text
  pub commit_sha : Text
  pub ref : Text
  pub image_tag : Text
  pub status : Status
  pub trigger : Text
  pub log : Text
  pub error : Text
  pub started_at : ℕ
  pub finished_at : ℕ  -- 0 while the attempt runs

-- `next_id` is the AUTOINCREMENT counter.
pub record Table : Type 0 where
  pub rows : List Deployment
  pub next_id : ℕ

abbrev pub max_deployment_log_bytes : ℕ
max_deployment_log_bytes = 4194304

abbrev pub max_deployment_error_len : ℕ
max_deployment_error_len = 16384

unfoldable pub cap_stored_text : Text → ℕ → Text
cap_stored_text value limit =
    if leb (length value) limit then value else drop (length value - limit) value

-- The columns that the INSERT leaves out take their defaults.
unfoldable pub create_deployment : Table → Deployment → Table × ℕ
create_deployment t d = (
  record {
    rows = record d { id = t.next_id; log = []; error = []; finished_at = 0 } ∷ t.rows;
    next_id = t.next_id + 1;
  },
  t.next_id,
)

unfoldable pub update : ℕ → (Deployment → Deployment) → List Deployment → List Deployment
update id f [] = []
update id f (d ∷ ds) = (if d.id == id then f d else d) ∷ update id f ds

abbrev pub with_status : Status → Text → Deployment → Deployment
with_status status artifact d = record d { status = status; image_tag = artifact }

unfoldable pub set_deployment_status : Table → ℕ → Status → Text → Table
set_deployment_status t id status artifact = record t {
  rows = update id (with_status status artifact) t.rows;
}

abbrev pub with_log : Text → Deployment → Deployment
with_log chunk d = record d { log = cap_stored_text (d.log ++ chunk) max_deployment_log_bytes }

-- On a missing id the SELECT fails and nothing is written.
unfoldable pub append_deployment_log : Table → ℕ → Text → Table
append_deployment_log t id chunk = record t { rows = update id (with_log chunk) t.rows }

abbrev pub with_finish : Status → Text → ℕ → Deployment → Deployment
with_finish status message finished d = record d {
  status = status;
  error = cap_stored_text message max_deployment_error_len;
  finished_at = finished;
}

unfoldable pub finish_deployment : Table → ℕ → Status → Text → ℕ → Table
finish_deployment t id status message finished = record t {
  rows = update id (with_finish status message finished) t.rows;
}

unfoldable pub find_row : ℕ → List Deployment → Option Deployment
find_row id [] = none
find_row id (d ∷ ds) = if d.id == id then some d else find_row id ds

unfoldable pub get_deployment : Table → ℕ → Option Deployment
unfolding find_row
get_deployment t id = find_row id t.rows

abbrev pub of_project : Text → Deployment → Bool
of_project project_id d = text_eq d.project_id project_id

unfoldable pub list_deployments : Table → Text → ℕ → List Deployment
list_deployments t project_id limit = take limit (select (of_project project_id) t.rows)

abbrev pub is_successful : Text → Deployment → Bool
is_successful project_id d = of_project project_id d && status_eq d.status success

unfoldable pub successful_deployments : Table → Text → ℕ → List Deployment
successful_deployments t project_id limit = take limit (select (is_successful project_id) t.rows)

unfoldable pub recent_deployments : Table → ℕ → List Deployment
recent_deployments t limit = take limit t.rows

-- The count of one status in the GROUP BY of DeploymentStatusCounts.
unfoldable pub deployment_status_count : Table → Status → ℕ
deployment_status_count t status = length (select (λ d. status_eq d.status status) t.rows)

abbrev pub is_open : Deployment → Bool
is_open d = status_eq d.status queued || status_eq d.status running

abbrev pub interrupt : ℕ → Deployment → Deployment
interrupt now d =
    if is_open d
    then record d {
      status = failed;
      error = codes "deployment interrupted by service restart";
      finished_at = now;
    }
    else d

unfoldable pub interrupt_all : ℕ → List Deployment → List Deployment
interrupt_all now [] = []
interrupt_all now (d ∷ ds) = interrupt now d ∷ interrupt_all now ds

-- The new table, and the number of rows that the UPDATE changed.
unfoldable pub fail_interrupted_deployments : Table → ℕ → Table × ℕ
unfolding interrupt_all
fail_interrupted_deployments t now =
    (record t { rows = interrupt_all now t.rows }, length (select is_open t.rows))

abbrev pub is_kept : ℕ → Deployment → Bool
is_kept before d = leb before d.started_at || is_open d

-- Deletes the old rows whose status is success or failed.
unfoldable pub prune_deployments : Table → ℕ → Table
prune_deployments t before = record t { rows = select (is_kept before) t.rows }
