-- ===== src/Bootstrap.antt =====
-- The runs of internal/bootstrap: bootstrap.go and state.go. A step is what the Step interface
-- asks for, on a target of any type; its Check reads the target, its Apply changes it.
pub mod Steps
pub mod Runs
use winify.Common.{
  ℕ, Bool, true, false, not, Option, none, some, List, [], ◌∷◌, ◌++◌, if◌then◌else◌, Text, codes,
  text_eq, has_prefix, trim_prefix, trim_space, Result, ok, err,
}
use winify.Deployment.Audit.{redact_audit_text}

pub record Step (T : Type 0) : Type 0 where
  pub name : Text
  pub check : T → Result Text Bool
  pub apply : T → T × Option Text

pub data StatusKind : Type 0 where
  done applied pending failed : StatusKind

pub record StepResult : Type 0 where
  pub name : Text
  pub status : StatusKind
  pub error : Text

pub record StepStatus : Type 0 where
  pub name : Text
  pub done : Bool
  pub error : Text

-- The options of a run: whether there is a MetaStore, and whether its writes succeed.
pub record Options : Type 0 where
  pub dry_run : Bool
  pub has_meta : Bool
  pub set_meta_ok : Bool
  pub state_namespace : Text

-- The target, and the app_meta table, where a missing key reads as the empty text.
pub record Machine (T : Type 0) : Type 0 where
  pub target : T
  pub meta : Text → Text

abbrev pub meta_key : Text → Text → Text
meta_key namespace step =
    if text_eq namespace []
    then codes "bootstrap." ++ step
    else codes "bootstrap." ++ (namespace ++ (codes "." ++ step))

-- One step of a run: it goes on, or it stops with an error.
pub data Round (T : Type 0) : Type 0 where
  goes_on : Machine T → StepResult → Round T
  stops : Machine T → StepResult → Text → Round T

-- The results in order, and the text of the error that stopped the run.
abbrev pub Report : Type 0
Report = List StepResult × Option Text

abbrev pub status_of : Text → Text → StepStatus
status_of name value =
    if text_eq value (codes "done")
    then record { name = name; done = true; error = [] }
    else if has_prefix value (codes "error:")
    then record {
      name = name;
      done = false;
      error = trim_space (trim_prefix value (codes "error:"));
    }
    else record { name = name; done = false; error = [] }

abbrev pub and_then : Result Text Bool → Result Text Bool → Result Text Bool
and_then (err e) rest = err e
and_then (ok false) rest = ok false
and_then (ok true) rest = rest

module _ {T : Type 0} where
  -- SetMeta of internal/models/store.go
  abbrev pub set_meta : Text → Text → Machine T → Machine T
  set_meta key value m = record m { meta = λ k. if text_eq key k then value else m.meta k }

  unfoldable pub record_step : Options → Text → Text → Machine T → Machine T
  record_step o step value m =
      if not o.has_meta
      then m
      else if o.set_meta_ok
      then set_meta (meta_key o.state_namespace step) value m
      else m

  abbrev pub stopped : Options → Step T → Text → Text → Machine T → Round T
  stopped o s label e m =
      let safe = redact_audit_text e in
      stops (record_step o s.name (codes "error: " ++ safe) m)
        (record { name = s.name; status = failed; error = safe }) (s.name ++ (label ++ safe))

  abbrev pub plain : StatusKind → Step T → StepResult
  plain k s = record { name = s.name; status = k; error = [] }

  abbrev pub applied_round : Options → Step T → Machine T → T × Option Text → Round T
  applied_round o s m (t, some e) = stopped o s (codes ": ") e (record m { target = t })
  applied_round o s m (t, none) =
      goes_on (record_step o s.name (codes "done") (record m { target = t })) (plain applied s)

  abbrev pub checked_round : Options → Step T → Machine T → Result Text Bool → Round T
  checked_round o s m (err e) = stopped o s (codes ": check: ") e m
  checked_round o s m (ok true) = goes_on (record_step o s.name (codes "done") m) (plain done s)
  checked_round o s m (ok false) =
      if o.dry_run then goes_on m (plain pending s) else applied_round o s m (s.apply m.target)

  unfoldable pub round : Options → Step T → Machine T → Round T
  round o s m = checked_round o s m (s.check m.target)

  abbrev pub prepend : StepResult → Machine T × Report → Machine T × Report
  prepend r (m, (rs, e)) = (m, (r ∷ rs, e))

  abbrev pub continue : (Machine T → Machine T × Report) → Round T → Machine T × Report
  continue rest (goes_on m r) = prepend r (rest m)
  continue rest (stops m r e) = (m, (r ∷ [], some e))

  unfoldable pub run_steps : Options → List (Step T) → Machine T → Machine T × Report
  run_steps o [] m = (m, ([], none))
  run_steps o (s ∷ ss) m = continue (run_steps o ss) (round o s m)

  unfoldable pub step_status : Options → Machine T → Step T → StepStatus
  step_status o m s =
      if o.has_meta
      then status_of s.name (m.meta (meta_key o.state_namespace s.name))
      else record { name = s.name; done = false; error = [] }

  unfoldable pub statuses : Options → Machine T → List (Step T) → List StepStatus
  statuses o m [] = []
  statuses o m (s ∷ ss) = step_status o m s ∷ statuses o m ss

  -- Complete, behind its test that there is a runner.
  unfoldable pub complete : Options → List (Step T) → Machine T → Result Text Bool
  complete o [] m = ok true
  complete o (s ∷ ss) m =
      and_then (ok (step_status o m s).done) (and_then (s.check m.target) (complete o ss m))
