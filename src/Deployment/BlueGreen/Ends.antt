-- ===== src/Deployment/BlueGreen/Ends.antt =====
-- How a blue-green deployment ends (deployBlueGreen of internal/deployment/iis.go).
use winify.Common.{◌≡◌, ◌⊎◌, [], Text, codes, Result, ok, err}
use winify.Config.Entities.{Project}
use winify.Deployment.BlueGreen.{SlotConfig, validate_dir_script, run_stage, go_live}
use winify.Deployment.BlueGreen.Slots.{IsSiteHost, Serves}
use winify.Deployment.Shell.{Host, StepError, Session, Act}

abbrev text_or : Text → Result StepError Text → Text
text_or s (ok t) = t
text_or s (err e) = s

module _ {S : Type 0} (h : Host S) (cfg : SlotConfig) (p : Project) (serving : S → Text)
    (site : IsSiteHost h p serving) where
  -- Nothing was moved yet.
  abbrev Idle : Text → Session S → Type 0
  Idle active t = Serves h cfg p serving active t ⊎ (active ≡ [])

  abbrev swap : Text → Text → Act S Text
  swap active target = go_live h cfg p (codes "swap slot") (codes "swap slot") active target

  abbrev validate : Text → Act S Text
  validate target =
      run_stage h cfg (codes "slot validation failed") (codes "validate slot")
        (validate_dir_script target p.iis_app_pool p.iis_service)
