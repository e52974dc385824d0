-- ===== src/Deployment/BlueGreen.antt =====
-- Blue-green deployments of internal/deployment/iis.go: a site points at one of two slots, and the
-- build is copied to the other.
pub mod Slots
pub mod Ends
use winify.Common.{
  ℕ, Bool, true, false, ◌||◌, Option, none, some, List, [], ◌∷◌, ◌++◌, if◌then◌else◌, Text, codes,
  text_eq, is_zero, is_positive, pos, Result, ok, err,
}
use winify.Config.Entities.{Project, effective_host_port}
use winify.Deployment.Deployer.{concat}
use winify.Deployment.Health.{HealthConfig, HealthPlan, health_plan_for, health_url, print_int}
use winify.Deployment.Shell.{
  Host, Exit, Session, Act, ◌>>=◌, ◌>>◌, pure, raise, on_error, refused, say, exec_cmd, last_line,
  ps_quote,
}
use winify.Deployment.Upload.{stop_on_error}

-- The settings that the pipeline reads, and `%q`.
pub record SlotConfig : Type 0 where
  pub health : HealthConfig
  pub quote : Text → Text

unfoldable pub blue_green_marker_path : Text → Text
blue_green_marker_path physical = physical ++ codes ".active"

unfoldable pub blue_green_slot_b : Text → Text
blue_green_slot_b physical = physical ++ codes ".blue"

unfoldable pub blue_green_inactive : Text → Text → Text
unfolding blue_green_slot_b
blue_green_inactive physical active =
    if text_eq active [] || text_eq active (blue_green_slot_b physical)
    then physical
    else blue_green_slot_b physical

unfoldable pub blue_green_active_script : Text → Text → Text
blue_green_active_script physical marker = concat (
    stop_on_error
    ∷ codes "$marker = "
    ∷ ps_quote marker
    ∷ codes "\n$physical = "
    ∷ ps_quote physical
    ∷ codes "\nif (Test-Path -LiteralPath $marker) {\n"
    ∷ codes "  $active = (Get-Content -Raw -LiteralPath $marker).Trim()\n"
    ∷ codes "  if ($active -and (Test-Path -LiteralPath $active -PathType Container)) "
    ∷ codes "{ Write-Output $active; exit 0 }\n}\n"
    ∷ codes "if (Test-Path -LiteralPath $physical -PathType Container) { Write-Output $physical }\n"
    ∷ [])

unfoldable pub blue_green_swap_script : Text → Text → Text → Text → Text → Text
blue_green_swap_script site app_pool service target marker = concat (
    stop_on_error
    ∷ codes "Import-Module WebAdministration\n$site = "
    ∷ ps_quote site
    ∷ codes "\n$pool = "
    ∷ ps_quote app_pool
    ∷ codes "\n$service = "
    ∷ ps_quote service
    ∷ codes "\n$target = "
    ∷ ps_quote target
    ∷ codes "\n$marker = "
    ∷ ps_quote marker
    ∷ codes "\nif (-not (Test-Path -LiteralPath $target -PathType Container)) "
    ∷ codes "{ throw \"slot not found: $target\" }\n"
    ∷ codes
        "if (-not (Get-ChildItem -LiteralPath $target -Recurse -File -ErrorAction SilentlyContinue"
    ∷ codes " | Select-Object -First 1)) { throw \"slot is empty: $target\" }\n"
    ∷ codes "Set-ItemProperty \"IIS:\\Sites\\$site\" -Name physicalPath -Value $target\n"
    ∷ codes "$poolPath = 'IIS:\\AppPools\\' + $pool\nif (Test-Path $poolPath) {\n"
    ∷ codes "  if ((Get-WebAppPoolState -Name $pool).Value -eq 'Stopped') "
    ∷ codes "{ Start-WebAppPool -Name $pool }\n  Restart-WebAppPool -Name $pool\n}\n"
    ∷ codes "if ($service -and (Get-Service -Name $service -ErrorAction SilentlyContinue)) "
    ∷ codes "{ Restart-Service -Name $service -Force }\n"
    ∷ codes "Set-Content -LiteralPath $marker -Value $target -Encoding ASCII -NoNewline\n"
    ∷ codes "Write-Output $target\n"
    ∷ [])

unfoldable pub copy_script : Text → Text → Text → Text
copy_script src dst label = concat (
    stop_on_error
    ∷ codes "New-Item -ItemType Directory -Force -Path "
    ∷ ps_quote dst
    ∷ codes " | Out-Null\nrobocopy "
    ∷ ps_quote src
    ∷ codes " "
    ∷ ps_quote dst
    ∷ codes " /MIR /NFL /NDL /NJH /NJS /NP | Out-Null\nif ($LASTEXITCODE -ge 8) { throw \""
    ∷ label
    ∷ codes " robocopy failed: $LASTEXITCODE\" }\n"
    ∷ [])

abbrev pub service_check : Text → Text
service_check [] = []
service_check (c ∷ s) = concat (
    codes "if (-not (Get-Service -Name "
    ∷ ps_quote (c ∷ s)
    ∷ codes " -ErrorAction SilentlyContinue)) { throw \"service not found: "
    ∷ (c ∷ s)
    ∷ codes "\" }\n"
    ∷ [])

unfoldable pub validate_body : Text → Text → Text
validate_body app_pool service = concat (
    codes "if (-not (Test-Path $src)) { throw \"source directory not found: $src\" }\n"
    ∷ codes "$wc = Join-Path $src 'web.config'\n"
    ∷ codes "if (Test-Path $wc) { $null = [xml](Get-Content -Raw -LiteralPath $wc); "
    ∷ codes "Write-Output 'web.config is valid XML' }\n"
    ∷ codes "else { Write-Output 'no web.config present; skipping XML validation' }\n"
    ∷ codes "Import-Module WebAdministration\n$poolPath = 'IIS:\\AppPools\\' + "
    ∷ ps_quote app_pool
    ∷ codes "\nif (-not (Test-Path $poolPath)) { throw \"IIS app pool not found: "
    ∷ app_pool
    ∷ codes "\" }\n"
    ∷ service_check service
    ∷ [])

unfoldable pub validate_dir_script : Text → Text → Text → Text
validate_dir_script dir app_pool service = concat (
    stop_on_error
    ∷ codes "$src = "
    ∷ ps_quote dir
    ∷ codes "\n"
    ∷ validate_body app_pool service
    ∷ [])

abbrev pub smoke_delay : HealthPlan → Text
smoke_delay plan =
    if is_positive plan.start_period
    then codes "Start-Sleep -Seconds " ++ (print_int plan.start_period ++ codes "\n")
    else []

unfoldable pub smoke_script : Text → HealthPlan → Text
smoke_script url plan = concat (
    stop_on_error
    ∷ codes "$url = "
    ∷ ps_quote url
    ∷ codes "\n"
    ∷ smoke_delay plan
    ∷ codes "for ($i=0; $i -lt "
    ∷ print_int (pos plan.attempts)
    ∷ codes "; $i++) {\n  try {\n"
    ∷ codes "    $r = Invoke-WebRequest -UseBasicParsing -Uri $url -TimeoutSec "
    ∷ print_int (pos plan.timeout)
    ∷ codes "\n    if ($r.StatusCode -ge 200 -and $r.StatusCode -lt 400) "
    ∷ codes "{ Write-Output 'smoke test ok'; exit 0 }\n  } catch { }\n  Start-Sleep -Seconds "
    ∷ print_int (pos plan.interval)
    ∷ codes "\n}\nthrow \"smoke test failed: $url\"\n"
    ∷ [])

abbrev pub site_of : Project → Text
site_of p = if text_eq p.iis_site [] then p.id else p.iis_site

abbrev pub swap_to : Project → Text → Text
swap_to p target =
    blue_green_swap_script (site_of p) p.iis_app_pool p.iis_service target
      (blue_green_marker_path p.iis_physical_path)

module _ {S : Type 0} (h : Host S) (cfg : SlotConfig) where
  abbrev pub ran_stage : Text → Exit → Act S Text
  ran_stage stage exit = elim exit.error [
    | none ↦ pure exit.out
    | some e ↦ raise (refused (stage ++ (codes ": " ++ e)))
  ]

  -- A command that must succeed: the stage stands in its error, the label in the log.
  unfoldable pub run_stage : Text → Text → Text → Act S Text
  run_stage stage label cmd = exec_cmd h none cmd label >>= ran_stage stage

  abbrev pub swapped_back : Exit → Act S (Unit {0})
  swapped_back exit = elim exit.error [
    | none ↦ pure tt
    | some e ↦ say (codes "recovery: restore previous slot failed: " ++ e)
  ]

  unfoldable pub swap_back : Project → Text → Act S (Unit {0})
  swap_back p active =
      if text_eq active []
      then pure tt
      else exec_cmd h none (swap_to p active) (codes "restore previous slot") >>= swapped_back

  unfoldable pub smoke_test : Project → Act S (Unit {0})
  smoke_test p =
      if p.disable_health_check
      then say (codes "health check disabled; skipping smoke test")
      else if is_zero (effective_host_port p)
      then say (codes "no port configured; skipping smoke test")
      else (run_stage (codes "smoke test failed") (codes "smoke test " ++ health_url p)
            (smoke_script (health_url p) (health_plan_for cfg.health p))
          >>= λ out. pure tt)

  -- What stands behind the choice of the slot.
  abbrev pub fill_slot : Project → Text → Text → Act S Text
  fill_slot p src target =
      run_stage (codes "copy to slot") (codes "copy build to slot")
        (copy_script src target (codes "deploy to slot"))
      >> run_stage (codes "slot validation failed") (codes "validate slot")
          (validate_dir_script target p.iis_app_pool p.iis_service)

  abbrev pub go_live : Project → Text → Text → Text → Text → Act S Text
  go_live p stage label active target =
      on_error (run_stage stage label (swap_to p target)) (swap_back p active)
      >> (on_error (smoke_test p) (swap_back p active) >> pure target)

  abbrev pub deploy_to : Project → Text → Text → Text → Act S Text
  deploy_to p src active target =
      say (
        concat (
          codes "blue-green: active="
          ∷ cfg.quote active
          ∷ codes " target="
          ∷ cfg.quote target
          ∷ []))
      >> (fill_slot p src target >> go_live p (codes "swap slot") (codes "swap slot") active target)

  abbrev pub read_active : Project → Act S Text
  read_active p =
      run_stage (codes "read active slot") (codes "read active slot")
        (blue_green_active_script p.iis_physical_path (blue_green_marker_path p.iis_physical_path))

  unfoldable pub deploy_blue_green : Project → Text → Text → Act S Text
  deploy_blue_green p repo_dir source = read_active p >>= λ out.
      deploy_to p (concat (repo_dir ∷ codes "\\" ∷ source ∷ [])) (last_line out)
        (blue_green_inactive p.iis_physical_path (last_line out))

  abbrev pub roll_back_to : Project → Text → Text → Act S Text
  roll_back_to p active other =
      say (concat (codes "blue-green rollback: " ∷ active ∷ codes " -> " ∷ other ∷ []))
      >> (run_stage (codes "swap back") (codes "swap back") (swap_to p other)
          >> (on_error (smoke_test p) (swap_back p active) >> pure other))

  abbrev pub roll_back_from : Project → Text → Act S Text
  roll_back_from p active =
      if text_eq active []
      then raise (
          refused (
            concat (
              codes "no active slot recorded for "
              ∷ p.id
              ∷ codes "; nothing to roll back to"
              ∷ [])))
      else roll_back_to p active (blue_green_inactive p.iis_physical_path active)

  unfoldable pub roll_back_blue_green : Project → Act S Text
  roll_back_blue_green p = read_active p >>= λ out. roll_back_from p (last_line out)
