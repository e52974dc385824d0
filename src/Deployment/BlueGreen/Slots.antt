-- ===== src/Deployment/BlueGreen/Slots.antt =====
-- Which slot a site serves after a blue-green deployment (internal/deployment/iis.go).
use winify.Common.{
  ◌≡◌, ◌≢◌, refl, sym, ap, ◌∙◌, ◌⊎◌, inl, inr, true, false, ◌||◌, Bool-cases, Option-cases, none,
  List, [], ◌∷◌, ◌++◌, length, length-append, arith, Text, codes, text_eq, text_eq_iff, Result, ok,
  err, if_true, if_false, is_zero,
}
use winify.Config.Entities.{Project, effective_host_port}
use winify.Deployment.BlueGreen.{
  SlotConfig, blue_green_marker_path, blue_green_slot_b, blue_green_inactive,
  blue_green_active_script, copy_script, validate_dir_script, smoke_script, swap_to, run_stage,
  swap_back, smoke_test, go_live,
}
use winify.Deployment.Health.{HealthPlan, health_plan_for, health_url}
use winify.Deployment.Shell.Keeps.{Keeps, Keeps-pure, Keeps-if, Keeps-bind}
use winify.Deployment.Shell.{
  Host, StepError, Session, and_then, recover, ◌>>◌, pure, on_error, say, exec_cmd, last_line,
}

-- What the pipeline relies on of the host, for the slot that the site serves: the script that
-- reads it prints it, a swap that reports no error serves its target, and nothing else moves a
-- site that serves a slot.
pub record IsSiteHost {S : Type 0} (h : Host S) (p : Project) (serving : S → Text) : Type 0 where
  pub told :
      (s : S)
      → (h.run
          (blue_green_active_script p.iis_physical_path
            (blue_green_marker_path p.iis_physical_path))
          s).1.error
        ≡ none
      → last_line
          (h.run
            (blue_green_active_script p.iis_physical_path
              (blue_green_marker_path p.iis_physical_path))
            s).1.out
        ≡ serving s
  pub reading_keeps :
      (s : S)
      → serving
          (h.run
            (blue_green_active_script p.iis_physical_path
              (blue_green_marker_path p.iis_physical_path))
            s).0
        ≡ serving s
  pub swapped :
      (target : Text) (s : S)
      → (h.run (swap_to p target) s).1.error ≡ none
      → serving (h.run (swap_to p target) s).0 ≡ target
  pub copy_keeps :
      (src dst label : Text) (s : S)
      → serving s ≢ []
      → serving (h.run (copy_script src dst label) s).0 ≡ serving s
  pub validate_keeps :
      (dir app_pool service : Text) (s : S)
      → serving (h.run (validate_dir_script dir app_pool service) s).0 ≡ serving s
  pub smoke_keeps :
      (url : Text) (plan : HealthPlan) (s : S)
      → serving (h.run (smoke_script url plan) s).0 ≡ serving s

-- A build is never copied over the slot that is live.
pub inactive_is_other :
    (physical active : Text) → physical ≢ [] → active ≢ blue_green_inactive physical active
unfolding blue_green_inactive blue_green_slot_b
inactive_is_other physical active full =
    let slot_b = physical ++ codes ".blue" in
    let test = text_eq active [] || text_eq active slot_b in
    elim (Bool-cases (text_eq active [])) [
      | inl e ↦ λ q.
          let yes : test ≡ true = ground arith in
          full (sym (q ∙ if_true test physical slot_b yes) ∙ (text_eq_iff active []).0 e)
      | inr e ↦ elim (Bool-cases (text_eq active (physical ++ codes ".blue"))) [
        | inl b ↦ λ q.
            let yes : test ≡ true = ground arith in
            let same =
              sym (q ∙ if_true test physical slot_b yes) ∙ (text_eq_iff active slot_b).0 b in
            let longer : length physical ≡ length slot_b = ap length same in
            absurd (omega (arith, longer, length-append physical (codes ".blue")))
        | inr b ↦ λ q.
            let no : test ≡ false = ground arith in
            let same = (text_eq_iff active slot_b).1 (q ∙ if_false test physical slot_b no) in cc
      ]
    ]

module _ {S : Type 0} (h : Host S) (cfg : SlotConfig) (p : Project) (serving : S → Text) where
  -- The site serves `slot`.
  abbrev pub Serves : Text → Session S → Type 0
  Serves slot t = serving t.host ≡ slot

  abbrev pub Warned : Session S → Type 0
  Warned t =
      (e : Text) × (rest : List Text) × (t.log
        ≡ (codes "recovery: restore previous slot failed: " ++ e) ∷ rest)

  -- The slot from before is served, or the log ends in a warning, or there was none.
  abbrev pub Recovered : Text → Session S → Type 0
  Recovered active t = Serves active t ⊎ (Warned t ⊎ (active ≡ []))

  -- How a deployment from `active` to `target` has ended in `t`.
  pub data Ending (active target : Text) (t : Session S) : Result StepError Text → Type 0 where
    live : Serves target t → Ending active target t (ok target)
    kept : (e : StepError) → Recovered active t → Ending active target t (err e)

  abbrev pub Passes : Text → Session S → Session S × Result StepError Text → Type 0
  Passes cmd s end =
      (end.0.host ≡ (h.run cmd s.host).0)
      × ((((h.run cmd s.host).1.error ≡ none) × (end.1 ≡ ok (h.run cmd s.host).1.out))
          ⊎ ((e : StepError) × (end.1 ≡ err e)))

  pub stage-Passes :
      (stage label cmd : Text) (s : Session S) → Passes cmd s (run_stage h cfg stage label cmd s)
  unfolding run_stage exec_cmd
  stage-Passes stage label cmd s = elim (Option-cases (h.run cmd s.host).1.error) [
    | inl e ↦ rw e (refl, inl (refl, refl))
    | inr (cause, e) ↦ rw e (refl, inr (_, refl))
  ]

  module _ (site : IsSiteHost h p serving) where
    back-Recovered :
        (active : Text) (s : Session S) → Recovered active (swap_back h cfg p active s).0
    unfolding swap_back exec_cmd say
    back-Recovered active s = elim (Bool-cases (text_eq active [])) [
      | inl e ↦ inr (inr ((text_eq_iff active []).0 e))
      | inr e ↦ elim (Option-cases (h.run (swap_to p active) s.host).1.error) [
        | inl k ↦ rw e (rw k (inl (site.swapped active s.host k)))
        | inr (cause, k) ↦ rw e (rw k (inr (inl (cause, _, refl))))
      ]
    ]

    Keeps-stage :
        (slot stage label cmd : Text)
        → ((s : S) → serving (h.run cmd s).0 ≡ serving s)
        → Keeps (Serves slot) (run_stage h cfg stage label cmd)
    Keeps-stage slot stage label cmd same = record {
      at = λ s k. ap serving (stage-Passes stage label cmd s).0 ∙ (same s.host ∙ k);
    }

    after_smoke :
        (active target : Text) (t : Session S) (r : Result StepError (Unit {0}))
        → Serves target t
        → Ending active target
            (and_then (recover (swap_back h cfg p active) (t, r)) (λ u. pure target)).0
            (and_then (recover (swap_back h cfg p active) (t, r)) (λ u. pure target)).1
    after_smoke active target t (ok u) on = live on
    after_smoke active target t (err e) on = kept e (back-Recovered active t)

    Keeps-smoke : (slot : Text) → Keeps (Serves slot) (smoke_test h cfg p)
    unfolding smoke_test say
    Keeps-smoke slot =
        Keeps-if p.disable_health_check _ _ (λ e. record { at = λ s k. k })
          (λ e.
            Keeps-if (is_zero (effective_host_port p)) _ _ (λ e. record { at = λ s k. k })
              (λ e.
                Keeps-bind
                  (run_stage h cfg (codes "smoke test failed") (codes "smoke test " ++ health_url p)
                    (smoke_script (health_url p) (health_plan_for cfg.health p)))
                  _ (Keeps-stage slot _ _ _ (site.smoke_keeps _ _)) (λ out. Keeps-pure tt)))

    after_swap :
        (active target : Text) (s t : Session S) (r : Result StepError Text)
        → Passes (swap_to p target) s (t, r)
        → Ending active target
            (and_then
              (recover (swap_back h cfg p active) (t, r))
              (λ u. on_error (smoke_test h cfg p) (swap_back h cfg p active) >> pure target)).0
            (and_then
              (recover (swap_back h cfg p active) (t, r))
              (λ u. on_error (smoke_test h cfg p) (swap_back h cfg p active) >> pure target)).1
    after_swap active target s t (err e) passes = kept e (back-Recovered active t)
    after_swap active target s t (ok out) (same, inr (e, k)) = cc
    after_swap active target s t (ok out) (same, inl (none_there, k)) =
        let on = ap serving same ∙ site.swapped target s.host none_there in
        let (u, r) = smoke_test h cfg p t in
        after_smoke active target u r ((Keeps-smoke target).at t on)

    pub go_live-Ending :
        (stage label active target : Text) (s : Session S)
        → Ending active target
            (go_live h cfg p stage label active target s).0
            (go_live h cfg p stage label active target s).1
    go_live-Ending stage label active target s =
        let (t, r) = run_stage h cfg stage label (swap_to p target) s in
        after_swap active target s t r (stage-Passes stage label (swap_to p target) s)
