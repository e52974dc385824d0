-- ===== src/Deployment/Health.antt =====
-- internal/deployment/target.go: the timing of health checks, and the URL that is probed.
use winify.Common.{
  ℕ, zero, suc, ◌+◌, ◌*◌, ◌/◌, ◌≤◌, ◌≡◌, refl, ◌⊎◌, inl, inr, false, [], ◌∷◌, ◌++◌, arith,
  if◌then◌else◌, Text, codes, has_prefix, ℤ, pos, negsuc, is_positive,
}
use winify.Config.Entities.{Project, effective_host_port}
use winify.Config.Entities.Ports.{decimal}

-- The health settings of config.DeployConfig.
pub record HealthConfig : Type 0 where
  pub health_interval_seconds : ℤ
  pub health_timeout_seconds : ℤ

pub record HealthPlan : Type 0 where
  pub interval : ℕ
  pub attempts : ℕ
  pub timeout : ℕ
  pub start_period : ℤ

-- The number if it is positive, and `other` if it is not: `if n <= 0 { n = other }`.
abbrev pub positive_or : ℤ → ℕ → ℕ
positive_or (pos zero) other = other
positive_or (pos (suc n)) other = suc n
positive_or (negsuc n) other = other

abbrev pub at_least_one : ℕ → ℕ
at_least_one zero = 1
at_least_one (suc n) = suc n

unfoldable pub health_plan_for : HealthConfig → Project → HealthPlan
health_plan_for cfg project =
    let interval =
      positive_or project.health_interval_seconds (positive_or cfg.health_interval_seconds 3) in
    record {
      interval = interval;
      attempts =
          positive_or project.health_retries
            (at_least_one (positive_or cfg.health_timeout_seconds 60 / interval));
      timeout = positive_or project.health_timeout_seconds 5;
      start_period = project.health_start_period_seconds;
    }

-- `%d`
abbrev pub print_int : ℤ → Text
print_int (pos n) = decimal (suc n) n
print_int (negsuc n) = b'-' ∷ decimal (suc (suc n)) (suc n)

abbrev pub health_path_or_root : Text → Text
health_path_or_root [] = codes "/"
health_path_or_root (c ∷ s) = c ∷ s

abbrev pub rooted : Text → Text
rooted path = if has_prefix path (codes "/") then path else b'/' ∷ path

unfoldable pub health_url : Project → Text
health_url project =
    codes "http://127.0.0.1:"
    ++ (print_int (effective_host_port project) ++ rooted (health_path_or_root project.health_path))

positive_or_bound : (z : ℤ) (n : ℕ) → 1 ≤ n → 1 ≤ positive_or z n
positive_or_bound (pos zero) n h = h
positive_or_bound (pos (suc k)) n h = omega arith
positive_or_bound (negsuc k) n h = h

at_least_one_bound : (n : ℕ) → 1 ≤ at_least_one n
at_least_one_bound zero = omega arith
at_least_one_bound (suc n) = omega arith

at_least_one_budget :
    (overall interval : ℕ) → at_least_one (overall / interval) * interval ≤ overall + interval
at_least_one_budget overall interval = elim (positive (overall / interval)) [
  | inl e ↦ rw e (omega arith)
  | inr (k, e) ↦ rw e (rw (← e) (grind arith))
]
  where
    positive : (n : ℕ) → (n ≡ zero) ⊎ ((k : ℕ) × (n ≡ suc k))
    positive zero = inl refl
    positive (suc k) = inr (k, refl)

positive_or_of_not_positive : (z : ℤ) (n : ℕ) → is_positive z ≡ false → positive_or z n ≡ n
positive_or_of_not_positive (pos zero) n h = refl
positive_or_of_not_positive (pos (suc k)) n h = ground arith
positive_or_of_not_positive (negsuc k) n h = refl

-- Whatever the settings, also negative ones: the plan waits at least a second between attempts,
-- makes at least one attempt and gives each at least a second.
pub health_plan_for_bounds :
    (cfg : HealthConfig) (project : Project)
    → (1 ≤ (health_plan_for cfg project).interval)
      × (1 ≤ (health_plan_for cfg project).attempts)
      × (1 ≤ (health_plan_for cfg project).timeout)
unfolding health_plan_for
health_plan_for_bounds cfg project = (
  positive_or_bound project.health_interval_seconds _
      (positive_or_bound cfg.health_interval_seconds 3 (omega arith)),
  positive_or_bound project.health_retries _ (at_least_one_bound _),
  positive_or_bound project.health_timeout_seconds 5 (omega arith),
)

-- Where the project sets no number of retries, the attempts times the interval stay within the
-- global timeout (60 seconds if unset) and one interval more.
pub health_plan_for_budget :
    (cfg : HealthConfig) (project : Project)
    → is_positive project.health_retries ≡ false
    → (health_plan_for cfg project).attempts * (health_plan_for cfg project).interval
      ≤ positive_or cfg.health_timeout_seconds 60 + (health_plan_for cfg project).interval
unfolding health_plan_for
health_plan_for_budget cfg project h =
    rw (positive_or_of_not_positive project.health_retries _ h) (at_least_one_budget _ _)
