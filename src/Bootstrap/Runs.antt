-- ===== src/Bootstrap/Runs.antt =====
-- What a run does (internal/bootstrap/bootstrap.go).
use winify.Common.{
  ◌≡◌, refl, ◌∙◌, Bool, true, false, none, List, [], ◌∷◌, All, Text, codes, Result, ok, err,
}
use winify.Bootstrap.{
  Step, Options, Machine, Report, round, checked_round, continue, run_steps, meta_key,
}
use winify.Bootstrap.Steps.{record_step-target}

module _ {T : Type 0} where
  -- What is asked of the steps: an Apply that succeeds satisfies its own Check, and the later steps
  -- of the list do not undo it.
  pub record Repairs (s : Step T) : Type 0 where
    pub repairs : (t t' : T) → s.apply t ≡ (t', none) → s.check t' ≡ ok true

  pub record Keeps (s r : Step T) : Type 0 where
    pub keeps : (t t' : T) → r.apply t ≡ (t', none) → s.check t ≡ ok true → s.check t' ≡ ok true

  abbrev pub IsLawful : List (Step T) → Type 0
  IsLawful [] = Unit {0}
  IsLawful (s ∷ ss) = Repairs s × (All (Keeps s) ss × IsLawful ss)

  abbrev pub IsSatisfied : List (Step T) → T → Type 0
  IsSatisfied ss t = All (λ (s : Step T). s.check t ≡ ok true) ss

  abbrev IsRecorded : Options → List (Step T) → Machine T → Type 0
  IsRecorded o ss m =
      All (λ (s : Step T). m.meta (meta_key o.state_namespace s.name) ≡ codes "done") ss

  dry_round :
      (o : Options) (s : Step T) (m : Machine T) (c : Result Text Bool)
      (rest : Machine T → Machine T × Report)
      → o.dry_run ≡ true
      → ((m' : Machine T) → (rest m').0.target ≡ m'.target)
      → (continue rest (checked_round o s m c)).0.target ≡ m.target
  dry_round o s m (err e) rest dry h = record_step-target o s.name _ m
  dry_round o s m (ok true) rest dry h = h _ ∙ record_step-target o s.name _ m
  dry_round o s m (ok false) rest dry h = rw dry (h m)

  -- A dry run leaves the target as it is, wherever it stops.
  pub dry_run-target :
      (o : Options) (ss : List (Step T)) (m : Machine T)
      → o.dry_run ≡ true
      → (run_steps o ss m).0.target ≡ m.target
  unfolding run_steps round
  dry_run-target o [] m dry = refl
  dry_run-target o (s ∷ ss) m dry =
      dry_round o s m (s.check m.target) (run_steps o ss) dry (λ m'. dry_run-target o ss m' dry)
