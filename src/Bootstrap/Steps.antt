-- ===== src/Bootstrap/Steps.antt =====
-- The steps of a run that went through (internal/bootstrap/bootstrap.go).
use winify.Common.{
  ◌≡◌, refl, sym, ◌∙◌, Bool, true, false, Option, none, some, List, [], ◌∷◌, arith, Text, codes,
  text_eq_refl, Result, ok, err,
}
use mathlib.Core.Path.{subst}
use winify.Bootstrap.{
  Step, StepResult, Options, Machine, Round, goes_on, stops, round, checked_round, applied_round,
  continue, record_step, run_steps, meta_key,
}

module _ {T : Type 0} where
  pub record_step-target :
      (o : Options) (name value : Text) (m : Machine T)
      → (record_step o name value m).target ≡ m.target
  unfolding record_step
  record_step-target o name value m = ground arith

  -- What a step that went on has done to the target, outside a dry run.
  pub data Advanced (s : Step T) (t : T) : T → Type 0 where
    satisfied : s.check t ≡ ok true → Advanced s t t
    changed : {t' : T} → s.apply t ≡ (t', none) → Advanced s t t'

  -- What it has written.
  pub record Went (o : Options) (s : Step T) (m m' : Machine T) : Type 0 where
    pub advanced : Advanced s m.target m'.target
    pub others : (k : Text) → m.meta k ≡ codes "done" → m'.meta k ≡ codes "done"
    pub own :
        o.has_meta ≡ true
        → o.set_meta_ok ≡ true
        → m'.meta (meta_key o.state_namespace s.name) ≡ codes "done"

  record_done-others :
      (o : Options) (name : Text) (m : Machine T) (k : Text)
      → m.meta k ≡ codes "done"
      → (record_step o name (codes "done") m).meta k ≡ codes "done"
  unfolding record_step
  record_done-others o name m k h = ground arith

  record_done-own :
      (o : Options) (name : Text) (m : Machine T)
      → o.has_meta ≡ true
      → o.set_meta_ok ≡ true
      → (record_step o name (codes "done") m).meta (meta_key o.state_namespace name) ≡ codes "done"
  unfolding record_step
  record_done-own o name m h k = ground (arith, text_eq_refl (meta_key o.state_namespace name))

  Went-done :
      (o : Options) (s : Step T) (m n : Machine T)
      → Advanced s m.target n.target
      → ((k : Text) → n.meta k ≡ m.meta k)
      → Went o s m (record_step o s.name (codes "done") n)
  Went-done o s m n a same = record {
    advanced = subst (Advanced s m.target) (sym (record_step-target o s.name (codes "done") n)) a;
    others = λ k h. record_done-others o s.name n k (same k ∙ h);
    own = record_done-own o s.name n;
  }

  applied_round-Went :
      (o : Options) (s : Step T) (m m' : Machine T) (r : StepResult) (p : T × Option Text)
      → s.apply m.target ≡ p
      → applied_round o s m p ≡ goes_on m' r
      → Went o s m m'
  applied_round-Went o s m m' r (t, some e) h k = cc
  applied_round-Went o s m m' r (t, none) h k =
      let n : Machine T = record m { target = t } in
      let same : record_step o s.name (codes "done") n ≡ m' = cc in
      subst (Went o s m) same (Went-done o s m n (changed h) (λ k. refl))

  checked_round-Went :
      (o : Options) (s : Step T) (m m' : Machine T) (r : StepResult) (c : Result Text Bool)
      → o.dry_run ≡ false
      → s.check m.target ≡ c
      → checked_round o s m c ≡ goes_on m' r
      → Went o s m m'
  unfolding record_step
  checked_round-Went o s m m' r (err e) dry h k = cc
  checked_round-Went o s m m' r (ok true) dry h k =
      let same : record_step o s.name (codes "done") m ≡ m' = cc in
      subst (Went o s m) same (Went-done o s m m (satisfied h) (λ k. refl))
  checked_round-Went o s m m' r (ok false) dry h k =
      applied_round-Went o s m m' r (s.apply m.target) refl (rw dry at k)

  round-Went :
      (o : Options) (s : Step T) (m m' : Machine T) (r : StepResult)
      → o.dry_run ≡ false
      → round o s m ≡ goes_on m' r
      → Went o s m m'
  unfolding round
  round-Went o s m m' r dry h = checked_round-Went o s m m' r (s.check m.target) dry refl h

  -- The run of a list of steps that went through, step by step.
  pub data Through (o : Options) : List (Step T) → Machine T → Machine T → Type 0 where
    end : {m : Machine T} → Through o [] m m
    onward :
        {s : Step T} {ss : List (Step T)} {m m' n : Machine T}
        → Went o s m m'
        → Through o ss m' n
        → Through o (s ∷ ss) m n

  continue-Through :
      (o : Options) (s : Step T) (ss : List (Step T)) (m : Machine T) (r : Round T)
      → ((m' : Machine T) → (run_steps o ss m').1.1 ≡ none → Through o ss m' (run_steps o ss m').0)
      → o.dry_run ≡ false
      → round o s m ≡ r
      → (continue (run_steps o ss) r).1.1 ≡ none
      → Through o (s ∷ ss) m (continue (run_steps o ss) r).0
  continue-Through o s ss m (goes_on m' r) rest dry e k =
      onward (round-Went o s m m' r dry e) (rest m' k)
  continue-Through o s ss m (stops m' r x) rest dry e k = cc

  pub run_steps-Through :
      (o : Options) (ss : List (Step T)) (m : Machine T)
      → o.dry_run ≡ false
      → (run_steps o ss m).1.1 ≡ none
      → Through o ss m (run_steps o ss m).0
  unfolding run_steps
  run_steps-Through o [] m dry h = end
  run_steps-Through o (s ∷ ss) m dry h =
      continue-Through o s ss m (round o s m) (λ m' k. run_steps-Through o ss m' dry k) dry refl h
