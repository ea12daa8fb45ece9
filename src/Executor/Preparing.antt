-- ===== src/Executor/Preparing.antt =====
-- The preparation of a wave of app/orchestration/executor.py, the run of its agents, and the exceptions.
use agentic_google_workspace.Prelude.{
  ℕ, ◌+◌, String, ◌≡◌, refl, Bool, true, false, List, [], ◌∷◌, length, all, All, ok, err, arith,
}
use agentic_google_workspace.Dict.{Dict, contains}
use agentic_google_workspace.Json.{Json, obj}
use agentic_google_workspace.Contracts.{ExecutionStep, StepResult, Exception, Checked}
use agentic_google_workspace.Contracts.Graph.{step_ids}
use agentic_google_workspace.References.Resolve.{IsCaught, RaisesCaught, resolve-RaisesCaught}
use agentic_google_workspace.Registry.{validate_operation, requires_approval}
use agentic_google_workspace.Executor.{
  Executor, World, WaveResult, Prepared, settled, executable, dependency_failed, is_ready,
  unresolved, step_result,
}
use agentic_google_workspace.Executor.Ensures.{
  Outcome, Ensures, Ensures-pure, Ensures-lift, Ensures-bind,
}
use agentic_google_workspace.Executor.Wave.{
  add_approval, submit, submit_if, resolved, prepare_if, prepare, add_prepared, prepare_all,
  run_step, gather,
}
use agentic_google_workspace.Executor.Counts.{count}
use agentic_google_workspace.Executor.Settling.{wave_ids, Always, Never, IsNamed}

abbrev pub executable_ids : List (ExecutionStep × Json) → List String
executable_ids [] = []
executable_ids ((step, arguments) ∷ es) = step.step_id ∷ executable_ids es

-- What is prepared for a step is about that step.
abbrev IsFor : ExecutionStep → Prepared → Type 0
IsFor step (settled r) = (r.step ≡ step) × IsNamed r
IsFor step (executable s arguments) = s ≡ step

-- Each ready step is among the settled or among the executable ones, once.
pub record IsSplit (ready : List ExecutionStep) (p : List WaveResult × List (ExecutionStep × Json))
    : Type 0 where
  pub counts :
      (j : String)
      → count j (wave_ids p.0) + count j (executable_ids p.1) ≡ count j (step_ids ready)
  pub lengths : length p.0 + length p.1 ≡ length ready
  pub named : All IsNamed p.0

dependency_failed-returns :
    (results : Dict StepResult) (ds : List String)
    → all (λ d. contains d results) ds ≡ true
    → Outcome {A = Bool} (λ b. Unit) Never (dependency_failed results ds)
unfolding dependency_failed
dependency_failed-returns results [] h = tt
dependency_failed-returns results (d ∷ ds) h = ground (arith, dependency_failed-returns results ds)

module _ (x : Executor) where
  abbrev pub IsSupported : ExecutionStep → Type 0
  IsSupported step = validate_operation x.registry step.service step.operation ≡ ok tt

  approval-added :
      (e u : ℕ) (step : ExecutionStep) (v : Json)
      → Ensures Always (λ id. Unit) Never (add_approval x e u step v)
  unfolding add_approval
  approval-added e u step v = record { keeps = λ w p. tt; gives = λ w p. tt }

  submit_if-returns :
      (b : Bool) (e u : ℕ) (step : ExecutionStep) (v : Json)
      → Ensures Always (IsFor step) Never (submit_if x b e u step v)
  submit_if-returns false e u step v = Ensures-pure (IsFor step) _ refl
  submit_if-returns true e u step v =
      Ensures-bind (λ id. Unit) (IsFor step) _ _ (approval-added e u step v)
        λ id q. Ensures-pure (IsFor step) _ (refl, refl)

  approval-returns :
      (step : ExecutionStep)
      → IsSupported step
      → Outcome (λ b. Unit) Never (requires_approval x.registry step.service step.operation)
  unfolding requires_approval
  approval-returns step h = ground arith

  submit-returns :
      (e u : ℕ) (step : ExecutionStep) (v : Json)
      → IsSupported step
      → Ensures Always (IsFor step) Never (submit x e u step v)
  unfolding submit
  submit-returns e u step v h =
      Ensures-bind (λ b. Unit) (IsFor step) _ _
        (Ensures-lift (λ b. Unit) _ (approval-returns step h)) λ b q. submit_if-returns b e u step v

  unresolved-returns :
      (step : ExecutionStep) (e : Exception)
      → IsCaught e
      → Outcome (IsFor step) Never (unresolved step e)
  unresolved-returns step e h = ground arith

  resolved-returns :
      (e u : ℕ) (step : ExecutionStep) (r : Checked Json)
      → IsSupported step
      → RaisesCaught r
      → Ensures Always (IsFor step) Never (resolved x e u step r)
  resolved-returns e u step (ok v) h c = submit-returns e u step v h
  resolved-returns e u step (err k) h c =
      Ensures-lift (IsFor step) (unresolved step k) (unresolved-returns step k c)

  prepare_if-returns :
      (b : Bool) (e u : ℕ) (results : Dict StepResult) (step : ExecutionStep)
      → IsSupported step
      → Ensures Always (IsFor step) Never (prepare_if x b e u results step)
  prepare_if-returns true e u results step h = Ensures-pure (IsFor step) _ (refl, refl)
  prepare_if-returns false e u results step h =
      resolved-returns e u step _ h (resolve-RaisesCaught x.unicode results (obj step.arguments))

  prepare-returns :
      (e u : ℕ) (results : Dict StepResult) (step : ExecutionStep)
      → IsSupported step
      → is_ready results step ≡ true
      → Ensures Always (IsFor step) Never (prepare x e u results step)
  unfolding prepare
  prepare-returns e u results step h r =
      Ensures-bind (λ b. Unit) (IsFor step) _ _
        (Ensures-lift (λ b. Unit) _ (dependency_failed-returns results step.depends_on r))
        λ b q. prepare_if-returns b e u results step h

  IsSplit-add :
      (step : ExecutionStep) (ready : List ExecutionStep) (p : Prepared)
      (others : List WaveResult × List (ExecutionStep × Json))
      → IsFor step p
      → IsSplit ready others
      → IsSplit (step ∷ ready) (add_prepared x p others)
  IsSplit-add step ready (settled r) (rs, es) f s = record {
    counts = λ j. rw f.0 (omega (arith, s.counts j));
    lengths = omega (arith, s.lengths);
    named = (f.1, s.named);
  }
  IsSplit-add step ready (executable t v) (rs, es) f s = record {
    counts = λ j. rw f (omega (arith, s.counts j));
    lengths = omega (arith, s.lengths);
    named = s.named;
  }

  pub prepare_all-returns :
      (e u : ℕ) (results : Dict StepResult) (ready : List ExecutionStep)
      → All IsSupported ready
      → All (λ s. is_ready results s ≡ true) ready
      → Ensures Always (IsSplit ready) Never (prepare_all x e u results ready)
  unfolding prepare_all
  prepare_all-returns e u results [] h r =
      Ensures-pure (IsSplit []) _
        (record { counts = λ j. omega arith; lengths = omega arith; named = tt })
  prepare_all-returns e u results (step ∷ ready) h r =
      Ensures-bind (IsFor step) (IsSplit (step ∷ ready)) _ _
        (prepare-returns e u results step h.0 r.0)
        λ p f.
          Ensures-bind (IsSplit ready) (IsSplit (step ∷ ready)) _ _
            (prepare_all-returns e u results ready h.1 r.1)
            λ others s.
              Ensures-pure (IsSplit (step ∷ ready)) _ (IsSplit-add step ready p others f s)

  step_result-named : (step : ExecutionStep) (r : _) → (step_result step r).step_id ≡ step.step_id
  unfolding step_result
  step_result-named step (ok r) = refl
  step_result-named step (err e) = refl

  -- The agents give one result for each step, in order.
  pub gather-ids :
      (es : List (ExecutionStep × Json)) (w : World)
      → (wave_ids (gather x es w).0 ≡ executable_ids es)
        × (length (gather x es w).0 ≡ length es)
        × All IsNamed (gather x es w).0
  unfolding gather run_step
  gather-ids [] w = (refl, refl, tt)
  gather-ids ((step, v) ∷ es) w =
      let (ids, lengths, named) = gather-ids es (run_step x step v w).1 in
      (rw ids, rw lengths, (step_result-named step _, named))
