-- ===== src/Executor/Completes.antt =====
-- The whole run of a valid plan.
use agentic_google_workspace.Prelude.{
  ℕ, zero, suc, ◌≤◌, String, ◌≡◌, refl, true, List, [], ◌∷◌, mem, length, All, All-map, All-both,
  ap, ok, err, >>=-eq-ok, arith, Bool-cases, inl, inr, Option-cases, is_unique, eq_refl,
}
use agentic_google_workspace.Dict.{Dict, lookup, contains}
use agentic_google_workspace.Contracts.{ExecutionStep, ExecutionPlan, StepResult, Intent, Checked}
use agentic_google_workspace.Contracts.Graph.{step_ids, validate_graph}
use agentic_google_workspace.Contracts.Graph.Sound.{Grounded}
use agentic_google_workspace.Contracts.Graph.Valid.{IsWellFormed, validate_graph_iff, for_each-All}
use agentic_google_workspace.Registry.{validate_step, validate_plan, validate_operation}
use agentic_google_workspace.Executor.{Executor, World, ExecutionState, ExecutionOutcome}
use agentic_google_workspace.Executor.Ensures.{
  Outcome, Ensures, Ensures-pure, Ensures-lift, Ensures-bind, Ensures-write,
}
use agentic_google_workspace.Executor.Run.{
  while_remaining, run_waves, add_execution, ordered_results, cons_result, execute,
}
use agentic_google_workspace.Executor.Counts.{count, count-pos_of_mem}
use agentic_google_workspace.Executor.Steps.{IsLocated, IsLocated-of_unique, steps_by_id_unique}
use agentic_google_workspace.Executor.Settling.{Always, Never, AllNamed}
use agentic_google_workspace.Executor.Preparing.{IsSupported}
use agentic_google_workspace.Executor.Total.{IsConsistent, Advances, wave-Advances}

abbrev pub result_ids : List StepResult → List String
result_ids [] = []
result_ids (r ∷ rs) = r.step_id ∷ result_ids rs

module _ (x : Executor) (steps : List ExecutionStep) where
  -- The loop is over: every step of the plan has its result.
  record IsFinished (last : ExecutionState) : Type 0 where
    consistent : IsConsistent x steps last
    empty : last.remaining ≡ []

  cons-Outcome :
      (r : StepResult) (rest : Checked (List StepResult)) (id : String) (ids : List String)
      → r.step_id ≡ id
      → Outcome (λ rs. result_ids rs ≡ ids) Never rest
      → Outcome (λ rs. result_ids rs ≡ id ∷ ids) Never (cons_result x r rest)
  cons-Outcome r (ok rs) id ids h k = cc
  cons-Outcome r (err e) id ids h k = k

  ordered-Outcome :
      (results : Dict StepResult) (ss : List ExecutionStep)
      → AllNamed results
      → ((id : String) → mem id (step_ids ss) ≡ true → contains id results ≡ true)
      → Outcome (λ rs. result_ids rs ≡ step_ids ss) Never (ordered_results x results ss)
  ordered-Outcome results [] named all = refl
  ordered-Outcome results (s ∷ ss) named all = elim (Option-cases (lookup s.step_id results)) [
    | inl gone ↦ ground (arith, all s.step_id (rw (eq_refl s.step_id)))
    | inr (r, found) ↦
        let rest = ordered-Outcome results ss named (λ id m. all id (ground arith)) in
        rw (found, Outcome)
          (cons-Outcome r (ordered_results x results ss) s.step_id (step_ids ss)
            (named s.step_id r found) rest)
  ]

  while-IsFinished :
      (left : List ExecutionStep) (state : ExecutionState)
      (round : World → Checked ExecutionState × World)
      → state.remaining ≡ left
      → IsConsistent x steps state
      → ((s : ExecutionStep) (rest : List ExecutionStep)
          → left ≡ s ∷ rest
          → Ensures Always IsFinished Never round)
      → Ensures Always IsFinished Never (while_remaining x left state round)
  while-IsFinished [] state round e inv k =
      Ensures-pure IsFinished state (record { consistent = inv; empty = e })
  while-IsFinished (s ∷ rest) state round e inv k = k s rest refl

  module _ (all_grounded : (id : String) → mem id (step_ids steps) ≡ true → Grounded steps id) where
    run_waves-IsFinished :
        (fuel e u : ℕ) (state : ExecutionState)
        → length state.remaining ≤ fuel
        → IsConsistent x steps state
        → Ensures Always IsFinished Never (run_waves x fuel e u state)
    unfolding run_waves
    run_waves-IsFinished zero e u state le inv =
        while-IsFinished state.remaining state _ refl inv
          (λ s rest some_left. absurd (omega (arith, ap length some_left)))
    run_waves-IsFinished (suc fuel) e u state le inv =
        while-IsFinished state.remaining state _ refl inv (λ s rest some_left.
          Ensures-bind (Advances x steps state) IsFinished _ _
            (wave-Advances x steps all_grounded e u state s rest some_left inv)
            λ next a. run_waves-IsFinished fuel e u next (omega (arith, a.fewer)) a.consistent)

  IsConsistent-start :
      is_unique (step_ids steps) ≡ true
      → All (IsSupported x) steps
      → IsConsistent x steps (record { remaining = steps; results = []; approval_ids = [] })
  IsConsistent-start unique supported = record {
    planned =
        All-both (IsLocated steps) (IsSupported x) steps (IsLocated-of_unique steps unique)
          supported;
    covered = λ id known gone. count-pos_of_mem id (step_ids steps) known;
    named = λ id r found. cc;
  }

  IsFinished-contains :
      (last : ExecutionState)
      → IsFinished last
      → (id : String) → mem id (step_ids steps) ≡ true
      → contains id last.results ≡ true
  IsFinished-contains last f id known = elim (Bool-cases (contains id last.results)) [
    | inl there ↦ there
    | inr gone ↦
        absurd (
          omega
            (arith, f.consistent.covered id known gone, ap (λ l. count id (step_ids l)) f.empty))
  ]

validate_step-IsSupported :
    (x : Executor) (s : ExecutionStep) → validate_step x.registry s ≡ ok tt → IsSupported x s
unfolding validate_step
validate_step-IsSupported x s h =
    let (t, hs, rest) = >>=-eq-ok (validate_operation x.registry s.service s.operation) _ h in hs

execute-outcome :
    (x : Executor) (u c : ℕ) (intent : Intent) (plan : ExecutionPlan)
    → IsWellFormed plan
    → validate_plan x.registry plan ≡ ok tt
    → Ensures Always
        (λ outcome. result_ids outcome.results ≡ step_ids plan.steps)
        Never
        (execute x u c intent plan)
unfolding execute
execute-outcome x u c intent plan w valid =
    let supported : All (IsSupported x) plan.steps =
      All-map _ _ (validate_step-IsSupported x) plan.steps
        (for_each-All _ plan.steps (unfold validate_plan in valid)) in
    let start = IsConsistent-start x plan.steps w.unique_ids supported in
    let Q = λ (o : ExecutionOutcome). result_ids o.results ≡ step_ids plan.steps in
    Ensures-bind (λ t. Unit) Q _ _ (Ensures-lift (λ t. Unit) _ (rw valid tt))
      λ t q.
        Ensures-bind (λ t. Unit) Q _ _
          (record { keeps = λ w p. tt; gives = λ w p. unfold add_execution in tt })
          λ e q.
            Ensures-bind (IsFinished x plan.steps) Q _ _
              (rw (steps_by_id_unique plan.steps w.unique_ids) (
                run_waves-IsFinished x plan.steps w.acyclic (length plan.steps) e u _ (omega arith)
                  start))
              λ last f.
                Ensures-bind (λ rs. result_ids rs ≡ step_ids plan.steps) Q _ _
                  (Ensures-lift _ _ (
                    ordered-Outcome x plan.steps last.results plan.steps f.consistent.named
                      (IsFinished-contains x plan.steps last f)))
                  λ rs same.
                    Ensures-bind (λ t. Unit) Q _ _ (Ensures-write (λ t. Unit) _ (λ w p. tt) tt)
                      λ t q.
                        Ensures-bind (λ t. Unit) Q _ _
                          (record { keeps = λ w p. tt; gives = λ w p. tt })
                          λ t q. Ensures-pure Q _ same

Outcome-returns :
    {A : Type 0} (Q : A → Type 0) (r : Checked A) → Outcome Q Never r → (a : A) × (r ≡ ok a) × Q a
Outcome-returns Q (ok a) q = (a, refl, q)
Outcome-returns Q (err e) q = absurd q

-- A plan that `validate_graph` and the registry accept is run to an outcome, whatever the agents do and
-- however many approvals it needs, and the outcome has one result for each step, in the plan's order.
pub execute-returns :
    (x : Executor) (u c : ℕ) (intent : Intent) (plan : ExecutionPlan) (w : World)
    → validate_graph plan ≡ ok tt
    → validate_plan x.registry plan ≡ ok tt
    → (outcome : ExecutionOutcome) × ((execute x u c intent plan w).0 ≡ ok outcome)
      × (result_ids outcome.results ≡ step_ids plan.steps)
execute-returns x u c intent plan w graph valid =
    Outcome-returns _ _
      ((execute-outcome x u c intent plan ((validate_graph_iff plan).0 graph) valid).gives w tt)
