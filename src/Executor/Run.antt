-- ===== src/Executor/Run.antt =====
-- The loop and the end of `DAGExecutor.execute` in app/orchestration/executor.py.
use agentic_google_workspace.Prelude.{
  ℕ, zero, suc, Bool, none, some, List, [], ◌∷◌, ◌++◌, any, length, ok, err, if◌then◌else◌,
}
use agentic_google_workspace.Dict.{Dict, lookup}
use agentic_google_workspace.Contracts.{
  ExecutionStatus, status_eq, Intent, ExecutionStep, ExecutionPlan, StepResult, key_error,
  recursion_error, Checked,
}
use agentic_google_workspace.Registry.{validate_plan}
use agentic_google_workspace.Database.{set_status, Execution, commit, status_value}
use agentic_google_workspace.Executor.{
  Executor, Action, ExecutionState, ExecutionOutcome, steps_by_id,
}
use agentic_google_workspace.Executor.Monad.{pure, lift, write, ◌>>=◌, ◌>>◌}
use agentic_google_workspace.Executor.Wave.{wave}

module _ (x : Executor) where
  -- The test of `while remaining`, before a round and what follows it.
  abbrev pub while_remaining :
      List ExecutionStep → ExecutionState → Action ExecutionState → Action ExecutionState
  while_remaining [] state round = pure state
  while_remaining (_ ∷ _) state round = round

  -- A round leaves fewer steps, so their number is fuel enough.
  unfoldable pub run_waves : ℕ → ℕ → ℕ → ExecutionState → Action ExecutionState
  run_waves zero execution_id user_id state =
      while_remaining state.remaining state (lift (err recursion_error))
  run_waves (suc fuel) execution_id user_id state =
      while_remaining state.remaining state
        (wave x execution_id user_id state >>= run_waves fuel execution_id user_id)

  abbrev pub cons_result : StepResult → Checked (List StepResult) → Checked (List StepResult)
  cons_result r (ok rs) = ok (r ∷ rs)
  cons_result r (err e) = err e

  -- `[results[step.step_id] for step in plan.steps]`
  abbrev pub ordered_results : Dict StepResult → List ExecutionStep → Checked (List StepResult)
  ordered_results results [] = ok []
  ordered_results results (s ∷ ss) = elim (lookup s.step_id results) [
    | none ↦ err (key_error s.step_id)
    | some r ↦ cons_result r (ordered_results results ss)
  ]

  abbrev pub some_status : ExecutionStatus → List StepResult → Bool
  some_status status = any (λ r. status_eq r.status status)

  abbrev pub final_status : List StepResult → ExecutionStatus
  final_status results =
      if some_status ExecutionStatus.failed results
      then ExecutionStatus.failed
      else if some_status ExecutionStatus.awaiting_approval results
      then ExecutionStatus.awaiting_approval
      else ExecutionStatus.completed

  -- A new `Execution` that is running.
  unfoldable pub add_execution : ℕ → ℕ → Intent → ExecutionPlan → Action ℕ
  add_execution user_id conversation_id intent plan w =
      let rows = w.session.current in
      let execution : Execution = record {
        id = rows.next_id;
        user_id = user_id;
        conversation_id = conversation_id;
        status = status_value ExecutionStatus.running;
        intent = intent;
        execution_plan = plan;
      } in
      (
        ok rows.next_id,
        record w {
          session = record w.session {
            current = record rows {
              next_id = suc rows.next_id;
              executions = rows.executions ++ execution ∷ [];
            };
          };
        },
      )

  abbrev pub commit_all : Action (Unit {0})
  commit_all w = (ok tt, record w { session = commit w.session })

  unfoldable pub execute : ℕ → ℕ → Intent → ExecutionPlan → Action ExecutionOutcome
  unfolding add_execution
  execute user_id conversation_id intent plan = do
    lift (validate_plan x.registry plan)
    execution_id ← add_execution user_id conversation_id intent plan
    last ←
        run_waves (length plan.steps) execution_id user_id
          (record { remaining = steps_by_id [] plan.steps; results = []; approval_ids = [] })
    results ← lift (ordered_results last.results plan.steps)
    write (λ rows. record rows {
      executions = set_status execution_id (status_value (final_status results)) rows.executions;
    })
    commit_all
    pure (record {
      execution_id = execution_id;
      results = results;
      pending_approval_ids = last.approval_ids;
    })
