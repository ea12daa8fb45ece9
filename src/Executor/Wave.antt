-- ===== src/Executor/Wave.antt =====
-- One round of the loop of `DAGExecutor.execute` in app/orchestration/executor.py.
use agentic_google_workspace.Prelude.{
  ℕ, suc, Bool, true, false, Option, none, some, List, [], ◌∷◌, ◌++◌, select, ok, err,
}
use agentic_google_workspace.Dict.{Dict, insert}
use agentic_google_workspace.Json.{Json, Fields, str, obj, end, field}
use agentic_google_workspace.Contracts.{
  service_value, ExecutionStatus, ExecutionStep, StepResult, runtime_error, Checked,
}
use agentic_google_workspace.References.{resolve_references}
use agentic_google_workspace.Registry.{Call, requires_approval, validate_plan}
use agentic_google_workspace.Registry as Registry
use agentic_google_workspace.Database.{dump_error, StepRecord, ActionApproval, status_value}
use agentic_google_workspace.Executor.{
  Executor, World, Action, WaveResult, Prepared, settled, executable, ExecutionState, pop_step,
  is_ready, dependency_failed, skipped_result, unresolved, step_result,
}
use agentic_google_workspace.Executor.Monad.{pure, lift, write, ◌>>=◌, ◌>>◌}

abbrev pub proposed_action : ExecutionStep → Json → Fields
proposed_action step arguments =
    field "service" (str (service_value step.service))
      (field "operation" (str step.operation) (field "arguments" arguments end))

module _ (x : Executor) where
  -- A new `ActionApproval`, with the identifier that the flush gives it.
  unfoldable pub add_approval : ℕ → ℕ → ExecutionStep → Json → Action ℕ
  add_approval execution_id user_id step arguments w =
      let rows = w.session.current in
      let approval : ActionApproval = record {
        id = rows.next_id;
        execution_id = execution_id;
        step_id = step.step_id;
        user_id = user_id;
        status = status_value ExecutionStatus.awaiting_approval;
        proposed_action = proposed_action step arguments;
      } in
      (
        ok rows.next_id,
        record w {
          session = record w.session {
            current = record rows {
              next_id = suc rows.next_id;
              approvals = rows.approvals ++ approval ∷ [];
            };
          };
        },
      )

  abbrev pub awaiting_result : ExecutionStep → ℕ → Json → WaveResult
  awaiting_result step approval_id arguments = record {
    step = step;
    result = record {
      step_id = step.step_id;
      status = ExecutionStatus.awaiting_approval;
      content = field "approval_id" (str (x.id_text approval_id)) end;
      error = none;
    };
    approval_id = some approval_id;
    arguments = arguments;
  }

  abbrev pub submit_if : Bool → ℕ → ℕ → ExecutionStep → Json → Action Prepared
  submit_if true execution_id user_id step arguments = do
    approval_id ← add_approval execution_id user_id step arguments
    pure (settled (awaiting_result step approval_id arguments))
  submit_if false execution_id user_id step arguments = pure (executable step arguments)

  -- A step whose arguments are resolved waits for an approval, or is left to the agents.
  unfoldable pub submit : ℕ → ℕ → ExecutionStep → Json → Action Prepared
  submit execution_id user_id step arguments = do
    required ← lift (requires_approval x.registry step.service step.operation)
    submit_if required execution_id user_id step arguments

  abbrev pub resolved : ℕ → ℕ → ExecutionStep → Checked Json → Action Prepared
  resolved execution_id user_id step (ok arguments) = submit execution_id user_id step arguments
  resolved execution_id user_id step (err e) = lift (unresolved step e)

  abbrev pub prepare_if : Bool → ℕ → ℕ → Dict StepResult → ExecutionStep → Action Prepared
  prepare_if true execution_id user_id results step = pure (settled (skipped_result step))
  prepare_if false execution_id user_id results step =
      resolved execution_id user_id step (resolve_references x.unicode results (obj step.arguments))

  -- The body of `for step in ready`.
  unfoldable pub prepare : ℕ → ℕ → Dict StepResult → ExecutionStep → Action Prepared
  prepare execution_id user_id results step = do
    unavailable ← lift (dependency_failed results step.depends_on)
    prepare_if unavailable execution_id user_id results step

  abbrev pub add_prepared :
      Prepared
      → List WaveResult × List (ExecutionStep × Json)
      → List WaveResult × List (ExecutionStep × Json)
  add_prepared (settled r) (rs, es) = (r ∷ rs, es)
  add_prepared (executable step arguments) (rs, es) = (rs, (step, arguments) ∷ es)

  -- The wave's results so far, and the steps left to the agents.
  unfoldable pub prepare_all :
      ℕ
      → ℕ
      → Dict StepResult
      → List ExecutionStep
      → Action (List WaveResult × List (ExecutionStep × Json))
  prepare_all execution_id user_id results [] = pure ([], [])
  prepare_all execution_id user_id results (step ∷ ready) = do
    prepared ← prepare execution_id user_id results step
    others ← prepare_all execution_id user_id results ready
    pure (add_prepared prepared others)

  -- One task of `asyncio.gather`: what it raises is its result.
  unfoldable pub run_step : ExecutionStep → Json → World → WaveResult × World
  run_step step arguments w =
      let (answer, calls) =
        Registry.execute x.registry step.service step.operation arguments w.calls in
      (
        record {
          step = step;
          result = step_result step answer;
          approval_id = none;
          arguments = arguments;
        },
        record w { calls = calls },
      )

  unfoldable pub gather : List (ExecutionStep × Json) → World → List WaveResult × World
  gather [] w = ([], w)
  gather ((step, arguments) ∷ es) w =
      let (r, v) = run_step step arguments w in let (rs, u) = gather es v in (r ∷ rs, u)

  abbrev pub step_record : ℕ → WaveResult → StepRecord
  step_record execution_id r = record {
    execution_id = execution_id;
    step_id = r.step.step_id;
    service = r.step.service;
    operation = r.step.operation;
    status = status_value r.result.status;
    arguments = r.arguments;
    result = r.result.content;
    error_details = dump_error r.result.error;
  }

  abbrev pub approval_list : Option ℕ → List ℕ
  approval_list none = []
  approval_list (some id) = id ∷ []

  -- The body of `for step, result, approval_id, resolved_arguments in wave_results`.
  unfoldable pub settle : ℕ → ExecutionState → WaveResult → Action ExecutionState
  settle execution_id state r = do
    remaining ← lift (pop_step r.step.step_id state.remaining)
    write (λ rows. record rows { steps = rows.steps ++ step_record execution_id r ∷ [] })
    pure (record {
      remaining = remaining;
      results = insert r.step.step_id r.result state.results;
      approval_ids = state.approval_ids ++ approval_list r.approval_id;
    })

  unfoldable pub settle_all : ℕ → ExecutionState → List WaveResult → Action ExecutionState
  settle_all execution_id state [] = pure state
  settle_all execution_id state (r ∷ rs) = do
    next ← settle execution_id state r
    settle_all execution_id next rs

  -- The agents run after the whole wave is prepared, and their results stand behind the others.
  unfoldable pub finish_wave :
      ℕ → ExecutionState → List WaveResult × List (ExecutionStep × Json) → Action ExecutionState
  finish_wave execution_id state (rs, es) w =
      let (gathered, v) = gather es w in settle_all execution_id state (rs ++ gathered) v

  abbrev pub run_ready : ℕ → ℕ → ExecutionState → List ExecutionStep → Action ExecutionState
  run_ready execution_id user_id state [] =
      lift (err (runtime_error "Execution plan has no runnable steps"))
  run_ready execution_id user_id state (step ∷ ready) = do
    prepared ← prepare_all execution_id user_id state.results (step ∷ ready)
    finish_wave execution_id state prepared

  -- One round of `while remaining`.
  unfoldable pub wave : ℕ → ℕ → ExecutionState → Action ExecutionState
  wave execution_id user_id state =
      run_ready execution_id user_id state (select (is_ready state.results) state.remaining)
