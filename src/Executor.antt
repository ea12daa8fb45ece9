-- ===== src/Executor.antt =====
-- `DAGExecutor` of app/orchestration/executor.py: a plan is run in waves of the steps whose
-- dependencies have results.
pub mod Monad
pub mod Wave
pub mod Run
pub mod Ensures
pub mod Safety
mod Counts
mod Steps
mod Settling
mod Preparing
pub mod Total
pub mod Completes
mod Tests
use agentic_google_workspace.Prelude.{
  ℕ, zero, suc, ◌+◌, String, Bool, true, false, not, ◌&&◌, ◌||◌, Option, none, some, List, [], ◌∷◌,
  ◌++◌, ◌==◌, if◌then◌else◌, all, any, select, length, ok, err, ◌>>=◌, ◌>>◌,
}
use agentic_google_workspace.Dict.{Dict, lookup, contains, insert}
use agentic_google_workspace.Json.{Json, Fields, null, str, obj, arr, nil, end, field, of_items}
use agentic_google_workspace.Contracts.{
  Service, service_value, ExecutionStatus, status_eq, ErrorInfo, Intent, ExecutionStep,
  ExecutionPlan, StepResult, AgentResult, Exception, value_error, reference_error, runtime_error,
  key_error, type_error, recursion_error, Checked,
}
use agentic_google_workspace.References.{Unicode, resolve_references}
use agentic_google_workspace.Registry
use agentic_google_workspace.Registry.{AgentRegistry, Call, requires_approval, validate_plan}
use agentic_google_workspace.Database.{
  Execution, StepRecord, ActionApproval, Rows, Session, commit, status_value,
}

-- The text of an identifier that the database made: `str(approval.id)`.
pub record Executor : Type 0 where
  pub registry : AgentRegistry
  pub unicode : Unicode
  pub id_text : ℕ → String

-- The session, and the calls of agents so far, the latest first.
pub record World : Type 0 where
  pub session : Session
  pub calls : List Call

abbrev pub Action : Type 0 → Type 0
Action A = World → Checked A × World

-- An entry of `wave_results`.
pub record WaveResult : Type 0 where
  pub step : ExecutionStep
  pub result : StepResult
  pub approval_id : Option ℕ
  pub arguments : Json

-- What a ready step comes to before the agents are called.
pub data Prepared : Type 0 where
  settled : WaveResult → Prepared
  executable : ExecutionStep → Json → Prepared

pub record ExecutionState : Type 0 where
  pub remaining : List ExecutionStep
  pub results : Dict StepResult
  pub approval_ids : List ℕ

pub record ExecutionOutcome : Type 0 where
  pub execution_id : ℕ
  pub results : List StepResult
  pub pending_approval_ids : List ℕ

-- `{step.step_id: step …}`: a dict in which each step stands under its own identifier.
abbrev pub put_step : ExecutionStep → List ExecutionStep → List ExecutionStep
put_step s [] = s ∷ []
put_step s (t ∷ ts) = if t.step_id == s.step_id then s ∷ ts else t ∷ put_step s ts

abbrev pub steps_by_id : List ExecutionStep → List ExecutionStep → List ExecutionStep
steps_by_id acc [] = acc
steps_by_id acc (s ∷ ss) = steps_by_id (put_step s acc) ss

-- `remaining.pop(step_id)`
abbrev pub pop_step : String → List ExecutionStep → Checked (List ExecutionStep)
pop_step id [] = err (key_error id)
pop_step id (t ∷ ts) =
    let rest = pop_step id ts in if t.step_id == id then ok ts else (rest >>= λ us. ok (t ∷ us))

abbrev pub is_ready : Dict StepResult → ExecutionStep → Bool
is_ready results step = all (λ d. contains d results) step.depends_on

abbrev pub is_unavailable : ExecutionStatus → Bool
is_unavailable ExecutionStatus.failed = true
is_unavailable ExecutionStatus.skipped = true
is_unavailable ExecutionStatus.awaiting_approval = true
is_unavailable _ = false

-- `any(results[d].status in {…} for d in depends_on)`
pub dependency_failed : Dict StepResult → List String → Checked Bool
dependency_failed results [] = ok false
dependency_failed results (d ∷ ds) =
    let rest = dependency_failed results ds in
    elim (lookup d results) [
      | none ↦ err (key_error d)
      | some r ↦ if is_unavailable r.status then ok true else rest
    ]

abbrev plain_error : String → String → Option ErrorInfo
plain_error error_code message =
    some (record { error_code = error_code; message = message; details = end })

abbrev pub skipped_result : ExecutionStep → WaveResult
skipped_result step = record {
  step = step;
  result = record {
    step_id = step.step_id;
    status = ExecutionStatus.skipped;
    content = end;
    error = plain_error "dependency_unavailable" "A required prior step did not complete";
  };
  approval_id = none;
  arguments = obj step.arguments;
}

abbrev failed_result : ExecutionStep → Option ErrorInfo → WaveResult
failed_result step error = record {
  step = step;
  result = record {
    step_id = step.step_id;
    status = ExecutionStatus.failed;
    content = end;
    error = error;
  };
  approval_id = none;
  arguments = obj step.arguments;
}

-- The handlers of the exceptions that `_resolve_references` raises; others pass.
abbrev pub unresolved : ExecutionStep → Exception → Checked Prepared
unresolved step (reference_error error_code source_id path) = ok (
    settled (
      failed_result step (
        some (record {
          error_code = error_code;
          message =
              "A referenced prior-step result was unavailable; the dependent search was not attempted";
          details = field "source_step_id" (str source_id) (field "path" (arr (of_items path)) end);
        }))))
unresolved step (value_error m) = ok (
    settled (
      failed_result step (
        plain_error "reference_resolution_failed"
          "A prior step output reference could not be resolved")))
unresolved step (key_error k) = ok (
    settled (
      failed_result step (
        plain_error "reference_resolution_failed"
          "A prior step output reference could not be resolved")))
unresolved step type_error = ok (
    settled (
      failed_result step (
        plain_error "reference_resolution_failed"
          "A prior step output reference could not be resolved")))
unresolved step (Exception.unknown_operation s o) = ok (
    settled (
      failed_result step (
        plain_error "reference_resolution_failed"
          "A prior step output reference could not be resolved")))
unresolved step e = err e

-- `_step_result`: an exception of `registry.execute` becomes a failed step.
pub step_result : ExecutionStep → Checked AgentResult → StepResult
step_result step (err e) = record {
  step_id = step.step_id;
  status = ExecutionStatus.failed;
  content = end;
  error = plain_error "operation_failed" "The service operation could not be completed";
}
step_result step (ok r) = record {
  step_id = step.step_id;
  status = r.status;
  content = r.content;
  error = r.error;
}
