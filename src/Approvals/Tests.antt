-- ===== src/Approvals/Tests.antt =====
-- An approval of a message that one user approves, and rejects afterwards.
use agentic_google_workspace.Prelude.{false, ℕ, String, ◌≡◌, ◌⊎◌, refl, some, none, [], ◌∷◌, ok}
use agentic_google_workspace.Json.{Fields, end, field, obj, str}
use agentic_google_workspace.Contracts.{Service, ExecutionStatus, ExecutionStep}
use agentic_google_workspace.Specs.Validate.{validate_operation_arguments}
use agentic_google_workspace.Registry.{AgentRegistry, Call, checked_call, validate_operation}
use agentic_google_workspace.Registry
use agentic_google_workspace.Database.{Rows, StepRecord, ActionApproval}
use agentic_google_workspace.Executor.{World}
use agentic_google_workspace.Executor.Monad.{◌>>=◌}
use agentic_google_workspace.Executor.Wave.{proposed_action}
use agentic_google_workspace.Approvals.{
  parse_action, pending_approval, execution_step, refresh_execution_status,
}
use agentic_google_workspace.Approvals.Decide.{
  ApprovalResponse, read, commit_all, execute_stored, approve_action, request,
}
use agentic_google_workspace.Approvals.Laws.{approve, reject, respond, run}
use agentic_google_workspace.Approvals.Once.{no_longer_pending, respond-once}
use agentic_google_workspace.Approvals.Stored.{Called, parse_action-proposed_action, approve-calls}

abbrev registry : AgentRegistry
registry = record {
  has_workspace = false;
  agents = λ n call.
      some (record {
        status = ExecutionStatus.completed;
        content = end;
        source_ids = [];
        error = none;
      });
  iso = record { parse_datetime = λ s. none; parse_date = λ s. none };
}

abbrev id_text : ℕ → String
id_text n = "id"

abbrev draft : Fields
draft = field "draft_id" (str "d") end

abbrev send : ExecutionStep
send = record {
  step_id = "send";
  service = Service.gmail;
  operation = "send_email";
  arguments = draft;
  depends_on = [];
}

abbrev waiting : ActionApproval
waiting = record {
  id = 4;
  execution_id = 3;
  step_id = "send";
  user_id = 1;
  status = "awaiting_approval";
  proposed_action = proposed_action send (obj draft);
}

abbrev sending : StepRecord
sending = record {
  execution_id = 3;
  step_id = "send";
  service = Service.gmail;
  operation = "send_email";
  status = "awaiting_approval";
  arguments = obj draft;
  result = end;
  error_details = none;
}

abbrev rows : Rows
rows = record {
  next_id = 5;
  executions = [];
  steps = sending ∷ [];
  approvals = waiting ∷ [];
  audit_logs = [];
}

abbrev world : World
world = record { session = record { current = rows; committed = rows }; calls = [] }

abbrev answer : ApprovalResponse
answer = record { approval_id = 4; status = "approved"; result = some end }

approved : (respond registry id_text (approve 4 1) world).0 ≡ ok answer
unfolding respond request approve_action read commit_all execute_stored pending_approval
    execution_step refresh_execution_status Registry.execute checked_call validate_operation
    validate_operation_arguments ◌>>=◌
approved = refl

respond-once_example :
    let v =
      run registry id_text (reject 9 1 ∷ []) (respond registry id_text (approve 4 1) world).1 in
    respond registry id_text (reject 4 1) v ≡ no_longer_pending v
respond-once_example =
    respond-once registry id_text (approve 4 1) (reject 4 1) (reject 9 1 ∷ []) world refl approved

parse_action-proposed_action_example :
    parse_action (proposed_action send (obj draft))
    ≡ ok (record { service = Service.gmail; operation = "send_email"; arguments = draft })
parse_action-proposed_action_example = parse_action-proposed_action send draft

approve-calls_example :
    let v = (request (approve_action registry id_text 4 1) world).1 in
    (v.calls ≡ []) ⊎ ((call : Call) × Called 4 1 rows call × (v.calls ≡ call ∷ []))
approve-calls_example = approve-calls registry id_text 4 1 world
