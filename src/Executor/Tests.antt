-- ===== src/Executor/Tests.antt =====
-- A plan with a search, a message that rests on it and waits for an approval, and a step behind that.
use agentic_google_workspace.Prelude.{ℕ, ◌≡◌, refl, true, false, Option, none, some, [], ◌∷◌, ok}
use agentic_google_workspace.Prelude.Int.{pos}
use agentic_google_workspace.Json.{Fields, str, int, arr, obj, nil, cons, end, field}
use agentic_google_workspace.Contracts.{
  Service, ExecutionStatus, Intent, ExecutionStep, ExecutionPlan, AgentResult,
}
use agentic_google_workspace.Contracts.Graph.{
  validate_graph, check_dependency, check_reference, parse_reference,
}
use agentic_google_workspace.Text.{strip_whitespace, is_identifier}
use agentic_google_workspace.Specs.Validate.{validate_operation_arguments}
use agentic_google_workspace.Specs.Values.{Iso, aware}
use agentic_google_workspace.References.{Unicode}
use agentic_google_workspace.Registry.{
  AgentRegistry, Call, validate_plan, validate_step, validate_operation,
}
use agentic_google_workspace.Database.{Rows}
use agentic_google_workspace.Executor.{Executor, World, ExecutionOutcome}
use agentic_google_workspace.Executor.Run.{execute}
use agentic_google_workspace.Executor.Safety.{AllPermitted, execute-permitted}
use agentic_google_workspace.Executor.Completes.{result_ids, execute-returns}

abbrev pub iso : Iso
iso = record { parse_datetime = λ s. some (aware (pos 0)); parse_date = λ s. some 0 }

abbrev pub unicode : Unicode
unicode = record { is_digit = λ c. false; decimal = λ c. none }

-- Every call returns one event.
abbrev pub one_event : ℕ → Call → Option AgentResult
one_event n call = some (record {
  status = ExecutionStatus.completed;
  content = field "events" (arr (cons (obj (field "title" (str "Review") end)) nil)) end;
  source_ids = [];
  error = none;
})

abbrev pub registry : AgentRegistry
registry = record { has_workspace = true; agents = one_event; iso = iso }

abbrev pub executor : Executor
executor = record { registry = registry; unicode = unicode; id_text = λ n. "id" }

abbrev pub no_rows : Rows
no_rows = record { next_id = 0; executions = []; steps = []; approvals = []; audit_logs = [] }

abbrev pub world : World
world = record { session = record { current = no_rows; committed = no_rows }; calls = [] }

abbrev title : Fields
title =
    field "$step" (str "find")
      (field "path" (arr (cons (str "events") (cons (str "first") (cons (str "title") nil)))) end)

abbrev find : ExecutionStep
find = record {
  step_id = "find";
  service = Service.google_calendar;
  operation = "search_events";
  arguments = field "max_results" (int (pos 1)) end;
  depends_on = [];
}

abbrev send : ExecutionStep
send = record {
  step_id = "send";
  service = Service.gmail;
  operation = "send_email";
  arguments = field "to" (str "a@b") (field "subject" (obj title) (field "body" (str "x") end));
  depends_on = "find" ∷ [];
}

abbrev after : ExecutionStep
after = record {
  step_id = "after";
  service = Service.gmail;
  operation = "search_emails";
  arguments = end;
  depends_on = "send" ∷ [];
}

abbrev pub plan : ExecutionPlan
plan = record { steps = after ∷ send ∷ find ∷ [] }

abbrev pub intent : Intent
intent = record {
  intent_name = "send";
  required_services = Service.gmail ∷ [];
  extracted_entities = end;
  requires_clarification = false;
  clarification_question = none;
}

plan-valid : validate_graph plan ≡ ok tt
unfolding validate_graph check_dependency check_reference parse_reference strip_whitespace
    is_identifier
plan-valid = refl

plan-supported : validate_plan registry plan ≡ ok tt
unfolding validate_plan validate_step validate_operation validate_operation_arguments
plan-supported = refl

execute-returns_example :
    (outcome : ExecutionOutcome) × ((execute executor 1 2 intent plan world).0 ≡ ok outcome)
    × (result_ids outcome.results ≡ "after" ∷ "send" ∷ "find" ∷ [])
execute-returns_example = execute-returns executor 1 2 intent plan world plan-valid plan-supported

execute-permitted_example : AllPermitted executor (execute executor 1 2 intent plan world).1
execute-permitted_example = execute-permitted executor 1 2 intent plan world tt
