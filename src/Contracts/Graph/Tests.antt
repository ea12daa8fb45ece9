-- ===== src/Contracts/Graph/Tests.antt =====
-- Plans of two steps: one that is accepted, and one whose steps wait for each other.
use agentic_google_workspace.Prelude.{◌≡◌, ◌↔◌, refl, List, [], ◌∷◌, String, ok, err}
use agentic_google_workspace.Json.{end, field, obj, str, arr, cons, nil}
use agentic_google_workspace.Text.{strip_whitespace, is_identifier}
use agentic_google_workspace.Contracts.Types.{Service, ExecutionStep, ExecutionPlan, value_error}
use agentic_google_workspace.Contracts.Graph.{
  validate_graph, check_dependency, check_reference, parse_reference,
}
use agentic_google_workspace.Contracts.Graph.Valid.{IsWellFormed, validate_graph_iff}

abbrev find : List String → ExecutionStep
find depends_on = record {
  step_id = "find";
  service = Service.gmail;
  operation = "search_emails";
  arguments = end;
  depends_on = depends_on;
}

abbrev open_first : ExecutionStep
open_first = record {
  step_id = "open";
  service = Service.gmail;
  operation = "get_email";
  arguments =
      field "message_id"
        (obj (field "$step" (str "find") (field "path" (arr (cons (str "first") nil)) end))) end;
  depends_on = "find" ∷ [];
}

abbrev plan : ExecutionPlan
plan = record { steps = open_first ∷ find [] ∷ [] }

abbrev circular : ExecutionPlan
circular = record { steps = open_first ∷ find ("open" ∷ []) ∷ [] }

circular-refused :
    validate_graph circular ≡ err (value_error "execution plan contains a dependency cycle")
unfolding validate_graph check_dependency check_reference parse_reference strip_whitespace
    is_identifier
circular-refused = refl

validate_graph_iff_example : (validate_graph plan ≡ ok tt) ↔ IsWellFormed plan
validate_graph_iff_example = validate_graph_iff plan
