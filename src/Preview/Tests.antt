-- ===== src/Preview/Tests.antt =====
-- The preview of an event, and the lists of a response.
use agentic_google_workspace.Prelude.{◌≡◌, refl, Option, none, some, List, [], ◌∷◌}
use agentic_google_workspace.Json.{Json, str, arr, obj, nil, cons, end, field}
use agentic_google_workspace.Contracts.{ExecutionStatus, StepResult}
use agentic_google_workspace.Preview.{
  sanitized_approval_preview, actions_taken, pending_approvals, step_errors,
}
use agentic_google_workspace.Preview.Safe.{IsSafePreview, sanitized_approval_preview-IsSafePreview}
use agentic_google_workspace.Preview.Listed.{IsListed, response_lists-IsListed}

abbrev action : Option Json
action = some (
    obj (
      field "service" (str "google_calendar") (
        field "token" (str "secret") (
          field "arguments"
            (obj (
              field "description" (str "private")
                (field "attendees" (arr (cons (str "a@b") (cons (obj end) nil))) end)))
            end))))

action_shown :
    sanitized_approval_preview action
    ≡ some (
        obj (
          field "service"
            (str "google_calendar")
            (field "arguments" (obj (field "attendees" (arr (cons (str "a@b") nil)) end)) end)))
unfolding sanitized_approval_preview
action_shown = refl

abbrev results : List StepResult
results =
    record { step_id = "a"; status = ExecutionStatus.completed; content = end; error = none }
    ∷ record { step_id = "b"; status = ExecutionStatus.skipped; content = end; error = none }
    ∷ record {
      step_id = "c";
      status = ExecutionStatus.awaiting_approval;
      content =
          field "approval_id" (str "1")
            (field "proposed_action" (obj (field "service" (str "gmail") end)) end);
      error = none;
    }
    ∷ []

sanitized_approval_preview-IsSafePreview_example : IsSafePreview (sanitized_approval_preview action)
sanitized_approval_preview-IsSafePreview_example = sanitized_approval_preview-IsSafePreview action

response_lists-IsListed_example :
    IsListed results (actions_taken results) (pending_approvals results) (step_errors results)
response_lists-IsListed_example = response_lists-IsListed results
