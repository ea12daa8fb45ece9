-- ===== src/Preview.antt =====
-- What app/api/routes/query.py tells the user of the results of a plan.
pub mod Safe
pub mod Listed
mod Tests
use agentic_google_workspace.Prelude.{
  String, Bool, true, false, Option, none, some, List, [], ◌∷◌, ◌==◌, if◌then◌else◌, take, select,
}
use agentic_google_workspace.Json.{
  Json, Fields, null, bool, str, arr, obj, end, field, get, get_or, items, of_items, is_str, put,
}
use agentic_google_workspace.Contracts.{ExecutionStatus, status_eq, StepResult}
use agentic_google_workspace.Database.{status_value, dump_error}
use agentic_google_workspace.Synthesis.{is_unfinished}

abbrev pub safe_keys : List String
safe_keys =
    "title" ∷ "start" ∷ "end" ∷ "attendees" ∷ "create_google_meet" ∷ "event_id" ∷ "message_id"
    ∷ "file_id" ∷ "to" ∷ "subject" ∷ []

-- The value that is shown for a key: a text, a Boolean, or up to ten attendees.
abbrev pub safe_value : String → Option Json → Option Json
safe_value key (some (str s)) = some (str s)
safe_value key (some (bool b)) = some (bool b)
safe_value key (some (arr xs)) =
    if key == "attendees" then some (arr (of_items (select is_str (take 10 (items xs))))) else none
safe_value key _ = none

abbrev pub add : String → Option Json → Fields → Fields
add key none rest = rest
add key (some v) rest = field key v rest

abbrev pub safe_arguments : List String → Fields → Fields
safe_arguments [] source = end
safe_arguments (k ∷ ks) source = add k (safe_value k (get k source)) (safe_arguments ks source)

abbrev pub text_value : Option Json → Option Json
text_value (some (str s)) = some (str s)
text_value _ = none

abbrev source_of : Fields → Option Json → Fields
source_of value (some (obj arguments)) = arguments
source_of value _ = value

abbrev pub nonempty : Fields → Option Json
nonempty end = none
nonempty (field k v fs) = some (obj (field k v fs))

-- `_sanitized_approval_preview` of a dict
abbrev pub preview_of : Fields → Fields
preview_of value = add "service" (text_value (get "service" value)) (
    add "operation" (text_value (get "operation" value)) (
      add "arguments"
        (nonempty (safe_arguments safe_keys (source_of value (get "arguments" value)))) end))

unfoldable pub sanitized_approval_preview : Option Json → Option Json
sanitized_approval_preview (some (obj value)) = nonempty (preview_of value)
sanitized_approval_preview _ = none

-- The three lists of the response.
abbrev pub action_taken : StepResult → Json
action_taken r = obj (field "step_id" (str r.step_id) (field "data" (obj r.content) end))

abbrev pub pending_approval : StepResult → Json
unfolding sanitized_approval_preview
pending_approval r = obj (
    field "step_id" (str r.step_id) (
      field "approval_id" (get_or "approval_id" r.content null)
        (add "proposed_action" (sanitized_approval_preview (get "proposed_action" r.content)) end)))

abbrev pub error_json : Option Fields → Json
error_json none = null
error_json (some fs) = obj fs

abbrev pub step_error : StepResult → Json
step_error r = obj (
    field "step_id" (str r.step_id) (
      field "status" (str (status_value r.status))
        (field "error" (error_json (dump_error r.error)) end)))

abbrev pub collect : (StepResult → Bool) → (StepResult → Json) → List StepResult → List Json
collect test f [] = []
collect test f (r ∷ rs) = let rest = collect test f rs in if test r then f r ∷ rest else rest

abbrev pub is_completed : StepResult → Bool
is_completed r = status_eq r.status ExecutionStatus.completed

abbrev pub is_awaiting : StepResult → Bool
is_awaiting r = status_eq r.status ExecutionStatus.awaiting_approval

abbrev pub actions_taken : List StepResult → List Json
actions_taken = collect is_completed action_taken

abbrev pub pending_approvals : List StepResult → List Json
unfolding pending_approval
pending_approvals = collect is_awaiting pending_approval

abbrev pub step_errors : List StepResult → List Json
step_errors = collect is_unfinished step_error
