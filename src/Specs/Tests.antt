-- ===== src/Specs/Tests.antt =====
-- Runs of the check on small inputs.
use agentic_google_workspace.Prelude.{ℕ, ◌≤◌, [], ◌∷◌, ◌≡◌, refl, true, false, some, ok, err}
use agentic_google_workspace.Prelude.Int.{pos}
use agentic_google_workspace.Json.{Fields, names, str, int, arr, obj, nil, cons, end, field}
use agentic_google_workspace.Contracts.{Service, value_error, type_error}
use agentic_google_workspace.Specs.Values.{contains_step_reference, max_results_limit, Iso, aware}
use agentic_google_workspace.Specs.Modes.{validate_operation_arguments-plain}
use agentic_google_workspace.Specs.Accepted.{max_results_bounded, send_email_complete}
use agentic_google_workspace.Specs.Validate.{is_subset, validate_operation_arguments}

abbrev iso : Iso
iso = record { parse_datetime = λ s. some (aware (pos 0)); parse_date = λ s. some 0 }

search_ok :
    validate_operation_arguments iso Service.gmail "search_emails"
      (field "max_results" (int (pos 100)) end)
      false
    ≡ ok tt
unfolding validate_operation_arguments
search_ok = refl

search_too_many :
    validate_operation_arguments iso Service.gmail "search_emails"
      (field "max_results" (int (pos 101)) end)
      false
    ≡ err (value_error "max_results out of range")
unfolding validate_operation_arguments
search_too_many = refl

-- A reference inside the list of services is no text, and a dict cannot be looked up in a set.
services_reference :
    validate_operation_arguments iso Service.workspace "workspace_search"
      (field "query"
        (str "x")
        (field "services" (arr (cons (obj (field "$step" (str "a") end)) nil)) end))
      true
    ≡ err type_error
unfolding validate_operation_arguments
services_reference = refl

abbrev one_hundred : Fields
one_hundred = field "max_results" (int (pos 100)) end

abbrev message : Fields
message = field "to" (str "a@b") (field "subject" (str "s") (field "body" (str "b") end))

message_ok : validate_operation_arguments iso Service.gmail "send_email" message false ≡ ok tt
unfolding validate_operation_arguments
message_ok = refl

validate_operation_arguments-plain_example :
    validate_operation_arguments iso Service.gmail "search_emails" one_hundred true
    ≡ validate_operation_arguments iso Service.gmail "search_emails" one_hundred false
unfolding contains_step_reference
validate_operation_arguments-plain_example =
    validate_operation_arguments-plain iso Service.gmail "search_emails" one_hundred refl

max_results_bounded_example :
    (m : ℕ) × (int (pos 100) ≡ int (pos m)) × (1 ≤ m) × (m ≤ max_results_limit Service.gmail)
unfolding contains_step_reference
max_results_bounded_example =
    max_results_bounded iso Service.gmail "search_emails" one_hundred false search_ok refl refl

send_email_complete_example : is_subset ("to" ∷ "subject" ∷ "body" ∷ []) (names message) ≡ true
send_email_complete_example = send_email_complete iso Service.gmail message false message_ok refl
