-- ===== src/Specs/Validate.antt =====
-- `validate_operation_arguments` of app/orchestration/operation_specs.py.
use agentic_google_workspace.Prelude.{
  String, Bool, false, not, ◌&&◌, ◌||◌, none, some, List, [], ◌∷◌, ◌==◌, if◌then◌else◌, mem, all,
  ok, err, ◌>>=◌, ◌>>◌, guard,
}
use agentic_google_workspace.Dict.{lookup, keys}
use agentic_google_workspace.Json.{
  Json, Fields, str, arr, obj, nil, end, field, has, get_or, items, names,
}
use agentic_google_workspace.Contracts.{Service, service_eq, value_error, type_error, Checked}
use agentic_google_workspace.Contracts.Graph.{for_each}
use agentic_google_workspace.Specs.Catalog.{OperationSpec, operation_specifications}
use agentic_google_workspace.Specs.Values.{
  Iso, contains_step_reference, validate_workspace_query, is_int_within, validate_max_results,
  is_bool, is_nonempty_texts, is_nonempty_str, aware_timestamp, iso_date, validate_order,
  validate_date_order,
}

abbrev pub list_arguments : List String
list_arguments = "add_label_ids" ∷ "remove_label_ids" ∷ "attendees" ∷ "services" ∷ []

abbrev pub timestamp_arguments : List String
timestamp_arguments =
    "time_min" ∷ "time_max" ∷ "start" ∷ "end" ∷ "modified_after" ∷ "modified_before" ∷ []

-- Every text of the first list is in the second: `not (set(xs) - set(ys))`.
abbrev pub is_subset : List String → List String → Bool
is_subset xs ys = all (λ x. mem x ys) xs

abbrev pub declared : OperationSpec → List String → Bool
declared spec given =
    all (λ x. mem x (keys spec.required_arguments) || mem x (keys spec.optional_arguments)) given

abbrev pub lacks : String → Fields → Bool
lacks name arguments = not (has name arguments)

-- One service name of the `services` argument: what cannot be hashed raises a `TypeError`.
abbrev check_service_name : Json → Checked (Unit {0})
check_service_name (str s) =
    guard (s == "gmail" || s == "google_calendar" || s == "google_drive")
      (value_error "services contains an unsupported workspace service")
check_service_name (arr xs) = err type_error
check_service_name (obj fs) = err type_error
check_service_name _ = err (value_error "services contains an unsupported workspace service")

-- Iteration over the value: the elements of a list, and the keys of a dict. A text is met only if it
-- is empty, which the check of the argument has refused before.
abbrev pub check_services : Json → Checked (Unit {0})
check_services (arr xs) = for_each check_service_name (items xs)
check_services (obj fs) = for_each (λ k. check_service_name (str k)) (names fs)
check_services (str s) =
    guard (s == "") (value_error "services contains an unsupported workspace service")
check_services _ = err type_error

module _ (iso : Iso) where
  abbrev done : {A : Type 0} → Checked A → Checked (Unit {0})
  done m = m >>= λ _. ok tt

  -- The `elif` chain on the name of an argument.
  unfoldable pub check_value : Service → String → Json → Checked (Unit {0})
  unfolding validate_workspace_query validate_max_results aware_timestamp iso_date
  check_value service name value =
      if name == "max_results"
      then validate_max_results service value
      else if name == "top_k"
      then guard (is_int_within 50 value) (value_error "top_k must be between 1 and 50")
      else if name == "create_google_meet"
      then guard (is_bool value) (value_error "create_google_meet must be a boolean")
      else if mem name list_arguments
      then guard (is_nonempty_texts value) (value_error "must be an array of non-empty strings")
      else if mem name timestamp_arguments
      then done (aware_timestamp iso value)
      else if name == "date_from" || name == "date_to"
      then (if service_eq service Service.workspace
          then done (aware_timestamp iso value)
          else done (iso_date iso value))
      else guard (is_nonempty_str value) (value_error "must be a non-empty string")

  -- The body of the loop over the arguments.
  unfoldable pub check_argument : Service → String → Bool → String × Json → Checked (Unit {0})
  unfolding check_value contains_step_reference
  check_argument service operation allow (name, value) =
      if allow && contains_step_reference value
      then ok tt
      else if service_eq service Service.workspace
          && operation == "workspace_search"
          && name == "query"
      then validate_workspace_query value
      else check_value service name value

  abbrev pub pairs : Fields → List (String × Json)
  pairs end = []
  pairs (field k v fs) = (k, v) ∷ pairs fs

  -- `role not in {…}`
  abbrev pub is_role : Json → Bool
  is_role (str s) = s == "reader" || s == "commenter" || s == "writer"
  is_role _ = false

  -- The rules of three operations, after the loop.
  unfoldable pub check_operation : String → Fields → Bool → Checked (Unit {0})
  unfolding contains_step_reference
  check_operation operation arguments allow = do
    guard
        (not (operation == "send_email" && lacks "draft_id" arguments)
          || is_subset ("to" ∷ "subject" ∷ "body" ∷ []) (names arguments))
        (value_error "Missing arguments")
    guard
        (not (
          operation == "update_event"
          && is_subset (names arguments) ("event_id" ∷ "calendar_id" ∷ [])))
        (value_error "update_event requires at least one event field")
    let role = get_or "role" arguments (str "reader")
    guard
        (not (
          operation == "share_file"
          && not (allow && contains_step_reference role)
          && not (is_role role)))
        (value_error "role must be reader, commenter, or writer")

  -- The rules of each service.
  unfoldable pub check_service : Service → Fields → Checked (Unit {0})
  unfolding validate_order validate_date_order
  check_service Service.google_calendar arguments =
      validate_order iso arguments "time_min" "time_max"
      >> validate_order iso arguments "start" "end"
  check_service Service.google_drive arguments =
      validate_order iso arguments "modified_after" "modified_before"
  check_service Service.gmail arguments = validate_date_order iso arguments "date_from" "date_to"
  check_service Service.workspace arguments =
      check_services (get_or "services" arguments (arr nil))
      >> validate_order iso arguments "date_from" "date_to"

  abbrev pub check_against : OperationSpec → Service → String → Fields → Bool → Checked (Unit {0})
  check_against spec service operation arguments allow = do
    guard (declared spec (names arguments)) (value_error "Unsupported arguments")
    guard (is_subset (keys spec.required_arguments) (names arguments))
        (value_error "Missing arguments")
    for_each (check_argument service operation allow) (pairs arguments)
    check_operation operation arguments allow
    check_service service arguments

  unfoldable pub validate_operation_arguments :
      Service → String → Fields → Bool → Checked (Unit {0})
  unfolding check_argument check_operation check_service
  validate_operation_arguments service operation arguments allow_step_references =
      elim (lookup operation (operation_specifications service)) [
        | none ↦ err (value_error "Unsupported operation")
        | some spec ↦ check_against spec service operation arguments allow_step_references
      ]
