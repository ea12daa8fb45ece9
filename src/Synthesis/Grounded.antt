-- ===== src/Synthesis/Grounded.antt =====
-- `grounded_response` of app/orchestration/synthesis.py: a response made of the results alone.
use Prim.Native.String.{◌++◌}
use agentic_google_workspace.Prelude.{
  ℕ, ◌-◌, String, Bool, true, false, Option, none, some, List, [], ◌∷◌, ◌==◌, if◌then◌else◌, length,
  select, take, ltb,
}
use agentic_google_workspace.Prelude.Int.{pos}
use agentic_google_workspace.Json.{
  Json, Fields, null, bool, int, str, arr, obj, nil, cons, get_or, truthy, or_else,
}
use agentic_google_workspace.Text.{strip, is_blank}
use agentic_google_workspace.Contracts.{ExecutionStatus, status_eq, StepResult}
use agentic_google_workspace.Compaction.{list_at, dicts, take_text}

-- `separator.join(texts)`
abbrev pub join : String → List String → String
join separator [] = String.[]
join separator (s ∷ []) = s
join separator (s ∷ t ∷ ts) = s ++ (separator ++ join separator (t ∷ ts))

abbrev workspace_search_label : Json → String
workspace_search_label (arr (cons (str s) nil)) =
    if s == "gmail"
    then "Indexed Gmail search"
    else if s == "google_drive"
    then "Indexed Drive search"
    else "Indexed workspace search"
workspace_search_label _ = "Indexed workspace search"

abbrev is_on : String → Fields → Bool
is_on key content = truthy (get_or key content (bool false))

abbrev retrieval_status_suffix : Fields → String
retrieval_status_suffix content =
    if is_on "index_stale" content
    then (if is_on "native_fallback_performed" content
        then " The semantic index was stale, so native read-only fallback was used."
        else " The semantic index was stale; native fallback was not performed.")
    else if is_on "native_fallback_performed" content
    then " Native read-only fallback was used."
    else ""

-- `isinstance(v, int)`, which a Boolean satisfies, of a number that is not negative.
abbrev as_count : Json → Option ℕ
as_count (int (pos n)) = some n
as_count (bool true) = some 1
as_count _ = none

-- The identifiers of the steps with a status.
abbrev pub steps_with : ExecutionStatus → List StepResult → List String
steps_with status [] = []
steps_with status (r ∷ rs) =
    let rest = steps_with status rs in if status_eq r.status status then r.step_id ∷ rest else rest

module _ (show : Json → String) where
  abbrev count_text : ℕ → String
  count_text n = show (int (pos n))

  abbrev show_all : List Json → List String
  show_all [] = []
  show_all (x ∷ xs) = show x ∷ show_all xs

  abbrev more : Option ℕ → ℕ → String
  more none shown = ""
  more (some n) shown = if ltb shown n then ", and " ++ (count_text (n - shown) ++ " more") else ""

  abbrev attendees_text : Fields → Option (List Json) → String
  attendees_text event none = ""
  attendees_text event (some []) = ""
  attendees_text event (some (x ∷ xs)) =
      let shown = take 5 (select truthy (x ∷ xs)) in
      " Attendees: "
      ++ (join ", " (show_all shown)
          ++ (more (as_count (get_or "attendee_count" event (int (pos (length (x ∷ xs))))))
                (length shown)
              ++ "."))

  abbrev event_statement : Fields → String
  event_statement event =
      let title = get_or "title" event null in
      let start = get_or "start" event null in
      (if truthy title
        then "The next calendar event is " ++ show title
        else "A calendar event was found")
      ++ ((if truthy start then " at " ++ show start else "")
          ++ ("." ++ attendees_text event (list_at "attendees" event)))

  abbrev file_name : Fields → Json
  file_name file = or_else (get_or "name" file null) (get_or "title" file null)

  abbrev file_names : List Fields → List String
  file_names [] = []
  file_names (f ∷ fs) =
      let rest = file_names fs in if truthy (file_name f) then show (file_name f) ∷ rest else rest

  abbrev in_order : List String → String
  in_order [] = ""
  in_order (n ∷ ns) = " In returned order: " ++ (join ", " (n ∷ ns) ++ ".")

  abbrev compact_finding : Fields → String
  compact_finding item =
      let title = show (or_else (get_or "title" item null) (str "Untitled")) in
      elim (get_or "snippet" item null) [
        | str s ↦ if is_blank s then title else title ++ (" — " ++ take_text 160 (strip s))
        | _ ↦ title
      ]

  abbrev findings : List Fields → List String
  findings [] = []
  findings (f ∷ fs) =
      let rest = findings fs in
      if truthy (get_or "title" f null) then compact_finding f ∷ rest else rest

  abbrev matches : List String → String
  matches [] = ""
  matches (f ∷ fs) = " Matches: " ++ (join "; " (f ∷ fs) ++ ".")

  abbrev result_statement : Fields → List Json → String
  result_statement content collection =
      let label = workspace_search_label (get_or "searched_services" content null) in
      let kind =
        if truthy (get_or "native_fallback_performed" content null)
        then "native fallback result(s)"
        else "relevant result(s)" in
      label
      ++ (" completed with "
          ++ (count_text (length collection)
              ++ (" "
                  ++ (kind
                      ++ ("."
                          ++ (matches (findings (dicts (take 5 collection)))
                              ++ retrieval_status_suffix content))))))

  abbrev found_statement : String → List Json → String
  found_statement label collection =
      label ++ (" completed with " ++ (count_text (length collection) ++ " matching result(s)."))

  abbrev events_statement : List Json → String
  events_statement [] = "Calendar search completed with no matching results."
  events_statement (obj event ∷ xs) = event_statement event
  events_statement xs = found_statement "Calendar search" xs

  abbrev emails_statement : List Json → String
  emails_statement [] = "Email search completed with no matching results."
  emails_statement xs = found_statement "Email search" xs

  abbrev files_statement : List Json → String
  files_statement [] = "Drive search completed with no matching results."
  files_statement xs =
      found_statement "Drive search" xs ++ in_order (file_names (dicts (take 5 xs)))

  abbrev results_statement : Fields → List Json → String
  results_statement content [] =
      workspace_search_label (get_or "searched_services" content null)
      ++ (" completed with no sufficiently relevant matches." ++ retrieval_status_suffix content)
  results_statement content xs = result_statement content xs

  -- The statement on a step that completed, by its primary collection.
  abbrev statement :
      Fields
      → Option (List Json)
      → Option (List Json)
      → Option (List Json)
      → Option (List Json)
      → Option String
  statement content (some events) _ _ _ = some (events_statement events)
  statement content none (some emails) _ _ = some (emails_statement emails)
  statement content none none (some files) _ = some (files_statement files)
  statement content none none none (some results) = some (results_statement content results)
  statement content none none none none = none

  abbrev completed_statement : StepResult → Option String
  completed_statement r =
      if status_eq r.status ExecutionStatus.completed
      then statement r.content (list_at "events" r.content) (list_at "emails" r.content)
          (list_at "files" r.content) (list_at "results" r.content)
      else none

  abbrev add_statement : Option String → List String → List String
  add_statement none rest = rest
  add_statement (some s) rest = s ∷ rest

  abbrev pub completed_statements : List StepResult → List String
  completed_statements [] = []
  completed_statements (r ∷ rs) = add_statement (completed_statement r) (completed_statements rs)

  abbrev approval_text : Json → String
  approval_text id = if truthy id then " (approval ID: " ++ (show id ++ ")") else ""

  abbrev pub pending_statements : List StepResult → List String
  pending_statements [] = []
  pending_statements (r ∷ rs) =
      let rest = pending_statements rs in
      if status_eq r.status ExecutionStatus.awaiting_approval
      then ("Step "
          ++ (r.step_id
              ++ (" is awaiting approval"
                  ++ (approval_text (get_or "approval_id" r.content null) ++ "."))))
        ∷ rest
      else rest

abbrev pub concat : List String → List String → List String
concat [] ys = ys
concat (x ∷ xs) ys = x ∷ concat xs ys

-- One statement on the steps listed, if there are any.
abbrev pub listed : String → List String → List String
listed before [] = []
listed before (id ∷ ids) = (before ++ (join ", " (id ∷ ids) ++ ".")) ∷ []

abbrev pub failed_text : String
failed_text = "The following searches failed, so their results could not be checked: "

abbrev pub skipped_text : String
skipped_text = "The following searches were not attempted because a dependency was unavailable: "

abbrev pub or_default : String → String
or_default String.[] = "The requested searches could not be completed."
or_default (String.◌∷◌ c s) = String.◌∷◌ c s

unfoldable pub grounded_response : (Json → String) → List StepResult → String
grounded_response show results = or_default (
    join " " (
      concat (completed_statements show results) (
        concat (pending_statements show results) (
          concat (listed failed_text (steps_with ExecutionStatus.failed results))
            (listed skipped_text (steps_with ExecutionStatus.skipped results))))))
