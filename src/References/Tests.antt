-- ===== src/References/Tests.antt =====
-- References into the results of a search.
use agentic_google_workspace.Prelude.{◌≡◌, ◌↔◌, refl, none, false, [], ◌∷◌, ok}
use agentic_google_workspace.Prelude.Int.{pos}
use agentic_google_workspace.Dict.{Dict}
use agentic_google_workspace.Json.{Json, end, field, obj, str, int, arr, cons, nil}
use agentic_google_workspace.Contracts.{ExecutionStatus, StepResult}
use agentic_google_workspace.Contracts.Graph.{find_step_references}
use agentic_google_workspace.References.{
  Unicode, walk, follow, normalize_segment, descend, resolve_references,
}
use agentic_google_workspace.References.Walk.{Follows, walk_iff}
use agentic_google_workspace.References.Resolve.{
  RaisesCaught, resolve_references-RaisesCaught, resolve_references-plain,
}

abbrev unicode : Unicode
unicode = record { is_digit = λ c. false; decimal = λ c. none }

abbrev messages : Json
messages = arr (cons (obj (field "id" (str "m1") end)) nil)

abbrev results : Dict StepResult
results =
    (
      "find",
      record {
        step_id = "find";
        status = ExecutionStatus.completed;
        content = field "messages" messages end;
        error = none;
      },
    )
    ∷ []

abbrev first_id : Json
first_id = obj (
    field "$step" (str "find")
      (field "path" (arr (cons (str "messages") (cons (str "first") (cons (str "id") nil)))) end))

first_id-resolved : resolve_references unicode results first_id ≡ ok (str "m1")
unfolding resolve_references follow walk normalize_segment descend
first_id-resolved = refl

walk_iff_example :
    (walk unicode "find" [] messages (int (pos 0) ∷ str "id" ∷ []) ≡ ok (str "m1"))
    ↔ Follows unicode messages (int (pos 0) ∷ str "id" ∷ []) (str "m1")
walk_iff_example = walk_iff unicode "find" [] messages (str "m1") (int (pos 0) ∷ str "id" ∷ [])

resolve_references-RaisesCaught_example : RaisesCaught (resolve_references unicode results first_id)
resolve_references-RaisesCaught_example = resolve_references-RaisesCaught unicode results first_id

resolve_references-plain_example : resolve_references unicode results messages ≡ ok messages
unfolding find_step_references
resolve_references-plain_example = resolve_references-plain unicode results messages refl
