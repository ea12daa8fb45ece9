-- ===== src/Synthesis/Tests.antt =====
-- The response where a search was made, and the step behind it failed.
use agentic_google_workspace.Prelude.{String, ◌≡◌, refl, none, List, [], ◌∷◌, ok, All}
use agentic_google_workspace.Json.{Json, str, arr, nil, end, field}
use agentic_google_workspace.Contracts.{ExecutionStatus, StepResult}
use agentic_google_workspace.Synthesis.{Writer, synthesize}
use agentic_google_workspace.Synthesis.Grounded.{grounded_response, steps_with}
use agentic_google_workspace.Synthesis.Honest.{
  IsWithin, grounded_response-IsWithin, synthesize-grounded_response,
}
use agentic_google_workspace.Text.{is_blank, strip}

abbrev show : Json → String
show v = "value"

-- The model says that everything went well.
abbrev writer : Writer
writer = record {
  show = show;
  casefold = λ s. s;
  generate = λ request. ok (field "response" (str "All done.") end);
}

abbrev results : List StepResult
results =
    record {
      step_id = "find";
      status = ExecutionStatus.completed;
      content = field "emails" (arr nil) end;
      error = none;
    }
    ∷ record { step_id = "send"; status = ExecutionStatus.failed; content = end; error = none }
    ∷ []

abbrev response : String
response =
    "Email search completed with no matching results. The following searches failed, so their results could not be checked: send."

response_made : synthesize writer "q" results ≡ ok response
unfolding synthesize is_blank strip grounded_response
response_made = refl

grounded_response-IsWithin_example :
    All
      (λ id. IsWithin id (grounded_response show results))
      (steps_with ExecutionStatus.failed results)
    × All
        (λ id. IsWithin id (grounded_response show results))
        (steps_with ExecutionStatus.skipped results)
grounded_response-IsWithin_example = grounded_response-IsWithin show results

synthesize-grounded_response_example : response ≡ grounded_response show results
synthesize-grounded_response_example =
    synthesize-grounded_response writer "q" results refl response_made
