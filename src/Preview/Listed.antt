-- ===== src/Preview/Listed.antt =====
-- The three lists of a response of app/api/routes/query.py, told by the results of the steps.
use agentic_google_workspace.Prelude.{
  String, ◌≡◌, refl, ◌⊎◌, inl, inr, Option, none, some, List, [], ◌∷◌,
}
use agentic_google_workspace.Json.{Json, Fields, null, str, obj, end, field, get, get_or}
use agentic_google_workspace.Contracts.{ExecutionStatus, ErrorInfo, StepResult}
use agentic_google_workspace.Database.{dump_error}
use agentic_google_workspace.Preview.{
  sanitized_approval_preview, add, error_json, pending_approval, actions_taken, pending_approvals,
  step_errors,
}
use agentic_google_workspace.Preview.Safe.{IsSafePreview, sanitized_approval_preview-IsSafePreview}

-- The entry of a step that waits: its identifier and that of its approval, and the preview of its action,
-- which is safe, where there is one.
pub data IsPending (r : StepResult) : Json → Type 0 where
  without_preview :
      sanitized_approval_preview (get "proposed_action" r.content) ≡ none
      → IsPending r (
          obj (
            field "step_id"
              (str r.step_id)
              (field "approval_id" (get_or "approval_id" r.content null) end)))
  with_preview :
      (preview : Json)
      → sanitized_approval_preview (get "proposed_action" r.content) ≡ some preview
      → IsSafePreview (some preview)
      → IsPending r (
          obj (
            field "step_id" (str r.step_id) (
              field "approval_id"
                (get_or "approval_id" r.content null)
                (field "proposed_action" preview end))))

-- The step failed or was skipped, and this is the text for it.
abbrev pub IsNotDone : StepResult → String → Type 0
IsNotDone r text =
    ((r.status ≡ ExecutionStatus.failed) × (text ≡ "failed"))
    ⊎ ((r.status ≡ ExecutionStatus.skipped) × (text ≡ "skipped"))

-- The lists that results have, result by result: the actions taken, what waits, and the errors.
pub data IsListed : List StepResult → List Json → List Json → List Json → Type 0 where
  no_results : IsListed [] [] [] []
  done :
      (r : StepResult) (rs : List StepResult) (taken waiting errors : List Json)
      → r.status ≡ ExecutionStatus.completed
      → IsListed rs taken waiting errors
      → IsListed
          (r ∷ rs)
          (obj (field "step_id" (str r.step_id) (field "data" (obj r.content) end)) ∷ taken)
          waiting
          errors
  waits :
      (r : StepResult) (rs : List StepResult) (entry : Json) (taken waiting errors : List Json)
      → r.status ≡ ExecutionStatus.awaiting_approval
      → IsPending r entry
      → IsListed rs taken waiting errors
      → IsListed (r ∷ rs) taken (entry ∷ waiting) errors
  not_done :
      (r : StepResult) (rs : List StepResult) (text : String) (taken waiting errors : List Json)
      → IsNotDone r text
      → IsListed rs taken waiting errors
      → IsListed (r ∷ rs) taken waiting (
          obj (
            field "step_id"
              (str r.step_id)
              (field "status" (str text) (field "error" (error_json (dump_error r.error)) end)))
          ∷ errors)
  goes_on :
      (r : StepResult) (rs : List StepResult) (taken waiting errors : List Json)
      → (r.status ≡ ExecutionStatus.pending) ⊎ (r.status ≡ ExecutionStatus.running)
      → IsListed rs taken waiting errors
      → IsListed (r ∷ rs) taken waiting errors

preview-IsPending :
    (r : StepResult) (preview : Option Json)
    → sanitized_approval_preview (get "proposed_action" r.content) ≡ preview
    → IsSafePreview preview
    → IsPending r (
        obj (
          field "step_id" (str r.step_id) (
            field "approval_id"
              (get_or "approval_id" r.content null)
              (add "proposed_action" preview end))))
preview-IsPending r none same safe = without_preview same
preview-IsPending r (some preview) same safe = with_preview preview same safe

pending_approval-IsPending : (r : StepResult) → IsPending r (pending_approval r)
unfolding pending_approval
pending_approval-IsPending r =
    preview-IsPending r (sanitized_approval_preview (get "proposed_action" r.content)) refl
      (sanitized_approval_preview-IsSafePreview (get "proposed_action" r.content))

one_more :
    (step_id : String) (status : ExecutionStatus) (content : Fields) (error : Option ErrorInfo)
    (rs : List StepResult)
    → IsListed rs (actions_taken rs) (pending_approvals rs) (step_errors rs)
    → let r : StepResult = record {
      step_id = step_id;
      status = status;
      content = content;
      error = error;
    } in
      IsListed (r ∷ rs) (actions_taken (r ∷ rs)) (pending_approvals (r ∷ rs)) (step_errors (r ∷ rs))
unfolding pending_approvals
one_more step_id ExecutionStatus.completed content error rs k = done _ rs _ _ _ refl k
one_more step_id ExecutionStatus.awaiting_approval content error rs k =
    waits _ rs _ _ _ _ refl (pending_approval-IsPending _) k
one_more step_id ExecutionStatus.failed content error rs k =
    not_done _ rs "failed" _ _ _ (inl (refl, refl)) k
one_more step_id ExecutionStatus.skipped content error rs k =
    not_done _ rs "skipped" _ _ _ (inr (refl, refl)) k
one_more step_id ExecutionStatus.pending content error rs k = goes_on _ rs _ _ _ (inl refl) k
one_more step_id ExecutionStatus.running content error rs k = goes_on _ rs _ _ _ (inr refl) k

-- Each result is in the list that its status names and in no other, in the order of the results: a step that
-- completed is an action with its data; one that waits is an approval, with the preview of its action where
-- there is one, which is safe; one that failed or was skipped is an error with that status; others are in none.
pub response_lists-IsListed :
    (results : List StepResult)
    → IsListed results (actions_taken results) (pending_approvals results) (step_errors results)
unfolding pending_approvals
response_lists-IsListed [] = no_results
response_lists-IsListed (r ∷ rs) =
    one_more r.step_id r.status r.content r.error rs (response_lists-IsListed rs)
