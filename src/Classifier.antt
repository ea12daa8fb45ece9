-- ===== src/Classifier.antt =====
-- app/orchestration/classifier.py: the intent of a request, by the language model, in at most two attempts.
pub mod Policy
pub mod Resolved
mod Tests
use agentic_google_workspace.Prelude.{
  ℕ, zero, suc, String, Bool, true, false, not, ◌&&◌, List, [], ◌∷◌, ok, err, ◌>>=◌, ◌>>◌, guard,
}
use agentic_google_workspace.Json.{Fields}
use agentic_google_workspace.Contracts.{
  Service, service_value, Intent, Exception, value_error, llm_error, Checked,
}
use agentic_google_workspace.Contracts.Graph.{for_each}
use agentic_google_workspace.Prelude.{is_unique}
use agentic_google_workspace.Patterns.{Letters}
use agentic_google_workspace.Planner.{is_value_error}
use agentic_google_workspace.Classifier.Policy.{apply_clarification_policy}

-- The language model, which is told whether the attempt is a repair, and the reader of the fields of an
-- intent, which `Intent.model_validate` calls before its validator.
pub record IntentModel : Type 0 where
  pub generate : Bool → Checked Fields
  pub read_intent : Fields → Checked Intent

abbrev pub service_values : List Service → List String
service_values [] = []
service_values (s ∷ ss) = service_value s ∷ service_values ss

-- `required_services_must_be_unique`
abbrev pub check_unique : Intent → Checked (Unit {0})
check_unique intent =
    guard (is_unique (service_values intent.required_services))
      (value_error "required_services must not contain duplicates")

abbrev pub has_services : Intent → Bool
has_services intent = elim intent.required_services [ [] ↦ false | _ ∷ _ ↦ true ]

abbrev pub check_resolved : Intent → Checked (Unit {0})
check_resolved intent =
    guard (not (not intent.requires_clarification && not (has_services intent)))
      (value_error "A resolved intent must select at least one service")

module _ (letters : Letters) (model : IntentModel) (query : String) where
  -- The `try` block of an attempt.
  unfoldable pub accept_intent : Fields → Checked Intent
  accept_intent fields = do
    read ← model.read_intent fields
    check_unique read
    let intent = apply_clarification_policy letters query read
    check_resolved intent
    ok intent

  abbrev pub next_attempt : Checked Intent → Exception → Bool → Checked Intent
  next_attempt others e true = others
  next_attempt others e false = err e

  abbrev pub attempt : Checked Intent → Checked Intent → Checked Intent
  attempt others (ok intent) = ok intent
  attempt others (err e) = next_attempt others e (is_value_error e)

  -- `for attempt in range(…)`, with the number of attempts left and whether one was made.
  unfoldable pub attempts : ℕ → Bool → Checked Intent
  attempts zero made =
      err (llm_error "Intent classifier returned invalid output after a repair attempt")
  attempts (suc n) made =
      model.generate made >>= λ fields. attempt (attempts n true) (accept_intent fields)

  unfoldable pub classify : Checked Intent
  unfolding attempts
  classify = attempts 2 false
