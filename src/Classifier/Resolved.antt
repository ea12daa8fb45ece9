-- ===== src/Classifier/Resolved.antt =====
-- The intents that app/orchestration/classifier.py returns.
use agentic_google_workspace.Prelude.{
  ℕ, zero, suc, String, ◌≡◌, Bool, true, false, ok, err, >>=-eq-ok, arith, ◌⊎◌, inl, inr,
  Bool-cases,
}
use agentic_google_workspace.Json.{Fields}
use agentic_google_workspace.Contracts.{Intent, Checked}
use agentic_google_workspace.Patterns.{Letters}
use agentic_google_workspace.Planner.{is_value_error}
use agentic_google_workspace.Classifier.Policy.{
  apply_clarification_policy, is_side_effecting_request,
}
use agentic_google_workspace.Classifier.{
  IntentModel, check_unique, check_resolved, has_services, accept_intent, attempt, attempts,
  classify,
}

-- What an accepted intent is: it asks for clarification or has a service, and where the request has a word
-- of writing, it is what was read.
pub record IsAccepted (letters : Letters) (model : IntentModel) (query : String) (intent : Intent)
    : Type 0 where
  pub made : Bool
  pub fields : Fields
  pub generated : model.generate made ≡ ok fields
  pub read : Intent
  pub is_read : model.read_intent fields ≡ ok read
  pub unique : check_unique read ≡ ok tt
  pub answers : (intent.requires_clarification ≡ true) ⊎ (has_services intent ≡ true)
  pub asks_before_writing : is_side_effecting_request letters query ≡ true → intent ≡ read

module _ (letters : Letters) (model : IntentModel) (query : String) where
  policy-writes :
      (read : Intent)
      → is_side_effecting_request letters query ≡ true
      → apply_clarification_policy letters query read ≡ read
  unfolding apply_clarification_policy
  policy-writes read h = ground arith

  resolved-answers :
      (intent : Intent)
      → check_resolved intent ≡ ok tt
      → (intent.requires_clarification ≡ true) ⊎ (has_services intent ≡ true)
  resolved-answers intent h = elim (Bool-cases intent.requires_clarification) [
    | inl asks ↦ inl asks
    | inr clear ↦ elim (Bool-cases (has_services intent)) [
      | inl some_service ↦ inr some_service
      | inr no_service ↦ cc (rw (clear, no_service) at h)
    ]
  ]

  accept-IsAccepted :
      (made : Bool) (fields : Fields) (intent : Intent)
      → model.generate made ≡ ok fields
      → accept_intent letters model query fields ≡ ok intent
      → IsAccepted letters model query intent
  unfolding accept_intent
  accept-IsAccepted made fields intent g h =
      let (read, hr, k) = >>=-eq-ok (model.read_intent fields) _ h in
      let (u, hu, l) = >>=-eq-ok (check_unique read) _ k in
      let (v, hv, m) =
        >>=-eq-ok (check_resolved (apply_clarification_policy letters query read)) _ l in
      let same : apply_clarification_policy letters query read ≡ intent = cc in
      record {
        made = made;
        fields = fields;
        generated = g;
        read = read;
        is_read = hr;
        unique = hu;
        answers = resolved-answers intent (rw (← same) hv);
        asks_before_writing = λ w. rw (← same) (policy-writes read w);
      }

  attempt-cases :
      (others tried : Checked Intent) (intent : Intent)
      → attempt letters model query others tried ≡ ok intent
      → (tried ≡ ok intent) ⊎ (others ≡ ok intent)
  attempt-cases others (ok i) intent h = inl h
  attempt-cases others (err e) intent h = elim (Bool-cases (is_value_error e)) [
    | inl caught ↦ inr (ground arith)
    | inr raised ↦ ground arith
  ]

  attempts-IsAccepted :
      (n : ℕ) (made : Bool) (intent : Intent)
      → attempts letters model query n made ≡ ok intent
      → IsAccepted letters model query intent
  unfolding attempts
  attempts-IsAccepted zero made intent h = cc
  attempts-IsAccepted (suc n) made intent h =
      let (fields, g, k) = >>=-eq-ok (model.generate made) _ h in
      elim (attempt-cases (attempts letters model query n true)
        (accept_intent letters model query fields) intent k) [
          | inl accepted ↦ accept-IsAccepted made fields intent g accepted
          | inr later ↦ attempts-IsAccepted n true intent later
        ]

-- An intent that the classifier returns was read from an answer of the model, and its services were
-- different there; it asks for clarification, or has a service. Where the request has a word of writing, it is
-- the intent that was read: a question is not passed over.
pub classify-IsAccepted :
    (letters : Letters) (model : IntentModel) (query : String) (intent : Intent)
    → classify letters model query ≡ ok intent
    → IsAccepted letters model query intent
unfolding classify
classify-IsAccepted letters model query intent h =
    attempts-IsAccepted letters model query 2 false intent h
