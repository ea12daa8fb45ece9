-- ===== src/Classifier/Tests.antt =====
-- A request to read, and one to write, that the language model wants to ask about.
use Prim.Native.Char.{code}
use agentic_google_workspace.Prelude.{◌≡◌, refl, true, false, ◌&&◌, none, some, [], ◌∷◌, ok, leb}
use agentic_google_workspace.Json.{end}
use agentic_google_workspace.Contracts.{Service, Intent}
use agentic_google_workspace.Patterns.{Letters, has_word, begins, after}
use agentic_google_workspace.Classifier.{IntentModel, accept_intent, attempts, classify}
use agentic_google_workspace.Classifier.Policy.{
  apply_clarification_policy, is_read_only_request, is_side_effecting_request, add_hint,
}
use agentic_google_workspace.Classifier.Resolved.{IsAccepted, classify-IsAccepted}

abbrev letters : Letters
letters = record { fold = λ c. c; is_alphanumeric = λ c. leb b'a' (code c) && leb (code c) b'z' }

abbrev asking : Intent
asking = record {
  intent_name = "mail";
  required_services = [];
  extracted_entities = end;
  requires_clarification = true;
  clarification_question = some "Which one?";
}

abbrev resolved : Intent
resolved = record asking {
  required_services = Service.gmail ∷ [];
  requires_clarification = false;
  clarification_question = none;
}

abbrev model : IntentModel
model = record { generate = λ again. ok end; read_intent = λ fields. ok asking }

reads : classify letters model "find emails" ≡ ok resolved
unfolding classify attempts accept_intent apply_clarification_policy is_read_only_request
    is_side_effecting_request add_hint has_word begins after
reads = refl

writes : classify letters model "send emails" ≡ ok asking
unfolding classify attempts accept_intent apply_clarification_policy is_read_only_request
    is_side_effecting_request add_hint has_word begins after
writes = refl

classify-IsAccepted_example : IsAccepted letters model "find emails" resolved
classify-IsAccepted_example = classify-IsAccepted letters model "find emails" resolved reads

-- The pattern for mail has inboxe and inboxes, and not inbox.
inbox : classify letters model "show my inbox" ≡ ok asking
unfolding classify attempts accept_intent apply_clarification_policy is_read_only_request
    is_side_effecting_request add_hint has_word begins after
inbox = refl

inboxes : classify letters model "show my inboxes" ≡ ok resolved
unfolding classify attempts accept_intent apply_clarification_policy is_read_only_request
    is_side_effecting_request add_hint has_word begins after
inboxes = refl
