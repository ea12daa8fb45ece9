-- ===== src/Planner/Requests.antt =====
-- What app/orchestration/planner.py reads off a request.
use agentic_google_workspace.Prelude.{
  ℕ, String, Bool, true, false, Option, ◌&&◌, ◌||◌, List, [], ◌∷◌, ◌++◌, ◌==◌,
}
use agentic_google_workspace.Prelude.Int.{ℤ}
use agentic_google_workspace.Json.{Json, null, str, get_or}
use agentic_google_workspace.Contracts.{Intent, Checked}
use agentic_google_workspace.Specs.Values.{Iso}
use agentic_google_workspace.Patterns.{Letters, has_word, search, begins_pair, begins_near}

-- What the planner takes from Python: the readers of times; the text of a time that is so many minutes
-- after another, none where it is out of the range of times; the text of a moment in a time zone, which
-- raises where there is no such zone; the tables of `re`; `s.lower()`; the text of a number.
pub record Environment : Type 0 where
  pub iso : Iso
  pub plus_minutes : String → ℕ → Option String
  pub local_text : String → ℤ → Checked String
  pub letters : Letters
  pub lower : String → String
  pub number : ℕ → String

pub record Settings : Type 0 where
  pub query : String
  pub timezone_name : String
  pub default_meeting_duration_minutes : ℕ
  pub reference_time : ℤ

module _ (environment : Environment) where
  abbrev letters : Letters
  letters = environment.letters

  -- `\bgoogle\s+meet\b`
  unfoldable pub requests_google_meet : String → Bool
  requests_google_meet query = search letters (begins_pair letters "google" "meet") query

  abbrev pub is_next : Json → Bool
  is_next (str s) =
      let selector = environment.lower s in selector == "next" || selector == "upcoming"
  is_next _ = false

  unfoldable pub requests_singular_upcoming_event : String → Intent → Bool
  requests_singular_upcoming_event query intent =
      is_next (get_or "event_selector" intent.extracted_entities null)
      || search letters
          (begins_near letters ("next" ∷ "upcoming" ∷ [])
            ("meeting" ∷ "event" ∷ "interview" ∷ "appointment" ∷ []))
          query

  unfoldable pub requests_contextual_retrieval : String → Bool
  requests_contextual_retrieval query =
      has_word letters
        ("related" ∷ "relevant" ∷ "context" ∷ "contextual" ∷ "prepare" ∷ "brief" ∷ "material" ∷ [])
        query
      && has_word letters ("meeting" ∷ "event" ∷ "interview" ∷ "appointment" ∷ []) query

  abbrev pub if_found : Bool → String → List String
  if_found true service = service ∷ []
  if_found false service = []

  abbrev pub or_both : List String → Bool → List String
  or_both [] true = "gmail" ∷ "google_drive" ∷ []
  or_both services _ = services

  -- `_contextual_services`, sorted
  unfoldable pub contextual_services : String → List String
  contextual_services query =
      or_both
        (if_found
            (has_word letters ("email" ∷ "emails" ∷ "message" ∷ "messages" ∷ "gmail" ∷ "inbox" ∷ [])
              query)
            "gmail"
          ++ if_found
              (has_word letters
                ("file" ∷ "files" ∷ "document" ∷ "documents" ∷ "doc" ∷ "docs" ∷ "drive" ∷ []) query)
              "google_drive")
        (has_word letters ("prepare" ∷ "brief" ∷ "context" ∷ "material" ∷ []) query)
