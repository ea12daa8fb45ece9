-- ===== src/Classifier/Policy.antt =====
-- `_apply_clarification_policy` of app/orchestration/classifier.py.
use agentic_google_workspace.Prelude.{
  String, Bool, false, not, ◌&&◌, ◌||◌, none, List, [], ◌∷◌, ◌++◌, any, if◌then◌else◌,
}
use agentic_google_workspace.Contracts.{Service, service_eq, Intent}
use agentic_google_workspace.Patterns.{Letters, begins_pair, has_word, search}

module _ (letters : Letters) where
  -- `\b(find|…|what(?:'s|\s+is)|…)\b`
  unfoldable pub is_read_only_request : String → Bool
  is_read_only_request query =
      has_word letters
        ("find" ∷ "search" ∷ "show" ∷ "list" ∷ "locate" ∷ "retrieve" ∷ "prepare" ∷ "brief"
          ∷ "summarize" ∷ "summarise" ∷ "review" ∷ "identify" ∷ "what's" ∷ "who" ∷ "when" ∷ "where"
          ∷ [])
        query
      || search letters (begins_pair letters "what" "is") query

  unfoldable pub is_side_effecting_request : String → Bool
  is_side_effecting_request query =
      has_word letters
        ("send" ∷ "delete" ∷ "remove" ∷ "move" ∷ "reschedule" ∷ "schedule" ∷ "create" ∷ "share"
          ∷ "invite" ∷ "cancel" ∷ "update" ∷ "edit" ∷ "rename" ∷ "draft" ∷ "reply" ∷ "forward"
          ∷ "upload" ∷ "modify" ∷ [])
        query

  -- The words of `service_hints`; `inboxes?` is inboxe or inboxes.
  abbrev pub hint_words : Service → List String
  hint_words Service.gmail =
      "gmail" ∷ "email" ∷ "emails" ∷ "e-mail" ∷ "e-mails" ∷ "message" ∷ "messages" ∷ "inboxe"
      ∷ "inboxes" ∷ []
  hint_words Service.google_calendar =
      "calendar" ∷ "calendars" ∷ "meeting" ∷ "meetings" ∷ "event" ∷ "events" ∷ "interview"
      ∷ "interviews" ∷ "appointment" ∷ "appointments" ∷ []
  hint_words Service.google_drive =
      "drive" ∷ "file" ∷ "files" ∷ "document" ∷ "documents" ∷ "doc" ∷ "docs" ∷ "folder" ∷ "folders"
      ∷ []
  hint_words Service.workspace = []

  -- The round of the loop for one service.
  unfoldable pub add_hint : String → Service → List Service → List Service
  add_hint query service services =
      if not (any (service_eq service) services) && has_word letters (hint_words service) query
      then services ++ service ∷ []
      else services

  abbrev pub hinted_services : String → List Service → List Service
  unfolding add_hint
  hinted_services query services =
      add_hint query Service.google_drive
        (add_hint query Service.google_calendar (add_hint query Service.gmail services))

  abbrev pub resolve_with : Intent → List Service → Intent
  resolve_with intent [] = intent
  resolve_with intent (s ∷ ss) = record intent {
    required_services = s ∷ ss;
    requires_clarification = false;
    clarification_question = none;
  }

  unfoldable pub apply_clarification_policy : String → Intent → Intent
  unfolding hinted_services
  apply_clarification_policy query intent =
      if not intent.requires_clarification
      then intent
      else if is_side_effecting_request query
      then intent
      else if not (is_read_only_request query)
      then intent
      else resolve_with intent (hinted_services query intent.required_services)
