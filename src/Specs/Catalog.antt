-- ===== src/Specs/Catalog.antt =====
-- `OPERATION_SPECIFICATIONS` of app/orchestration/operation_specs.py: the operations of each service
-- and their arguments with the texts that the planner is shown. The keys `result_shape` and
-- `reference_examples`, which only the planner's prompt holds, are left out.
use agentic_google_workspace.Prelude.{String, [], ◌∷◌}
use agentic_google_workspace.Dict.{Dict}
use agentic_google_workspace.Contracts.{Service}

pub record OperationSpec : Type 0 where
  pub description : String
  pub required_arguments : Dict String
  pub optional_arguments : Dict String

abbrev pub gmail_operations : Dict OperationSpec
gmail_operations =
    (
      "search_emails",
      record {
        description = "Search Gmail messages using optional sender, text, and date filters.";
        required_arguments = [];
        optional_arguments =
            ("sender", "email/string")
            ∷ ("keywords", "string")
            ∷ ("date_from", "ISO-8601 date (YYYY-MM-DD), inclusive")
            ∷ ("date_to", "ISO-8601 date (YYYY-MM-DD), exclusive")
            ∷ ("max_results", "integer from 1 to 100")
            ∷ [];
      },
    )
    ∷ (
      "get_email",
      record {
        description = "Retrieve one Gmail message including its text body.";
        required_arguments = ("message_id", "non-empty string") ∷ [];
        optional_arguments = [];
      },
    )
    ∷ (
      "draft_email",
      record {
        description = "Create an email draft without sending it.";
        required_arguments =
            ("to", "email/string")
            ∷ ("subject", "non-empty string")
            ∷ ("body", "non-empty string")
            ∷ [];
        optional_arguments = [];
      },
    )
    ∷ (
      "send_email",
      record {
        description = "Send an existing draft_id, or provide to, subject, and body.";
        required_arguments = [];
        optional_arguments =
            ("draft_id", "non-empty string; alternative to message fields")
            ∷ ("to", "email/string; required without draft_id")
            ∷ ("subject", "non-empty string; required without draft_id")
            ∷ ("body", "non-empty string; required without draft_id")
            ∷ [];
      },
    )
    ∷ (
      "update_labels",
      record {
        description = "Add or remove Gmail label identifiers on a message.";
        required_arguments = ("message_id", "non-empty string") ∷ [];
        optional_arguments =
            ("add_label_ids", "array of strings") ∷ ("remove_label_ids", "array of strings") ∷ [];
      },
    )
    ∷ []

abbrev pub google_calendar_operations : Dict OperationSpec
google_calendar_operations =
    (
      "search_events",
      record {
        description = "Search calendar events within an optional bounded time range.";
        required_arguments = [];
        optional_arguments =
            ("time_min", "ISO-8601 timezone-aware timestamp")
            ∷ ("time_max", "ISO-8601 timezone-aware timestamp")
            ∷ ("keywords", "string")
            ∷ ("attendee", "email/string")
            ∷ ("max_results", "integer from 1 to 250")
            ∷ ("calendar_id", "string")
            ∷ [];
      },
    )
    ∷ (
      "get_event",
      record {
        description = "Retrieve one calendar event.";
        required_arguments = ("event_id", "non-empty string") ∷ [];
        optional_arguments = ("calendar_id", "string") ∷ [];
      },
    )
    ∷ (
      "create_event",
      record {
        description = "Create a calendar event; start and end must include timezones.";
        required_arguments =
            ("title", "non-empty string")
            ∷ ("start", "ISO-8601 timezone-aware timestamp")
            ∷ ("end", "ISO-8601 timezone-aware timestamp")
            ∷ [];
        optional_arguments =
            ("calendar_id", "string")
            ∷ ("timezone", "IANA timezone string")
            ∷ ("description", "string")
            ∷ ("attendees", "array of email strings")
            ∷ ("create_google_meet", "boolean; true only when the user requested Google Meet")
            ∷ [];
      },
    )
    ∷ (
      "update_event",
      record {
        description = "Update supplied fields on an existing calendar event.";
        required_arguments = ("event_id", "non-empty string") ∷ [];
        optional_arguments =
            ("calendar_id", "string")
            ∷ ("title", "string")
            ∷ ("start", "ISO-8601 timezone-aware timestamp")
            ∷ ("end", "ISO-8601 timezone-aware timestamp")
            ∷ ("timezone", "IANA timezone string")
            ∷ ("description", "string")
            ∷ ("attendees", "array of email strings")
            ∷ [];
      },
    )
    ∷ (
      "delete_event",
      record {
        description = "Delete an existing calendar event.";
        required_arguments = ("event_id", "non-empty string") ∷ [];
        optional_arguments = ("calendar_id", "string") ∷ [];
      },
    )
    ∷ []

abbrev pub google_drive_operations : Dict OperationSpec
google_drive_operations =
    (
      "search_files",
      record {
        description = "Search non-trashed Drive files using name, type, and modification filters.";
        required_arguments = [];
        optional_arguments =
            ("filename", "string")
            ∷ ("mime_type", "string")
            ∷ ("modified_after", "ISO-8601 timezone-aware timestamp, inclusive")
            ∷ ("modified_before", "ISO-8601 timezone-aware timestamp, exclusive")
            ∷ ("max_results", "integer from 1 to 100")
            ∷ [];
      },
    )
    ∷ (
      "get_file",
      record {
        description = "Retrieve Drive file metadata and export Google Docs as text.";
        required_arguments = ("file_id", "non-empty string") ∷ [];
        optional_arguments = [];
      },
    )
    ∷ (
      "share_file",
      record {
        description = "Share a Drive file with one user.";
        required_arguments = ("file_id", "non-empty string") ∷ ("email", "email/string") ∷ [];
        optional_arguments = ("role", "reader, commenter, or writer") ∷ [];
      },
    )
    ∷ (
      "create_folder",
      record {
        description = "Create a Drive folder, optionally within a parent folder.";
        required_arguments = ("name", "non-empty string") ∷ [];
        optional_arguments = ("parent_id", "string") ∷ [];
      },
    )
    ∷ (
      "move_file",
      record {
        description = "Move a Drive file to another folder.";
        required_arguments =
            ("file_id", "non-empty string") ∷ ("destination_folder_id", "non-empty string") ∷ [];
        optional_arguments = [];
      },
    )
    ∷ []

abbrev pub workspace_operations : Dict OperationSpec
workspace_operations =
    (
      "workspace_search",
      record {
        description =
            "Read-only semantic and keyword search over the user's locally indexed Gmail, Calendar, and Drive content. Use native Google operations for exact IDs, fresh state, and all writes.";
        required_arguments =
            (
              "query",
              "non-empty search string, or one Calendar event object whose title, description, and limited attendees form the semantic query",
            )
            ∷ [];
        optional_arguments =
            ("services", "array containing gmail, google_calendar, and/or google_drive")
            ∷ ("top_k", "integer from 1 to 50; defaults to 5")
            ∷ ("sender", "email/string metadata filter")
            ∷ ("date_from", "ISO-8601 timezone-aware timestamp, inclusive")
            ∷ ("date_to", "ISO-8601 timezone-aware timestamp, exclusive")
            ∷ ("mime_type", "Drive MIME type filter")
            ∷ ("attendee", "Calendar attendee email filter")
            ∷ [];
      },
    )
    ∷ []

abbrev pub operation_specifications : Service → Dict OperationSpec
operation_specifications Service.gmail = gmail_operations
operation_specifications Service.google_calendar = google_calendar_operations
operation_specifications Service.google_drive = google_drive_operations
operation_specifications Service.workspace = workspace_operations
