-- ===== src/Planner/Arguments.antt =====
-- `_canonical_arguments` and `_default_end_time` of app/orchestration/planner.py.
use agentic_google_workspace.Prelude.{
  ℕ, suc, String, Bool, not, ◌&&◌, Option, none, some, List, [], ◌∷◌, ◌==◌, if◌then◌else◌, nat_eq,
  ok, err, ◌>>=◌,
}
use Prim.Native.Char.{code}
use agentic_google_workspace.Prelude.Int.{pos, leb_int}
use agentic_google_workspace.Json.{
  Json, Fields, null, bool, int, str, arr, obj, nil, cons, get, get_or, has, put, drop_key, or_else,
  of_items,
}
use agentic_google_workspace.Contracts.{
  Service, service_eq, service_value, Intent, value_error, type_error, attribute_error,
  overflow_error, Checked,
}
use agentic_google_workspace.Specs.Values.{Moment, aware, naive, replace_z, is_nonempty_texts}
use agentic_google_workspace.Planner.Requests.{
  Environment, Settings, requests_google_meet, requests_singular_upcoming_event,
}

-- `duration`, unless it is no whole number from 1 on.
abbrev pub duration_of : Json → ℕ → ℕ
duration_of (int (pos (suc n))) default_minutes = suc n
duration_of _ default_minutes = default_minutes

abbrev pub attendee_email : Json → Fields → Fields
attendee_email (str s) canonical = put "attendees" (arr (cons (str s) nil)) canonical
attendee_email _ canonical = canonical

abbrev pub event_attendees : Json → Json → Fields → Fields
event_attendees attendees email canonical =
    if is_nonempty_texts attendees
    then put "attendees" attendees canonical
    else attendee_email email canonical

abbrev pub set_default : String → Json → Fields → Fields
set_default key v canonical = if has key canonical then canonical else put key v canonical

abbrev pub service_names : List Service → List Json
service_names [] = []
service_names (s ∷ ss) =
    let rest = service_names ss in
    if service_eq s Service.workspace then rest else str (service_value s) ∷ rest

abbrev pub put_services : List Json → Fields → Fields
put_services [] canonical = canonical
put_services (x ∷ xs) canonical = set_default "services" (arr (of_items (x ∷ xs))) canonical

abbrev pub dict_at : String → Fields → Option Fields
dict_at key entities = elim (get key entities) [ some (obj fs) ↦ some fs | _ ↦ none ]

abbrev pub or_range : Option Fields → Option Fields → Option Fields
or_range (some a) b = some a
or_range none b = b

-- `text.split("T", 1)[0]`
abbrev pub date_part : String → String
date_part String.[] = String.[]
date_part (String.◌∷◌ c s) = if nat_eq (code c) b'T' then String.[] else String.◌∷◌ c (date_part s)

abbrev pub drop_aliases : Fields → Fields
drop_aliases canonical = drop_key "time_maximum" (
    drop_key "time_minimum" (
      drop_key "end_date"
        (drop_key "start_date" (drop_key "time_range" (drop_key "date_range" canonical)))))

-- `a` unless `b` is later: a time with a zone cannot be compared to one without.
abbrev pub later_of : String → String → Moment → Moment → Checked Json
later_of a b (aware s) (aware t) = ok (if leb_int t s then str a else str b)
later_of a b (naive s) (naive t) = ok (if leb_int t s then str a else str b)
later_of a b _ _ = err type_error

module _ (environment : Environment) where
  abbrev pub parse_time : String → Checked Moment
  parse_time s = elim (environment.iso.parse_datetime (replace_z s)) [
    | none ↦ err (value_error "Invalid isoformat string")
    | some m ↦ ok m
  ]

  -- `(parsed + timedelta(minutes=duration_minutes)).isoformat()`
  abbrev end_text : Option String → Checked Json
  end_text none = err overflow_error
  end_text (some s) = ok (str s)

  unfoldable pub default_end_time : Json → ℕ → Checked Json
  default_end_time (str s) minutes = elim (environment.iso.parse_datetime (replace_z s)) [
    | none ↦ err (value_error "Calendar event start must be an ISO-8601 timestamp")
    | some (aware t) ↦ end_text (environment.plus_minutes (replace_z s) minutes)
    | some (naive t) ↦ err (value_error "Calendar event start must include a timezone")
  ]
  default_end_time _ minutes =
      err (value_error "Calendar event start must be an ISO-8601 timestamp")

  -- `max((time_min, start), key=…)`
  abbrev pub later : Json → String → Checked Json
  later (str a) b = do s ← parse_time a; t ← parse_time b; later_of a b s t
  later _ b = err attribute_error

  module _ (settings : Settings) (intent : Intent) where
    abbrev entities : Fields
    entities = intent.extracted_entities

    abbrev pub put_end : Json → ℕ → Fields → Checked Fields
    put_end start minutes canonical =
        default_end_time start minutes >>= λ finish. ok (put "end" finish canonical)

    abbrev pub given_end : String → Json → Fields → Checked Fields
    given_end start (str finish) canonical = ok (put "end" (str finish) canonical)
    given_end start _ canonical =
        put_end (str start)
          (duration_of (get_or "duration_minutes" entities null)
            settings.default_meeting_duration_minutes)
          canonical

    abbrev pub event_times : Json → Json → Fields → Checked Fields
    event_times (str start) finish canonical =
        given_end start finish (put "start" (str start) canonical)
    event_times _ finish canonical =
        if has "start" canonical && not (has "end" canonical)
        then put_end (get_or "start" canonical null) settings.default_meeting_duration_minutes
            canonical
        else ok canonical

    -- The branch of `create_event`.
    abbrev pub event_arguments : Fields → Checked Fields
    event_arguments canonical = do
      timed ←
          event_times (or_else (get_or "start_time" entities null) (get_or "start" entities null))
            (or_else (get_or "end_time" entities null) (get_or "end" entities null)) canonical
      ok (
          put "create_google_meet" (bool (requests_google_meet environment settings.query)) (
            put "timezone" (str settings.timezone_name) (
              event_attendees (get_or "attendees" entities null)
                (get_or "attendee_email" entities null) timed)))

    -- The branch of `workspace_search`.
    abbrev pub search_arguments : Fields → Fields
    search_arguments canonical =
        put_services (service_names intent.required_services)
          (set_default "query" (str settings.query) canonical)

    -- The branch of a search for the next event.
    abbrev pub upcoming_arguments : Fields → Checked Fields
    upcoming_arguments canonical = do
      local_now ← environment.local_text settings.timezone_name settings.reference_time
      ok (put "max_results" (int (pos 1)) (put "time_min" (str local_now) canonical))

    abbrev pub is_operation : Service → String → Service → String → Bool
    is_operation s o service operation = service_eq service s && operation == o

    abbrev pub calendar_start : String → Fields → Checked Json
    calendar_start start canonical =
        if has "time_min" canonical
        then later (get_or "time_min" canonical null) start
        else ok (str start)

    -- The range goes to the two arguments that the operation has for it.
    abbrev pub apply_range : Service → String → String → String → Fields → Checked Fields
    apply_range service operation start finish canonical =
        if is_operation Service.google_calendar "search_events" service operation
        then (calendar_start start canonical >>= λ from.
            ok (drop_aliases (put "time_max" (str finish) (put "time_min" from canonical))))
        else if is_operation Service.gmail "search_emails" service operation
        then ok (
            drop_aliases (
              put "date_to" (str (date_part finish))
                (put "date_from" (str (date_part start)) canonical)))
        else if is_operation Service.google_drive "search_files" service operation
        then ok (
            drop_aliases
              (put "modified_before" (str finish) (put "modified_after" (str start) canonical)))
        else if is_operation Service.workspace "workspace_search" service operation
        then ok (drop_aliases (put "date_to" (str finish) (put "date_from" (str start) canonical)))
        else ok canonical

    abbrev pub range_between : Json → Json → Service → String → Fields → Checked Fields
    range_between (str start) (str finish) service operation canonical =
        apply_range service operation start finish canonical
    range_between _ _ service operation canonical = ok canonical

    abbrev pub range_arguments : Option Fields → Service → String → Fields → Checked Fields
    range_arguments none service operation canonical = ok canonical
    range_arguments (some range) service operation canonical =
        range_between (get_or "start" range null) (get_or "end" range null) service operation
          canonical

    abbrev pub first_arguments : Service → String → Fields → Checked Fields
    first_arguments service operation arguments =
        if is_operation Service.google_calendar "create_event" service operation
        then event_arguments arguments
        else ok arguments

    abbrev pub second_arguments : Service → String → Fields → Fields
    second_arguments service operation canonical =
        if is_operation Service.workspace "workspace_search" service operation
        then search_arguments canonical
        else canonical

    abbrev pub third_arguments : Service → String → Fields → Checked Fields
    third_arguments service operation canonical =
        if is_operation Service.google_calendar "search_events" service operation
          && requests_singular_upcoming_event environment settings.query intent
        then upcoming_arguments canonical
        else ok canonical

    unfoldable pub canonical_arguments : Service → String → Fields → Checked Fields
    unfolding default_end_time
    canonical_arguments service operation arguments = do
      timed ← first_arguments service operation arguments
      upcoming ← third_arguments service operation (second_arguments service operation timed)
      range_arguments (or_range (dict_at "date_range" entities) (dict_at "time_range" entities))
          service operation upcoming
