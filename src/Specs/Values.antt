-- ===== src/Specs/Values.antt =====
-- The checks of single argument values in app/orchestration/operation_specs.py.
use Prim.Native.Char.{code}
use agentic_google_workspace.Prelude.{
  ℕ, String, Bool, true, false, not, ◌&&◌, ◌||◌, Option, none, some, ◌==◌, if◌then◌else◌, leb,
  nat_eq, all, ok, err, ◌>>=◌, ◌>>◌, guard,
}
use agentic_google_workspace.Prelude.Int.{ℤ, pos, leb_int}
use agentic_google_workspace.Json.{
  Json, Items, Fields, null, bool, int, str, arr, obj, nil, cons, end, field, get, has, items,
  is_str,
}
use agentic_google_workspace.Text.{is_blank}
use agentic_google_workspace.Contracts.{Service, service_eq, value_error, Checked}

-- A parsed `datetime`: with its time zone, as microseconds of UTC, or without one.
pub data Moment : Type 0 where
  aware : ℤ → Moment
  naive : ℤ → Moment

-- Python's ISO-8601 readers: `datetime.fromisoformat`, and `date.fromisoformat` as an ordinal.
pub record Iso : Type 0 where
  pub parse_datetime : String → Option Moment
  pub parse_date : String → Option ℕ

unfoldable mutual
  pub contains_step_reference : Json → Bool
  contains_step_reference (obj fs) =
      let inner = field_contains fs in if has "$step" fs then true else inner
  contains_step_reference (arr xs) = item_contains xs
  contains_step_reference _ = false

  pub item_contains : Items → Bool
  item_contains nil = false
  item_contains (cons x xs) = contains_step_reference x || item_contains xs

  pub field_contains : Fields → Bool
  field_contains end = false
  field_contains (field k v fs) = contains_step_reference v || field_contains fs

-- `value is not None and not isinstance(value, str)` is refused.
abbrev is_text_or_none : Option Json → Bool
is_text_or_none none = true
is_text_or_none (some null) = true
is_text_or_none (some (str s)) = true
is_text_or_none _ = false

abbrev is_texts_or_none : Option Json → Bool
is_texts_or_none none = true
is_texts_or_none (some null) = true
is_texts_or_none (some (arr xs)) = all is_str (items xs)
is_texts_or_none _ = false

abbrev pub is_event_title : Option Json → Bool
is_event_title (some (str s)) = not (is_blank s)
is_event_title _ = false

unfoldable pub validate_workspace_query : Json → Checked (Unit {0})
unfolding is_blank
validate_workspace_query (str s) =
    guard (not (is_blank s))
      (value_error "query must be a non-empty string or Calendar event context")
validate_workspace_query (obj event) =
    if is_event_title (get "title" event)
    then (guard (is_text_or_none (get "description" event))
          (value_error "workspace event description must be a string")
        >> guard (is_texts_or_none (get "attendees" event))
            (value_error "workspace event attendees must be an array of strings"))
    else err (value_error "query must be a non-empty string or Calendar event context")
validate_workspace_query _ =
    err (value_error "query must be a non-empty string or Calendar event context")

-- `isinstance(value, int)`, no `bool`, and `1 <= value <= upper`
abbrev pub is_int_within : ℕ → Json → Bool
is_int_within upper (int n) = leb_int (pos 1) n && leb_int n (pos upper)
is_int_within upper _ = false

abbrev pub max_results_limit : Service → ℕ
max_results_limit service = if service_eq service Service.google_calendar then 250 else 100

unfoldable pub validate_max_results : Service → Json → Checked (Unit {0})
validate_max_results service value =
    guard (is_int_within (max_results_limit service) value) (value_error "max_results out of range")

abbrev pub is_bool : Json → Bool
is_bool (bool b) = true
is_bool _ = false

abbrev pub is_nonempty_str : Json → Bool
is_nonempty_str (str s) = not (s == "")
is_nonempty_str _ = false

abbrev pub is_nonempty_texts : Json → Bool
is_nonempty_texts (arr xs) = all is_nonempty_str (items xs)
is_nonempty_texts _ = false

-- `value.replace("Z", "+00:00")`
abbrev pub replace_z : String → String
replace_z String.[] = String.[]
replace_z (String.◌∷◌ c s) =
    let rest = replace_z s in
    if nat_eq (code c) b'Z'
    then String.◌∷◌ "+"
        (String.◌∷◌ "0" (String.◌∷◌ "0" (String.◌∷◌ ":" (String.◌∷◌ "0" (String.◌∷◌ "0" rest)))))
    else String.◌∷◌ c rest

module _ (iso : Iso) where
  unfoldable pub aware_timestamp : Json → Checked ℤ
  aware_timestamp (str s) = elim (iso.parse_datetime (replace_z s)) [
    | none ↦ err (value_error "must be an ISO-8601 timestamp")
    | some (aware t) ↦ ok t
    | some (naive t) ↦ err (value_error "must include a timezone")
  ]
  aware_timestamp _ = err (value_error "must be an ISO-8601 timestamp")

  unfoldable pub iso_date : Json → Checked ℕ
  iso_date (str s) = elim (iso.parse_date s) [
    | none ↦ err (value_error "must be an ISO-8601 date")
    | some d ↦ ok d
  ]
  iso_date _ = err (value_error "must be an ISO-8601 date")

  -- Both values are there: the start must be before the end, unless one is a reference.
  abbrev ordered_timestamps : Json → Json → Checked (Unit {0})
  ordered_timestamps start finish =
      if contains_step_reference start || contains_step_reference finish then ok tt else do
        from ← aware_timestamp start
        to ← aware_timestamp finish
        guard (not (leb_int to from)) (value_error "start must be before end")

  abbrev ordered_dates : Json → Json → Checked (Unit {0})
  ordered_dates start finish =
      if contains_step_reference start || contains_step_reference finish then ok tt else do
        from ← iso_date start
        to ← iso_date finish
        guard (not (leb to from)) (value_error "start must be before end")

  abbrev when_both :
      (Json → Json → Checked (Unit {0})) → Option Json → Option Json → Checked (Unit {0})
  when_both check (some a) (some b) = check a b
  when_both check _ _ = ok tt

  unfoldable pub validate_order : Fields → String → String → Checked (Unit {0})
  unfolding aware_timestamp
  validate_order arguments start_name end_name =
      when_both ordered_timestamps (get start_name arguments) (get end_name arguments)

  unfoldable pub validate_date_order : Fields → String → String → Checked (Unit {0})
  unfolding iso_date
  validate_date_order arguments start_name end_name =
      when_both ordered_dates (get start_name arguments) (get end_name arguments)
