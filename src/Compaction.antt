-- ===== src/Compaction.antt =====
-- app/orchestration/compaction.py: the results of a plan, cut down for the synthesis of a response.
pub mod Bounds
mod Tests
use Prim.Native.Char.{Char}
use agentic_google_workspace.Prelude.{
  ℕ, zero, suc, String, Bool, true, false, not, Option, none, some, List, [], ◌∷◌, length, take,
}
use agentic_google_workspace.Prelude.Int.{pos}
use agentic_google_workspace.Json.{
  Json, Items, Fields, null, bool, int, str, arr, obj, nil, end, field, get, get_or, put, truthy,
  items, of_items,
}
use agentic_google_workspace.Text.{strip, is_blank}
use agentic_google_workspace.Contracts.{StepResult}

-- A value that is there and is a list.
abbrev pub as_list : Option Json → Option (List Json)
as_list (some (arr xs)) = some (items xs)
as_list _ = none

abbrev pub list_at : String → Fields → Option (List Json)
list_at key content = as_list (get key content)

-- Only the dicts among the values.
abbrev pub dicts : List Json → List Fields
dicts [] = []
dicts (obj fs ∷ xs) = fs ∷ dicts xs
dicts (_ ∷ xs) = dicts xs

-- `{key: item[key] for key in fields if key in item}`
abbrev pub pick : List String → Fields → Fields
pick [] fs = end
pick (k ∷ ks) fs = elim (get k fs) [ none ↦ pick ks fs | some v ↦ field k v (pick ks fs) ]

abbrev pub map_objects : (Fields → Fields) → List Fields → List Json
map_objects f [] = []
map_objects f (x ∷ xs) = obj (f x) ∷ map_objects f xs

-- `for item in items[:20]`, without what is no dict.
abbrev pub compact_items : (Fields → Fields) → List Json → Json
compact_items f xs = arr (of_items (map_objects f (dicts (take 20 xs))))

abbrev pub select_fields : List String → List Json → Json
select_fields fields = compact_items (pick fields)

abbrev pub put_some : String → Json → Fields → Fields
put_some key null fs = fs
put_some key v fs = put key v fs

abbrev pub put_attendees : Option (List Json) → Fields → Fields
put_attendees none compact = compact
put_attendees (some attendees) compact =
    put "attendee_count" (int (pos (length attendees)))
      (put "attendees" (arr (of_items (take 5 attendees))) compact)

abbrev pub compact_event : Fields → Fields
compact_event event =
    put_attendees (list_at "attendees" event)
      (pick ("title" ∷ "start" ∷ "end" ∷ "organizer" ∷ "status" ∷ []) event)

abbrev pub compact_events : List Json → Json
compact_events = compact_items compact_event

abbrev pub compact_file : Fields → Fields
compact_file file =
    put_some "modified_time" (get_or "modified_time" file (get_or "modifiedTime" file null)) (
      put_some "mime_type" (get_or "mime_type" file (get_or "mimeType" file null))
        (pick ("id" ∷ "name" ∷ []) file))

-- `text[:n]`
abbrev pub take_text : ℕ → String → String
take_text zero s = String.[]
take_text (suc n) String.[] = String.[]
take_text (suc n) (String.◌∷◌ c s) = String.◌∷◌ c (take_text n s)

abbrev pub put_snippet : Json → Fields → Fields
put_snippet (str s) compact = elim (is_blank s) [
  | true ↦ compact
  | false ↦ put "snippet" (str (take_text 300 (strip s))) compact
]
put_snippet _ compact = compact

abbrev pub compact_result : Fields → Fields
compact_result result = put_snippet (get_or "snippet" result (get_or "chunk_text" result null)) (
    pick
      ("service" ∷ "external_resource_id" ∷ "title" ∷ "score" ∷ "source_updated_at"
        ∷ "retrieval_source" ∷ [])
      result)

abbrev pub put_dict : String → Option Json → Fields → Fields
put_dict key (some (obj fs)) compact = put key (obj fs) compact
put_dict key _ compact = compact

-- `bool(data.get(key, False))`
abbrev pub flag : String → Fields → Json
flag key content = bool (truthy (get_or key content (bool false)))

abbrev pub compact_search : Fields → List Json → Fields
compact_search content results = put_dict "freshness" (get "freshness" content) (
    put_dict "retrieval_timing_ms" (get "retrieval_timing_ms" content) (
      field "results" (compact_items compact_result results) (
        field "searched_services" (get_or "searched_services" content (arr nil)) (
          field "index_stale" (flag "index_stale" content) (
            field "native_fallback_recommended" (flag "native_fallback_recommended" content) (
              field "native_fallback_performed" (flag "native_fallback_performed" content) end))))))

-- The four collections as they were found, the first of which decides.
abbrev pub compact_found :
    Fields
    → Option (List Json)
    → Option (List Json)
    → Option (List Json)
    → Option (List Json)
    → Fields
compact_found content (some events) _ _ _ = field "events" (compact_events events) end
compact_found content none (some emails) _ _ =
    field "emails"
      (select_fields ("id" ∷ "thread_id" ∷ "subject" ∷ "sender" ∷ "date" ∷ "snippet" ∷ []) emails)
      end
compact_found content none none (some files) _ =
    field "files" (compact_items compact_file files) end
compact_found content none none none (some results) = compact_search content results
compact_found content none none none none = content

unfoldable pub compact_result_data : Fields → Fields
compact_result_data content =
    compact_found content (list_at "events" content) (list_at "emails" content)
      (list_at "files" content) (list_at "results" content)

abbrev pub compact_results_for_synthesis : List StepResult → List StepResult
unfolding compact_result_data
compact_results_for_synthesis [] = []
compact_results_for_synthesis (r ∷ rs) =
    record r { content = compact_result_data r.content } ∷ compact_results_for_synthesis rs
