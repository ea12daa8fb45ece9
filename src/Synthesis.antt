-- ===== src/Synthesis.antt =====
-- app/orchestration/synthesis.py: the response to the user, by the language model or from the results.
pub mod Grounded
pub mod Honest
mod Tests
use Prim.Native.Char.{code}
use agentic_google_workspace.Prelude.{
  ℕ, suc, ◌-◌, String, Bool, true, false, not, ◌&&◌, ◌||◌, Option, none, some, List, [], ◌∷◌, ◌==◌,
  if◌then◌else◌, any, all, length, nat_eq, ok, err, ◌>>=◌,
}
use agentic_google_workspace.Json.{
  Json, Fields, null, bool, int, str, arr, obj, nil, end, field, get, get_or, truthy, of_items,
}
use agentic_google_workspace.Contracts.{
  ExecutionStatus, status_eq, StepResult, Checked, Exception, llm_error, ErrorInfo,
}
use agentic_google_workspace.Prelude.Int.{pos}
use agentic_google_workspace.Text.{strip, is_blank}
use agentic_google_workspace.Database.{status_value, dump_error}
use agentic_google_workspace.Synthesis.Grounded.{grounded_response}
use agentic_google_workspace.Compaction.{list_at}

-- `_primary_collection`, with the four lists as they were found.
abbrev pub primary_of :
    Option (List Json)
    → Option (List Json)
    → Option (List Json)
    → Option (List Json)
    → Option (String × List Json)
primary_of (some xs) _ _ _ = some ("events", xs)
primary_of none (some xs) _ _ = some ("emails", xs)
primary_of none none (some xs) _ = some ("files", xs)
primary_of none none none (some xs) = some ("results", xs)
primary_of none none none none = none

unfoldable pub primary_collection : Fields → Option (String × List Json)
primary_collection content =
    primary_of (list_at "events" content) (list_at "emails" content) (list_at "files" content)
      (list_at "results" content)

-- What the code takes from Python and from the language model: `str(v)`, `s.casefold()`, and
-- `LLMProvider.generate_json` with the prompt of the synthesis.
pub record Writer : Type 0 where
  pub show : Json → String
  pub casefold : String → String
  pub generate : Fields → Checked Fields

-- `flag` of a result, as `bool(data.get(key, False))`
abbrev pub is_set : String → Fields → Bool
is_set key content = truthy (get_or key content (bool false))

abbrev pub is_list : Option (List Json) → Bool
is_list (some xs) = true
is_list none = false

abbrev is_contextual_search : Fields → Bool
is_contextual_search content =
    is_list (list_at "results" content) && truthy (get_or "searched_services" content null)

abbrev pub has_contextual_workspace_results : List StepResult → Bool
has_contextual_workspace_results results =
    any (λ r. is_list (list_at "events" r.content)) results
    && any (λ r. is_contextual_search r.content) results

abbrev pub is_unfinished : StepResult → Bool
is_unfinished r =
    status_eq r.status ExecutionStatus.failed || status_eq r.status ExecutionStatus.skipped

-- `_execution_facts`
abbrev collection_name : Option (String × List Json) → Json
collection_name none = null
collection_name (some (name, xs)) = str name

abbrev match_count : Option (String × List Json) → Json
match_count none = null
match_count (some (name, xs)) = int (pos (length xs))

abbrev is_empty_collection : Option (String × List Json) → Bool
is_empty_collection (some (name, [])) = true
is_empty_collection _ = false

abbrev error_code : Option ErrorInfo → Json
error_code none = null
error_code (some e) = str e.error_code

abbrev pub execution_fact : StepResult → Json
unfolding primary_collection
execution_fact r =
    let found = primary_collection r.content in
    obj (
      field "step_id" (str r.step_id) (
        field "status" (str (status_value r.status)) (
          field "attempted" (bool (not (status_eq r.status ExecutionStatus.skipped))) (
            field "collection" (collection_name found) (
              field "match_count" (match_count found) (
                field "completed_empty"
                  (bool (status_eq r.status ExecutionStatus.completed && is_empty_collection found))
                  (field "error_code" (error_code r.error) (
                    field "searched_services" (get_or "searched_services" r.content (arr nil)) (
                      field "index_stale" (bool (is_set "index_stale" r.content)) (
                        field "native_fallback_recommended"
                          (bool (is_set "native_fallback_recommended" r.content))
                          (field "native_fallback_performed"
                            (bool (is_set "native_fallback_performed" r.content)) end)))))))))))

abbrev or_null : Option Fields → Json
or_null none = null
or_null (some fs) = obj fs

-- `result.model_dump(mode="json")`
abbrev dump_result : StepResult → Json
dump_result r = obj (
    field "step_id" (str r.step_id) (
      field "status" (str (status_value r.status))
        (field "data" (obj r.content) (field "error" (or_null (dump_error r.error)) end))))

abbrev map_json : (StepResult → Json) → List StepResult → List Json
map_json f [] = []
map_json f (r ∷ rs) = f r ∷ map_json f rs

abbrev pub request : String → List StepResult → Fields
unfolding execution_fact
request query results = field "query" (str query) (
    field "execution_results" (arr (of_items (map_json dump_result results)))
      (field "execution_facts" (arr (of_items (map_json execution_fact results))) end))

-- `phrase in text`
abbrev is_prefix : String → String → Bool
is_prefix String.[] t = true
is_prefix (String.◌∷◌ c s) String.[] = false
is_prefix (String.◌∷◌ c s) (String.◌∷◌ d t) = nat_eq (code c) (code d) && is_prefix s t

abbrev is_within : String → String → Bool
is_within s String.[] = is_prefix s String.[]
is_within s (String.◌∷◌ c t) = let rest = is_within s t in is_prefix s (String.◌∷◌ c t) || rest

module _ (w : Writer) where
  abbrev pub looks_generic_response : String → Bool
  looks_generic_response response =
      all (λ phrase. is_within phrase (w.casefold response))
        ("completed" ∷ "step" ∷ "available service results" ∷ [])

  -- The text that the model gave, or the error of the synthesizer.
  abbrev pub response_text : Option Json → Checked String
  response_text (some (str s)) =
      if is_blank s
      then err (llm_error "Response synthesizer returned invalid output")
      else ok (strip s)
  response_text _ = err (llm_error "Response synthesizer returned invalid output")

  unfoldable pub synthesize : String → List StepResult → Checked String
  unfolding is_blank
  synthesize query results =
      if has_contextual_workspace_results results then ok (grounded_response w.show results) else do
        output ← w.generate (request query results)
        response ← response_text (get "response" output)
        ok (
            if any is_unfinished results || looks_generic_response response
            then grounded_response w.show results
            else response)
