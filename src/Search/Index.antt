-- ===== src/Search/Index.antt =====
-- `HybridWorkspaceSearch.search` of app/retrieval/search.py.
use agentic_google_workspace.Prelude.{
  ℕ, suc, ◌*◌, String, Bool, true, false, not, ◌&&◌, ◌||◌, Option, none, some, List, [], ◌∷◌, ◌==◌,
  if◌then◌else◌, leb, nat_eq, mem, any, ok, err, ◌>>=◌,
}
use agentic_google_workspace.Dict.{Dict, insert, contains}
use agentic_google_workspace.Json.{Json, Fields, str, arr, obj, end, field, get, items}
use agentic_google_workspace.Text.{is_blank}
use agentic_google_workspace.Contracts.{value_error, Checked}
use agentic_google_workspace.Freshness.{SyncState}
use agentic_google_workspace.Search.Embedding.{Provider, Caches, query_embedding}
use agentic_google_workspace.Search.Relevance.{Floats, Strings, select_relevant_candidates}

-- A text that is not given is `none`, and so is an empty list of services.
pub record WorkspaceSearchFilters : Type 0 where
  pub services : List String
  pub sender : Option String
  pub date_from : Option String
  pub date_to : Option String
  pub mime_type : Option String
  pub attendee : Option String

-- A chunk of a document with its item, and the score that the database gives it.
pub record IndexRow : Type 0 where
  pub chunk_user_id : String
  pub user_id : String
  pub is_deleted : Bool
  pub id : String
  pub service : String
  pub external_resource_id : String
  pub title : String
  pub text : String
  pub resource_metadata : Fields
  pub indexed_at : String
  pub score : Json

pub record WorkspaceSearchResult : Type 0 where
  pub workspace_item_id : String
  pub service : String
  pub external_resource_id : String
  pub title : String
  pub chunk_text : String
  pub score : Json
  pub metadata : Fields
  pub indexed_at : String

-- The response without the times that were measured.
pub record WorkspaceSearchResponse : Type 0 where
  pub results : List WorkspaceSearchResult
  pub embedding_cache_hit : Bool
  pub sync_states : Dict SyncState

-- The database: `ILIKE`, the order and the text of JSON values; the rows that satisfy a condition, the best
-- first and at most so many; and the states of synchronization of some services of a user.
pub record IndexDatabase : Type 0 where
  pub ilike : String → String → Bool
  pub text_less : String → String → Bool
  pub astext : Json → Option String
  pub select_rows : (IndexRow → Bool) → ℕ → List Json → List IndexRow
  pub select_states : String → List String → List SyncState

abbrev pub attributes : WorkspaceSearchResult → Fields
attributes r = field "workspace_item_id" (str r.workspace_item_id) (
    field "service" (str r.service) (
      field "external_resource_id" (str r.external_resource_id) (
        field "title" (str r.title) (
          field "chunk_text" (str r.chunk_text) (
            field "score" r.score
              (field "metadata" (obj r.metadata) (field "indexed_at" (str r.indexed_at) end)))))))

-- `as_dict`
abbrev pub as_dict : WorkspaceSearchResult → Fields
as_dict = attributes

abbrev pub result_of : IndexRow → WorkspaceSearchResult
result_of row = record {
  workspace_item_id = row.id;
  service = row.service;
  external_resource_id = row.external_resource_id;
  title = row.title;
  chunk_text = row.text;
  score = row.score;
  metadata = row.resource_metadata;
  indexed_at = row.indexed_at;
}

abbrev is_text : String → Json → Bool
is_text s (str t) = t == s
is_text s _ = false

-- `metadata["attendees"] @> [attendee]`
abbrev pub contains_attendee : Option Json → String → Bool
contains_attendee (some (arr xs)) attendee = any (is_text attendee) (items xs)
contains_attendee _ attendee = false

-- A condition is made where the filter is a text that is not empty.
abbrev pub where_given : Option String → (String → Bool) → Bool
where_given none condition = true
where_given (some s) condition = s == "" || condition s

abbrev pub if_services : List String → String → Bool
if_services [] service = true
if_services (s ∷ services) service = mem service (s ∷ services)

abbrev pub holds : Option String → (String → Bool) → Bool
holds none test = false
holds (some s) test = test s

abbrev pub first_of : Option String → Option String → Option String
first_of (some s) other = some s
first_of none other = other

-- The rows to results: one of each item, up to the limit.
abbrev pub collect : ℕ → List String → ℕ → List IndexRow → List WorkspaceSearchResult
collect limit seen n [] = []
collect limit seen n (row ∷ rows) =
    let skipped = collect limit seen n rows in
    let rest = collect limit (row.id ∷ seen) (suc n) rows in
    if mem row.id seen
    then skipped
    else if nat_eq (suc n) limit
    then result_of row ∷ []
    else result_of row ∷ rest

abbrev pub all_services : List String
all_services = "gmail" ∷ "google_calendar" ∷ "google_drive" ∷ []

abbrev pub requested_services : List String → List String
requested_services [] = all_services
requested_services (s ∷ services) = s ∷ services

abbrev pub states_by_service : Dict SyncState → List SyncState → Dict SyncState
states_by_service acc [] = acc
states_by_service acc (s ∷ ss) = states_by_service (insert s.service s acc) ss

-- `sync_states.setdefault(service, {"status": "missing", …})`
abbrev pub with_missing : List String → Dict SyncState → Dict SyncState
with_missing [] states = states
with_missing (service ∷ services) states = with_missing services (
    if contains service states
    then states
    else insert service
        (record { service = service; status = "missing"; last_successful_sync = none }) states)

module _ (database : IndexDatabase) where
  abbrev pub metadata_text : IndexRow → String → Option String
  metadata_text row name = elim (get name row.resource_metadata) [
    | none ↦ none
    | some v ↦ database.astext v
  ]

  abbrev pub date_value : IndexRow → Option String
  date_value row =
      first_of (metadata_text row "start")
        (first_of (metadata_text row "date") (metadata_text row "modified_time"))

  -- `and_(*conditions)`
  unfoldable pub conditions : String → WorkspaceSearchFilters → IndexRow → Bool
  conditions user_id filters row =
      row.chunk_user_id == user_id
      && row.user_id == user_id
      && not row.is_deleted
      && if_services filters.services row.service
      && where_given filters.sender
          (λ s. holds (metadata_text row "sender") (λ t. database.ilike t s))
      && where_given filters.mime_type (λ s. holds (metadata_text row "mime_type") (λ t. t == s))
      && where_given filters.attendee (contains_attendee (get "attendees" row.resource_metadata))
      && where_given filters.date_from
          (λ s. holds (date_value row) (λ t. not (database.text_less t s)))
      && where_given filters.date_to (λ s. holds (date_value row) (λ t. database.text_less t s))

  module _ (strings : Strings) {F S : Type 0} (floats : Floats F) (minimum_score : F)
      (provider : Provider S) (has_cache : Bool) (user_id : String) where
    -- What follows when the embedding is there.
    unfoldable pub respond :
        String → ℕ → WorkspaceSearchFilters → List Json × Bool → WorkspaceSearchResponse
    unfolding conditions
    respond query top_k filters (embedding, hit) =
        let rows = database.select_rows (conditions user_id filters) (top_k * 5) embedding in
        let requested = requested_services filters.services in
        record {
          results =
              select_relevant_candidates strings floats attributes (collect (top_k * 5) [] 0 rows)
                query top_k filters.services minimum_score;
          embedding_cache_hit = hit;
          sync_states =
              with_missing requested
                (states_by_service [] (database.select_states user_id requested));
        }

    abbrev respond_to :
        String
        → ℕ
        → WorkspaceSearchFilters
        → Checked (List Json × Bool) × Caches S
        → Checked WorkspaceSearchResponse × Caches S
    respond_to query top_k filters (result, caches) =
        (result >>= λ found. ok (respond query top_k filters found), caches)

    unfoldable pub search :
        (Caches S → Caches S)
        → String
        → ℕ
        → WorkspaceSearchFilters
        → Caches S
        → Checked WorkspaceSearchResponse × Caches S
    unfolding respond
    search meanwhile query top_k filters caches =
        if is_blank query
        then (err (value_error "query must be non-empty"), caches)
        else if not (leb 1 top_k && leb top_k 50)
        then (err (value_error "top_k must be between 1 and 50"), caches)
        else respond_to query top_k filters
            (query_embedding provider has_cache user_id meanwhile query caches)
