-- ===== src/Search/Tests.antt =====
-- A search in an index of two users, with a store of embeddings that starts empty.
use agentic_google_workspace.Prelude.{
  ℕ, ◌+◌, ◌*◌, String, ◌≡◌, refl, sym, ◌⊎◌, inl, inr, Bool, true, false, Option, none, some, List,
  [], ◌∷◌, ◌==◌, eq_iff, if◌then◌else◌, ltb, leb, select, All, ok, arith, Bool-cases,
}
use agentic_google_workspace.Prelude.Int.{pos}
use agentic_google_workspace.Dict.{Dict, lookup, insert, lookup-insert}
use agentic_google_workspace.Json.{Json, int, arr, end, of_items}
use agentic_google_workspace.Text.{strip, is_space, is_white_space, is_blank, words}
use agentic_google_workspace.Contracts.{Checked}
use agentic_google_workspace.Search.Cache.{
  drop_oldest, process_embedding, remember_process_embedding,
}
use agentic_google_workspace.Search.Recent.{
  Access, ask, keep, recent, note, perform, run, run-recent,
}
use agentic_google_workspace.Search.Embedding.{
  Provider, Caches, normalized, floats, cached_embedding, in_flight, query_embedding,
}
use agentic_google_workspace.Search.Coherent.{Coherent, Relies, Answered, query_embedding-Answered}
use agentic_google_workspace.Search.Relevance.{
  Floats, Strings, meaningful_tokens, deduplication_key, rank, is_relevant, pick, ranked_candidates,
  select_ranked,
}
use agentic_google_workspace.Search.Selection.{IsOrder}
use agentic_google_workspace.Search.Kept.{IsSelection, select_ranked-IsSelection}
use agentic_google_workspace.Search.Index.{
  WorkspaceSearchFilters, IndexRow, WorkspaceSearchResponse, IndexDatabase, attributes, result_of,
  conditions, respond, search,
}
use agentic_google_workspace.Search.Isolated.{SelectsMatching, IsIsolated, search-IsIsolated}

-- There is room for two, and the first one is asked for before the third comes.
abbrev accesses : List (Access ℕ)
accesses = keep "a" 1 ∷ keep "b" 2 ∷ ask "a" ∷ keep "c" 3 ∷ ask "b" ∷ ask "a" ∷ []

answers : (run 2 (perform 2) accesses []).0 ≡ none ∷ none ∷ some 1 ∷ none ∷ none ∷ some 1 ∷ []
unfolding process_embedding remember_process_embedding drop_oldest
answers = refl

run-recent_example :
    run 2 (perform 2) accesses (recent 2 [])
    ≡ ((run 2 (note 2) accesses []).0, recent 2 (run 2 (note 2) accesses []).1)
run-recent_example = run-recent 2 accesses []

abbrev provider : Provider (Dict Json)
provider = record {
  model_name = "model";
  dimensions = 1;
  embed_text = λ s. ok (int (pos 7) ∷ []);
  casefold = λ s. s;
  sha256 = λ s. s;
  number = λ n. "1";
  float_of = λ v. ok v;
  get_json = λ k s. ok (lookup k s);
  set_json = λ k e s. ok (insert k (arr (of_items e)) s);
}

abbrev empty : Caches (Dict Json)
empty = record { process = []; shared = [] }

given_back :
    (k j : String) (e : List Json) (s t : Dict Json) (v : Json)
    → ◌≡◌ {A = Checked (Dict Json)} (ok (insert k (arr (of_items e)) s)) (ok t)
    → ◌≡◌ {A = Checked (Option Json)} (ok (lookup j t)) (ok (some v))
    → ((j ≡ k) × (v ≡ arr (of_items e)))
      ⊎ (◌≡◌ {A = Checked (Option Json)} (ok (lookup j s)) (ok (some v)))
given_back k j e s t v set got =
    let same : insert k (arr (of_items e)) s ≡ t = cc in
    let found : lookup j t ≡ some v = cc in
    let placed = lookup-insert k j (arr (of_items e)) s in
    elim (Bool-cases (k == j)) [
      | inl equal ↦
          let here : lookup j (insert k (arr (of_items e)) s) ≡ some (arr (of_items e)) =
            rw equal at placed in
          inl (sym ((eq_iff k j).0 equal), cc)
      | inr other ↦
          let here : lookup j (insert k (arr (of_items e)) s) ≡ lookup j s = rw other at placed in
          inr (cc)
    ]

all_floats : (e : List Json) → floats provider true "u" e ≡ ok e
all_floats [] = refl
all_floats (x ∷ e) = rw (all_floats e) refl

provider-Relies : Relies provider true "u"
provider-Relies = record {
  no_collision = λ a b h. h;
  gives_back = given_back;
  are_floats = λ text e h. all_floats e;
}

empty-Coherent : Coherent provider true "u" empty
empty-Coherent = record { process_right = tt; shared_right = λ k v values e got usable read. cc }

query_embedding-Answered_example :
    Answered provider true "u"
      (normalized provider true "u" "project  plan")
      (query_embedding provider true "u" (λ c. c) "project  plan" empty)
query_embedding-Answered_example =
    query_embedding-Answered provider true "u" provider-Relies (λ c. c) (λ c h. h) "project  plan"
      empty empty-Coherent

abbrev part : Json → ℕ
part (int (pos n)) = n * 100
part _ = 0

-- A score of a hundred parts; the weighted one has ten thousand.
abbrev percent : Floats ℕ
percent = record {
  float_of = part;
  ratio = λ m n. if leb n m then 100 else 50;
  zero = 0;
  one = 100;
  strong = 60;
  calibrated = λ b c t. 60 * b + 30 * c + 10 * t;
  less = ltb;
  at_least = λ a b. leb b a;
}

abbrev strings : Strings
strings = record { lower = λ s. s; text_of = λ v. "" }

percent-IsOrder : IsOrder strings percent attributes
percent-IsOrder = record {
  asymmetric = λ a b h. ground arith;
  transitive = λ a b c h k. ground arith;
}

abbrev row : String → String → IndexRow
row user id = record {
  chunk_user_id = user;
  user_id = user;
  is_deleted = false;
  id = id;
  service = "gmail";
  external_resource_id = id;
  title = "project plan";
  text = "the plan of the project";
  resource_metadata = end;
  indexed_at = "2026-01-01T00:00:00Z";
  score = int (pos 1);
}

abbrev rows : List IndexRow
rows = row "u" "1" ∷ row "other" "2" ∷ row "u" "1" ∷ row "u" "3" ∷ []

select_ranked-IsSelection_example :
    IsSelection strings percent attributes
      (meaningful_tokens strings "project plan")
      []
      3000
      2
      (result_of (row "u" "1") ∷ result_of (row "u" "3") ∷ [])
      (select_ranked strings percent attributes
        (result_of (row "u" "1") ∷ result_of (row "u" "3") ∷ [])
        "project plan"
        2
        []
        3000)
select_ranked-IsSelection_example =
    select_ranked-IsSelection strings percent attributes percent-IsOrder
      (result_of (row "u" "1") ∷ result_of (row "u" "3") ∷ []) "project plan" 2 [] 3000
      (omega arith)

abbrev database : IndexDatabase
database = record {
  ilike = λ t s. t == s;
  text_less = λ t s. false;
  astext = λ v. none;
  select_rows = λ p limit embedding. select p rows;
  select_states = λ user services. [];
}

select-matching : (p : IndexRow → Bool) (rs : List IndexRow) → All (λ r. p r ≡ true) (select p rs)
select-matching p [] = tt
select-matching p (r ∷ rs) = elim (Bool-cases (p r)) [
  | inl taken ↦ rw taken (taken, select-matching p rs)
  | inr left ↦ rw left (select-matching p rs)
]

database-selects : SelectsMatching database
database-selects p limit embedding = select-matching p rows

abbrev filters : WorkspaceSearchFilters
filters = record {
  services = "gmail" ∷ [];
  sender = none;
  date_from = none;
  date_to = none;
  mime_type = none;
  attendee = none;
}

abbrev response : WorkspaceSearchResponse
response = record {
  results = result_of (row "u" "1") ∷ result_of (row "u" "3") ∷ [];
  embedding_cache_hit = false;
  sync_states =
      ("gmail", record { service = "gmail"; status = "missing"; last_successful_sync = none }) ∷ [];
}

searched :
    (search database strings percent 3000 provider true "u"
      (λ c. c)
      "project plan"
      5
      filters
      empty).0
    ≡ ok response
unfolding search respond conditions query_embedding in_flight cached_embedding normalized
    process_embedding remember_process_embedding drop_oldest select_ranked pick ranked_candidates
    rank is_relevant meaningful_tokens deduplication_key is_blank strip is_space is_white_space
    words
searched = refl

search-IsIsolated_example : IsIsolated "u" 5 filters response
search-IsIsolated_example =
    search-IsIsolated database database-selects strings percent 3000 provider true "u" (λ c. c)
      "project plan" 5 filters empty response searched
