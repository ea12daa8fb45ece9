-- ===== src/Search/Isolated.antt =====
-- Whose items the search of app/retrieval/search.py finds.
use agentic_google_workspace.Prelude.{
  ℕ, suc, ◌*◌, ◌≤◌, ◌<◌, String, ◌≡◌, refl, Bool, true, false, ◌&&◌, List, [], ◌∷◌, eq_iff, leb,
  nat_eq, mem, length, All, All-map, ok, >>=-eq-ok, arith, Bool-cases, inl, inr, ap,
}
use agentic_google_workspace.Json.{Json, Fields}
use agentic_google_workspace.Text.{is_blank}
use agentic_google_workspace.Search.Embedding.{Provider, Caches, query_embedding}
use agentic_google_workspace.Search.Relevance.{
  Floats, Strings, RankedCandidate, is_requested, is_relevant, rank, meaningful_tokens,
  ranked_candidates, sort_ranked, pick, items_of, select_ranked, select_relevant_candidates,
}
use agentic_google_workspace.Search.Selection.{All-sort_ranked, All-pick, pick-length}
use agentic_google_workspace.Search.Index.{
  WorkspaceSearchFilters, IndexRow, WorkspaceSearchResult, WorkspaceSearchResponse, IndexDatabase,
  attributes, result_of, if_services, collect, conditions, respond, search,
}

-- The result is made of a live row of the user, of a service that is asked for.
pub record IsOwn (user_id : String) (filters : WorkspaceSearchFilters)
    (result : WorkspaceSearchResult) : Type 0 where
  pub row : IndexRow
  pub is_of : result ≡ result_of row
  pub owned : row.user_id ≡ user_id
  pub chunk_owned : row.chunk_user_id ≡ user_id
  pub is_live : row.is_deleted ≡ false
  pub is_asked_for : if_services filters.services row.service ≡ true

module _ {Item F : Type 0} (Q : Item → Type 0) (strings : Strings) (floats : Floats F)
    (view : Item → Fields) where
  All-ranked :
      (terms requested : List String) (minimum_score : F) (items : List Item)
      → All Q items
      → All
          (λ r. Q r.item)
          (ranked_candidates strings floats view terms requested minimum_score items)
  unfolding ranked_candidates rank
  All-ranked terms requested minimum_score [] h = tt
  All-ranked terms requested minimum_score (item ∷ items) h =
      elim (Bool-cases (
        is_requested strings floats view requested item
        && is_relevant strings floats view minimum_score (rank strings floats view terms item))) [
          | inl wanted ↦ rw wanted (h.0, All-ranked terms requested minimum_score items h.1)
          | inr other ↦ rw other (All-ranked terms requested minimum_score items h.1)
        ]

  All-items_of :
      (rs : List (RankedCandidate Item F))
      → All (λ r. Q r.item) rs
      → All Q (items_of strings floats view rs)
  All-items_of [] h = tt
  All-items_of (r ∷ rs) h = (h.0, All-items_of rs h.1)

  pub All-select :
      (items : List Item) (query : String) (top_k : ℕ) (requested : List String) (minimum_score : F)
      → All Q items
      → All Q
          (select_relevant_candidates strings floats view items query top_k requested minimum_score)
  unfolding select_ranked
  All-select items query top_k requested minimum_score h =
      let terms = meaningful_tokens strings query in
      let ranked = ranked_candidates strings floats view terms requested minimum_score items in
      let sorted = sort_ranked strings floats view ranked in
      All-items_of (pick strings floats view top_k [] 0 sorted) (
        All-pick strings floats view (λ r. Q r.item) top_k [] 0 sorted
          (All-sort_ranked strings floats view (λ r. Q r.item) ranked
            (All-ranked terms requested minimum_score items h)))

  length-items_of :
      (rs : List (RankedCandidate Item F)) → length (items_of strings floats view rs) ≡ length rs
  length-items_of [] = refl
  length-items_of (r ∷ rs) = ap suc (length-items_of rs)

  pub length-select :
      (items : List Item) (query : String) (top_k : ℕ) (requested : List String) (minimum_score : F)
      → 0 < top_k
      → length
          (select_relevant_candidates strings floats view items query top_k requested minimum_score)
        ≤ top_k
  unfolding select_ranked
  length-select items query top_k requested minimum_score positive =
      let terms = meaningful_tokens strings query in
      let sorted =
        sort_ranked strings floats view
          (ranked_candidates strings floats view terms requested minimum_score items) in
      omega (
        arith,
        pick-length strings floats view top_k [] 0 sorted positive,
        length-items_of (pick strings floats view top_k [] 0 sorted),
      )

All-collect :
    (Q : WorkspaceSearchResult → Type 0) (limit : ℕ) (seen : List String) (n : ℕ)
    (rows : List IndexRow)
    → All (λ row. Q (result_of row)) rows
    → All Q (collect limit seen n rows)
All-collect Q limit seen n [] h = tt
All-collect Q limit seen n (row ∷ rows) h = elim (Bool-cases (mem row.id seen)) [
  | inl again ↦ rw (collect, again) (All-collect Q limit seen n rows h.1)
  | inr new ↦ elim (Bool-cases (nat_eq (suc n) limit)) [
    | inl full ↦ rw (collect, new, full) (h.0, tt)
    | inr open_still ↦
        rw (collect, new, open_still) (h.0, All-collect Q limit (row.id ∷ seen) (suc n) rows h.1)
  ]
]

module _ (database : IndexDatabase) (user_id : String) (filters : WorkspaceSearchFilters) where
  matching-IsOwn :
      (row : IndexRow)
      → conditions database user_id filters row ≡ true
      → IsOwn user_id filters (result_of row)
  unfolding conditions
  matching-IsOwn row h = record {
    row = row;
    is_of = refl;
    owned = (eq_iff row.user_id user_id).0 (ground arith);
    chunk_owned = (eq_iff row.chunk_user_id user_id).0 (ground arith);
    is_live = ground arith;
    is_asked_for = ground arith;
  }

-- The rows that are selected satisfy the condition.
abbrev pub SelectsMatching : IndexDatabase → Type 0
SelectsMatching database =
    (p : IndexRow → Bool) (limit : ℕ) (embedding : List Json)
    → All (λ row. p row ≡ true) (database.select_rows p limit embedding)

-- What a response has: at most `top_k` results, each of a live item of the user and of a service that is asked for.
pub record IsIsolated (user_id : String) (top_k : ℕ) (filters : WorkspaceSearchFilters)
    (response : WorkspaceSearchResponse) : Type 0 where
  pub few : length response.results ≤ top_k
  pub own : All (IsOwn user_id filters) response.results

module _ (database : IndexDatabase) (selects : SelectsMatching database) (strings : Strings)
    {F S : Type 0} (floats : Floats F) (minimum_score : F) (provider : Provider S)
    (has_cache : Bool) (user_id : String) where
  respond-IsIsolated :
      (query : String) (top_k : ℕ) (filters : WorkspaceSearchFilters) (found : List Json × Bool)
      → 0 < top_k
      → IsIsolated user_id top_k filters (
          respond database strings floats minimum_score provider has_cache user_id query top_k
            filters found)
  unfolding respond
  respond-IsIsolated query top_k filters (embedding, hit) positive =
      let rows = database.select_rows (conditions database user_id filters) (top_k * 5) embedding in
      let collected = collect (top_k * 5) [] 0 rows in
      record {
        few =
            length-select (IsOwn user_id filters) strings floats attributes collected query top_k
              filters.services minimum_score positive;
        own =
            All-select (IsOwn user_id filters) strings floats attributes collected query top_k
              filters.services minimum_score
              (All-collect (IsOwn user_id filters) (top_k * 5) [] 0 rows (
                All-map _ _ (matching-IsOwn database user_id filters) rows
                  (selects (conditions database user_id filters) (top_k * 5) embedding)));
      }

  -- Where the rows that the database selects satisfy the condition it is given, a search that returns gives
  -- at most `top_k` results, each of a live item of the user who asks and of a service that is asked for,
  -- whatever the index holds of other users.
  pub search-IsIsolated :
      (meanwhile : Caches S → Caches S) (query : String) (top_k : ℕ)
      (filters : WorkspaceSearchFilters) (caches : Caches S) (response : WorkspaceSearchResponse)
      → (search database strings floats minimum_score provider has_cache user_id meanwhile query
          top_k filters caches).0
        ≡ ok response
      → IsIsolated user_id top_k filters response
  unfolding search
  search-IsIsolated meanwhile query top_k filters caches response h =
      elim (Bool-cases (is_blank query)) [
        | inl blank ↦ cc (rw blank at h)
        | inr given ↦ elim (Bool-cases (leb 1 top_k && leb top_k 50)) [
          | inr outside ↦ cc (rw (given, outside) at h)
          | inl inside ↦
              let (found, embedded, k) =
                >>=-eq-ok ((query_embedding provider has_cache user_id meanwhile query caches).0)
                  (λ found. ok (
                    respond database strings floats minimum_score provider has_cache user_id query
                      top_k filters found))
                  (rw (given, inside) at h) in
              let same : respond database strings floats minimum_score provider has_cache user_id
                    query top_k filters found
                  ≡ response =
                cc in
              rw (← same) (respond-IsIsolated query top_k filters found (ground arith))
        ]
      ]
