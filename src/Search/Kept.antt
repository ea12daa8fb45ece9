-- ===== src/Search/Kept.antt =====
-- The whole selection of app/retrieval/relevance.py.
use mathlib.Core.Path.{subst}
use agentic_google_workspace.Prelude.{
  sym, ℕ, suc, ◌+◌, ◌≤◌, ◌<◌, String, ◌≡◌, refl, ◌⊎◌, inl, inr, true, ◌&&◌, ◌||◌, List, [], ◌∷◌,
  nat_eq, length, All, All-map, arith, Bool-cases,
}
use agentic_google_workspace.Json.{Fields}
use agentic_google_workspace.Search.Relevance.{
  Floats, Strings, RankedCandidate, Key, mem_key, is_requested, rank, is_relevant,
  meaningful_tokens, ranked_candidates, insert_ranked, sort_ranked, key_of, pick, select_ranked,
}
use agentic_google_workspace.Search.Selection.{
  key_eq_refl, keys_of, Descending, Distinct, IsOrder, All-sort_ranked, All-pick,
  sort_ranked-Descending, pick-Descending, pick-Distinct, pick-length,
}

module _ (strings : Strings) {F Item : Type 0} (floats : Floats F) (view : Item → Fields) where
  abbrev k : RankedCandidate Item F → Key
  k = key_of strings floats view

  insert_ranked-All :
      (P : RankedCandidate Item F → Type 0) (r : RankedCandidate Item F)
      (rs : List (RankedCandidate Item F))
      → All P (insert_ranked strings floats view r rs)
      → P r × All P rs
  insert_ranked-All P r [] h = h
  insert_ranked-All P r (s ∷ ss) h = elim (Bool-cases (floats.less r.score s.score)) [
    | inl lower ↦
        let parts : All P (s ∷ insert_ranked strings floats view r ss) =
          rw (insert_ranked, lower) at h in
        let (p, rest) = insert_ranked-All P r ss parts.1 in (p, (parts.0, rest))
    | inr kept ↦ rw (insert_ranked, kept) at h
  ]

  sort_ranked-All :
      (P : RankedCandidate Item F → Type 0) (rs : List (RankedCandidate Item F))
      → All P (sort_ranked strings floats view rs)
      → All P rs
  sort_ranked-All P [] h = tt
  sort_ranked-All P (r ∷ rs) h =
      let (p, rest) = insert_ranked-All P r (sort_ranked strings floats view rs) h in
      (p, sort_ranked-All P rs rest)

  -- The key was seen, or it is the key of one that is picked.
  abbrev Covered : List Key → List (RankedCandidate Item F) → RankedCandidate Item F → Type 0
  Covered seen picked r =
      (mem_key (k r) seen || mem_key (k r) (keys_of strings floats view picked)) ≡ true

  pick-Covered :
      (top_k : ℕ) (seen : List Key) (n : ℕ) (rs : List (RankedCandidate Item F))
      → n < top_k
      → (length (pick strings floats view top_k seen n rs) + n ≡ top_k)
        ⊎ All (Covered seen (pick strings floats view top_k seen n rs)) rs
  unfolding pick
  pick-Covered top_k seen n [] h = inr tt
  pick-Covered top_k seen n (r ∷ rs) h = elim (Bool-cases (mem_key (k r) seen)) [
    | inl again ↦
        let picked = pick strings floats view top_k seen n rs in
        let same : pick strings floats view top_k seen n (r ∷ rs) ≡ picked = rw again refl in
        elim (pick-Covered top_k seen n rs h) [
          | inl full ↦ inl (subst (λ p. length p + n ≡ top_k) (sym same) full)
          | inr rest ↦
              inr (subst (λ p. All (Covered seen p) (r ∷ rs)) (sym same) (rw (k, again) refl, rest))
        ]
    | inr new ↦ elim (Bool-cases (nat_eq (suc n) top_k)) [
      | inl last ↦ inl (ground arith)
      | inr open_still ↦
          let later = pick strings floats view top_k (k r ∷ seen) (suc n) rs in
          elim (pick-Covered top_k (k r ∷ seen) (suc n) rs (ground arith)) [
            | inl full ↦ inl (ground arith)
            | inr rest ↦
                let same : pick strings floats view top_k seen n (r ∷ rs) ≡ r ∷ later =
                  rw (new, open_still) refl in
                let first : Covered seen (r ∷ later) r = rw (new, key_eq_refl (k r)) refl in
                inr (
                  subst (λ p. All (Covered seen p) (r ∷ rs)) (sym same)
                    (
                      first,
                      All-map (Covered (k r ∷ seen) later) (Covered seen (r ∷ later))
                          (λ s c. ground arith) rs rest,
                    ))
          ]
    ]
  ]

  -- A candidate is wanted if its service is and it is relevant to the query.
  abbrev pub IsWanted : List String → List String → F → Item → Type 0
  IsWanted terms requested minimum_score item =
      (is_requested strings floats view requested item ≡ true)
      × (is_relevant strings floats view minimum_score (rank strings floats view terms item) ≡ true)

  ranked-IsWanted :
      (terms requested : List String) (minimum_score : F) (items : List Item)
      → All
          (λ r. IsWanted terms requested minimum_score r.item)
          (ranked_candidates strings floats view terms requested minimum_score items)
  unfolding ranked_candidates rank
  ranked-IsWanted terms requested minimum_score [] = tt
  ranked-IsWanted terms requested minimum_score (item ∷ items) =
      elim (Bool-cases (
        is_requested strings floats view requested item
        && is_relevant strings floats view minimum_score (rank strings floats view terms item))) [
          | inl wanted ↦
              rw wanted
                ((ground arith, ground arith), ranked-IsWanted terms requested minimum_score items)
          | inr other ↦ rw other (ranked-IsWanted terms requested minimum_score items)
        ]

  -- Where each ranked candidate has a property, each wanted one has it as it is ranked.
  IsWanted-ranked :
      (P : RankedCandidate Item F → Type 0) (terms requested : List String) (minimum_score : F)
      (items : List Item)
      → All P (ranked_candidates strings floats view terms requested minimum_score items)
      → All
          (λ item.
            IsWanted terms requested minimum_score item → P (rank strings floats view terms item))
          items
  unfolding ranked_candidates
  IsWanted-ranked P terms requested minimum_score [] h = tt
  IsWanted-ranked P terms requested minimum_score (item ∷ items) h =
      elim (Bool-cases (
        is_requested strings floats view requested item
        && is_relevant strings floats view minimum_score (rank strings floats view terms item))) [
          | inl wanted ↦
              let parts = rw wanted at h in
              (λ w. parts.0, IsWanted-ranked P terms requested minimum_score items parts.1)
          | inr other ↦ (
            λ w. absurd (ground (arith, w.0, w.1)),
            IsWanted-ranked P terms requested minimum_score items (rw other at h),
          )
        ]

  -- What the selection is: short, of wanted candidates, by descending score, one of each key; a wanted
  -- candidate is missing only where the selection is full or has one of the same key.
  pub record IsSelection (terms requested : List String) (minimum_score : F) (top_k : ℕ)
      (items : List Item) (selected : List (RankedCandidate Item F)) : Type 0 where
    pub short : length selected ≤ top_k
    pub wanted : All (λ r. IsWanted terms requested minimum_score r.item) selected
    pub descending : Descending strings floats view selected
    pub distinct : Distinct strings floats view selected
    pub complete :
        (length selected ≡ top_k)
        ⊎ All
            (λ item.
              IsWanted terms requested minimum_score item
              → mem_key
                  (k (rank strings floats view terms item))
                  (keys_of strings floats view selected)
                ≡ true)
            items

  -- For a `top_k` from 1 on, what `select_relevant_candidates` keeps is such a selection, as far as `<` orders the
  -- scores.
  pub select_ranked-IsSelection :
      IsOrder strings floats view
      → (items : List Item) (query : String) (top_k : ℕ) (requested : List String)
        (minimum_score : F)
      → 0 < top_k
      → IsSelection
          (meaningful_tokens strings query)
          requested
          minimum_score
          top_k
          items
          (select_ranked strings floats view items query top_k requested minimum_score)
  unfolding select_ranked
  select_ranked-IsSelection order items query top_k requested minimum_score positive =
      let terms = meaningful_tokens strings query in
      let ranked = ranked_candidates strings floats view terms requested minimum_score items in
      let sorted = sort_ranked strings floats view ranked in
      let picked = pick strings floats view top_k [] 0 sorted in
      let P = λ (r : RankedCandidate Item F). IsWanted terms requested minimum_score r.item in
      record {
        short = omega (arith, pick-length strings floats view top_k [] 0 sorted positive);
        wanted = All-pick strings floats view P top_k [] 0 sorted (
            All-sort_ranked strings floats view P ranked
              (ranked-IsWanted terms requested minimum_score items));
        descending =
            pick-Descending strings floats view top_k [] 0 sorted
              (sort_ranked-Descending strings floats view order ranked);
        distinct = pick-Distinct strings floats view top_k [] 0 sorted;
        complete = elim (pick-Covered top_k [] 0 sorted positive) [
          | inl full ↦ inl (omega (arith, full))
          | inr covered ↦ inr (
              IsWanted-ranked (Covered [] picked) terms requested minimum_score items
                (sort_ranked-All (Covered [] picked) ranked covered))
        ];
      }
