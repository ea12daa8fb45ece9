-- ===== src/Search/Selection.antt =====
-- What the selection of app/retrieval/relevance.py keeps.
use agentic_google_workspace.Prelude.{
  ℕ, suc, ◌+◌, ◌≤◌, ◌<◌, ◌≡◌, refl, inl, inr, true, false, List, [], ◌∷◌, eq_refl, nat_eq, length,
  All, All-map, arith, Bool-cases,
}
use agentic_google_workspace.Json.{Fields}
use agentic_google_workspace.Search.Relevance.{
  Floats, Strings, RankedCandidate, Key, key_eq, mem_key, insert_ranked, sort_ranked, key_of, pick,
}

pub key_eq_refl : (k : Key) → key_eq k k ≡ true
key_eq_refl (a, b) = rw (eq_refl a, eq_refl b) refl

module _ (strings : Strings) {F Item : Type 0} (floats : Floats F) (view : Item → Fields) where
  abbrev pub Ranked : Type 0
  Ranked = RankedCandidate Item F

  abbrev pub key : Ranked → Key
  key = key_of strings floats view

  -- No later one has a higher score.
  abbrev pub Descending : List Ranked → Type 0
  Descending [] = Unit
  Descending (r ∷ rs) = All (λ s. floats.less r.score s.score ≡ false) rs × Descending rs

  -- No two have one key.
  abbrev pub Distinct : List Ranked → Type 0
  Distinct [] = Unit
  Distinct (r ∷ rs) = All (λ s. key_eq (key r) (key s) ≡ false) rs × Distinct rs

  abbrev pub keys_of : List Ranked → List Key
  keys_of [] = []
  keys_of (r ∷ rs) = key r ∷ keys_of rs

  module _ (P : Ranked → Type 0) where
    All-insert_ranked :
        (r : Ranked) (rs : List Ranked)
        → P r
        → All P rs
        → All P (insert_ranked strings floats view r rs)
    All-insert_ranked r [] p h = (p, tt)
    All-insert_ranked r (s ∷ ss) p h = elim (Bool-cases (floats.less r.score s.score)) [
      | inl lower ↦ rw (insert_ranked, lower) (h.0, All-insert_ranked r ss p h.1)
      | inr kept ↦ rw (insert_ranked, kept) (p, h)
    ]

    pub All-sort_ranked : (rs : List Ranked) → All P rs → All P (sort_ranked strings floats view rs)
    All-sort_ranked [] h = tt
    All-sort_ranked (r ∷ rs) h =
        All-insert_ranked r (sort_ranked strings floats view rs) h.0 (All-sort_ranked rs h.1)

    pub All-pick :
        (top_k : ℕ) (seen : List Key) (n : ℕ) (rs : List Ranked)
        → All P rs
        → All P (pick strings floats view top_k seen n rs)
    unfolding pick
    All-pick top_k seen n [] h = tt
    All-pick top_k seen n (r ∷ rs) h = elim (Bool-cases (mem_key (key r) seen)) [
      | inl again ↦ rw again (All-pick top_k seen n rs h.1)
      | inr new ↦ elim (Bool-cases (nat_eq (suc n) top_k)) [
        | inl full ↦ rw (new, full) (h.0, tt)
        | inr open_still ↦ rw (new, open_still) (h.0, All-pick top_k (key r ∷ seen) (suc n) rs h.1)
      ]
    ]

  -- What is relied on of `<`: it is a total order without a NaN among the scores.
  pub record IsOrder : Type 0 where
    pub asymmetric : (a b : F) → floats.less a b ≡ true → floats.less b a ≡ false
    pub transitive :
        (a b c : F) → floats.less a b ≡ false → floats.less b c ≡ false → floats.less a c ≡ false

  module _ (order : IsOrder) where
    insert_ranked-Descending :
        (r : Ranked) (rs : List Ranked)
        → Descending rs
        → Descending (insert_ranked strings floats view r rs)
    insert_ranked-Descending r [] h = (tt, tt)
    insert_ranked-Descending r (s ∷ ss) h = elim (Bool-cases (floats.less r.score s.score)) [
      | inl lower ↦
          rw (insert_ranked, lower)
            (
              All-insert_ranked _ r ss (order.asymmetric r.score s.score lower) h.0,
              insert_ranked-Descending r ss h.1,
            )
      | inr kept ↦
          rw (insert_ranked, kept)
            (
              (
                kept,
                All-map _ _ (λ t later. order.transitive r.score s.score t.score kept later) ss h.0,
              ),
              h,
            )
    ]

    pub sort_ranked-Descending :
        (rs : List Ranked) → Descending (sort_ranked strings floats view rs)
    sort_ranked-Descending [] = tt
    sort_ranked-Descending (r ∷ rs) =
        insert_ranked-Descending r (sort_ranked strings floats view rs) (sort_ranked-Descending rs)

  pub pick-Descending :
      (top_k : ℕ) (seen : List Key) (n : ℕ) (rs : List Ranked)
      → Descending rs
      → Descending (pick strings floats view top_k seen n rs)
  unfolding pick
  pick-Descending top_k seen n [] h = tt
  pick-Descending top_k seen n (r ∷ rs) h = elim (Bool-cases (mem_key (key r) seen)) [
    | inl again ↦ rw again (pick-Descending top_k seen n rs h.1)
    | inr new ↦ elim (Bool-cases (nat_eq (suc n) top_k)) [
      | inl full ↦ rw (new, full) (tt, tt)
      | inr open_still ↦
          rw (new, open_still)
            (
              All-pick _ top_k (key r ∷ seen) (suc n) rs h.0,
              pick-Descending top_k (key r ∷ seen) (suc n) rs h.1,
            )
    ]
  ]

  pick-unseen :
      (top_k : ℕ) (seen : List Key) (n : ℕ) (rs : List Ranked)
      → All (λ s. mem_key (key s) seen ≡ false) (pick strings floats view top_k seen n rs)
  unfolding pick
  pick-unseen top_k seen n [] = tt
  pick-unseen top_k seen n (r ∷ rs) = elim (Bool-cases (mem_key (key r) seen)) [
    | inl again ↦ rw again (pick-unseen top_k seen n rs)
    | inr new ↦ elim (Bool-cases (nat_eq (suc n) top_k)) [
      | inl full ↦ rw (new, full) (new, tt)
      | inr open_still ↦
          rw (new, open_still)
            (
              new,
              All-map _ (λ s. mem_key (key s) seen ≡ false) (λ s h. ground arith)
                  (pick strings floats view top_k (key r ∷ seen) (suc n) rs)
                  (pick-unseen top_k (key r ∷ seen) (suc n) rs),
            )
    ]
  ]

  pub pick-Distinct :
      (top_k : ℕ) (seen : List Key) (n : ℕ) (rs : List Ranked)
      → Distinct (pick strings floats view top_k seen n rs)
  unfolding pick
  pick-Distinct top_k seen n [] = tt
  pick-Distinct top_k seen n (r ∷ rs) = elim (Bool-cases (mem_key (key r) seen)) [
    | inl again ↦ rw again (pick-Distinct top_k seen n rs)
    | inr new ↦ elim (Bool-cases (nat_eq (suc n) top_k)) [
      | inl full ↦ rw (new, full) (tt, tt)
      | inr open_still ↦
          rw (new, open_still)
            (
              All-map _ (λ s. key_eq (key r) (key s) ≡ false) (λ s h. ground arith)
                  (pick strings floats view top_k (key r ∷ seen) (suc n) rs)
                  (pick-unseen top_k (key r ∷ seen) (suc n) rs),
              pick-Distinct top_k (key r ∷ seen) (suc n) rs,
            )
    ]
  ]

  pub pick-length :
      (top_k : ℕ) (seen : List Key) (n : ℕ) (rs : List Ranked)
      → n < top_k
      → length (pick strings floats view top_k seen n rs) + n ≤ top_k
  unfolding pick
  pick-length top_k seen n [] h = omega arith
  pick-length top_k seen n (r ∷ rs) h =
      ground (arith, pick-length top_k seen n rs h, pick-length top_k (key r ∷ seen) (suc n) rs)
