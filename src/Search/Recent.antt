-- ===== src/Search/Recent.antt =====
-- What the process keeps of the embeddings of app/retrieval/search.py, told by the uses made before.
use agentic_google_workspace.Prelude.{
  ℕ, zero, suc, ◌-◌, ◌≤◌, ◌<◌, String, ◌≡◌, refl, true, false, Option, none, some, List, [], ◌∷◌,
  ◌++◌, ◌==◌, eq_iff, eq_refl, if◌then◌else◌, ltb, length, length-append, mem, ◌||◌, mem-append,
  is_unique, arith, Bool-cases, Option-cases, inl, inr, ap, ◌∙◌, sym,
}
use agentic_google_workspace.Dict.{Dict, lookup, insert, erase, keys}
use agentic_google_workspace.Search.Cache.{
  move_to_end, drop_oldest, process_embedding, remember_process_embedding,
}

pub data Access (E : Type 0) : Type 0 where
  ask : String → Access E
  keep : String → E → Access E

module _ {E : Type 0} where
  -- The last use of each key, in the order of these uses.
  abbrev pub latest : Dict E → Dict E
  latest [] = []
  latest ((k, v) ∷ uses) = if mem k (keys uses) then latest uses else (k, v) ∷ latest uses

  -- The entries behind the first ones.
  abbrev pub skip : ℕ → Dict E → Dict E
  skip zero d = d
  skip (suc n) [] = []
  skip (suc n) (entry ∷ d) = skip n d

  skip-nil : (n : ℕ) → skip n [] ≡ []
  skip-nil zero = refl
  skip-nil (suc n) = refl

  erase-insert : (k : String) (v : E) (d : Dict E) → erase k (insert k v d) ≡ erase k d
  erase-insert k v [] = rw (eq_refl k) refl
  erase-insert k v ((j, w) ∷ d) = elim (Bool-cases (j == k)) [
    | inl same ↦ rw (same, same) refl
    | inr other ↦ rw (other, other, erase-insert k v d) refl
  ]

  -- No entry before it is of the key.
  erase-lacks : (k : String) (d : Dict E) → mem k (keys d) ≡ false → erase k d ≡ d
  erase-lacks k [] h = refl
  erase-lacks k ((j, w) ∷ d) h = ground (arith, erase-lacks k d)

  mem-latest : (k : String) (uses : Dict E) → mem k (keys (latest uses)) ≡ mem k (keys uses)
  mem-latest k [] = refl
  mem-latest k ((j, v) ∷ uses) = ground (arith, eq_iff j k, mem-latest k uses)

  latest_unique : (uses : Dict E) → is_unique (keys (latest uses)) ≡ true
  latest_unique [] = refl
  latest_unique ((j, v) ∷ uses) = ground (arith, mem-latest j uses, latest_unique uses)

  keys-append : (d e : Dict E) → keys (d ++ e) ≡ keys d ++ keys e
  keys-append [] e = refl
  keys-append ((j, w) ∷ d) e = rw (keys-append d e) refl

  -- A use moves its key to the end.
  latest-use :
      (k : String) (v : E) (uses : Dict E)
      → latest (uses ++ (k, v) ∷ []) ≡ move_to_end k v (latest uses)
  latest-use k v [] = refl
  latest-use k v ((j, w) ∷ uses) =
      let here : mem j (keys (uses ++ (k, v) ∷ [])) ≡ (mem j (keys uses) || (k == j || false)) =
        ap (mem j) (keys-append uses ((k, v) ∷ [])) ∙ mem-append j (keys uses) (k ∷ []) in
      let rest = latest-use k v uses in
      elim (Bool-cases (mem j (keys uses))) [
        | inl again ↦ rw (here, again, rest) refl
        | inr last ↦ elim (Bool-cases (j == k)) [
          | inl same ↦
              let equal : j ≡ k = (eq_iff j k).0 same in
              let gone : erase k (latest uses) ≡ latest uses =
                erase-lacks k (latest uses) (rw (mem-latest k uses, ← equal) last) in
              rw (here, last, ← equal, eq_refl j, equal, rest, gone) refl
          | inr other ↦
              let apart : (k == j) ≡ false = ground (arith, eq_iff j k, eq_iff k j) in
              rw (here, last, other, apart, rest) refl
        ]
      ]

  length-erase_le : (k : String) (d : Dict E) → length d ≤ suc (length (erase k d))
  length-erase_le k [] = omega arith
  length-erase_le k ((j, w) ∷ d) = ground (arith, length-erase_le k d)

  length-erase_found :
      (k : String) (d : Dict E) {v : E} → lookup k d ≡ some v → suc (length (erase k d)) ≡ length d
  length-erase_found k [] h = cc
  length-erase_found k ((j, w) ∷ d) {v = v} h = elim (Bool-cases (j == k)) [
    | inl same ↦ rw (same) refl
    | inr other ↦ rw (other) (ap suc (length-erase_found k d (rw other at h)))
  ]

  module _ (most : ℕ) where
    length-drop_oldest : (d : Dict E) → length (drop_oldest most d) ≤ most
    unfolding drop_oldest
    length-drop_oldest [] = omega arith
    length-drop_oldest (entry ∷ d) = ground (arith, length-drop_oldest d)

    drop_oldest-short : (d : Dict E) → length d ≤ most → drop_oldest most d ≡ d
    unfolding drop_oldest
    drop_oldest-short [] h = refl
    drop_oldest-short (entry ∷ d) h = ground arith

    drop_oldest-long :
        (entry : String × E) (d : Dict E)
        → most < length (entry ∷ d)
        → drop_oldest most (entry ∷ d) ≡ drop_oldest most d
    unfolding drop_oldest
    drop_oldest-long entry d h = ground arith

    drop_oldest-move :
        (k : String) (v : E) (d : Dict E)
        → is_unique (keys d) ≡ true
        → drop_oldest most (move_to_end k v (drop_oldest most d))
          ≡ drop_oldest most (move_to_end k v d)
    drop_oldest-move k v [] unique = rw (drop_oldest-short [] (omega arith)) refl
    drop_oldest-move k v ((j, w) ∷ d) unique = elim (Bool-cases (ltb most (length ((j, w) ∷ d)))) [
      | inr fits ↦
          let fit : length ((j, w) ∷ d) ≤ most = ground arith in
          rw (drop_oldest-short ((j, w) ∷ d) fit) refl
      | inl long ↦
          let gt : most < suc (length d) = ground arith in
          let rest = drop_oldest-move k v d (ground arith) in
          rw (drop_oldest-long (j, w) d gt, rest)
            (elim (Bool-cases (j == k)) [
              | inl same ↦
                  let equal : j ≡ k = (eq_iff j k).0 same in
                  let gone : erase k d ≡ d = erase-lacks k d (rw (← equal) (ground arith)) in
                  rw (same, gone) refl
              | inr other ↦ rw other (
                  sym (
                    drop_oldest-long (j, w) (erase k d ++ (k, v) ∷ [])
                      (omega
                        (arith, gt, length-append (erase k d) ((k, v) ∷ []), length-erase_le k d))))
            ])
    ]

    drop_oldest-surplus : (d : Dict E) → drop_oldest most d ≡ skip (length d - most) d
    drop_oldest-surplus [] = drop_oldest-short [] (omega arith) ∙ sym (skip-nil (0 - most))
    drop_oldest-surplus (entry ∷ d) = elim (Bool-cases (ltb most (length (entry ∷ d)))) [
      | inl long ↦
          let gt : most < suc (length d) = ground arith in
          let less : suc (length d) - most ≡ suc (length d - most) = omega (arith, gt) in
          drop_oldest-long entry d gt
          ∙ drop_oldest-surplus d
          ∙ sym (ap (λ n. skip n (entry ∷ d)) less)
      | inr fits ↦
          let fit : length (entry ∷ d) ≤ most = ground arith in
          let none_left : suc (length d) - most ≡ 0 = omega (arith, fit) in
          drop_oldest-short (entry ∷ d) fit ∙ sym (ap (λ n. skip n (entry ∷ d)) none_left)
    ]

    -- What is kept after these uses: of the entries that were used last, the latest ones, as many as there
    -- is room for.
    abbrev pub recent : Dict E → Dict E
    recent uses = skip (length (latest uses) - most) (latest uses)

    recent-drop_oldest : (uses : Dict E) → recent uses ≡ drop_oldest most (latest uses)
    recent-drop_oldest uses = sym (drop_oldest-surplus (latest uses))

    recent-use :
        (k : String) (v : E) (uses : Dict E)
        → drop_oldest most (move_to_end k v (recent uses)) ≡ recent (uses ++ (k, v) ∷ [])
    recent-use k v uses =
        ap (λ d. drop_oldest most (move_to_end k v d)) (recent-drop_oldest uses)
        ∙ drop_oldest-move k v (latest uses) (latest_unique uses)
        ∙ ap (drop_oldest most) (sym (latest-use k v uses))
        ∙ drop_oldest-surplus (latest (uses ++ (k, v) ∷ []))

    length-recent : (uses : Dict E) → length (recent uses) ≤ most
    length-recent uses = rw (recent-drop_oldest uses) (length-drop_oldest (latest uses))

    remember-recent :
        (k : String) (v : E) (uses : Dict E)
        → remember_process_embedding most k v (recent uses) ≡ recent (uses ++ (k, v) ∷ [])
    unfolding remember_process_embedding
    remember-recent k v uses = rw (erase-insert k v (recent uses)) (recent-use k v uses)

    found-recent :
        (k : String) (v : E) (uses : Dict E)
        → lookup k (recent uses) ≡ some v
        → process_embedding k (recent uses) ≡ (some v, recent (uses ++ (k, v) ∷ []))
    unfolding process_embedding
    found-recent k v uses h =
        let fits : length (move_to_end k v (recent uses)) ≤ most = omega (
          arith,
          length-append (erase k (recent uses)) ((k, v) ∷ []),
          length-erase_found k (recent uses) h,
          length-recent uses,
        ) in
        let same : move_to_end k v (recent uses) ≡ recent (uses ++ (k, v) ∷ []) =
          sym (drop_oldest-short (move_to_end k v (recent uses)) fits) ∙ recent-use k v uses in
        rw (h, same) refl

    missing-recent :
        (k : String) (d : Dict E) → lookup k d ≡ none → process_embedding k d ≡ (none, d)
    unfolding process_embedding
    missing-recent k d h = rw h refl

    -- The answer from what was used last, and the uses with this one.
    abbrev answer : String → Dict E → Option E → Option E × Dict E
    answer k uses none = (none, uses)
    answer k uses (some v) = (some v, uses ++ (k, v) ∷ [])

    abbrev pub perform : Access E → Dict E → Option E × Dict E
    perform (ask k) d = process_embedding k d
    perform (keep k v) d = (none, remember_process_embedding most k v d)

    abbrev pub note : Access E → Dict E → Option E × Dict E
    note (ask k) uses = answer k uses (lookup k (recent uses))
    note (keep k v) uses = (none, uses ++ (k, v) ∷ [])

    -- The answers of a series of accesses, and the state after them.
    abbrev pub run :
        (Access E → Dict E → Option E × Dict E)
        → List (Access E)
        → Dict E
        → List (Option E) × Dict E
    run step [] d = ([], d)
    run step (a ∷ rest) d =
        let later = run step rest (step a d).1 in ((step a d).0 ∷ later.0, later.1)

    perform-note :
        (a : Access E) (uses : Dict E)
        → perform a (recent uses) ≡ ((note a uses).0, recent (note a uses).1)
    perform-note (ask k) uses = elim (Option-cases (lookup k (recent uses))) [
      | inl missing ↦ rw missing (missing-recent k (recent uses) missing)
      | inr (v, found) ↦ rw found (found-recent k v uses found)
    ]
    perform-note (keep k v) uses = rw (remember-recent k v uses) refl

    -- After any uses, any series of lookups and of embeddings that are kept gives the answers that it gives
    -- where the process keeps of each text the last use, and of these the latest, exactly as many as there is
    -- room for or all of them; what is kept after it is these entries, in the order of their use.
    pub run-recent :
        (accesses : List (Access E)) (uses : Dict E)
        → run perform accesses (recent uses)
          ≡ ((run note accesses uses).0, recent (run note accesses uses).1)
    run-recent [] uses = refl
    run-recent (a ∷ rest) uses = rw (perform-note a uses, run-recent rest (note a uses).1) refl
