-- ===== src/Search/Entries.antt =====
-- Properties of all entries of what app/retrieval/search.py keeps.
use mathlib.Core.Path.{subst}
use agentic_google_workspace.Prelude.{
  ℕ, String, ◌≡◌, refl, inl, inr, Bool, true, false, some, List, [], ◌∷◌, ◌==◌, eq_iff,
  if◌then◌else◌, ltb, length, All, All-append, Bool-cases, sym,
}
use agentic_google_workspace.Dict.{Dict, lookup, insert, erase}
use agentic_google_workspace.Json.{Json, items, of_items}
use agentic_google_workspace.Search.Cache.{drop_oldest, remember_process_embedding, move_to_end}

pub items-of_items : (xs : List Json) → items (of_items xs) ≡ xs
items-of_items [] = refl
items-of_items (x ∷ xs) = rw (items-of_items xs) refl

pub if-both :
    {A : Type 0} (P : A → Type 0) (b : Bool) (x y : A) → P x → P y → P (if b then x else y)
if-both P true x y h k = h
if-both P false x y h k = k

module _ {E : Type 0} (P : String × E → Type 0) where
  All-erase : (k : String) (d : Dict E) → All P d → All P (erase k d)
  All-erase k [] h = tt
  All-erase k ((j, w) ∷ d) h = elim (Bool-cases (j == k)) [
    | inl same ↦ rw (erase, same) h.1
    | inr other ↦ rw (erase, other) (h.0, All-erase k d h.1)
  ]

  All-insert : (k : String) (v : E) (d : Dict E) → P (k, v) → All P d → All P (insert k v d)
  All-insert k v [] p h = (p, tt)
  All-insert k v ((j, w) ∷ d) p h = elim (Bool-cases (j == k)) [
    | inl same ↦ rw (insert, same) (subst (λ i. P (i, v)) (sym ((eq_iff j k).0 same)) p, h.1)
    | inr other ↦ rw (insert, other) (h.0, All-insert k v d p h.1)
  ]

  All-drop_oldest : (most : ℕ) (d : Dict E) → All P d → All P (drop_oldest most d)
  unfolding drop_oldest
  All-drop_oldest most [] h = tt
  All-drop_oldest most (entry ∷ d) h = elim (Bool-cases (ltb most (length (entry ∷ d)))) [
    | inl long ↦ rw long (All-drop_oldest most d h.1)
    | inr fits ↦ rw fits h
  ]

  pub All-move : (k : String) (v : E) (d : Dict E) → P (k, v) → All P d → All P (move_to_end k v d)
  All-move k v d p h = All-append P (erase k d) ((k, v) ∷ []) (All-erase k d h) (p, tt)

  pub All-remember :
      (most : ℕ) (k : String) (v : E) (d : Dict E)
      → P (k, v)
      → All P d
      → All P (remember_process_embedding most k v d)
  unfolding remember_process_embedding
  All-remember most k v d p h =
      All-drop_oldest most (move_to_end k v (insert k v d))
        (All-move k v (insert k v d) p (All-insert k v d p h))

  pub All-lookup : (k : String) (d : Dict E) {v : E} → All P d → lookup k d ≡ some v → P (k, v)
  All-lookup k [] h found = cc
  All-lookup k ((j, w) ∷ d) {v = v} h found = elim (Bool-cases (j == k)) [
    | inl same ↦
        let here : w ≡ v = cc (rw same at found) in
        subst (λ i. P (i, v)) ((eq_iff j k).0 same) (rw (← here) h.0)
    | inr other ↦ All-lookup k d h.1 (rw other at found)
  ]
