-- ===== src/References/Walk.antt =====
-- What the path of a reference means, and the loop over its segments in
-- app/orchestration/executor.py.
use agentic_google_workspace.Prelude.{
  ℕ, String, ◌≡◌, ◌↔◌, true, false, ◌||◌, some, List, [], ◌∷◌, ◌++◌, ◌==◌, ok, >>=-eq-ok, get_elem?,
  arith, Bool-cases, inl, inr,
}
use agentic_google_workspace.Prelude.Int.{pos}
use agentic_google_workspace.Json.{Json, Items, Fields, int, str, arr, obj, get, items}
use agentic_google_workspace.References.{
  Unicode, is_digits, to_int, normalize_segment, descend, walk,
}

-- The path leads from the first value to the last one: by a key through a dict, and through a list by
-- an index, by "first" or "next" to its head, or by the digits of an index.
pub data Follows (u : Unicode) : Json → List Json → Json → Type 0 where
  here : {current found : Json} → current ≡ found → Follows u current [] found
  member :
      {fs : Fields} {s : String} {next found : Json} {path : List Json}
      → get s fs ≡ some next
      → Follows u next path found
      → Follows u (obj fs) (str s ∷ path) found
  element :
      {xs : Items} {n : ℕ} {next found : Json} {path : List Json}
      → get_elem? (items xs) n ≡ some next
      → Follows u next path found
      → Follows u (arr xs) (int (pos n) ∷ path) found
  head :
      {xs : Items} {s : String} {next found : Json} {path : List Json}
      → (s == "first" || s == "next") ≡ true
      → get_elem? (items xs) 0 ≡ some next
      → Follows u next path found
      → Follows u (arr xs) (str s ∷ path) found
  digits :
      {xs : Items} {s : String} {n : ℕ} {next found : Json} {path : List Json}
      → (s == "first" || s == "next") ≡ false
      → is_digits u s ≡ true
      → to_int u s ≡ ok n
      → get_elem? (items xs) n ≡ some next
      → Follows u next path found
      → Follows u (arr xs) (str s ∷ path) found

module _ (u : Unicode) (step_id : String) where
  Follows-walk :
      (traversed : List Json) {current found : Json} {path : List Json}
      → Follows u current path found
      → walk u step_id traversed current path ≡ ok found
  unfolding walk normalize_segment descend
  Follows-walk traversed (here e) = cc
  Follows-walk traversed (member {s = s} e rest) =
      ground (arith, Follows-walk (traversed ++ str s ∷ []) rest)
  Follows-walk traversed (element {n = n} e rest) =
      ground (arith, Follows-walk (traversed ++ int (pos n) ∷ []) rest)
  Follows-walk traversed (head named e rest) =
      ground (arith, Follows-walk (traversed ++ int (pos 0) ∷ []) rest)
  Follows-walk traversed (digits {n = n} other d i e rest) =
      ground (arith, Follows-walk (traversed ++ int (pos n) ∷ []) rest)

  -- One round of the loop, in front of a path that is followed.
  step-Follows :
      (traversed : List Json) (current segment normalized : Json) {next found : Json}
      {path : List Json}
      → normalize_segment u current segment ≡ ok normalized
      → descend u step_id traversed current normalized ≡ ok next
      → Follows u next path found
      → Follows u current (segment ∷ path) found
  unfolding normalize_segment descend
  step-Follows traversed (obj fs) (str s) (str t) hn hd rest = member (ground arith) rest
  step-Follows traversed (arr xs) (int (pos k)) (int (pos n)) hn hd rest =
      element (ground arith) rest
  step-Follows traversed (arr xs) (str s) (int (pos n)) hn hd rest =
      elim (Bool-cases (s == "first" || s == "next")) [
        | inl named ↦ head named (ground arith) rest
        | inr other ↦ elim (Bool-cases (is_digits u s)) [
          | inl d ↦ digits {n = n} other d (ground arith) (ground arith) rest
          | inr no_digits ↦ ground arith
        ]
      ]
  step-Follows traversed _ _ _ hn hd rest = ground arith

  walk-Follows :
      (traversed : List Json) (current found : Json) (path : List Json)
      → walk u step_id traversed current path ≡ ok found
      → Follows u current path found
  unfolding walk
  walk-Follows traversed current found [] h = here (cc)
  walk-Follows traversed current found (segment ∷ path) h =
      let (normalized, hn, hrest) = >>=-eq-ok (normalize_segment u current segment) _ h in
      let (next, hd, hw) = >>=-eq-ok (descend u step_id traversed current normalized) _ hrest in
      step-Follows traversed current segment normalized hn hd
        (walk-Follows (traversed ++ normalized ∷ []) next found path hw)

  -- The loop returns a value exactly if the path leads to it from where the loop stands.
  pub walk_iff :
      (traversed : List Json) (current found : Json) (path : List Json)
      → (walk u step_id traversed current path ≡ ok found) ↔ Follows u current path found
  walk_iff traversed current found path =
      (walk-Follows traversed current found path, Follows-walk traversed)
