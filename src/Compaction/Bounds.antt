-- ===== src/Compaction/Bounds.antt =====
-- How much of a step's result the compaction leaves.
use agentic_google_workspace.Prelude.{
  ℕ, zero, suc, String, ◌≡◌, ◌≤◌, refl, Option, none, some, List, [], ◌∷◌, length, take, arith,
  ◌==◌, false, eq_iff,
}
use agentic_google_workspace.Json.{Json, Fields, obj, end, field, get, put, items, of_items}
use agentic_google_workspace.Compaction.{
  list_at, dicts, map_objects, put_dict, compact_result, compact_search, compact_found,
  compact_result_data,
}
use agentic_google_workspace.Synthesis.{primary_of, primary_collection}

-- What the response is about after the compaction: the same collection, of at most 20 elements and
-- no more than there were.
abbrev pub Compacted : Option (String × List Json) → Option (String × List Json) → Type 0
Compacted none none = Unit
Compacted (some (name, xs)) (some (key, ys)) =
    (key ≡ name) × (length ys ≤ 20) × (length ys ≤ length xs)
Compacted _ _ = ⊥

dicts_cons : (x : Json) (xs : List Json) → length (dicts (x ∷ xs)) ≤ suc (length (dicts xs))
dicts_cons (obj fs) xs = ground arith
dicts_cons _ xs = ground arith

length-dicts :
    (n : ℕ) (xs : List Json)
    → (length (dicts (take n xs)) ≤ n) × (length (dicts (take n xs)) ≤ length xs)
length-dicts zero xs = (ground arith, ground arith)
length-dicts (suc n) [] = (ground arith, ground arith)
length-dicts (suc n) (x ∷ xs) =
    let (a, b) = length-dicts n xs in let c = dicts_cons x (take n xs) in (omega arith, omega arith)

length-map_objects :
    (f : Fields → Fields) (xs : List Fields) → length (map_objects f xs) ≡ length xs
length-map_objects f [] = refl
length-map_objects f (x ∷ xs) = rw (length-map_objects f xs) refl

items-of_items : (xs : List Json) → items (of_items xs) ≡ xs
items-of_items [] = refl
items-of_items (x ∷ xs) = rw (items-of_items xs) refl

length-compact_items :
    (f : Fields → Fields) (xs : List Json)
    → let ys = items (of_items (map_objects f (dicts (take 20 xs)))) in
      (length ys ≤ 20) × (length ys ≤ length xs)
length-compact_items f xs =
    rw
      (
        items-of_items (map_objects f (dicts (take 20 xs))),
        length-map_objects f (dicts (take 20 xs)),
      )
      (length-dicts 20 xs)

get-put : (k j : String) (v : Json) (fs : Fields) → (j == k) ≡ false → get k (put j v fs) ≡ get k fs
get-put k j v end h = rw h refl
get-put k j v (field i w fs) h = ground (arith, eq_iff i j, get-put k j v fs h)

primary-put_dict :
    (key : String) (o : Option Json) (fs : Fields)
    → (key == "events") ≡ false
    → (key == "emails") ≡ false
    → (key == "files") ≡ false
    → (key == "results") ≡ false
    → primary_collection (put_dict key o fs) ≡ primary_collection fs
unfolding primary_collection
primary-put_dict key (some (obj gs)) fs a b c d =
    rw
      (
        get-put "events" key (obj gs) fs a,
        get-put "emails" key (obj gs) fs b,
        get-put "files" key (obj gs) fs c,
        get-put "results" key (obj gs) fs d,
      )
      refl
primary-put_dict key _ fs a b c d = refl

search-Compacted :
    (content : Fields) (results : List Json)
    → Compacted (some ("results", results)) (primary_collection (compact_search content results))
unfolding primary_collection
search-Compacted content results =
    rw
      (
        primary-put_dict "freshness" (get "freshness" content)
            (put_dict "retrieval_timing_ms" (get "retrieval_timing_ms" content) _) refl refl refl
            refl,
        primary-put_dict "retrieval_timing_ms" (get "retrieval_timing_ms" content) _ refl refl refl
            refl,
      )
      (
        refl,
        (length-compact_items compact_result results).0,
        (length-compact_items compact_result results).1,
      )

found-Compacted :
    (content : Fields) (events emails files results : Option (List Json))
    → primary_collection content ≡ primary_of events emails files results
    → Compacted
        (primary_of events emails files results)
        (primary_collection (compact_found content events emails files results))
unfolding primary_collection
found-Compacted content (some xs) _ _ _ h =
    (refl, (length-compact_items _ xs).0, (length-compact_items _ xs).1)
found-Compacted content none (some xs) _ _ h =
    (refl, (length-compact_items _ xs).0, (length-compact_items _ xs).1)
found-Compacted content none none (some xs) _ h =
    (refl, (length-compact_items _ xs).0, (length-compact_items _ xs).1)
found-Compacted content none none none (some xs) h = search-Compacted content xs
found-Compacted content none none none none h = rw h tt

-- The compaction keeps which collection of a result is the primary one, and leaves at most 20 of its
-- elements, and no more than there were; a result without a collection is left without one.
pub primary_collection-compact_result_data :
    (content : Fields)
    → Compacted (primary_collection content) (primary_collection (compact_result_data content))
unfolding primary_collection compact_result_data
primary_collection-compact_result_data content =
    found-Compacted content (list_at "events" content) (list_at "emails" content)
      (list_at "files" content) (list_at "results" content) refl
