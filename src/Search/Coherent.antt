-- ===== src/Search/Coherent.antt =====
-- The embeddings that app/retrieval/search.py finds in the process and in the shared store.
use text.Mathlib.TextLemmas.{append_cancel_left}
use agentic_google_workspace.Prelude.{
  String, ◌≡◌, refl, ◌⊎◌, inl, inr, Bool, Option, none, some, List, nat_eq, length, All, ok, err,
  Bool-cases, Option-cases, Result-cases, ◌∙◌, sym,
}
use agentic_google_workspace.Dict.{lookup}
use agentic_google_workspace.Json.{Json, Items, arr, items, of_items}
use agentic_google_workspace.Contracts.{Checked}
use agentic_google_workspace.Search.Cache.{process_embedding, max_process_embeddings}
use agentic_google_workspace.Search.Embedding.{
  Provider, Caches, normalized, key_prefix, cache_key, floats, usable, remembered, cached_embedding,
  from_shared, ask_shared, shared_embedding, share, computed, or_continue, in_flight,
  query_embedding,
}
use agentic_google_workspace.Search.Entries.{
  items-of_items, if-both, All-move, All-remember, All-lookup,
}

module _ {S : Type 0} (provider : Provider S) (has_cache : Bool) (user_id : String) where
  abbrev key : String → String
  key = cache_key provider has_cache user_id

  -- What is kept under a key is the embedding of the text that has this key.
  abbrev pub IsRight : String × List Json → Type 0
  IsRight entry = (text : String) → key text ≡ entry.0 → provider.embed_text text ≡ ok entry.1

  -- What can be read of the store is right.
  abbrev pub IsRightStore : S → Type 0
  IsRightStore shared =
      (k : String) (v : Json) (values embedding : List Json)
      → provider.get_json k shared ≡ ok (some v)
      → usable provider has_cache user_id (some v) ≡ some values
      → floats provider has_cache user_id values ≡ ok embedding
      → IsRight (k, embedding)

  pub record Coherent (caches : Caches S) : Type 0 where
    pub process_right : All IsRight caches.process
    pub shared_right : IsRightStore caches.shared

  -- What is relied on: texts have different digests; the store gives back what was set, or what it had, or
  -- nothing; an embedding is a list of floating-point numbers.
  pub record Relies : Type 0 where
    pub no_collision : (a b : String) → provider.sha256 a ≡ provider.sha256 b → a ≡ b
    pub gives_back :
        (k j : String) (e : List Json) (s t : S) (v : Json)
        → provider.set_json k e s ≡ ok t
        → provider.get_json j t ≡ ok (some v)
        → ((j ≡ k) × (v ≡ arr (of_items e))) ⊎ (provider.get_json j s ≡ ok (some v))
    pub are_floats :
        (text : String) (e : List Json)
        → provider.embed_text text ≡ ok e
        → floats provider has_cache user_id e ≡ ok e

  record Found (text : String) (result : Checked (Option (List Json)) × Caches S) : Type 0 where
    coherent : Coherent result.1
    right : (e : List Json) → result.0 ≡ ok (some e) → provider.embed_text text ≡ ok e

  pub record Answered (text : String) (result : Checked (List Json × Bool) × Caches S)
      : Type 0 where
    pub coherent : Coherent result.1
    pub right :
        (e : List Json) (hit : Bool) → result.0 ≡ ok (e, hit) → provider.embed_text text ≡ ok e

  remembered-Coherent :
      (k : String) (e : List Json) (caches : Caches S)
      → IsRight (k, e)
      → Coherent caches
      → Coherent (remembered provider has_cache user_id k e caches)
  remembered-Coherent k e caches p c = record {
    process_right =
        All-remember IsRight max_process_embeddings k e caches.process p c.process_right;
    shared_right = c.shared_right;
  }

  or_continue-Answered :
      (text : String) (next : Caches S → Checked (List Json × Bool) × Caches S)
      (result : Checked (Option (List Json)) × Caches S)
      → ((c : Caches S) → Coherent c → Answered text (next c))
      → Found text result
      → Answered text (or_continue provider has_cache user_id next result)
  or_continue-Answered text next (ok (some embedding), caches) k f = record {
    coherent = f.coherent;
    right = λ e hit h. f.right e (cc);
  }
  or_continue-Answered text next (ok none, caches) k f = k caches f.coherent
  or_continue-Answered text next (err e, caches) k f = record {
    coherent = f.coherent;
    right = λ e hit h. cc;
  }

  usable-items :
      (xs : Items) (values : List Json)
      → usable provider has_cache user_id (some (arr xs)) ≡ some values
      → items xs ≡ values
  usable-items xs values h = elim (Bool-cases (nat_eq (length (items xs)) provider.dimensions)) [
    | inl fits ↦ cc (rw fits at h)
    | inr other ↦ cc (rw other at h)
  ]

  nothing-Found :
      (text : String) (caches : Caches S) → Coherent caches → Found text (ok none, caches)
  nothing-Found text caches c = record { coherent = c; right = λ e h. cc }

  from_shared-Found :
      (text : String) (v : Json) (caches : Caches S)
      → Coherent caches
      → provider.get_json (key text) caches.shared ≡ ok (some v)
      → Found text (
          from_shared provider has_cache user_id
            (key text)
            caches
            (usable provider has_cache user_id (some v)))
  from_shared-Found text v caches c got =
      elim (Option-cases (usable provider has_cache user_id (some v))) [
        | inl unusable ↦ rw unusable (nothing-Found text caches c)
        | inr (values, is_usable) ↦
            rw is_usable (elim (Result-cases (floats provider has_cache user_id values)) [
              | inl (embedding, read) ↦
                  let p = c.shared_right (key text) v values embedding got is_usable read in
                  rw (from_shared, read)
                    (record {
                      coherent = remembered-Coherent (key text) embedding caches p c;
                      right = λ e h. let same : embedding ≡ e = cc in rw (← same) (p text refl);
                    })
              | inr (e, failed) ↦
                  rw (from_shared, failed) (record { coherent = c; right = λ e h. cc })
            ])
      ]

  ask_shared-Found :
      (text : String) (answer : Checked (Option Json)) (caches : Caches S)
      → Coherent caches
      → provider.get_json (key text) caches.shared ≡ answer
      → Found text (ask_shared provider has_cache user_id (key text) caches answer)
  ask_shared-Found text (ok none) caches c got = nothing-Found text caches c
  ask_shared-Found text (ok (some v)) caches c got = from_shared-Found text v caches c got
  ask_shared-Found text (err e) caches c got = record { coherent = c; right = λ e h. cc }

  shared-Found :
      (text : String) (caches : Caches S)
      → Coherent caches
      → Found text (shared_embedding provider has_cache user_id (key text) caches)
  shared-Found text caches c =
      if-both (Found text) has_cache _ _
        (ask_shared-Found text (provider.get_json (key text) caches.shared) caches c refl)
        (nothing-Found text caches c)

  cached_embedding-Found :
      (text : String) (caches : Caches S)
      → Coherent caches
      → Found text (cached_embedding provider has_cache user_id (key text) caches)
  unfolding cached_embedding process_embedding
  cached_embedding-Found text caches c = elim (Option-cases (lookup (key text) caches.process)) [
    | inr (v, found) ↦
        let p = All-lookup IsRight (key text) caches.process c.process_right found in
        rw found (record {
          coherent = record {
            process_right = All-move IsRight (key text) v caches.process p c.process_right;
            shared_right = c.shared_right;
          };
          right = λ e h. let same : v ≡ e = cc in rw (← same) (p text refl);
        })
    | inl missing ↦ rw missing (shared-Found text caches c)
  ]

  module _ (relies : Relies) where
    key-IsRight :
        (text : String) (e : List Json) → provider.embed_text text ≡ ok e → IsRight (key text, e)
    key-IsRight text e made other same =
        let prefix = key_prefix provider has_cache user_id in
        let equal : other ≡ text =
          relies.no_collision other text
            (append_cancel_left prefix (provider.sha256 other) (provider.sha256 text) same) in
        rw equal made

    set-IsRightStore :
        (text : String) (e : List Json) (s t : S)
        → provider.embed_text text ≡ ok e
        → IsRightStore s
        → provider.set_json (key text) e s ≡ ok t
        → IsRightStore t
    set-IsRightStore text e s t made right set k v values embedding got is_usable read =
        elim (relies.gives_back (key text) k e s t v set got) [
          | inr older ↦ right k v values embedding older is_usable read
          | inl (same_key, same_value) ↦
              let w : usable provider has_cache user_id (some (arr (of_items e))) ≡ some values =
                rw same_value at is_usable in
              let listed : e ≡ values =
                sym (items-of_items e) ∙ usable-items (of_items e) values w in
              let equal : e ≡ embedding = cc (relies.are_floats text e made, read, listed) in
              rw (same_key, ← equal) (key-IsRight text e made)
        ]

    share-Answered :
        (text : String) (e : List Json) (caches : Caches S) (shared : Checked S)
        → provider.embed_text text ≡ ok e
        → Coherent caches
        → provider.set_json (key text) e caches.shared ≡ shared
        → Answered text (share provider has_cache user_id e caches shared)
    share-Answered text e caches (ok t) made c set = record {
      coherent = record {
        process_right = c.process_right;
        shared_right = set-IsRightStore text e caches.shared t made c.shared_right set;
      };
      right = λ f hit h. let same : e ≡ f = cc in rw (← same) made;
    }
    share-Answered text e caches (err x) made c set = record { coherent = c; right = λ f hit h. cc }

    computed-Answered :
        (text : String) (caches : Caches S) (made : Checked (List Json))
        → Coherent caches
        → provider.embed_text text ≡ made
        → Answered text (computed provider has_cache user_id (key text) caches made)
    computed-Answered text caches (err x) c made = record { coherent = c; right = λ f hit h. cc }
    computed-Answered text caches (ok e) c made =
        let kept = remembered provider has_cache user_id (key text) e caches in
        let coherent = remembered-Coherent (key text) e caches (key-IsRight text e made) c in
        if-both (Answered text) has_cache _ _
          (share-Answered text e kept (provider.set_json (key text) e caches.shared) made coherent
            refl)
          (record {
            coherent = coherent;
            right = λ f hit h. let same : e ≡ f = cc in rw (← same) made;
          })

    in_flight-Answered :
        (text : String) (caches : Caches S)
        → Coherent caches
        → Answered text (in_flight provider has_cache user_id text caches)
    unfolding in_flight
    in_flight-Answered text caches c =
        or_continue-Answered text _ (cached_embedding provider has_cache user_id (key text) caches)
          (λ missed d. computed-Answered text missed (provider.embed_text text) d refl)
          (cached_embedding-Found text caches c)

    -- Where texts have different digests, the store gives back what was set in it and an embedding is a list
    -- of numbers: whatever the caches hold and the other tasks do to them meanwhile, as long as it is right, an
    -- embedding that is returned, found or not, is the one that the model gives for the normalized query, and
    -- what the caches hold afterwards is right, also where a call raises.
    pub query_embedding-Answered :
        (meanwhile : Caches S → Caches S)
        → ((c : Caches S) → Coherent c → Coherent (meanwhile c))
        → (query : String) (caches : Caches S) → Coherent caches
        → Answered
            (normalized provider has_cache user_id query)
            (query_embedding provider has_cache user_id meanwhile query caches)
    unfolding query_embedding
    query_embedding-Answered meanwhile stays query caches c =
        let text = normalized provider has_cache user_id query in
        or_continue-Answered text _ (cached_embedding provider has_cache user_id (key text) caches)
          (λ missed d. in_flight-Answered text (meanwhile missed) (stays missed d))
          (cached_embedding-Found text caches c)
