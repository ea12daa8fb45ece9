-- ===== src/Search/Embedding.antt =====
-- `_query_embedding_with_metadata` of app/retrieval/search.py.
use Prim.Native.String.{◌++◌ as ◌+++◌}
use agentic_google_workspace.Prelude.{
  ℕ, String, Bool, true, false, Option, none, some, List, [], ◌∷◌, if◌then◌else◌, length, nat_eq,
  ok, err, ◌>>=◌,
}
use agentic_google_workspace.Dict.{Dict}
use agentic_google_workspace.Json.{Json, arr, items}
use agentic_google_workspace.Text.{words, unwords, first_characters}
use agentic_google_workspace.Contracts.{Checked}
use agentic_google_workspace.Search.Cache.{
  max_process_embeddings, process_embedding, remember_process_embedding,
}

-- The model of embeddings, the functions of Python that the key is made with, and the calls of Redis, which
-- may raise: what it has under a key, and the store after a value is set.
pub record Provider (S : Type 0) : Type 0 where
  pub model_name : String
  pub dimensions : ℕ
  pub embed_text : String → Checked (List Json)
  pub casefold : String → String
  pub sha256 : String → String
  pub number : ℕ → String
  pub float_of : Json → Checked Json
  pub get_json : String → S → Checked (Option Json)
  pub set_json : String → List Json → S → Checked S

-- What the process keeps, and the store that it shares with others.
pub record Caches (S : Type 0) : Type 0 where
  pub process : Dict (List Json)
  pub shared : S

module _ {S : Type 0} (provider : Provider S) (has_cache : Bool) (user_id : String) where
  -- `" ".join(query.casefold().split())`
  unfoldable pub normalized : String → String
  normalized query = unwords (words (provider.casefold query))

  abbrev pub key_prefix : String
  key_prefix =
      "retrieval:embedding:"
      +++ (user_id
          +++ (":"
              +++ (first_characters 16 (provider.sha256 provider.model_name)
                  +++ (":" +++ (provider.number provider.dimensions +++ ":")))))

  abbrev pub cache_key : String → String
  cache_key text = key_prefix +++ provider.sha256 text

  -- `[float(value) for value in cached]`
  abbrev pub floats : List Json → Checked (List Json)
  floats [] = ok []
  floats (x ∷ xs) =
      let rest = floats xs in provider.float_of x >>= λ y. (rest >>= λ ys. ok (y ∷ ys))

  -- A list of the right length is taken as an embedding.
  abbrev pub usable : Option Json → Option (List Json)
  usable (some (arr xs)) =
      if nat_eq (length (items xs)) provider.dimensions then some (items xs) else none
  usable _ = none

  abbrev pub remembered : String → List Json → Caches S → Caches S
  remembered key embedding caches = record caches {
    process = remember_process_embedding max_process_embeddings key embedding caches.process;
  }

  abbrev pub from_shared :
      String → Caches S → Option (List Json) → Checked (Option (List Json)) × Caches S
  from_shared key caches none = (ok none, caches)
  from_shared key caches (some values) = elim (floats values) [
    | ok embedding ↦ (ok (some embedding), remembered key embedding caches)
    | err e ↦ (err e, caches)
  ]

  abbrev pub ask_shared :
      String → Caches S → Checked (Option Json) → Checked (Option (List Json)) × Caches S
  ask_shared key caches (ok answer) = from_shared key caches (usable answer)
  ask_shared key caches (err e) = (err e, caches)

  abbrev pub shared_embedding : String → Caches S → Checked (Option (List Json)) × Caches S
  shared_embedding key caches =
      if has_cache
      then ask_shared key caches (provider.get_json key caches.shared)
      else (ok none, caches)

  abbrev pub after_process :
      String
      → Caches S
      → Option (List Json) × Dict (List Json)
      → Checked (Option (List Json)) × Caches S
  after_process key caches (some embedding, kept) =
      (ok (some embedding), record caches { process = kept })
  after_process key caches (none, kept) = shared_embedding key (record caches { process = kept })

  -- The embedding that the process or the shared store has.
  unfoldable pub cached_embedding : String → Caches S → Checked (Option (List Json)) × Caches S
  unfolding process_embedding remember_process_embedding
  cached_embedding key caches = after_process key caches (process_embedding key caches.process)

  abbrev pub share : List Json → Caches S → Checked S → Checked (List Json × Bool) × Caches S
  share embedding caches (ok shared) = (ok (embedding, false), record caches { shared = shared })
  share embedding caches (err e) = (err e, caches)

  abbrev pub keep_new : String → List Json → Caches S → Checked (List Json × Bool) × Caches S
  keep_new key embedding caches =
      if has_cache
      then share embedding caches (provider.set_json key embedding caches.shared)
      else (ok (embedding, false), caches)

  abbrev pub computed :
      String → Caches S → Checked (List Json) → Checked (List Json × Bool) × Caches S
  computed key caches (ok embedding) = keep_new key embedding (remembered key embedding caches)
  computed key caches (err e) = (err e, caches)

  -- An embedding that was found is the answer; otherwise the next part of the function goes on.
  abbrev pub or_continue :
      (Caches S → Checked (List Json × Bool) × Caches S)
      → Checked (Option (List Json)) × Caches S
      → Checked (List Json × Bool) × Caches S
  or_continue next (ok (some embedding), caches) = (ok (embedding, true), caches)
  or_continue next (ok none, caches) = next caches
  or_continue next (err e, caches) = (err e, caches)

  -- What is done while the lock of the key is held.
  unfoldable pub in_flight : String → Caches S → Checked (List Json × Bool) × Caches S
  unfolding cached_embedding
  in_flight text caches =
      or_continue (λ missed. computed (cache_key text) missed (provider.embed_text text))
        (cached_embedding (cache_key text) caches)

  -- The other tasks may change the caches while this one waits for the lock.
  unfoldable pub query_embedding :
      (Caches S → Caches S) → String → Caches S → Checked (List Json × Bool) × Caches S
  unfolding in_flight normalized
  query_embedding meanwhile query caches =
      let text = normalized query in
      or_continue (λ missed. in_flight text (meanwhile missed))
        (cached_embedding (cache_key text) caches)
