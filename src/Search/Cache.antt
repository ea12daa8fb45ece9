-- ===== src/Search/Cache.antt =====
-- The embeddings of queries that a process keeps (app/retrieval/search.py).
use agentic_google_workspace.Prelude.{
  ℕ, String, Option, none, some, [], ◌∷◌, ◌++◌, if◌then◌else◌, ltb, length,
}
use agentic_google_workspace.Dict.{Dict, lookup, insert, erase}

-- `_MAX_PROCESS_EMBEDDINGS`
abbrev pub max_process_embeddings : ℕ
max_process_embeddings = 128

module _ {E : Type 0} where
  -- `d.move_to_end(k)`, where `v` is what `k` has
  abbrev pub move_to_end : String → E → Dict E → Dict E
  move_to_end k v d = erase k d ++ (k, v) ∷ []

  -- `while len(d) > …: d.popitem(last=False)`
  unfoldable pub drop_oldest : ℕ → Dict E → Dict E
  drop_oldest most [] = []
  drop_oldest most (entry ∷ d) =
      let rest = drop_oldest most d in if ltb most (length (entry ∷ d)) then rest else entry ∷ d

  abbrev found : String → Dict E → Option E → Option E × Dict E
  found k d none = (none, d)
  found k d (some v) = (some v, move_to_end k v d)

  -- `_process_embedding`: what is found is the latest entry then.
  unfoldable pub process_embedding : String → Dict E → Option E × Dict E
  process_embedding k d = found k d (lookup k d)

  -- `_remember_process_embedding`
  unfoldable pub remember_process_embedding : ℕ → String → E → Dict E → Dict E
  unfolding drop_oldest
  remember_process_embedding most k v d = drop_oldest most (move_to_end k v (insert k v d))
