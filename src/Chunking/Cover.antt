-- ===== src/Chunking/Cover.antt =====
-- The chunks of app/retrieval/chunking.py make up the whole text.
use agentic_google_workspace.Prelude.{ℕ, ◌+◌, ◌/◌, ◌≤◌, ◌<◌, String, ◌≡◌, List, [], ◌∷◌, ◌⊎◌}
use agentic_google_workspace.Chunking.{size}

module _ (text : String) (target_size overlap : ℕ) (small : overlap < target_size / 2) where
  -- The spans go from `start` to the end of the text: each begins behind the start of the one before and not behind
  -- its end, and none is longer than the target.
  pub data IsCover : ℕ → List (ℕ × ℕ) → Type 0 where
    covers_rest :
        (start : ℕ)
        → start < size text target_size overlap
        → size text target_size overlap ≤ start + target_size
        → IsCover start ((start, size text target_size overlap) ∷ [])
    covers_and :
        (start finish next : ℕ) (more : List (ℕ × ℕ))
        → start < next
        → next ≤ finish
        → finish ≤ start + target_size
        → IsCover next more
        → IsCover start ((start, finish) ∷ more)

  -- The chunk has an end within the target, at the end of the text or half a target away.
  record IsEnd (start finish : ℕ) : Type 0 where
    above : start < finish
    near : finish ≤ start + target_size
    far : (finish ≡ size text target_size overlap) ⊎ (start + target_size / 2 ≤ finish)
    inside : finish ≤ size text target_size overlap
