-- ===== src/Chunking/Tests.antt =====
-- A text of 251 letters with one space, cut at 200.
use agentic_google_workspace.Prelude.{ℕ, zero, suc, String, ◌≡◌, refl, err}
use agentic_google_workspace.Contracts.{recursion_error}
use agentic_google_workspace.Chunking.{chunk_end, next_start, spans}

abbrev letters_before : ℕ → String → String
letters_before zero s = s
letters_before (suc n) s = String.◌∷◌ "a" (letters_before n s)

abbrev sample : String
sample = letters_before 100 (String.◌∷◌ " " (letters_before 150 ""))

-- With an overlap of 150 the second chunk would start where the first one does.
stays : next_start sample 200 150 (chunk_end sample 200 150 0) ≡ 0
unfolding chunk_end next_start
stays = refl

never_ends : spans sample 200 150 300 0 ≡ err recursion_error
unfolding spans chunk_end next_start
never_ends = refl
