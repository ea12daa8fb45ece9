-- ===== src/Chunking.antt =====
-- app/retrieval/chunking.py: a text is cut into chunks that overlap.
mod Cover
mod Tests
use Prim.Native.Char.{code}
use agentic_google_workspace.Prelude.{
  ℕ, zero, suc, ◌+◌, ◌-◌, ◌/◌, String, Bool, true, false, not, Option, none, some, List, [], ◌∷◌,
  ◌==◌, if◌then◌else◌, leb, ltb, nat_eq, ok, err, ◌>>=◌, ◌>>◌, guard,
}
use agentic_google_workspace.Text.{strip, words, unwords, first_characters, text_length}
use agentic_google_workspace.Contracts.{value_error, recursion_error, Checked}

abbrev pub space_at : String → ℕ → Bool
space_at String.[] i = false
space_at (String.◌∷◌ c s) zero = nat_eq (code c) 32
space_at (String.◌∷◌ c s) (suc i) = space_at s i

-- `text.find(" ", low, low + n)`
abbrev pub find_space : String → ℕ → ℕ → Option ℕ
find_space text low zero = none
find_space text low (suc n) =
    let rest = find_space text (suc low) n in if space_at text low then some low else rest

-- `text.rfind(" ", low, low + n)`
abbrev pub rfind_space : String → ℕ → ℕ → Option ℕ
rfind_space text low zero = none
rfind_space text low (suc n) =
    let rest = rfind_space text low n in if space_at text (low + n) then some (low + n) else rest

abbrev pub drop_characters : ℕ → String → String
drop_characters zero s = s
drop_characters (suc n) String.[] = String.[]
drop_characters (suc n) (String.◌∷◌ c s) = drop_characters n s

-- `text[start:end]`
abbrev pub slice : String → ℕ → ℕ → String
slice text start finish = first_characters (finish - start) (drop_characters start text)

module _ (text : String) (target_size overlap : ℕ) where
  abbrev pub size : ℕ
  size = text_length text

  abbrev pub at_boundary : ℕ → Option ℕ → ℕ
  at_boundary start none = start + target_size
  at_boundary start (some boundary) = if ltb start boundary then boundary else start + target_size

  -- The end of the chunk that starts here.
  unfoldable pub chunk_end : ℕ → ℕ
  chunk_end start =
      if ltb (start + target_size) size
      then at_boundary start
          (rfind_space text (start + target_size / 2) (suc target_size - target_size / 2))
      else size

  abbrev pub behind : ℕ → Option ℕ → ℕ
  behind next none = next
  behind next (some boundary) = suc boundary

  -- The start of the chunk after one with this end.
  unfoldable pub next_start : ℕ → ℕ
  next_start finish =
      behind (finish - overlap) (find_space text (finish - overlap) (finish - (finish - overlap)))

  -- The `while` loop: where the chunks start and end.
  unfoldable pub spans : ℕ → ℕ → Checked (List (ℕ × ℕ))
  unfolding chunk_end next_start
  spans zero start = if ltb start size then err recursion_error else ok []
  spans (suc fuel) start =
      let finish = chunk_end start in
      let rest = spans fuel (next_start finish) in
      if ltb start size
      then (if nat_eq finish size
          then ok ((start, finish) ∷ [])
          else (rest >>= λ more. ok ((start, finish) ∷ more)))
      else ok []

  abbrev pub chunks_of : List (ℕ × ℕ) → List String
  chunks_of [] = []
  chunks_of ((start, finish) ∷ more) = strip (slice text start finish) ∷ chunks_of more

  -- Where each chunk starts behind the one before, there are not more than the text has characters.
  abbrev pub cut : Checked (List String)
  cut = spans size 0 >>= λ found. ok (chunks_of found)

abbrev pub cleaned : String → String
cleaned text = unwords (words text)

unfoldable pub chunk_text : String → ℕ → ℕ → Checked (List String)
unfolding spans strip words
chunk_text text target_size overlap =
    let clean = cleaned text in
    if clean == ""
    then ok []
    else guard (leb 200 target_size) (value_error "target_size must be at least 200")
      >> guard (ltb overlap target_size)
          (value_error "overlap must be non-negative and smaller than target_size")
      >> (if leb (text_length clean) target_size
          then ok (clean ∷ [])
          else cut clean target_size overlap)
