-- ===== src/Patterns.antt =====
-- The regular expressions that app/orchestration/planner.py and classifier.py search a request with.
-- Each begins at a word boundary, with the letters of any case.
mod Tests
use Prim.Native.Char.{Char, code}
use agentic_google_workspace.Prelude.{
  ℕ, zero, suc, String, Bool, true, false, not, ◌&&◌, ◌||◌, Option, none, some, List, [], ◌∷◌, any,
  nat_eq,
}
use agentic_google_workspace.Text.{is_space}

-- The tables of Python's `re`: the case that IGNORECASE compares by, and the letters and digits of `\w`.
pub record Letters : Type 0 where
  pub fold : Char → Char
  pub is_alphanumeric : Char → Bool

abbrev pub or_space : Bool → String → String → String
or_space true rest text = rest
or_space false rest text = text

-- `\s*` in front of what is no white space: it takes all of it.
unfoldable pub skip_spaces : String → String
unfolding is_space
skip_spaces String.[] = String.[]
skip_spaces (String.◌∷◌ c s) = or_space (is_space (code c)) (skip_spaces s) (String.◌∷◌ c s)

-- `[^\n,.!?]`
abbrev pub is_gap : Char → Bool
is_gap c = not (
    nat_eq (code c) 10
    || nat_eq (code c) b','
    || nat_eq (code c) b'.'
    || nat_eq (code c) b'!'
    || nat_eq (code c) b'?')

module _ (letters : Letters) where
  abbrev pub is_word : Char → Bool
  is_word c = nat_eq (code c) b'_' || letters.is_alphanumeric c

  abbrev same_letter : Char → Char → Bool
  same_letter c d = nat_eq (code (letters.fold c)) (code (letters.fold d))

  abbrev if_same : Bool → Option String → Option String
  if_same true rest = rest
  if_same false rest = none

  -- What is left of the text behind the letters.
  unfoldable pub after : String → String → Option String
  after String.[] text = some text
  after (String.◌∷◌ c s) String.[] = none
  after (String.◌∷◌ c s) (String.◌∷◌ d t) = if_same (same_letter c d) (after s t)

  -- `\b` behind a letter
  abbrev pub is_boundary : String → Bool
  is_boundary String.[] = true
  is_boundary (String.◌∷◌ c s) = not (is_word c)

  abbrev ends_word : Option String → Bool
  ends_word none = false
  ends_word (some rest) = is_boundary rest

  -- `(?:a|b|…)\b`
  unfoldable pub begins : List String → String → Bool
  unfolding after
  begins words text = any (λ word. ends_word (after word text)) words

  -- `re.search(r"\b…")`: `found` is the rest of the pattern, which begins with a letter.
  abbrev pub search_from : (String → Bool) → Bool → String → Bool
  search_from found inside String.[] = false
  search_from found inside (String.◌∷◌ c s) =
      (not inside && found (String.◌∷◌ c s)) || search_from found (is_word c) s

  abbrev pub search : (String → Bool) → String → Bool
  search found = search_from found false

  -- `\b(?:a|b|…)\b`
  unfoldable pub has_word : List String → String → Bool
  unfolding begins
  has_word words = search (begins words)

  abbrev spaced : String → Bool → Option String → Bool
  spaced second true (some rest) = begins (second ∷ []) (skip_spaces rest)
  spaced second _ _ = false

  abbrev starts_space : Option String → Bool
  unfolding is_space
  starts_space (some (String.◌∷◌ c s)) = is_space (code c)
  starts_space _ = false

  -- `a\s+b\b`
  unfoldable pub begins_pair : String → String → String → Bool
  unfolding after begins skip_spaces starts_space
  begins_pair first second text = spaced second (starts_space (after first text)) (after first text)

  -- `[^\n,.!?]{0,n}\b(?:a|b|…)\b`
  abbrev pub within : ℕ → List String → Bool → String → Bool
  within n words inside String.[] = false
  within zero words inside (String.◌∷◌ c s) = not inside && begins words (String.◌∷◌ c s)
  within (suc n) words inside (String.◌∷◌ c s) =
      (not inside && begins words (String.◌∷◌ c s)) || (is_gap c && within n words (is_word c) s)

  abbrev followed : List String → Option String → Bool
  followed nouns none = false
  followed nouns (some rest) = is_boundary rest && within 160 nouns true rest

  unfoldable pub begins_near : List String → List String → String → Bool
  unfolding after begins
  begins_near words nouns text = any (λ word. followed nouns (after word text)) words
