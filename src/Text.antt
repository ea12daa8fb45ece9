-- ===== src/Text.antt =====
-- What the program uses of Python's `str`: white space, `strip`, and the pattern of an identifier.
use Prim.Native.Char.{Char, code}
use Prim.Native.String.{◌++◌ as ◌+++◌}
use agentic_google_workspace.Prelude.{
  zero, suc, not, ◌≤◌, arith, Bool-cases, inl, inr, List, [], ◌∷◌, ℕ, String, ◌≡◌, refl, Bool, true,
  false, ◌&&◌, ◌||◌, leb, nat_eq, if◌then◌else◌, ◌==◌,
}

abbrev in_range : ℕ → ℕ → ℕ → Bool
in_range lo hi n = leb lo n && leb n hi

-- Unicode's White_Space, which a model's `strip_whitespace` removes.
unfoldable pub is_white_space : ℕ → Bool
is_white_space n =
    in_range 9 13 n
    || nat_eq n 32
    || nat_eq n 0x85
    || nat_eq n 0xa0
    || nat_eq n 0x1680
    || in_range 0x2000 0x200a n
    || in_range 0x2028 0x2029 n
    || nat_eq n 0x202f
    || nat_eq n 0x205f
    || nat_eq n 0x3000

-- `str.isspace` also holds of the four separators from 0x1c.
unfoldable pub is_space : ℕ → Bool
unfolding is_white_space
is_space n = is_white_space n || in_range 0x1c 0x1f n

module _ (space : ℕ → Bool) where
  abbrev trim_left : String → String
  trim_left String.[] = String.[]
  trim_left (String.◌∷◌ c s) = if space (code c) then trim_left s else String.◌∷◌ c s

  -- A character is dropped where nothing but white space follows it.
  abbrev keep_left : Char → String → String
  keep_left c String.[] = if space (code c) then String.[] else String.◌∷◌ c String.[]
  keep_left c (String.◌∷◌ d s) = String.◌∷◌ c (String.◌∷◌ d s)

  abbrev trim_right : String → String
  trim_right String.[] = String.[]
  trim_right (String.◌∷◌ c s) = keep_left c (trim_right s)

  abbrev trim : String → String
  trim s = trim_right (trim_left s)

-- `s.strip()`
unfoldable pub strip : String → String
unfolding is_space
strip = trim is_space

-- `StringConstraints(strip_whitespace=True)`
unfoldable pub strip_whitespace : String → String
unfolding is_white_space
strip_whitespace = trim is_white_space

-- The character begins a run, or goes on with the first one.
abbrev extend : Char → Bool → List String → List String
extend c true (run ∷ runs) = String.◌∷◌ c run ∷ runs
extend c _ runs = String.◌∷◌ c String.[] ∷ runs

abbrev starts : (Char → Bool) → String → Bool
starts p String.[] = false
starts p (String.◌∷◌ c s) = p c

-- The longest parts of the text whose characters all have the property.
abbrev pub runs_of : (Char → Bool) → String → List String
runs_of p String.[] = []
runs_of p (String.◌∷◌ c s) =
    let rest = runs_of p s in if p c then extend c (starts p s) rest else rest

-- `s.rstrip()`
unfoldable pub rstrip : String → String
unfolding is_space
rstrip = trim_right is_space

-- `s.split()`
unfoldable pub words : String → List String
unfolding is_space
words = runs_of (λ c. not (is_space (code c)))

-- `" ".join(xs)`
abbrev pub unwords : List String → String
unwords [] = ""
unwords (x ∷ []) = x
unwords (x ∷ xs) = x +++ (" " +++ unwords xs)

-- `len(s)`
abbrev pub text_length : String → ℕ
text_length String.[] = 0
text_length (String.◌∷◌ c s) = suc (text_length s)

-- `s[:n]`
abbrev pub first_characters : ℕ → String → String
first_characters zero s = String.[]
first_characters (suc n) String.[] = String.[]
first_characters (suc n) (String.◌∷◌ c s) = String.◌∷◌ c (first_characters n s)

-- `not s.strip()`
unfoldable pub is_blank : String → Bool
unfolding strip
is_blank s = strip s == ""

abbrev is_letter : ℕ → Bool
is_letter n = in_range 65 90 n || in_range 97 122 n

abbrev is_word : ℕ → Bool
is_word n = is_letter n || in_range 48 57 n || nat_eq n 95 || nat_eq n 45

abbrev all_word : String → Bool
all_word String.[] = true
all_word (String.◌∷◌ c s) = is_word (code c) && all_word s

-- `^[A-Za-z][A-Za-z0-9_-]*$`
unfoldable pub is_identifier : String → Bool
is_identifier String.[] = false
is_identifier (String.◌∷◌ c s) = is_letter (code c) && all_word s

strip_test : strip_whitespace "  calendar\t " ≡ "calendar"
unfolding strip_whitespace
strip_test = refl

identifier_test : is_identifier "step_1" ≡ true
unfolding is_identifier
identifier_test = refl

module _ (space : ℕ → Bool) where
  text_length-trim_left_le : (s : String) → text_length (trim_left space s) ≤ text_length s
  text_length-trim_left_le String.[] = omega arith
  text_length-trim_left_le (String.◌∷◌ c s) = ground (arith, text_length-trim_left_le s)

  text_length-keep_left_le :
      (c : Char) (s : String) → text_length (keep_left space c s) ≤ suc (text_length s)
  text_length-keep_left_le c String.[] = elim (Bool-cases (space (code c))) [
    | inl dropped ↦ rw dropped (omega arith)
    | inr kept ↦ rw kept (omega arith)
  ]
  text_length-keep_left_le c (String.◌∷◌ d s) = omega arith

  text_length-trim_right_le : (s : String) → text_length (trim_right space s) ≤ text_length s
  text_length-trim_right_le String.[] = omega arith
  text_length-trim_right_le (String.◌∷◌ c s) =
      omega (arith, text_length-keep_left_le c (trim_right space s), text_length-trim_right_le s)

pub text_length-strip_le : (s : String) → text_length (strip s) ≤ text_length s
unfolding strip
text_length-strip_le s = omega (
  arith,
  text_length-trim_right_le is_space (trim_left is_space s),
  text_length-trim_left_le is_space s,
)

pub text_length-first_characters_le : (n : ℕ) (s : String) → text_length (first_characters n s) ≤ n
text_length-first_characters_le zero s = omega arith
text_length-first_characters_le (suc n) String.[] = omega arith
text_length-first_characters_le (suc n) (String.◌∷◌ c s) =
    omega (arith, text_length-first_characters_le n s)
