-- ===== src/Patterns/Tests.antt =====
-- Searches in requests with the letters of ASCII.
use Prim.Native.Char.{code}
use agentic_google_workspace.Prelude.{◌≡◌, refl, true, false, ◌&&◌, [], ◌∷◌, leb}
use agentic_google_workspace.Text.{is_space, is_white_space}
use agentic_google_workspace.Patterns.{
  Letters, after, begins, has_word, begins_pair, skip_spaces, begins_near, search,
}

-- Without a table of cases, a letter is only the same as itself.
abbrev letters : Letters
letters = record { fold = λ c. c; is_alphanumeric = λ c. leb b'a' (code c) && leb (code c) b'z' }

found_word : has_word letters ("email" ∷ "emails" ∷ []) "find my emails, please" ≡ true
unfolding has_word begins after
found_word = refl

part_of_word : has_word letters ("draft" ∷ []) "the drafts" ≡ false
unfolding has_word begins after
part_of_word = refl

found_meet : search letters (begins_pair letters "google" "meet") "with a google  meet" ≡ true
unfolding begins_pair begins after skip_spaces is_space is_white_space
found_meet = refl

found_next :
    search letters (begins_near letters ("next" ∷ []) ("meeting" ∷ [])) "my next team meeting"
    ≡ true
unfolding begins_near begins after
found_next = refl

comma_between :
    search letters (begins_near letters ("next" ∷ []) ("meeting" ∷ [])) "next, a meeting" ≡ false
unfolding begins_near begins after
comma_between = refl
