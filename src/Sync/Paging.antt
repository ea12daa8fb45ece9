-- ===== src/Sync/Paging.antt =====
-- The loops over the pages of a service in app/sync/service.py.
use agentic_google_workspace.Prelude.{
  Result, ok, err, ℕ, zero, suc, ◌+◌, ◌-◌, ◌≤◌, ◌<◌, String, ◌≡◌, ◌≢◌, refl, Option, none, some,
  List, [], ◌∷◌, ◌++◌, leb, length, arith, Bool-cases, inl, inr,
}
use agentic_google_workspace.Json.{Json}
use agentic_google_workspace.Sync.{
  Page, Download, done, unfinished, Source, smaller, index_items, turn, round, sync_pages,
  sync_bounded,
}

-- A download that is done has indexed as many items as it counts, and at most the maximum.
abbrev pub Counted : ℕ → ℕ → Download → Type 0
Counted maximum before (done count token indexed) =
    (count ≤ maximum) × (length indexed ≡ before + count)
Counted maximum before _ = Unit

abbrev CountedItems : ℕ → ℕ → Result (List Json) (ℕ × List Json) → Type 0
CountedItems maximum before (err indexed) = Unit
CountedItems maximum before (ok (count, indexed)) =
    (count ≤ maximum) × (length indexed ≡ before + count)

length-snoc : (xs : List Json) (x : Json) → length (xs ++ x ∷ []) ≡ suc (length xs)
length-snoc [] x = refl
length-snoc (y ∷ xs) x = rw (length-snoc xs x) refl

module _ (source : Source) (maximum before : ℕ) where
  index_items-CountedItems :
      (count : ℕ) (xs indexed : List Json)
      → count < maximum
      → length indexed ≡ before + count
      → CountedItems maximum before (index_items source maximum count xs indexed)
  index_items-CountedItems count [] indexed h e = (omega arith, e)
  index_items-CountedItems count (x ∷ xs) indexed h e =
      let longer = length-snoc indexed x in
      elim (Bool-cases (source.is_indexable x)) [
        | inr raises ↦ rw raises tt
        | inl indexable ↦ elim (Bool-cases (leb maximum (suc count))) [
          | inl full ↦ rw (indexable, full) (omega arith, omega arith)
          | inr room ↦
              rw (indexable, room)
                (index_items-CountedItems (suc count) xs (indexed ++ x ∷ []) (ground arith)
                  (omega arith))
        ]
      ]

  turn-Counted :
      (next : ℕ → Option String → List Json → Download) (token : Option String)
      (found : Result (List Json) (ℕ × List Json))
      → ((count : ℕ) (t : Option String) (indexed : List Json)
          → count < maximum
          → length indexed ≡ before + count
          → Counted maximum before (next count t indexed))
      → CountedItems maximum before found
      → Counted maximum before (turn source next maximum token found)
  turn-Counted next token (err indexed) k h = tt
  turn-Counted next none (ok (count, indexed)) k h = h
  turn-Counted next (some token) (ok (count, indexed)) k h = elim (Bool-cases (leb maximum count)) [
    | inl full ↦ rw full h
    | inr room ↦ rw room (k count (some token) indexed (ground arith) h.1)
  ]

  round-Counted :
      (next : ℕ → Option String → List Json → Download) (count : ℕ) (indexed : List Json)
      (page : Option Page)
      → ((count : ℕ) (t : Option String) (indexed : List Json)
          → count < maximum
          → length indexed ≡ before + count
          → Counted maximum before (next count t indexed))
      → count < maximum
      → length indexed ≡ before + count
      → Counted maximum before (round source next maximum count indexed page)
  round-Counted next count indexed none k h e = tt
  round-Counted next count indexed (some page) k h e =
      turn-Counted next page.next_page_token _ k
        (index_items-CountedItems count page.found indexed h e)

  sync_pages-Counted :
      (fuel count : ℕ) (token : Option String) (indexed : List Json)
      → count < maximum
      → length indexed ≡ before + count
      → Counted maximum before (sync_pages source fuel maximum count token indexed)
  unfolding sync_pages
  sync_pages-Counted zero count token indexed h e = tt
  sync_pages-Counted (suc fuel) count token indexed h e =
      round-Counted (sync_pages source fuel maximum) count indexed
        (source.pages (smaller 100 (maximum - count)) token)
        (λ c t i. sync_pages-Counted fuel c t i) h e

-- A download of messages or of files that is done has added to the index as many items as it reports,
-- and no more than the maximum.
pub sync_bounded-Counted :
    (source : Source) (fuel maximum : ℕ) (indexed : List Json)
    → Counted maximum (length indexed) (sync_bounded source fuel maximum indexed)
sync_bounded-Counted source fuel maximum indexed = elim (Bool-cases (leb maximum 0)) [
  | inl none_wanted ↦ rw none_wanted (ground arith, omega arith)
  | inr wanted ↦ rw wanted (
      sync_pages-Counted source maximum (length indexed) fuel 0 none indexed (ground arith)
        (omega arith))
]

-- The answers of a service lead on to fewer and fewer pages.
abbrev pub IsFinite : Source → (Option String → ℕ) → Type 0
IsFinite source left =
    (n : ℕ) (token : Option String) (page : Page) (next : String)
    → source.pages n token ≡ some page
    → page.next_page_token ≡ some next
    → left (some next) < left token

module _ (source : Source) (left : Option String → ℕ) (finite : IsFinite source left)
    (maximum : ℕ) where
  turn-ends :
      (fuel count : ℕ) (token next : Option String) (found : Result (List Json) (ℕ × List Json))
      → ((c : ℕ) (t : String) (i : List Json)
          → next ≡ some t
          → sync_pages source fuel maximum c (some t) i ≢ unfinished)
      → turn source (sync_pages source fuel maximum) maximum next found ≢ unfinished
  turn-ends fuel count token next (err indexed) k h = cc
  turn-ends fuel count token none (ok (c, i)) k h = cc
  turn-ends fuel count token (some t) (ok (c, i)) k h = elim (Bool-cases (leb maximum c)) [
    | inl full ↦ cc (rw full at h)
    | inr room ↦ k c t i refl (rw room at h)
  ]

  round-ends :
      (fuel count : ℕ) (token : Option String) (indexed : List Json) (page : Option Page)
      → ((c : ℕ) (t : String) (i : List Json) (p : Page)
          → page ≡ some p
          → p.next_page_token ≡ some t
          → sync_pages source fuel maximum c (some t) i ≢ unfinished)
      → round source (sync_pages source fuel maximum) maximum count indexed page ≢ unfinished
  round-ends fuel count token indexed none k h = cc
  round-ends fuel count token indexed (some p) k h =
      turn-ends fuel count token p.next_page_token
        (index_items source maximum count p.found indexed) (λ c t i e. k c t i p refl e) h

  pub sync_pages-ends :
      (fuel count : ℕ) (token : Option String) (indexed : List Json)
      → left token < fuel
      → sync_pages source fuel maximum count token indexed ≢ unfinished
  unfolding sync_pages
  sync_pages-ends zero count token indexed l h = ground arith
  sync_pages-ends (suc fuel) count token indexed l h =
      let n = smaller 100 (maximum - count) in
      round-ends fuel count token indexed (source.pages n token)
        (λ c t i p e next.
          let fewer = finite n token p t e next in sync_pages-ends fuel c (some t) i (omega arith))
        h

-- Where the pages of a service come to an end, the download of messages or of files does: with more
-- rounds than there are pages left it is done, or has failed.
pub sync_bounded-ends :
    (source : Source) (left : Option String → ℕ) (fuel maximum : ℕ) (indexed : List Json)
    → IsFinite source left
    → left none < fuel
    → sync_bounded source fuel maximum indexed ≢ unfinished
sync_bounded-ends source left fuel maximum indexed finite enough h =
    elim (Bool-cases (leb maximum 0)) [
      | inl none_wanted ↦ cc (rw none_wanted at h)
      | inr wanted ↦
          sync_pages-ends source left finite maximum fuel 0 none indexed enough (rw wanted at h)
    ]
