-- ===== src/Sync.antt =====
-- app/sync/service.py: how a service is copied into the index, and the state that is kept of it.
pub mod Paging
pub mod Recovery
mod History
mod Tests
use agentic_google_workspace.Prelude.{
  ℕ, zero, suc, ◌-◌, String, Bool, true, false, Option, none, some, List, [], ◌∷◌, ◌++◌,
  if◌then◌else◌, Result, ok, err, leb,
}
use agentic_google_workspace.Json.{Json}
use agentic_google_workspace.Specs.Values.{Moment, aware, naive}

pub record SyncRow : Type 0 where
  pub status : String
  pub sync_cursor : Option String
  pub last_successful_sync : Option Moment
  pub last_attempted_sync : Option Moment
  pub error_type : Option String

-- The row of the service, which is there, and the log of the items that were indexed.
pub record Store : Type 0 where
  pub row : SyncRow
  pub indexed : List Json

-- What the transaction sees, and what is committed.
pub record Session : Type 0 where
  pub current : Store
  pub committed : Store

abbrev pub commit : Session → Session
commit s = record s { committed = s.current }

abbrev pub rollback : Session → Session
rollback s = record s { current = s.committed }

-- One answer of a service: its items, and the token of the next page, which is no empty text, if there
-- is one.
pub record Page : Type 0 where
  pub found : List Json
  pub next_page_token : Option String

-- The way to the end of a download: its count, the token and the log of the items; an exception with the
-- name of its class, and the items that were indexed before it.
pub data Download : Type 0 where
  done : ℕ → Option String → List Json → Download
  failed : String → List Json → Download
  unfinished : Download

-- What the code takes from the service and the indexer: a page of at most so many items, from a
-- token on, and whether an item can be indexed; both may raise. The class of the exception has a name.
pub record Source : Type 0 where
  pub pages : ℕ → Option String → Option Page
  pub is_indexable : Json → Bool
  pub error_name : String

abbrev pub smaller : ℕ → ℕ → ℕ
smaller a b = if leb a b then a else b

module _ (source : Source) where
  -- The `for` loop over a page: where an item raises, those before it.
  abbrev pub index_items : ℕ → ℕ → List Json → List Json → Result (List Json) (ℕ × List Json)
  index_items maximum count [] indexed = ok (count, indexed)
  index_items maximum count (x ∷ xs) indexed =
      let rest = index_items maximum (suc count) xs (indexed ++ x ∷ []) in
      if source.is_indexable x
      then (if leb maximum (suc count) then ok (suc count, indexed ++ x ∷ []) else rest)
      else err indexed

  -- The end of a round: `if not page_token or count >= maximum: break`, and the test of the loop.
  abbrev pub turn :
      (ℕ → Option String → List Json → Download)
      → ℕ
      → Option String
      → Result (List Json) (ℕ × List Json)
      → Download
  turn next maximum token (err indexed) = failed source.error_name indexed
  turn next maximum none (ok (count, indexed)) = done count none indexed
  turn next maximum (some token) (ok (count, indexed)) =
      if leb maximum count then done count (some token) indexed else next count (some token) indexed

  abbrev pub round :
      (ℕ → Option String → List Json → Download) → ℕ → ℕ → List Json → Option Page → Download
  round next maximum count indexed none = failed source.error_name indexed
  round next maximum count indexed (some page) =
      turn next maximum page.next_page_token (index_items maximum count page.found indexed)

  -- The loop of `_sync_gmail` and of `_sync_drive`, inside `while count < maximum`.
  unfoldable pub sync_pages : ℕ → ℕ → ℕ → Option String → List Json → Download
  sync_pages zero maximum count token indexed = unfinished
  sync_pages (suc fuel) maximum count token indexed =
      round (sync_pages fuel maximum) maximum count indexed
        (source.pages (smaller 100 (maximum - count)) token)

  -- The whole loop, with its first test.
  abbrev pub sync_bounded : ℕ → ℕ → List Json → Download
  sync_bounded fuel maximum indexed =
      if leb maximum 0 then done 0 none indexed else sync_pages fuel maximum 0 none indexed

  abbrev pub index_all : ℕ → List Json → List Json → Result (List Json) (ℕ × List Json)
  index_all count [] indexed = ok (count, indexed)
  index_all count (x ∷ xs) indexed =
      let rest = index_all (suc count) xs (indexed ++ x ∷ []) in
      if source.is_indexable x then rest else err indexed

  abbrev pub calendar_turn :
      (ℕ → Option String → List Json → Download)
      → Option String
      → Result (List Json) (ℕ × List Json)
      → Download
  calendar_turn next token (err indexed) = failed source.error_name indexed
  calendar_turn next none (ok (count, indexed)) = done count none indexed
  calendar_turn next (some token) (ok (count, indexed)) = next count (some token) indexed

  abbrev pub calendar_round :
      (ℕ → Option String → List Json → Download) → ℕ → List Json → Option Page → Download
  calendar_round next count indexed none = failed source.error_name indexed
  calendar_round next count indexed (some page) =
      calendar_turn next page.next_page_token (index_all count page.found indexed)

  -- The loop of `_sync_calendar`, which has no bound.
  unfoldable pub sync_calendar : ℕ → ℕ → Option String → List Json → Download
  sync_calendar zero count token indexed = unfinished
  sync_calendar (suc fuel) count token indexed =
      calendar_round (sync_calendar fuel) count indexed (source.pages 250 token)

-- `previous_success`, which has to carry a time zone.
abbrev pub previous_success : Option Moment → Option Moment
previous_success (some (aware t)) = some (aware t)
previous_success _ = none

-- The first transaction of `sync_service`.
abbrev pub start : Moment → Session → Session
start now s = commit (record s {
  current = record s.current {
    row = record s.current.row {
      status = "running";
      last_attempted_sync = some now;
      error_type = none;
    };
  };
})

-- The `try` block, and its handler.
abbrev pub finish : Moment → Download → Session → Session
finish now (done count cursor indexed) s = commit (record s {
  current = record {
    row = record s.current.row {
      status = "completed";
      sync_cursor = cursor;
      last_successful_sync = some now;
      error_type = none;
    };
    indexed = indexed;
  };
})
finish now (failed name indexed) s =
    let r = rollback (record s { current = record s.current { indexed = indexed } }) in
    commit (record r {
      current = record r.current {
        row = record r.current.row { status = "failed"; error_type = some name };
      };
    })
finish now unfinished s = s

-- `sync_service`, where the download starts from the last success and the items that are indexed.
unfoldable pub sync_service :
    Moment → Moment → (Option Moment → List Json → Download) → Session → Session
sync_service begun ended download s =
    let running = start begun s in
    finish ended
      (download (previous_success s.current.row.last_successful_sync) running.current.indexed)
      running
