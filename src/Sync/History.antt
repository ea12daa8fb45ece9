-- ===== src/Sync/History.antt =====
-- A series of synchronizations of one service by app/sync/service.py.
use agentic_google_workspace.Prelude.{String, ◌≡◌, refl, Option, some, List, [], ◌∷◌, ◌∙◌, ap}
use agentic_google_workspace.Json.{Json}
use agentic_google_workspace.Specs.Values.{Moment}
use agentic_google_workspace.Sync.{
  Session, Store, Download, done, failed, unfinished, previous_success, start, finish, sync_service,
}

-- A synchronization: when it began and ended, and what came of its download.
pub record Run : Type 0 where
  pub begun : Moment
  pub ended : Moment
  pub download : Option Moment → List Json → Download

-- What a synchronization takes over from those before it, and the index.
pub record Kept : Type 0 where
  pub sync_cursor : Option String
  pub last_successful_sync : Option Moment
  pub indexed : List Json

abbrev pub kept_of : Store → Kept
kept_of store = record {
  sync_cursor = store.row.sync_cursor;
  last_successful_sync = store.row.last_successful_sync;
  indexed = store.indexed;
}

-- Only a download that is done leaves something.
abbrev after_download : Moment → Kept → Download → Kept
after_download ended kept (done count cursor indexed) = record {
  sync_cursor = cursor;
  last_successful_sync = some ended;
  indexed = indexed;
}
after_download ended kept (failed name indexed) = kept
after_download ended kept unfinished = kept

abbrev pub after_runs : List Run → Kept → Kept
after_runs [] kept = kept
after_runs (run ∷ runs) kept = after_runs runs (
    after_download run.ended kept
      (run.download (previous_success kept.last_successful_sync) kept.indexed))

abbrev pub sync_all : List Run → Session → Session
sync_all [] s = s
sync_all (run ∷ runs) s = sync_all runs (sync_service run.begun run.ended run.download s)

abbrev pub opened : Store → Session
opened store = record { current = store; committed = store }

finish-opened :
    (begun ended : Moment) (download : Download) (store : Store)
    → let s = finish ended download (start begun (opened store)) in
      (s ≡ opened s.committed)
      × (kept_of s.committed ≡ after_download ended (kept_of store) download)
finish-opened begun ended (done count cursor indexed) store = (refl, refl)
finish-opened begun ended (failed name indexed) store = (refl, refl)
finish-opened begun ended unfinished store = (refl, refl)

-- After any series of synchronizations of a service, what is committed has the cursor, the last success and
-- the index that the downloads that were done leave one after another. A download that raised or was cut off
-- has no part in it, whatever it had indexed: the next one starts from where that one started.
pub sync_all-kept :
    (runs : List Run) (store : Store)
    → kept_of (sync_all runs (opened store)).committed ≡ after_runs runs (kept_of store)
unfolding sync_service
sync_all-kept [] store = refl
sync_all-kept (run ∷ runs) store =
    let download = run.download (previous_success store.row.last_successful_sync) store.indexed in
    let next = finish run.ended download (start run.begun (opened store)) in
    let (closed, kept) = finish-opened run.begun run.ended download store in
    ap (λ s. kept_of (sync_all runs s).committed) closed
    ∙ sync_all-kept runs next.committed
    ∙ ap (after_runs runs) kept
