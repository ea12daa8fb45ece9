-- ===== src/Sync/Recovery.antt =====
-- What a synchronization of app/sync/service.py leaves behind.
use agentic_google_workspace.Prelude.{ℕ, String, ◌≡◌, ◌≢◌, refl, Option, none, some, List}
use agentic_google_workspace.Json.{Json}
use agentic_google_workspace.Specs.Values.{Moment}
use agentic_google_workspace.Sync.{
  Session, Store, Download, done, failed, unfinished, previous_success, start, finish, sync_service,
}

-- The row says completed, with the cursor and the time of the end, and the items are in the index.
pub record Completed (begun ended : Moment) (cursor : Option String) (indexed : List Json)
    (after : Store) : Type 0 where
  pub status : after.row.status ≡ "completed"
  pub sync_cursor : after.row.sync_cursor ≡ cursor
  pub last_successful_sync : after.row.last_successful_sync ≡ some ended
  pub last_attempted_sync : after.row.last_attempted_sync ≡ some begun
  pub error_type : after.row.error_type ≡ none
  pub all_indexed : after.indexed ≡ indexed

-- The row says failed, with the name of the exception; the rest of it is as it was before, but for the
-- time of the attempt, and so is the index.
pub record Failed (begun : Moment) (name : String) (before after : Store) : Type 0 where
  pub status : after.row.status ≡ "failed"
  pub sync_cursor : after.row.sync_cursor ≡ before.row.sync_cursor
  pub last_successful_sync : after.row.last_successful_sync ≡ before.row.last_successful_sync
  pub last_attempted_sync : after.row.last_attempted_sync ≡ some begun
  pub error_type : after.row.error_type ≡ some name
  pub nothing_indexed : after.indexed ≡ before.indexed

-- What is committed after a download that ended in this way.
pub data Settled (begun ended : Moment) (before after : Store) : Download → Type 0 where
  completed :
      (count : ℕ) (cursor : Option String) (indexed : List Json)
      → Completed begun ended cursor indexed after
      → Settled begun ended before after (done count cursor indexed)
  rolled_back :
      (name : String) (indexed : List Json)
      → Failed begun name before after
      → Settled begun ended before after (failed name indexed)

finish-Settled :
    (begun ended : Moment) (download : Download) (s : Session)
    → download ≢ unfinished
    → Settled begun ended s.current (finish ended download (start begun s)).committed download
finish-Settled begun ended (done count cursor indexed) s h =
    completed count cursor indexed (record {
      status = refl;
      sync_cursor = refl;
      last_successful_sync = refl;
      last_attempted_sync = refl;
      error_type = refl;
      all_indexed = refl;
    })
finish-Settled begun ended (failed name indexed) s h = rolled_back name indexed (record {
  status = refl;
  sync_cursor = refl;
  last_successful_sync = refl;
  last_attempted_sync = refl;
  error_type = refl;
  nothing_indexed = refl;
})
finish-Settled begun ended unfinished s h = absurd (h refl)

-- Where the download comes to an end, what is committed is told by that end. A download that is done is
-- committed as completed, with its cursor, its items and the time of the end; one that raised is committed
-- as failed with the name of the exception, and has indexed nothing: the cursor, the last success and the
-- index are those from before. Neither leaves the row at running.
pub sync_service-recovers :
    (begun ended : Moment) (download : Option Moment → List Json → Download) (s : Session)
    → download (previous_success s.current.row.last_successful_sync) s.current.indexed ≢ unfinished
    → Settled begun ended s.current
        (sync_service begun ended download s).committed
        (download (previous_success s.current.row.last_successful_sync) s.current.indexed)
unfolding sync_service
sync_service-recovers begun ended download s h =
    finish-Settled begun ended
      (download (previous_success s.current.row.last_successful_sync) s.current.indexed) s h
