-- ===== src/Approvals/Once.antt =====
-- What the endpoints of app/api/routes/approvals.py do to an approval that is decided.
use agentic_google_workspace.Prelude.{ℕ, String, ◌≡◌, refl, some, List, ok, err, arith, ap}
use agentic_google_workspace.Contracts.{http_error, Checked}
use agentic_google_workspace.Registry.{AgentRegistry}
use agentic_google_workspace.Database.{Rows, ActionApproval, rollback}
use agentic_google_workspace.Executor.{World, Action}
use agentic_google_workspace.Executor.Monad.{pure, lift, write, ◌>>=◌}
use agentic_google_workspace.Executor.Ensures.{OnSuccess, OnSuccess-bind}
use agentic_google_workspace.Approvals.{
  StoredAction, find_approval, pending_approval, refresh_execution_status,
}
use agentic_google_workspace.Approvals.Decide.{
  ApprovalResponse, read, commit_all, decided_status, executed_rows, rejected_rows, execute_stored,
  approve_action, reject_action, finish, request,
}
use agentic_google_workspace.Approvals.Laws.{
  Decision, approve, reject, IsDecided, set_approval-decides, decided_status-ne, Anything, respond,
  run, run-keeps,
}

module _ (registry : AgentRegistry) (id_text : ℕ → String) where
  module _ (id u : ℕ) where
    pending-refused :
        (rows : Rows)
        → IsDecided id u rows
        → pending_approval id u rows ≡ err (http_error 409 "Approval is no longer pending")
    unfolding pending_approval
    pending-refused rows h = ground arith

    -- The rows of the transaction are these.
    abbrev RowsAre : Rows → World → Type 0
    RowsAre rows w = w.session.current ≡ rows

    abbrev Done : World → Type 0
    Done w = IsDecided id u w.session.committed

    pending-found :
        (rows : Rows) (r : Checked ActionApproval) {a : ActionApproval}
        → r ≡ pending_approval id u rows
        → r ≡ ok a
        → find_approval id u rows.approvals ≡ some a
    unfolding pending_approval
    pending-found rows r e h = ground arith

    pending-OnSuccess :
        (rows : Rows)
        → OnSuccess
            (RowsAre rows)
            (λ a. find_approval id u rows.approvals ≡ some a)
            (RowsAre rows)
            (read (pending_approval id u))
    unfolding read
    pending-OnSuccess rows = record {
      at = λ w p a h. (pending-found rows (pending_approval id u w.session.current) (rw p) h, p);
    }

    same-OnSuccess :
        {A : Type 0} (rows : Rows) (f : Rows → Checked A)
        → OnSuccess (RowsAre rows) Anything (RowsAre rows) (read f)
    unfolding read
    same-OnSuccess rows f = record { at = λ w p a h. (tt, p) }

    lift-OnSuccess :
        {A : Type 0} (rows : Rows) (m : Checked A)
        → OnSuccess (RowsAre rows) Anything (RowsAre rows) (lift m)
    unfolding ◌>>=◌
    lift-OnSuccess rows m = record { at = λ w p a h. (tt, p) }

    stored-OnSuccess :
        (rows : Rows) (a : StoredAction)
        → OnSuccess (RowsAre rows) Anything (RowsAre rows) (execute_stored registry id_text a)
    unfolding execute_stored
    stored-OnSuccess rows a = record { at = λ w p r h. (tt, p) }

    write-OnSuccess :
        (rows : Rows) (f : Rows → Rows)
        → OnSuccess (RowsAre rows) Anything (RowsAre (f rows)) (write f)
    unfolding ◌>>=◌
    write-OnSuccess rows f = record { at = λ w p a h. (tt, ap f p) }

    -- The commit and the response, after the row is decided.
    end-OnSuccess :
        (rows : Rows) (resp : ApprovalResponse)
        → IsDecided id u rows
        → OnSuccess (RowsAre rows) Anything Done (commit_all >>= λ t. pure resp)
    unfolding commit_all ◌>>=◌
    end-OnSuccess rows resp d = record { at = λ w p a h. (tt, rw p d) }

    approve-OnSuccess :
        (rows : Rows)
        → OnSuccess (RowsAre rows) Anything Done (approve_action registry id_text id u)
    unfolding approve_action refresh_execution_status
    approve-OnSuccess rows =
        OnSuccess-bind (λ a. find_approval id u rows.approvals ≡ some a) Anything (RowsAre rows) _ _
          (pending-OnSuccess rows)
          λ a found.
            OnSuccess-bind Anything Anything (RowsAre rows) _ _ (lift-OnSuccess rows _) λ stored q.
              OnSuccess-bind Anything Anything (RowsAre rows) _ _ (lift-OnSuccess rows _) λ t q.
                OnSuccess-bind Anything Anything (RowsAre rows) _ _ (stored-OnSuccess rows stored)
                  λ r q.
                    OnSuccess-bind Anything Anything (RowsAre rows) _ _ (same-OnSuccess rows _)
                      λ t q.
                        OnSuccess-bind Anything Anything
                          (RowsAre (executed_rows id_text a r u rows)) _ _ (write-OnSuccess rows _)
                          λ t q. end-OnSuccess (executed_rows id_text a r u rows) _ (
                            set_approval-decides id u a (decided_status r) rows.approvals
                              (decided_status-ne r) found)

    reject-OnSuccess :
        (rows : Rows) → OnSuccess (RowsAre rows) Anything Done (reject_action registry id_text id u)
    unfolding reject_action
    reject-OnSuccess rows =
        OnSuccess-bind (λ a. find_approval id u rows.approvals ≡ some a) Anything (RowsAre rows) _ _
          (pending-OnSuccess rows)
          λ a found.
            OnSuccess-bind Anything Anything (RowsAre rows) _ _ (same-OnSuccess rows _) λ t q.
              OnSuccess-bind Anything Anything (RowsAre (rejected_rows id_text a u rows)) _ _
                (write-OnSuccess rows _)
                λ t q.
                  end-OnSuccess (rejected_rows id_text a u rows) _
                    (set_approval-decides id u a "rejected" rows.approvals refl found)

    finish-ok :
        {A : Type 0} (r : Checked A) (v : World) {a : A}
        → ((x : A) → r ≡ ok x → Done v)
        → (finish r v).0 ≡ ok a
        → Done (finish r v).1
    finish-ok (ok x) v k h = k x refl
    finish-ok (err e) v k h = cc

    request-Done :
        {A : Type 0} (m : Action A) (w : World) {a : A}
        → OnSuccess (RowsAre w.session.committed) Anything Done m
        → (request m w).0 ≡ ok a
        → Done (request m w).1
    unfolding request
    request-Done m w k h =
        let v = record w { session = rollback w.session } in
        finish-ok (m v).0 (m v).1 (λ x e. (k.at v refl x e).1) h

-- The approval and the user of a request.
abbrev pub target : Decision → ℕ × ℕ
target (approve id u) = (id, u)
target (reject id u) = (id, u)

-- The answer to a request on an approval that is decided: no agent is called, and nothing is committed.
abbrev pub no_longer_pending : World → Checked ApprovalResponse × World
no_longer_pending w = (
  err (http_error 409 "Approval is no longer pending"),
  record w { session = rollback w.session },
)

module _ (registry : AgentRegistry) (id_text : ℕ → String) where
  approve-refused :
      (id u : ℕ) (w : World)
      → IsDecided id u w.session.committed
      → respond registry id_text (approve id u) w ≡ no_longer_pending w
  unfolding respond request approve_action read ◌>>=◌
  approve-refused id u w h = rw (pending-refused registry id_text id u w.session.committed h)

  reject-refused :
      (id u : ℕ) (w : World)
      → IsDecided id u w.session.committed
      → respond registry id_text (reject id u) w ≡ no_longer_pending w
  unfolding respond request reject_action read ◌>>=◌
  reject-refused id u w h = rw (pending-refused registry id_text id u w.session.committed h)

  respond-Done :
      (d : Decision) (w : World) {resp : ApprovalResponse}
      → (respond registry id_text d w).0 ≡ ok resp
      → IsDecided (target d).0 (target d).1 (respond registry id_text d w).1.session.committed
  unfolding respond
  respond-Done (approve id u) w h =
      request-Done registry id_text id u _ w
        (approve-OnSuccess registry id_text id u w.session.committed) h
  respond-Done (reject id u) w h =
      request-Done registry id_text id u _ w
        (reject-OnSuccess registry id_text id u w.session.committed) h

  decided-refused :
      (d : Decision) (w : World)
      → IsDecided (target d).0 (target d).1 w.session.committed
      → respond registry id_text d w ≡ no_longer_pending w
  decided-refused (approve id u) w h = approve-refused id u w h
  decided-refused (reject id u) w h = reject-refused id u w h

-- After a request on an approval succeeds, whatever requests follow it, a further one on the same
-- approval by the same user, to approve or to reject, is answered with the status 409, calls no agent and commits
-- nothing.
pub respond-once :
    (registry : AgentRegistry) (id_text : ℕ → String) (first again : Decision)
    (between : List Decision) (w : World) {resp : ApprovalResponse}
    → target again ≡ target first
    → (respond registry id_text first w).0 ≡ ok resp
    → let v = run registry id_text between (respond registry id_text first w).1 in
      respond registry id_text again v ≡ no_longer_pending v
respond-once registry id_text first again between w same success =
    decided-refused registry id_text again
      (run registry id_text between (respond registry id_text first w).1)
      (run-keeps registry id_text (target again).0 (target again).1 between _
        (rw same (respond-Done registry id_text first w success)))
