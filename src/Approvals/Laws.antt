-- ===== src/Approvals/Laws.antt =====
-- A decision is made once: what the endpoints do to an approval that is decided.
use agentic_google_workspace.Prelude.{
  ℕ, String, ◌≡◌, refl, Bool, true, false, not, ◌&&◌, Option, none, some, List, [], ◌∷◌, ◌==◌,
  nat_eq, ok, err, arith, Bool-cases, inl, inr,
}
use agentic_google_workspace.Contracts.{status_eq, ExecutionStatus, AgentResult, Checked}
use agentic_google_workspace.Registry.{AgentRegistry}
use agentic_google_workspace.Database.{Rows, ActionApproval, rollback}
use agentic_google_workspace.Executor.{World, Action}
use agentic_google_workspace.Executor.Monad.{write, ◌>>=◌}
use agentic_google_workspace.Executor.Ensures.{
  Outcome, Ensures, Ensures-pure, Ensures-lift, Ensures-bind,
}
use agentic_google_workspace.Approvals.{
  StoredAction, find_approval, set_approval, refresh_execution_status,
}
use agentic_google_workspace.Approvals.Decide.{
  ApprovalResponse, read, commit_all, decided_status, executed_rows, execute_stored, approve_action,
  reject_action, finish, request,
}

-- A call of one of the two endpoints, by a user.
pub data Decision : Type 0 where
  approve : ℕ → ℕ → Decision
  reject : ℕ → ℕ → Decision

abbrev pub is_decided : Option ActionApproval → Bool
is_decided none = false
is_decided (some a) = not (a.status == "awaiting_approval")

-- The user's approval is there, and waits no more.
abbrev pub IsDecided : ℕ → ℕ → Rows → Type 0
IsDecided id u rows = is_decided (find_approval id u rows.approvals) ≡ true

pub set_approval-decided :
    (id u : ℕ) (a : ActionApproval) (status : String) (bs : List ActionApproval)
    → (status == "awaiting_approval") ≡ false
    → is_decided (find_approval id u bs) ≡ true
    → is_decided (find_approval id u (set_approval a status bs)) ≡ true
set_approval-decided id u a status [] h d = d
set_approval-decided id u a status (b ∷ bs) h d =
    ground (arith, set_approval-decided id u a status bs h)

found_ids :
    (id u : ℕ) (a : ActionApproval) (bs : List ActionApproval)
    → find_approval id u bs ≡ some a
    → (a.id ≡ id) × (a.user_id ≡ u)
found_ids id u a [] f = cc
found_ids id u a (b ∷ bs) f = elim (Bool-cases (nat_eq b.id id && nat_eq b.user_id u)) [
  | inl same ↦ ground arith
  | inr other ↦ found_ids id u a bs (ground arith)
]

pub set_approval-decides :
    (id u : ℕ) (a : ActionApproval) (status : String) (bs : List ActionApproval)
    → (status == "awaiting_approval") ≡ false
    → find_approval id u bs ≡ some a
    → is_decided (find_approval id u (set_approval a status bs)) ≡ true
set_approval-decides id u a status [] h f = cc
set_approval-decides id u a status (b ∷ bs) h f =
    elim (Bool-cases (nat_eq b.id id && nat_eq b.user_id u)) [
      | inl same ↦ ground (arith, found_ids id u a (b ∷ bs) f)
      | inr other ↦
          ground (arith, found_ids id u a (b ∷ bs) f, set_approval-decides id u a status bs h)
    ]

pub decided_status-ne : (r : AgentResult) → (decided_status r == "awaiting_approval") ≡ false
decided_status-ne r = elim (Bool-cases (status_eq r.status ExecutionStatus.completed)) [
  | inl done ↦ rw done
  | inr failed ↦ rw failed
]

abbrev pub Anything : {A : Type 0} → A → Type 0
Anything a = Unit

module _ (registry : AgentRegistry) (id_text : ℕ → String) where
  unfoldable pub respond : Decision → Action ApprovalResponse
  respond (approve id u) = request (approve_action registry id_text id u)
  respond (reject id u) = request (reject_action registry id_text id u)

  -- The requests of any users, one after the other.
  unfoldable pub run : List Decision → World → World
  run [] w = w
  run (d ∷ ds) w = run ds (respond d w).1

  module _ (id u : ℕ) where
    -- The decision stands in the transaction and in what is committed.
    abbrev Stands : World → Type 0
    Stands w = IsDecided id u w.session.current × IsDecided id u w.session.committed

    anything : {A : Type 0} (r : Checked A) → Outcome Anything Anything r
    anything (ok a) = tt
    anything (err e) = tt

    read-Stands : {A : Type 0} (f : Rows → Checked A) → Ensures Stands Anything Anything (read f)
    unfolding read
    read-Stands f = record { keeps = λ w p. p; gives = λ w p. anything (f w.session.current) }

    write-Stands :
        (f : Rows → Rows)
        → ((rows : Rows) → IsDecided id u rows → IsDecided id u (f rows))
        → Ensures Stands Anything Anything (write f)
    unfolding ◌>>=◌
    write-Stands f k = record { keeps = λ w p. (k w.session.current p.0, p.1); gives = λ w p. tt }

    commit_all-Stands : Ensures Stands Anything Anything commit_all
    unfolding commit_all
    commit_all-Stands = record { keeps = λ w p. (p.0, p.0); gives = λ w p. tt }

    execute_stored-Stands :
        (a : StoredAction) → Ensures Stands Anything Anything (execute_stored registry id_text a)
    unfolding execute_stored
    execute_stored-Stands a = record { keeps = λ w p. p; gives = λ w p. anything _ }

    executed-IsDecided :
        (a : ActionApproval) (r : AgentResult) (v : ℕ) (rows : Rows)
        → IsDecided id u rows
        → IsDecided id u (executed_rows id_text a r v rows)
    unfolding refresh_execution_status
    executed-IsDecided a r v rows d =
        set_approval-decided id u a (decided_status r) rows.approvals (decided_status-ne r) d

    approve-Stands :
        (i v : ℕ) → Ensures Stands Anything Anything (approve_action registry id_text i v)
    unfolding approve_action
    approve-Stands i v = Ensures-bind Anything Anything _ _ (read-Stands _) λ a q.
        Ensures-bind Anything Anything _ _ (Ensures-lift Anything _ (anything _)) λ stored q.
          Ensures-bind Anything Anything _ _ (Ensures-lift Anything _ (anything _)) λ t q.
            Ensures-bind Anything Anything _ _ (execute_stored-Stands stored) λ r q.
              Ensures-bind Anything Anything _ _ (read-Stands _) λ t q.
                Ensures-bind Anything Anything _ _ (write-Stands _ (executed-IsDecided a r v))
                  λ t q.
                    Ensures-bind Anything Anything _ _ commit_all-Stands
                      λ t q. Ensures-pure Anything _ tt

    reject-Stands :
        (i v : ℕ) → Ensures Stands Anything Anything (reject_action registry id_text i v)
    unfolding reject_action
    reject-Stands i v = Ensures-bind Anything Anything _ _ (read-Stands _) λ a q.
        Ensures-bind Anything Anything _ _ (read-Stands _) λ t q.
          Ensures-bind Anything Anything _ _
            (write-Stands _
              (λ rows d. set_approval-decided id u a "rejected" rows.approvals refl d))
            λ t q.
              Ensures-bind Anything Anything _ _ commit_all-Stands λ t q. Ensures-pure Anything _ tt

    finish-keeps :
        {A : Type 0} (r : Checked A) (w : World)
        → Stands w
        → IsDecided id u (finish r w).1.session.committed
    finish-keeps (ok a) w p = p.1
    finish-keeps (err e) w p = p.1

    respond-keeps :
        (d : Decision) (w : World)
        → IsDecided id u w.session.committed
        → IsDecided id u (respond d w).1.session.committed
    unfolding respond request
    respond-keeps (approve i v) w h =
        finish-keeps _ _
          ((approve-Stands i v).keeps (record w { session = rollback w.session }) (h, h))
    respond-keeps (reject i v) w h =
        finish-keeps _ _
          ((reject-Stands i v).keeps (record w { session = rollback w.session }) (h, h))

    pub run-keeps :
        (ds : List Decision) (w : World)
        → IsDecided id u w.session.committed
        → IsDecided id u (run ds w).session.committed
    unfolding run
    run-keeps [] w h = h
    run-keeps (d ∷ ds) w h = run-keeps ds (respond d w).1 (respond-keeps d w h)
