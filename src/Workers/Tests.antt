-- ===== src/Workers/Tests.antt =====
-- A synchronization that crashes with the lock, with a lock of three seconds.
use agentic_google_workspace.Prelude.{◌≡◌, refl, some, [], arith, length}
use agentic_google_workspace.Workers.{
  State, Reachable, at_first, and_then, starts, crashes, initial, start, crash, acquire,
}
use agentic_google_workspace.Workers.Exclusive.{
  Holds, IsExclusive, Reachable-IsExclusive, pass, start-Holds,
}

abbrev started : State
started = start 3 initial

abbrev crashed : State
crashed = crash 0 started

started-Reachable : Reachable 3 started
started-Reachable = and_then at_first starts

crashed-Reachable : Reachable 3 crashed
unfolding start acquire
crashed-Reachable = and_then started-Reachable (crashes 0 (some 1) refl)

nobody_runs : crashed.running ≡ []
unfolding start acquire
nobody_runs = refl

-- The second one does not run.
one_runs : length (start 3 started).running ≡ 1
unfolding start acquire
one_runs = refl

Reachable-IsExclusive_example : IsExclusive 3 started
Reachable-IsExclusive_example = Reachable-IsExclusive 3 (omega arith) started-Reachable

start-Holds_example : Reachable 3 (start 3 (pass 3 crashed)) × Holds (start 3 (pass 3 crashed))
start-Holds_example = start-Holds 3 crashed (omega arith) crashed-Reachable nobody_runs
