-- ===== src/Workers.antt =====
-- app/workers/tasks.py: the lock that one synchronization of a user holds in Redis while it runs.
pub mod Exclusive
mod Tests
use agentic_google_workspace.Prelude.{
  ℕ, zero, suc, ◌+◌, ◌/◌, ◌<◌, ◌≡◌, Bool, true, false, Option, none, some, List, [], ◌∷◌,
  if◌then◌else◌, leb, nat_eq, All,
}

-- The value of the key, and when the key expires.
abbrev pub Lock : Type 0
Lock = Option (ℕ × ℕ)

-- `redis.set(key, value, nx=True, ex=ttl)`
unfoldable pub acquire : ℕ → ℕ → ℕ → Lock → Bool × Lock
acquire ttl now value none = (true, some (value, now + ttl))
acquire ttl now value (some held) = (false, some held)

abbrev extended : ℕ → ℕ → ℕ × ℕ → Bool → Bool × Lock
extended ttl now (value, deadline) true = (true, some (value, now + ttl))
extended ttl now (value, deadline) false = (false, some (value, deadline))

-- The script of `_renew_sync_lock`.
unfoldable pub renew_sync_lock : ℕ → ℕ → ℕ → Lock → Bool × Lock
renew_sync_lock ttl now value none = (false, none)
renew_sync_lock ttl now value (some (held, deadline)) =
    extended ttl now (held, deadline) (nat_eq held value)

abbrev deleted : ℕ × ℕ → Bool → Bool × Lock
deleted held true = (true, none)
deleted held false = (false, some held)

-- `_release_sync_lock`
unfoldable pub release_sync_lock : ℕ → Lock → Bool × Lock
release_sync_lock value none = (false, none)
release_sync_lock value (some (held, deadline)) = deleted (held, deadline) (nat_eq held value)

-- `max(1, ttl_seconds // 3)`
abbrev pub interval : ℕ → ℕ
interval ttl = if leb 1 (ttl / 3) then ttl / 3 else 1

-- Redis drops a key when its time is over.
abbrev pub expire : ℕ → Lock → Lock
expire now none = none
expire now (some (value, deadline)) = if leb deadline now then none else some (value, deadline)

-- A synchronization that runs: its value, and when it renews its lock, unless that is over.
abbrev pub Running : Type 0
Running = ℕ × Option ℕ

pub record State : Type 0 where
  pub now : ℕ
  pub lock : Lock
  pub running : List Running
  pub next_value : ℕ

abbrev pub find_running : ℕ → List Running → Option (Option ℕ)
find_running value [] = none
find_running value ((v, due) ∷ rs) = if nat_eq v value then some due else find_running value rs

abbrev pub set_due : ℕ → Option ℕ → List Running → List Running
set_due value due [] = []
set_due value due ((v, d) ∷ rs) =
    let rest = set_due value due rs in if nat_eq v value then (v, due) ∷ rs else (v, d) ∷ rest

abbrev pub stop : ℕ → List Running → List Running
stop value [] = []
stop value ((v, d) ∷ rs) = let rest = stop value rs in if nat_eq v value then rs else (v, d) ∷ rest

-- `if not acquired`: a task that does not get the lock is over.
abbrev pub begin : ℕ → State → Bool × Lock → State
begin ttl s (true, lock) = record s {
  lock = lock;
  running = (s.next_value, some (s.now + interval ttl)) ∷ s.running;
  next_value = suc s.next_value;
}
begin ttl s (false, lock) = record s { lock = lock; next_value = suc s.next_value }

-- `_sync_user` up to the synchronization itself.
unfoldable pub start : ℕ → State → State
unfolding acquire
start ttl s = begin ttl s (acquire ttl s.now s.next_value s.lock)

-- `if not renewed: return`
abbrev pub renewed : ℕ → State → ℕ → Bool × Lock → State
renewed ttl s value (true, lock) = record s {
  lock = lock;
  running = set_due value (some (s.now + interval ttl)) s.running;
}
renewed ttl s value (false, lock) = record s { lock = lock; running = set_due value none s.running }

-- A round of `_renew_sync_lock`.
unfoldable pub renew : ℕ → ℕ → State → State
unfolding renew_sync_lock
renew ttl value s = renewed ttl s value (renew_sync_lock ttl s.now value s.lock)

-- The `finally` block.
unfoldable pub finish : ℕ → State → State
unfolding release_sync_lock
finish value s = record s {
  lock = (release_sync_lock value s.lock).1;
  running = stop value s.running;
}

-- The process of the task ends without the `finally` block.
abbrev pub crash : ℕ → State → State
crash value s = record s { running = stop value s.running }

unfoldable pub tick : State → State
tick s = record s { now = suc s.now; lock = expire (suc s.now) s.lock }

-- No renewal that is due is left out.
abbrev pub IsOnTime : ℕ → Running → Type 0
IsOnTime now (value, none) = Unit
IsOnTime now (value, some due) = now < due

-- The steps of all tasks of one user, in any order; a second passes only when no renewal is due.
pub data Step (ttl : ℕ) (s : State) : State → Type 0 where
  starts : Step ttl s (start ttl s)
  renews :
      (value : ℕ)
      → find_running value s.running ≡ some (some s.now)
      → Step ttl s (renew ttl value s)
  finishes :
      (value : ℕ) (due : Option ℕ)
      → find_running value s.running ≡ some due
      → Step ttl s (finish value s)
  crashes :
      (value : ℕ) (due : Option ℕ)
      → find_running value s.running ≡ some due
      → Step ttl s (crash value s)
  ticks : All (IsOnTime s.now) s.running → Step ttl s (tick s)

abbrev pub initial : State
initial = record { now = 0; lock = none; running = []; next_value = 0 }

pub data Reachable (ttl : ℕ) : State → Type 0 where
  at_first : Reachable ttl initial
  and_then : {s t : State} → Reachable ttl s → Step ttl s t → Reachable ttl t
