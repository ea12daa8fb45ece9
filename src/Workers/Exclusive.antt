-- ===== src/Workers/Exclusive.antt =====
-- One synchronization of a user at a time (app/workers/tasks.py).
use agentic_google_workspace.Prelude.{
  ℕ, zero, suc, ◌+◌, ◌≤◌, ◌<◌, ◌≡◌, refl, ◌⊎◌, inl, inr, true, false, Option, none, some, [], ◌∷◌,
  leb, nat_eq, All, arith, Bool-cases, Option-cases,
}
use agentic_google_workspace.Workers.{
  Lock, State, Step, Reachable, starts, renews, finishes, crashes, ticks, at_first, and_then,
  interval, expire, find_running, acquire, renew_sync_lock, release_sync_lock, start, renew, finish,
  crash, tick, IsOnTime,
}

-- The one task that runs holds the lock, and renews it before its time is over.
pub record Holds (s : State) : Type 0 where
  pub value : ℕ
  pub due : ℕ
  pub deadline : ℕ
  pub only : s.running ≡ (value, some due) ∷ []
  pub held : s.lock ≡ some (value, deadline)
  pub not_over : s.now ≤ due
  pub in_time : due < deadline

-- The time of the lock is at most that of one renewal.
abbrev IsBounded : ℕ → ℕ → Lock → Type 0
IsBounded ttl now none = Unit
IsBounded ttl now (some (value, deadline)) = deadline ≤ now + ttl

pub record IsExclusive (ttl : ℕ) (s : State) : Type 0 where
  pub alone : (s.running ≡ []) ⊎ Holds s
  pub bounded : IsBounded ttl s.now s.lock

interval_lt : (ttl : ℕ) → 2 ≤ ttl → interval ttl < ttl
interval_lt ttl h = ground arith

module _ (ttl : ℕ) (enough : 2 ≤ ttl) where
  expire-IsBounded :
      (now : ℕ) (lock : Lock)
      → IsBounded ttl now lock
      → IsBounded ttl (suc now) (expire (suc now) lock)
  expire-IsBounded now none h = tt
  expire-IsBounded now (some (value, deadline)) h = elim (Bool-cases (leb deadline (suc now))) [
    | inl over ↦ rw over tt
    | inr not_yet ↦ rw not_yet (omega (arith, h))
  ]

  start-IsExclusive : (s : State) → IsExclusive ttl s → IsExclusive ttl (start ttl s)
  unfolding start acquire
  start-IsExclusive s inv = elim (Option-cases s.lock) [
    | inl free ↦ elim inv.alone [
      | inr h ↦ absurd (cc (free, h.held))
      | inl empty ↦ rw free (record {
        alone = inr (record {
          value = s.next_value;
          due = s.now + interval ttl;
          deadline = s.now + ttl;
          only = rw empty refl;
          held = refl;
          not_over = omega arith;
          in_time = omega (arith, interval_lt ttl enough);
        });
        bounded = omega arith;
      })
    ]
    | inr ((value, deadline), taken) ↦ rw taken (record {
      alone = elim inv.alone [
        | inl empty ↦ inl empty
        | inr h ↦ inr (record {
          value = h.value;
          due = h.due;
          deadline = h.deadline;
          only = h.only;
          held = cc (taken, h.held);
          not_over = h.not_over;
          in_time = h.in_time;
        })
      ];
      bounded = rw taken at inv.bounded;
    })
  ]

  renew-IsExclusive :
      (s : State) (value : ℕ)
      → find_running value s.running ≡ some (some s.now)
      → IsExclusive ttl s
      → IsExclusive ttl (renew ttl value s)
  unfolding renew renew_sync_lock
  renew-IsExclusive s value h inv = elim inv.alone [
    | inl empty ↦ absurd (cc (rw empty at h))
    | inr k ↦
        let found : find_running value ((k.value, some k.due) ∷ []) ≡ some (some s.now) =
          rw k.only at h in
        let same : nat_eq k.value value ≡ true = ground arith in
        rw (k.held, same)
          (record {
            alone = inr (record {
              value = k.value;
              due = s.now + interval ttl;
              deadline = s.now + ttl;
              only = rw (k.only, same) refl;
              held = refl;
              not_over = omega arith;
              in_time = omega (arith, interval_lt ttl enough);
            });
            bounded = omega arith;
          })
  ]

  finish-IsExclusive :
      (s : State) (value : ℕ) (due : Option ℕ)
      → find_running value s.running ≡ some due
      → IsExclusive ttl s
      → IsExclusive ttl (finish value s)
  unfolding finish release_sync_lock
  finish-IsExclusive s value due h inv = elim inv.alone [
    | inl empty ↦ absurd (cc (rw empty at h))
    | inr k ↦
        let found : find_running value ((k.value, some k.due) ∷ []) ≡ some due = rw k.only at h in
        let same : nat_eq k.value value ≡ true = ground arith in
        rw (k.held, same) (record { alone = inl (rw (k.only, same) refl); bounded = tt })
  ]

  crash-IsExclusive :
      (s : State) (value : ℕ) (due : Option ℕ)
      → find_running value s.running ≡ some due
      → IsExclusive ttl s
      → IsExclusive ttl (crash value s)
  crash-IsExclusive s value due h inv = elim inv.alone [
    | inl empty ↦ absurd (cc (rw empty at h))
    | inr k ↦
        let found : find_running value ((k.value, some k.due) ∷ []) ≡ some due = rw k.only at h in
        let same : nat_eq k.value value ≡ true = ground arith in
        record { alone = inl (rw (k.only, same) refl); bounded = inv.bounded }
  ]

  tick-IsExclusive :
      (s : State) → All (IsOnTime s.now) s.running → IsExclusive ttl s → IsExclusive ttl (tick s)
  unfolding tick
  tick-IsExclusive s h inv = elim inv.alone [
    | inl empty ↦ record { alone = inl empty; bounded = expire-IsBounded s.now s.lock inv.bounded }
    | inr k ↦
        let (on_time, rest) : (s.now < k.due) × Unit = rw k.only at h in
        let later : leb k.deadline (suc s.now) ≡ false = ground (arith, k.in_time, on_time) in
        record {
          alone = inr (record {
            value = k.value;
            due = k.due;
            deadline = k.deadline;
            only = k.only;
            held = rw (k.held, later) refl;
            not_over = on_time;
            in_time = k.in_time;
          });
          bounded = expire-IsBounded s.now s.lock inv.bounded;
        }
  ]

  Step-IsExclusive : {s t : State} → Step ttl s t → IsExclusive ttl s → IsExclusive ttl t
  Step-IsExclusive {s = s} starts inv = start-IsExclusive s inv
  Step-IsExclusive {s = s} (renews value h) inv = renew-IsExclusive s value h inv
  Step-IsExclusive {s = s} (finishes value due h) inv = finish-IsExclusive s value due h inv
  Step-IsExclusive {s = s} (crashes value due h) inv = crash-IsExclusive s value due h inv
  Step-IsExclusive {s = s} (ticks h) inv = tick-IsExclusive s h inv

  -- With a lock of two seconds or more that is renewed in time, at most one synchronization of a user runs in any
  -- state that its tasks come to, however they are started, end and crash, and it is the one that holds the lock.
  pub Reachable-IsExclusive : {s : State} → Reachable ttl s → IsExclusive ttl s
  Reachable-IsExclusive at_first = record { alone = inl refl; bounded = tt }
  Reachable-IsExclusive (and_then before step) =
      Step-IsExclusive step (Reachable-IsExclusive before)

-- So many seconds in which nothing else happens.
abbrev pub pass : ℕ → State → State
pass zero s = s
pass (suc n) s = pass n (tick s)

pass-Reachable :
    (ttl n : ℕ) (s : State)
    → Reachable ttl s
    → s.running ≡ []
    → Reachable ttl (pass n s) × ((pass n s).running ≡ [])
unfolding tick
pass-Reachable ttl zero s r empty = (r, empty)
pass-Reachable ttl (suc n) s r empty =
    pass-Reachable ttl n (tick s) (and_then r (ticks (rw empty tt))) empty

expire-over : (now : ℕ) (lock : Lock) → IsBounded 1 now lock → expire (suc now) lock ≡ none
expire-over now none h = refl
expire-over now (some (value, deadline)) h =
    let over : leb deadline (suc now) ≡ true = ground (arith, h) in rw over refl

expire-sooner :
    (n now : ℕ) (lock : Lock)
    → IsBounded (suc n) now lock
    → IsBounded n (suc now) (expire (suc now) lock)
expire-sooner n now none h = tt
expire-sooner n now (some (value, deadline)) h = elim (Bool-cases (leb deadline (suc now))) [
  | inl over ↦ rw over tt
  | inr not_yet ↦ rw not_yet (omega (arith, h))
]

pass-free : (n : ℕ) (s : State) → IsBounded (suc n) s.now s.lock → (pass (suc n) s).lock ≡ none
unfolding tick
pass-free zero s h = expire-over s.now s.lock h
pass-free (suc n) s h = pass-free n (tick s) (expire-sooner (suc n) s.now s.lock h)

-- Where no synchronization of a user runs, also where the last one crashed with the lock, the next one that starts
-- after the time of the lock gets it and runs.
pub start-Holds :
    (ttl : ℕ) (s : State)
    → 2 ≤ ttl
    → Reachable ttl s
    → s.running ≡ []
    → Reachable ttl (start ttl (pass ttl s)) × Holds (start ttl (pass ttl s))
unfolding start acquire
start-Holds zero s enough r empty = absurd (omega (arith, enough))
start-Holds (suc n) s enough r empty =
    let (later, still_empty) = pass-Reachable (suc n) (suc n) s r empty in
    let free = pass-free n s (Reachable-IsExclusive (suc n) enough r).bounded in
    let last = pass (suc n) s in
    let started = and_then later starts in
    let runs : (start (suc n) last).running
        ≡ (last.next_value, some (last.now + interval (suc n))) ∷ last.running =
      rw free refl in
    (
      started,
      elim (Reachable-IsExclusive (suc n) enough started).alone [
        | inl none_runs ↦ absurd (cc (runs, none_runs))
        | inr holds ↦ holds
      ],
    )
