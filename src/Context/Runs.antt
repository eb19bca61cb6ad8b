-- ===== src/Context/Runs.antt =====
-- Whole calls of the two cores, one after the other: ticks, calls that give up the core, with the
-- context switch that they leave pending, and calls that wake a thread.
use mathlib.Core.Option.{some-injective}
use multicore_rtos.Base.{
  ℕ, suc, ◌+◌, ◌^◌, ◌<◌, ◌≡◌, ◌≢◌, ◌∙◌, ap, sym, subst, Bool, true, false, not, Option, some, List,
  ◌∷◌, arith, length,
}
use multicore_rtos.Heap.{Ptr}
use multicore_rtos.Sched.{Kernel, ThreadState}
use multicore_rtos.Sched.Ready.{state_of, pri_of}
use multicore_rtos.Sched.Line.{tick_of}
use multicore_rtos.Sched.PutBack.{Levels}
use multicore_rtos.Sched.Consistent.{Cores, Cores-swap, Chosen}
use multicore_rtos.Sched.Retire.{WaitList, Parked}
use multicore_rtos.Sched.Rejoin.{Dormant}
use multicore_rtos.Sched.Wait.{sched_block, sleep, sched_unblock, unsleep}
use multicore_rtos.Sched.Block.{blocked_root, sched_block-Parked}
use multicore_rtos.Sched.Doze.{sleep-Parked}
use multicore_rtos.Sched.Unpark.{sched_unblock-Woken, sched_unblock-run_pt}
use multicore_rtos.Sched.Awake.{unsleep-Woken, unsleep-run_pt}
use multicore_rtos.Context.{Core, preempt}
use multicore_rtos.Context.Resume.{switched}
use multicore_rtos.Context.Preempt.{
  At, Cores-at, preempt-At, switch-Cores, switch-here, switch-there, switch-idle,
}

-- the two cores
abbrev pub core : Bool → ℕ
core false = 0
core true = 1

-- The thread that the core runs, which is RUNNING.
abbrev pub Runs : Bool → Kernel → Type 0
Runs b k = state_of k (k.run_pt (core b)) ≡ ThreadState.running

-- A thread that waits may be made ready: its level has room for one more.
pub record MayWake (w : Ptr) (k : Kernel) : Type 0 where
  pub dormant : Dormant w (k.run_pt 0) (k.run_pt 1) k
  pub room :
      k.active_priority_count (pri_of k w) + k.running_priority_count (pri_of k w) + 1 < 2 ^ 16

-- Whole calls from a kernel on, each of the core that the Boolean tells.
pub data Run (k : Kernel) : Kernel → Type 0 where
  start : Run k k
  tick :
      {k' : Kernel} (b : Bool) (now now' : ℕ) (c : Core)
      → Run k k'
      → Run k (preempt (core b) now now' c k').1
  block :
      {k' k'' : Kernel} (b : Bool) (now now' : ℕ) (c : Core) (sem : Ptr) (ws : List Ptr)
      → Run k k'
      → Runs b k'
      → WaitList k' (blocked_root sem k') (pri_of k') ws
      → sched_block (core b) now now' sem k' ≡ some k''
      → Run k (switched (core b) c k'')
  doze :
      {k' k'' : Kernel} (b : Bool) (now now' now'' sleep_time : ℕ) (c : Core) (ws : List Ptr)
      → Run k k'
      → Runs b k'
      → WaitList k' k'.sleep_schedule_root (tick_of k') ws
      → sleep_time ≢ 0
      → sleep (core b) now now' now'' sleep_time k' ≡ some k''
      → Run k (switched (core b) c k'')
  unblock :
      {k' : Kernel} (b : Bool) (sem w : Ptr) (ws : List Ptr)
      → Run k k'
      → MayWake w k'
      → WaitList k' (blocked_root sem k') (pri_of k') (w ∷ ws)
      → Run k (sched_unblock (core b) sem k').0
  wake :
      {k' : Kernel} (b : Bool) (now now' : ℕ) (w : Ptr) (ws : List Ptr)
      → Run k k'
      → MayWake w k'
      → WaitList k' k'.sleep_schedule_root (tick_of k') (w ∷ ws)
      → Run k (unsleep (core b) now now' k')

At-core : (b : Bool) {k : Kernel} {q : ℕ → List Ptr} → At 0 1 k q → At (core b) (core (not b)) k q
At-core false c = c
At-core true c = Cores-swap c

core-At : (b : Bool) {k : Kernel} {q : ℕ → List Ptr} → At (core b) (core (not b)) k q → At 0 1 k q
core-At false c = c
core-At true c = Cores-swap c

other_core : (b : Bool) → core (not b) ≢ core b
other_core false = omega arith
other_core true = omega arith

-- The context switch of a call that has chosen.
switched-At :
    (b : Bool) (c : Core) (k k' : Kernel)
    → k'.run_pt ≡ k.run_pt
    → k'.idle_thread ≡ k.idle_thread
    → Chosen
        (k.idle_thread (core b))
        (k.run_pt (core (not b)))
        (k.idle_thread (core (not b)))
        k'
        (k'.next_run_pt (core b))
    → (q : ℕ → List Ptr) × At 0 1 (switched (core b) c k') q
switched-At b c k k' run idles ch =
    let idle = switch-idle (core b) c k' ∙ idles in
    (
      ch.queues,
      core-At b (
          Cores-at (switch-here (core b) c k') (ap (λ f. f (core b)) idle)
            (switch-there (core b) c k' (core (not b)) (other_core b)
              ∙ ap (λ f. f (core (not b))) run)
            (ap (λ f. f (core (not b))) idle) (switch-Cores (core b) c k' ch.cores)),
    )

parked-At :
    (b : Bool) (c : Core) (k k' : Kernel) (root : Kernel → Ptr) (key : Kernel → Ptr → ℕ)
    (out : List Ptr) (r : Option Kernel)
    → r ≡ some k'
    → Parked k.run_pt k.idle_thread
        (core b)
        (k.idle_thread (core b))
        (k.run_pt (core (not b)))
        (k.idle_thread (core (not b)))
        root
        key
        out
        r
    → (q : ℕ → List Ptr) × At 0 1 (switched (core b) c k') q
parked-At b c k k' root key out r e p =
    let same : p.after ≡ k' = some-injective p.after k' (sym p.returned ∙ e) in
    subst (λ x. (q : ℕ → List Ptr) × At 0 1 (switched (core b) c x) q) same
      (switched-At b c k p.after p.run_pts p.idle_threads p.chosen)

-- The room of a level by its counts.
room-length :
    (w : Ptr) (k : Kernel) (q : ℕ → List Ptr)
    → Levels k q
    → MayWake w k
    → suc (length (q (pri_of k w))) < 2 ^ 16
room-length w k q l m =
    let r = l.ready (pri_of k w) m.dormant.in_range in
    omega (arith, r.actives, r.runnings, r.ready, m.room)

-- A call that wakes a thread.
woken-At :
    (k k' : Kernel) (q : ℕ → List Ptr)
    → (k'.run_pt ≡ k.run_pt) × (k'.idle_thread ≡ k.idle_thread)
    → Cores (k.run_pt 0) (k.idle_thread 0) (k.run_pt 1) (k.idle_thread 1) k' q
    → (q' : ℕ → List Ptr) × At 0 1 k' q'
woken-At k k' q same c = (
  q,
  Cores-at (ap (λ f. f 0) same.0) (ap (λ f. f 0) same.1) (ap (λ f. f 1) same.0)
      (ap (λ f. f 1) same.1) c,
)

-- Where the state is consistent for the two cores, it stays so over whole calls of either core in any
-- order: ticks; calls of `sched_block` and `sleep` by a thread that runs, each with its context switch;
-- and calls of `sched_unblock` and `unsleep` for a thread that waits, of one of the five levels, not
-- IDLE and on no core, whose level has fewer than 2^16 - 1 threads. The list that a call uses has to be
-- one of threads in no level, in order and no more than were ever created.
pub Run-At :
    {k k' : Kernel} (q : ℕ → List Ptr) → At 0 1 k q → Run k k' → (q' : ℕ → List Ptr) × At 0 1 k' q'
Run-At q a start = (q, a)
Run-At q a (tick {k'} b now now' c r) =
    let (q1, a1) = Run-At q a r in
    let (q2, a2) =
      preempt-At (core b) (core (not b)) now now' c k' q1 (other_core b) (At-core b a1) in
    (q2, core-At b a2)
Run-At q a (block {k'} {k''} b now now' c sem ws r run w e) =
    let (q1, a1) = Run-At q a r in
    parked-At b c k' k'' (blocked_root sem) pri_of _ (sched_block (core b) now now' sem k') e (
      sched_block-Parked (core b) now now' sem (k'.run_pt (core (not b)))
        (k'.idle_thread (core (not b))) k' q1 ws (At-core b a1) run w)
Run-At q a (doze {k'} {k''} b now now' now'' sleep_time c ws r run w ne e) =
    let (q1, a1) = Run-At q a r in
    parked-At b c k' k'' (λ x. x.sleep_schedule_root) tick_of _
      (sleep (core b) now now' now'' sleep_time k') e
      (sleep-Parked (core b) now now' now'' sleep_time (k'.run_pt (core (not b)))
        (k'.idle_thread (core (not b))) k' q1 ws (At-core b a1) run w ne)
Run-At q a (unblock {k'} b sem w ws r m l) =
    let (q1, a1) = Run-At q a r in
    woken-At k' (sched_unblock (core b) sem k').0 _ (sched_unblock-run_pt (core b) sem k')
      (sched_unblock-Woken (core b) sem (k'.run_pt 0) (k'.idle_thread 0) (k'.run_pt 1)
        (k'.idle_thread 1) w k' q1 ws a1 m.dormant (room-length w k' q1 a1.levels m) l).0.cores
Run-At q a (wake {k'} b now now' w ws r m l) =
    let (q1, a1) = Run-At q a r in
    woken-At k' (unsleep (core b) now now' k') _ (unsleep-run_pt (core b) now now' k')
      (unsleep-Woken (core b) now now' (k'.run_pt 0) (k'.idle_thread 0) (k'.run_pt 1)
        (k'.idle_thread 1) w k' q1 ws a1 m.dormant (room-length w k' q1 a1.levels m) l).cores
