-- ===== src/Sema/Waits.antt =====
-- One round of `b_wait` and of `c_wait` on a consistent kernel: the caller has the semaphore, or it is
-- among the blocked threads.
use native.Mathlib.Decide.{ℕ_discrete}
use multicore_rtos.Base.{
  ℕ, ◌-◌, ◌≡◌, refl, ◌≢◌, ap, sym, Bool, false, Option, some, List, arith, ◌==◌, ==_of_ne, subst,
}
use multicore_rtos.Heap.{Ptr}
use multicore_rtos.Sched.{Kernel, ThreadState, end_critical}
use multicore_rtos.Sched.Ready.{state_of, pri_of}
use multicore_rtos.Sched.Choice.{SameThreads}
use multicore_rtos.Sched.Consistent.{Cores}
use multicore_rtos.Sched.Line.{insert_by}
use multicore_rtos.Sched.Finish.{Cores-same}
use multicore_rtos.Sched.Retire.{WaitList, WaitList-same, Parked}
use multicore_rtos.Sched.Wait.{sched_block}
use multicore_rtos.Sched.Block.{blocked_root, sched_block-Parked}
use multicore_rtos.Sema.{
  Wait, acquired, blocked, stuck, set_value, atomic_test_and_set, blocked_of, b_wait, c_wait,
}

-- What a round leaves: `value` is that of the semaphore if the caller has it.
pub record Acquired (sem t i u j : Ptr) (value : ℕ) (k k' : Kernel) (q : ℕ → List Ptr)
    : Type 0 where
  pub cores : Cores t i u j k' q
  pub taken : (k'.sema sem).value ≡ value
  pub root_same : blocked_root sem k' ≡ blocked_root sem k

module _ (cpu now now' : ℕ) (sem u j : Ptr) (k : Kernel) (q : ℕ → List Ptr) (ws : List Ptr)
    (c : Cores (k.run_pt cpu) (k.idle_thread cpu) u j k q)
    (run : state_of k (k.run_pt cpu) ≡ ThreadState.running)
    (w : WaitList k (blocked_root sem k) (pri_of k) ws) where
  abbrev pub t : Ptr
  t = k.run_pt cpu

  abbrev pub i : Ptr
  i = k.idle_thread cpu

  abbrev pub IsParked : Option Kernel → Type 0
  IsParked r =
      Parked k.run_pt k.idle_thread cpu i u j (blocked_root sem) pri_of (insert_by (pri_of k) t ws)
        r

  -- A change of the semaphore's value.
  value-same : (v : ℕ) → SameThreads k (set_value sem v k)
  value-same v = record { tcbs = λ p. refl; actives = refl; runnings = refl; roots = refl }

  value-root : (v : ℕ) → blocked_root sem (set_value sem v k) ≡ blocked_root sem k
  value-root v = ground arith

  value-Acquired : (v : ℕ) → Acquired sem t i u j v k (set_value sem v k) q
  value-Acquired v = record {
    cores = Cores-same (value-same v) c;
    taken = ground arith;
    root_same = value-root v;
  }

  blocked-Parked : (v : ℕ) → IsParked (sched_block cpu now now' sem (set_value sem v k))
  blocked-Parked v =
      let s = value-same v in
      sched_block-Parked cpu now now' sem u j (set_value sem v k) q ws (Cores-same s c) run (
        subst (λ r. WaitList (set_value sem v k) r (pri_of k) ws) (sym (value-root v))
          (WaitList-same (blocked_root sem k) (pri_of k) ws s refl w))

  blocked-after :
      (r : Option Kernel)
      → IsParked r
      → (k' : Kernel) × (blocked_of r ≡ blocked k') × IsParked (some k')
  unfolding blocked_of
  blocked-after r p = (
    p.after,
    ap blocked_of p.returned,
    record {
      after = p.after;
      returned = refl;
      chosen = p.chosen;
      line = p.line;
      sorted = p.sorted;
      run_pts = p.run_pts;
      idle_threads = p.idle_threads;
    },
  )

  -- A round of `b_wait`: it has the semaphore, or it is blocked.
  abbrev pub BinaryEnds : Wait → Type 0
  BinaryEnds (acquired k') = ((k.sema sem).value ≡ 0) × Acquired sem t i u j 1 k k' q
  BinaryEnds (blocked k') = ((k.sema sem).value ≢ 0) × IsParked (some k')
  BinaryEnds stuck = ⊥

  -- On a consistent kernel whose core runs a thread, where the threads blocked on the semaphore are in
  -- no level, in order of priority and no more than were ever created: a round of `b_wait` ends. If the
  -- semaphore was 0, the caller goes on and it is 1, with the kernel consistent and the same threads
  -- blocked; if not, the caller is among the blocked threads at its place, and `schedule` has chosen as
  -- on a consistent kernel.
  pub b_wait-BinaryEnds : BinaryEnds (b_wait cpu now now' sem k)
  unfolding b_wait atomic_test_and_set
  b_wait-BinaryEnds = elim (ℕ_discrete (k.sema sem).value 0) [
    | yes free ↦ rw (BinaryEnds, free) (free, value-Acquired 1)
    | no taken ↦
        let b : ((k.sema sem).value == 0) ≡ false = ==_of_ne (k.sema sem).value 0 taken in
        let (k', e, p) =
          blocked-after (sched_block cpu now now' sem (set_value sem 1 k)) (blocked-Parked 1) in
        rw (BinaryEnds, b, e) (taken, p)
  ]

  -- A round of `c_wait`, which was called with the interrupt mask `stat`.
  abbrev pub CountingEnds : Bool → Wait → Type 0
  CountingEnds stat (acquired k') =
      ((k.sema sem).value ≢ 0)
      × Acquired sem t i u j ((k.sema sem).value - 1) k k' q
      × (k'.interrupts_off cpu ≡ stat)
  CountingEnds stat (blocked k') = ((k.sema sem).value ≡ 0) × IsParked (some k')
  CountingEnds stat stuck = ⊥

  enabled-Parked : IsParked (sched_block cpu now now' sem (end_critical cpu false k))
  unfolding end_critical
  enabled-Parked =
      let s : SameThreads k (end_critical cpu false k) = record {
        tcbs = λ p. refl;
        actives = refl;
        runnings = refl;
        roots = refl;
      } in
      sched_block-Parked cpu now now' sem u j (end_critical cpu false k) q ws (Cores-same s c) run
        (WaitList-same (blocked_root sem k) (pri_of k) ws s refl w)

  counted-Acquired :
      (stat : Bool) (v : ℕ)
      → Acquired sem t i u j v k (end_critical cpu stat (set_value sem v k)) q
        × ((end_critical cpu stat (set_value sem v k)).interrupts_off cpu ≡ stat)
  unfolding end_critical
  counted-Acquired stat v = (
    record {
      cores =
          Cores-same (record { tcbs = λ p. refl; actives = refl; runnings = refl; roots = refl }) c;
      taken = ground arith;
      root_same = value-root v;
    },
    ground arith,
  )

  -- On a consistent kernel whose core runs a thread, where the threads blocked on the semaphore are in
  -- no level, in order of priority and no more than were ever created: a round of `c_wait` ends. If the
  -- semaphore was not 0, the caller goes on with one less and the interrupt mask of its call, the kernel
  -- is consistent and the same threads are blocked; if it was 0, the caller is among the blocked threads
  -- at its place, and `schedule` has chosen as on a consistent kernel.
  pub c_wait-CountingEnds : (stat : Bool) → CountingEnds stat (c_wait cpu now now' sem stat k)
  unfolding c_wait
  c_wait-CountingEnds stat = elim (ℕ_discrete (k.sema sem).value 0) [
    | yes empty ↦
        let (k', e, p) =
          blocked-after (sched_block cpu now now' sem (end_critical cpu false k)) enabled-Parked in
        rw (CountingEnds, empty, e) (empty, p)
    | no some_left ↦
        let b : ((k.sema sem).value == 0) ≡ false = ==_of_ne (k.sema sem).value 0 some_left in
        let (a, m) = counted-Acquired stat ((k.sema sem).value - 1) in
        rw (CountingEnds, b) (some_left, a, m)
  ]
