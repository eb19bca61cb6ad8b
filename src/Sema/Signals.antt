-- ===== src/Sema/Signals.antt =====
-- `b_signal` and `c_signal` as whole calls on a consistent kernel: the first blocked thread is made ready.
use multicore_rtos.Base.{
  ℕ, suc, ◌+◌, ◌%◌, ◌^◌, ◌<◌, ◌≡◌, refl, ◌∙◌, ap, sym, ◌⊎◌, inl, inr, true, false, Bool-cases, leb,
  List, [], ◌∷◌, arith, ◌==◌, ==_of_ne, subst, length,
}
use multicore_rtos.Heap.{Ptr, null}
use multicore_rtos.Sched.{Kernel, ThreadState, schedule, start_critical, end_critical}
use multicore_rtos.Sched.Ready.{state_of, pri_of}
use multicore_rtos.Sched.Choice.{SameThreads}
use multicore_rtos.Sched.Consistent.{Cores, Chosen, schedule-Chosen}
use multicore_rtos.Sched.Finish.{Cores-same}
use multicore_rtos.Sched.Join.{joined}
use multicore_rtos.Sched.Kept.{schedule-Kept}
use multicore_rtos.Sched.Retire.{WaitList, WaitList-same}
use multicore_rtos.Sched.Rejoin.{Dormant}
use multicore_rtos.Sched.Still.{schedule-WaitList}
use multicore_rtos.Sched.Unpark.{
  Woken, sched_unblock-Woken, sched_unblock-run_pt, Dormant-same, sched_unblock-value,
}
use multicore_rtos.Sched.Wait.{sched_unblock}
use multicore_rtos.Sched.Block.{blocked_root}
use multicore_rtos.Sema.{set_value, wake, atomic_clear, b_signal, c_signal}

-- The first blocked thread may be made ready: it is of one of the five levels, not IDLE and on neither
-- core, and its level has room for one more.
abbrev pub MayWake : Ptr → Ptr → Kernel → (ℕ → List Ptr) → List Ptr → Type 0
MayWake t u k q [] = Unit
MayWake t u k q (w ∷ ws) = Dormant w t u k × (suc (length (q (pri_of k w))) < 2 ^ 16)

-- What a signal leaves, by the threads that were blocked: if there are none, all is as before. If not,
-- the others wait on, and the first is ACTIVE at the front of its level; then the caller goes on, if
-- its priority number is larger than the thread's, and if not, `schedule` has chosen.
abbrev pub Signalled :
    ℕ → Ptr → Ptr → Ptr → Ptr → Ptr → Kernel → (ℕ → List Ptr) → List Ptr → Kernel → Type 0
Signalled cpu sem t i u j k q [] k' = Cores t i u j k' q × (blocked_root sem k' ≡ null)
Signalled cpu sem t i u j k q (w ∷ ws) k' =
    WaitList k' (blocked_root sem k') (pri_of k) ws
    × (((leb (pri_of k t) (pri_of k w) ≡ false)
          × Cores t i u j k' (joined k w q)
          × (state_of k' w ≡ ThreadState.active))
        ⊎ ((leb (pri_of k t) (pri_of k w) ≡ true) × Chosen i u j k' (k'.next_run_pt cpu)))

Signalled-same :
    (cpu : ℕ) (sem t i u j : Ptr) (k : Kernel) (q : ℕ → List Ptr) (ws : List Ptr) (k' k'' : Kernel)
    → SameThreads k' k''
    → k''.lifetime_thread_count ≡ k'.lifetime_thread_count
    → k''.next_run_pt cpu ≡ k'.next_run_pt cpu
    → blocked_root sem k'' ≡ blocked_root sem k'
    → Signalled cpu sem t i u j k q ws k'
    → Signalled cpu sem t i u j k q ws k''
Signalled-same cpu sem t i u j k q [] k' k'' s e n r (c, z) = (Cores-same s c, r ∙ z)
Signalled-same cpu sem t i u j k q (w ∷ ws) k' k'' s e n r (l, o) = (
  subst (λ p. WaitList k'' p (pri_of k) ws) (sym r)
      (WaitList-same (blocked_root sem k') (pri_of k) ws s e l),
  elim o [
    | inl (f, c, a) ↦ inl (f, Cores-same s c, ap (λ b. b.state) (s.tcbs w) ∙ a)
    | inr (f, c) ↦ inr (
      f,
      record {
        queues = c.queues;
        cores = subst (λ p. Cores p i u j k'' c.queues) (sym n) (Cores-same s c.cores);
      },
    )
  ],
)

-- The value of the semaphore is no concern of the wake-up.
wake-value :
    (cpu now now' : ℕ) (sem : Ptr) (k : Kernel)
    → ((wake cpu now now' sem k).sema sem).value ≡ (k.sema sem).value
unfolding wake
wake-value cpu now now' sem k =
    let a = sched_unblock-value cpu sem k in
    let b = ap (λ f. (f sem).value) (schedule-Kept cpu now now' (sched_unblock cpu sem k).0).sema in
    elim (Bool-cases ((k.sema sem).bthreads_root == null)) [
      | inl e ↦ rw e refl
      | inr e ↦ elim (Bool-cases (sched_unblock cpu sem k).1) [
        | inl f ↦ rw (e, f) (b ∙ a)
        | inr f ↦ rw (e, f) a
      ]
    ]

module _ (cpu now now' : ℕ) (sem u j : Ptr) (k : Kernel) (q : ℕ → List Ptr)
    (c : Cores (k.run_pt cpu) (k.idle_thread cpu) u j k q) where
  abbrev t : Ptr
  t = k.run_pt cpu

  abbrev i : Ptr
  i = k.idle_thread cpu

  -- a thread is woken
  module _ (w : Ptr) (ws : List Ptr) (m : MayWake t u k q (w ∷ ws))
      (l : WaitList k (blocked_root sem k) (pri_of k) (w ∷ ws)) where
    abbrev k1 : Kernel
    k1 = (sched_unblock cpu sem k).0

    unblocked : Woken t i u j w (blocked_root sem k1) (pri_of k) ws k1 (joined k w q)
    unblocked = (sched_unblock-Woken cpu sem t i u j w k q ws c m.0 m.1 l).0

    Cores-run :
        (q' : ℕ → List Ptr)
        → Cores t i u j k1 q'
        → Cores (k1.run_pt cpu) (k1.idle_thread cpu) u j k1 q'
    Cores-run q' d =
        let same = sched_unblock-run_pt cpu sem k in
        subst (λ f. Cores (f cpu) (k1.idle_thread cpu) u j k1 q') (sym same.0)
          (subst (λ f. Cores t (f cpu) u j k1 q') (sym same.1) d)

    schedule-root : blocked_root sem (schedule cpu now now' k1) ≡ blocked_root sem k1
    schedule-root = ap (λ f. (f sem).bthreads_root) (schedule-Kept cpu now now' k1).sema

    run_cores : Cores (k1.run_pt cpu) (k1.idle_thread cpu) u j k1 (joined k w q)
    run_cores = Cores-run (joined k w q) unblocked.cores

    scheduled :
        WaitList
          (schedule cpu now now' k1)
          (blocked_root sem (schedule cpu now now' k1))
          (pri_of k)
          ws
        × Chosen i u j (schedule cpu now now' k1) ((schedule cpu now now' k1).next_run_pt cpu)
    scheduled =
        let same = (sched_unblock-run_pt cpu sem k).1 in
        let k2 = schedule cpu now now' k1 in
        (
          subst (λ p. WaitList k2 p (pri_of k) ws) (sym schedule-root)
              (schedule-WaitList cpu now now' u j k1 (joined k w q) run_cores (blocked_root sem k1)
                (pri_of k) ws unblocked.waiting),
          subst (λ f. Chosen (f cpu) u j k2 (k2.next_run_pt cpu)) same
              (schedule-Chosen cpu now now' u j k1 (joined k w q) run_cores),
        )

    wake-Signalled_first : Signalled cpu sem t i u j k q (w ∷ ws) (wake cpu now now' sem k)
    unfolding wake
    wake-Signalled_first =
        let some_root : ((k.sema sem).bthreads_root == null) ≡ false =
          ==_of_ne _ null (λ e. l.not_null.0 (sym e ∙ l.line.0)) in
        let answer = (sched_unblock-Woken cpu sem t i u j w k q ws c m.0 m.1 l).1 in
        elim (Bool-cases (leb (pri_of k t) (pri_of k w))) [
          | inl yes_ ↦ rw (some_root, answer ∙ yes_) (scheduled.0, inr (yes_, scheduled.1))
          | inr later ↦
              rw (some_root, answer ∙ later)
                (unblocked.waiting, inl (later, unblocked.cores, unblocked.ready))
        ]

  wake-Signalled :
      (ws : List Ptr)
      → MayWake t u k q ws
      → WaitList k (blocked_root sem k) (pri_of k) ws
      → Signalled cpu sem t i u j k q ws (wake cpu now now' sem k)
  unfolding wake
  wake-Signalled [] m l = rw (l.line) (c, l.line)
  wake-Signalled (w ∷ ws) m l = wake-Signalled_first w ws m l

-- What a whole call of a signal leaves: the semaphore's value, the interrupt mask from before it, and
-- what it has done about the blocked threads.
pub record Ends (cpu : ℕ) (sem u j : Ptr) (value : ℕ) (k : Kernel) (q : ℕ → List Ptr)
    (ws : List Ptr) (k' : Kernel) : Type 0 where
  pub given : (k'.sema sem).value ≡ value
  pub mask : k'.interrupts_off cpu ≡ k.interrupts_off cpu
  pub threads : Signalled cpu sem (k.run_pt cpu) (k.idle_thread cpu) u j k q ws k'

module _ (cpu now now' : ℕ) (sem u j : Ptr) (k : Kernel) (q : ℕ → List Ptr) (ws : List Ptr)
    (c : Cores (k.run_pt cpu) (k.idle_thread cpu) u j k q) (m : MayWake (k.run_pt cpu) u k q ws)
    (l : WaitList k (blocked_root sem k) (pri_of k) ws) where
  -- the kernel with the interrupts off and the new value
  abbrev given_value : ℕ → Kernel
  given_value v = set_value sem v (start_critical cpu k)

  given-same : (v : ℕ) → SameThreads k (given_value v)
  unfolding start_critical
  given-same v = record { tcbs = λ p. refl; actives = refl; runnings = refl; roots = refl }

  given-root : (v : ℕ) → blocked_root sem (given_value v) ≡ blocked_root sem k
  unfolding start_critical
  given-root v = ground arith

  given-MayWake :
      (v : ℕ) (xs : List Ptr)
      → MayWake (k.run_pt cpu) u k q xs
      → MayWake (k.run_pt cpu) u (given_value v) q xs
  unfolding start_critical
  given-MayWake v [] h = tt
  given-MayWake v (x ∷ xs) h = (Dormant-same (given-same v) h.0, h.1)

  threads_of :
      (v : ℕ) (xs : List Ptr) (k' : Kernel)
      → Signalled cpu sem (k.run_pt cpu) (k.idle_thread cpu) u j (given_value v) q xs k'
      → Signalled cpu sem (k.run_pt cpu) (k.idle_thread cpu) u j k q xs k'
  unfolding start_critical
  threads_of v [] k' h = h
  threads_of v (x ∷ xs) k' h = h

  -- a call that gives the semaphore the value `v`
  signal-Ends :
      (v : ℕ)
      → Ends cpu sem u j v k q ws
          (end_critical cpu (k.interrupts_off cpu) (wake cpu now now' sem (given_value v)))
  unfolding start_critical end_critical
  signal-Ends v =
      let s = given-same v in
      let w =
        wake-Signalled cpu now now' sem u j (given_value v) q (Cores-same s c) ws
          (given-MayWake v ws m)
          (subst (λ p. WaitList (given_value v) p (pri_of k) ws) (sym (given-root v))
            (WaitList-same (blocked_root sem k) (pri_of k) ws s refl l)) in
      record {
        given = wake-value cpu now now' sem (given_value v) ∙ ground arith;
        mask = ground arith;
        threads = leave (wake cpu now now' sem (given_value v)) w;
      }
    where
      leave :
          (k' : Kernel)
          → Signalled cpu sem (k.run_pt cpu) (k.idle_thread cpu) u j (given_value v) q ws k'
          → Signalled cpu sem
              (k.run_pt cpu)
              (k.idle_thread cpu)
              u
              j
              k
              q
              ws
              (end_critical cpu (k.interrupts_off cpu) k')
      leave k' h =
          Signalled-same cpu sem (k.run_pt cpu) (k.idle_thread cpu) u j k q ws k' _
            (record { tcbs = λ p. refl; actives = refl; runnings = refl; roots = refl }) refl refl
            refl (threads_of v ws k' h)

  -- On a consistent kernel where the threads blocked on the semaphore are in no level, in order of
  -- priority and no more than were ever created, and the first of them, if there is one, is of one of
  -- the five levels, not IDLE and on neither core, with room in its level: `b_signal` makes the
  -- semaphore 0 and restores the interrupt mask. Where no thread is blocked, the kernel is consistent
  -- with the same threads. If not, the others stay blocked in the same order; where the caller's
  -- priority number is larger than that of the first, that one is ACTIVE at the front of its level and
  -- the caller goes on; where it is not, `schedule` has chosen as on a consistent kernel.
  pub b_signal-Ends : Ends cpu sem u j 0 k q ws (b_signal cpu now now' sem k)
  unfolding b_signal atomic_clear
  b_signal-Ends = signal-Ends 0

  -- On such a kernel, `c_signal` adds one to the semaphore's value where that is from 0 up to 2^31 - 2, so
  -- that an int32_t holds the sum, restores the interrupt mask, and does with the blocked threads what
  -- `b_signal` does.
  pub c_signal-Ends :
      (k.sema sem).value + 1 < 2 ^ 31
      → Ends cpu sem u j ((k.sema sem).value + 1) k q ws (c_signal cpu now now' sem k)
  unfolding c_signal start_critical
  c_signal-Ends small =
      let held : ((k.sema sem).value + 1) % 2 ^ 32 ≡ (k.sema sem).value + 1 =
        omega (arith, small) in
      subst (λ v. Ends cpu sem u j v k q ws (c_signal cpu now now' sem k)) held
        (signal-Ends (((k.sema sem).value + 1) % 2 ^ 32))
