-- ===== src/Sched/Dequeue.antt =====
-- `dequeue_thread` of os/schedule.c, and the level that it takes the running thread from.
use multicore_rtos.Base.{
  ℕ, suc, ◌+◌, ◌-◌, ◌%◌, ◌^◌, ◌<◌, ◌≡◌, refl, ◌≢◌, ◌∙◌, Bool, List, [], ◌∷◌, arith, length,
}
use multicore_rtos.Heap.{Ptr, null}
use multicore_rtos.Sched.{
  Kernel, ThreadState, is_running, is_active, dequeue_thread, unlink, sub_running,
}
use multicore_rtos.Sched.Links.{NotIn-last, Cycle, last, prev-last, Chain-retarget}
use multicore_rtos.Sched.Ring.{next_of, prev_of}
use multicore_rtos.Sched.Ready.{Ready, Rooted, state_of, pri_of, tally, AllAt-frame}

unlink-state :
    (pri : ℕ) (t : Ptr) (k : Kernel) (x : Ptr) → state_of (unlink pri t k) x ≡ state_of k x
unfolding unlink
unlink-state pri t k x = ground arith

module _ (t : Ptr) (k : Kernel) where
  pub dequeue-state : (x : Ptr) → state_of (dequeue_thread t k) x ≡ state_of k x
  unfolding dequeue_thread
  dequeue-state x = ground (
    arith,
    unlink-state (pri_of k t) t k x,
    unlink-state (pri_of k t) t (sub_running (pri_of k t) k) x,
  )

  pub dequeue-pri : (x : Ptr) → pri_of (dequeue_thread t k) x ≡ pri_of k x
  unfolding dequeue_thread unlink
  dequeue-pri x = ground arith

  dequeue-active : (dequeue_thread t k).active_priority_count ≡ k.active_priority_count
  unfolding dequeue_thread unlink
  dequeue-active = ground arith

  dequeue-running :
      state_of k t ≡ ThreadState.running
      → (dequeue_thread t k).running_priority_count (pri_of k t)
        ≡ (k.running_priority_count (pri_of k t) + 2 ^ 16 - 1) % 2 ^ 16
  unfolding dequeue_thread unlink
  dequeue-running e = ground arith

  -- the last thread of its level
  dequeue-alone :
      state_of k t ≡ ThreadState.running
      → k.active_priority_count (pri_of k t) ≡ 0
      → k.running_priority_count (pri_of k t) ≡ 1
      → (dequeue_thread t k).thread_schedule (pri_of k t) ≡ null
  unfolding dequeue_thread unlink
  dequeue-alone e a r = ground arith

  -- another thread remains: `b` follows and `l` precedes
  module _ (b l : Ptr) (e : state_of k t ≡ ThreadState.running) (nb : next_of k t ≡ b)
      (pl : prev_of k t ≡ l) (tb : t ≢ b) (tl : t ≢ l)
      (more : k.active_priority_count (pri_of k t) + k.running_priority_count (pri_of k t) ≢ 1)
      (some_running : 0 < k.running_priority_count (pri_of k t))
      (few : k.running_priority_count (pri_of k t) < 2 ^ 16) where
    dequeue-root : (dequeue_thread t k).thread_schedule (pri_of k t) ≡ b
    unfolding dequeue_thread unlink
    dequeue-root = ground arith

    pub dequeue-next_ne : (x : Ptr) → x ≢ l → x ≢ t → next_of (dequeue_thread t k) x ≡ next_of k x
    unfolding dequeue_thread unlink
    dequeue-next_ne x xl xt = ground arith

    dequeue-next_last : next_of (dequeue_thread t k) l ≡ b
    unfolding dequeue_thread unlink
    dequeue-next_last = ground arith

    pub dequeue-prev_ne : (x : Ptr) → x ≢ t → x ≢ b → prev_of (dequeue_thread t k) x ≡ prev_of k x
    unfolding dequeue_thread unlink
    dequeue-prev_ne x xt xb = ground arith

    dequeue-prev_next : prev_of (dequeue_thread t k) b ≡ l
    unfolding dequeue_thread unlink
    dequeue-prev_next = ground arith

module _ (t : Ptr) (k : Kernel) (run : state_of k t ≡ ThreadState.running) where
  abbrev k' : Kernel
  k' = dequeue_thread t k

  abbrev pri : ℕ
  pri = pri_of k t

  tally_tail :
      (f : ThreadState → Bool) (xs : List Ptr) → tally f (state_of k') xs ≡ tally f (state_of k) xs
  tally_tail f [] = refl
  tally_tail f (x ∷ xs) = rw (dequeue-state t k x, tally_tail f xs)

  pub tally-run :
      (xs : List Ptr)
      → tally is_running (state_of k) (t ∷ xs) ≡ suc (tally is_running (state_of k) xs)
  tally-run xs = rw run (omega arith)

  pub tally-act :
      (xs : List Ptr) → tally is_active (state_of k) (t ∷ xs) ≡ tally is_active (state_of k) xs
  tally-act xs = rw run (omega arith)

  module _ (xs : List Ptr) (r : Ready k pri (t ∷ xs)) where
    actives_left : k'.active_priority_count pri ≡ tally is_active (state_of k') xs
    actives_left = rw (dequeue-active t k, tally_tail is_active xs) (r.actives ∙ tally-act xs)

    runnings_left : k'.running_priority_count pri ≡ tally is_running (state_of k') xs
    runnings_left =
        rw (dequeue-running t k run, tally_tail is_running xs)
          (omega (arith, r.runnings, tally-run xs, r.ready, r.small))

    ready_left : tally is_active (state_of k') xs + tally is_running (state_of k') xs ≡ length xs
    ready_left =
        rw (tally_tail is_active xs, tally_tail is_running xs)
          (omega (arith, r.ready, tally-run xs, tally-act xs))

    left_of : Cycle (next_of k') (prev_of k') xs → Ready k' pri xs
    left_of c = record {
      cycle = c;
      distinct = r.distinct.1;
      not_null = r.not_null.1;
      level = AllAt-frame (pri_of k) (pri_of k') pri xs (dequeue-pri t k) r.level.1;
      actives = actives_left;
      runnings = runnings_left;
      ready = ready_left;
      small = omega (arith, r.small);
    }

  -- Where the level of a RUNNING thread satisfies its invariant, `dequeue_thread` takes the thread
  -- out and the level satisfies its invariant again: the links of the others close, their first
  -- thread is the root, which is NULL when none is left, and both counters are right.
  pub dequeue_thread-Ready :
      (xs : List Ptr) → Ready k pri (t ∷ xs) → Ready k' pri xs × Rooted k' pri xs
  dequeue_thread-Ready [] r = (
    left_of [] r tt,
    dequeue-alone t k run (omega (arith, r.actives, tally-act []))
        (omega (arith, r.runnings, tally-run [])),
  )
  dequeue_thread-Ready (b ∷ xs) r =
      (left_of (b ∷ xs) r closed, dequeue-root t k b l run r.cycle.0 before tb tl many busy few)
    where
      l : Ptr
      l = last b xs

      before : prev_of k t ≡ l
      before = prev-last (next_of k) (prev_of k) b xs t r.cycle.2

      tb : t ≢ b
      tb = r.distinct.0.0

      tl : t ≢ l
      tl = NotIn-last t b xs r.distinct.0

      many : k.active_priority_count pri + k.running_priority_count pri ≢ 1
      many = omega (arith, r.actives, r.runnings, r.ready)

      busy : 0 < k.running_priority_count pri
      busy = omega (arith, r.runnings, tally-run (b ∷ xs))

      few : k.running_priority_count pri < 2 ^ 16
      few = omega (arith, r.runnings, r.ready, r.small)

      closed : Cycle (next_of k') (prev_of k') (b ∷ xs)
      closed =
          Chain-retarget (next_of k) (prev_of k) (next_of k') (prev_of k') b xs t b t r.cycle.2
            r.distinct.1 r.distinct.0.1 r.distinct.1.0 r.distinct.0
            (dequeue-next_ne t k b l run r.cycle.0 before tb tl many busy few)
            (dequeue-prev_ne t k b l run r.cycle.0 before tb tl many busy few)
            (dequeue-next_last t k b l run r.cycle.0 before tb tl many busy few)
            (dequeue-prev_next t k b l run r.cycle.0 before tb tl many busy few)
