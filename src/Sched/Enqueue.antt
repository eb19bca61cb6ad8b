-- ===== src/Sched/Enqueue.antt =====
-- `enqueue_thread` of os/schedule.c, and the level that it adds a thread to.
use multicore_rtos.Base.{ℕ, suc, ◌+◌, ◌%◌, ◌^◌, ◌<◌, ◌≡◌, ◌≢◌, List, [], ◌∷◌, arith, length}
use multicore_rtos.Heap.{Ptr, null}
use multicore_rtos.Sched.{
  Kernel, ThreadState, is_running, is_active, enqueue_thread, link_front, link_alone,
}
use multicore_rtos.Sched.Links.{NotIn}
use multicore_rtos.Sched.Ring.{Queue, enqueue_thread-Queue}
use multicore_rtos.Sched.Ready.{Ready, Rooted, state_of, pri_of, tally, tally-frame, AllAt-frame}

module _ (t : Ptr) (k : Kernel) where
  pub enqueue-state : state_of (enqueue_thread t k) t ≡ ThreadState.active
  unfolding enqueue_thread link_front link_alone
  enqueue-state = ground arith

  pub enqueue-state_ne : (x : Ptr) → x ≢ t → state_of (enqueue_thread t k) x ≡ state_of k x
  unfolding enqueue_thread link_front link_alone
  enqueue-state_ne x ne = ground arith

  pub enqueue-pri : (x : Ptr) → pri_of (enqueue_thread t k) x ≡ pri_of k x
  unfolding enqueue_thread link_front link_alone
  enqueue-pri x = ground arith

  enqueue-active :
      (enqueue_thread t k).active_priority_count (k.tcb t).priority
      ≡ (k.active_priority_count (k.tcb t).priority + 1) % 2 ^ 16
  unfolding enqueue_thread link_front link_alone
  enqueue-active = ground arith

  enqueue-running : (enqueue_thread t k).running_priority_count ≡ k.running_priority_count
  unfolding enqueue_thread link_front link_alone
  enqueue-running = ground arith

pub Queue-Ready :
    {k : Kernel} {pri : ℕ} (xs : List Ptr) → Ready k pri xs → Rooted k pri xs → Queue k pri xs
Queue-Ready [] r root = root
Queue-Ready (x ∷ xs) r root = (root, r.cycle, r.distinct, r.not_null)

Ready-Queue_parts :
    (k : Kernel) (pri : ℕ) (x : Ptr) (xs : List Ptr) → Queue k pri (x ∷ xs) → Rooted k pri (x ∷ xs)
Ready-Queue_parts k pri x xs q = q.0

module _ (t : Ptr) (k : Kernel) (xs : List Ptr) (ne : t ≢ null) (r : Ready k (pri_of k t) xs)
    (root : Rooted k (pri_of k t) xs) (out : NotIn t xs) (room : suc (length xs) < 2 ^ 16) where
  abbrev k' : Kernel
  k' = enqueue_thread t k

  queue' : Queue k' (pri_of k t) (t ∷ xs)
  queue' = enqueue_thread-Queue t k xs ne (Queue-Ready xs r root) out

  actives' : tally is_active (state_of k') (t ∷ xs) ≡ suc (tally is_active (state_of k) xs)
  actives' =
      rw
        (
          enqueue-state t k,
          tally-frame is_active (state_of k) (state_of k') t xs out (enqueue-state_ne t k),
        )
        (omega arith)

  runnings' : tally is_running (state_of k') (t ∷ xs) ≡ tally is_running (state_of k) xs
  runnings' =
      rw
        (
          enqueue-state t k,
          tally-frame is_running (state_of k) (state_of k') t xs out (enqueue-state_ne t k),
        )
        (omega arith)

  -- Where the level of a thread satisfies its invariant, the thread is not in the level's list, its
  -- address is not NULL and the longer list has fewer than 2^16 threads, `enqueue_thread` puts it
  -- at the front of the list as an ACTIVE thread and the level satisfies its invariant again: the
  -- links of the longer list close, its root is the thread and both counters are right.
  pub enqueue_thread-Ready : Ready k' (pri_of k t) (t ∷ xs) × Rooted k' (pri_of k t) (t ∷ xs)
  enqueue_thread-Ready = (
    record {
      cycle = queue'.1;
      distinct = queue'.2;
      not_null = queue'.3;
      level =
          (enqueue-pri t k t, AllAt-frame (pri_of k) (pri_of k') _ xs (enqueue-pri t k) r.level);
      actives = omega (arith, actives', enqueue-active t k, r.actives, r.ready, room);
      runnings = rw (enqueue-running t k, runnings') r.runnings;
      ready = omega (arith, actives', runnings', r.ready);
      small = room;
    },
    queue'.0,
  )
