-- ===== src/Sched/Unpark.antt =====
-- `sched_unblock` of os/schedule.c as a whole: the first of the blocked threads goes back into its
-- level.
use multicore_rtos.Base.{
  ℕ, suc, ◌^◌, ◌<◌, ◌≡◌, refl, ◌∙◌, ap, sym, subst, Bool, leb, List, ◌∷◌, arith, length, update,
}
use multicore_rtos.Heap.{Ptr}
use multicore_rtos.Sched.{
  Kernel, ThreadState, enqueue_thread, lock, unlock, start_critical, end_critical, link_front,
  link_alone,
}
use multicore_rtos.Sched.Ring.{next_of}
use multicore_rtos.Sched.Ready.{state_of, pri_of}
use multicore_rtos.Sched.Choice.{SameThreads}
use multicore_rtos.Sched.Change.{weight}
use multicore_rtos.Sched.Consistent.{Cores}
use multicore_rtos.Sched.Enqueue.{enqueue-pri}
use multicore_rtos.Sched.Line.{tick_of}
use multicore_rtos.Sched.Finish.{Cores-same, leave-same}
use multicore_rtos.Sched.Retire.{WaitList, WaitList-same}
use multicore_rtos.Sched.Wait.{sched_unblock, set_bthreads_root}
use multicore_rtos.Sched.Block.{blocked_root}
use multicore_rtos.Sched.Join.{joined}
use multicore_rtos.Sched.Rejoin.{
  Dormant, enqueue-state, enqueue-run_pt, enqueue-sema, enqueue_thread-Cores, enqueue_thread-Line,
  enqueue_thread-AllOut,
}

enqueue-count :
    (t : Ptr) (k : Kernel) → (enqueue_thread t k).lifetime_thread_count ≡ k.lifetime_thread_count
unfolding enqueue_thread link_front link_alone
enqueue-count t k = ground arith

enqueue-tick : (t : Ptr) (k : Kernel) (x : Ptr) → tick_of (enqueue_thread t k) x ≡ tick_of k x
unfolding enqueue_thread link_front link_alone
enqueue-tick t k x = ground arith

pub Dormant-same :
    {w t u : Ptr} {k k' : Kernel} → SameThreads k k' → Dormant w t u k → Dormant w t u k'
Dormant-same {w} {t} {u} {k} {k'} s d = record {
  some_thread = d.some_thread;
  in_range = subst (λ p. p < 5) (sym (ap (λ b. b.priority) (s.tcbs w))) d.in_range;
  out = ap (λ b. weight b.state) (s.tcbs w) ∙ d.out;
  not_idle = λ e. d.not_idle (sym (ap (λ b. b.state) (s.tcbs w)) ∙ e);
  not_here = d.not_here;
  not_there = d.not_there;
}

-- The thread is ready again, on a consistent kernel, and the others go on waiting in order.
pub record Woken (t i u j w : Ptr) (root : Ptr) (key : Ptr → ℕ) (ws : List Ptr) (k' : Kernel)
    (q : ℕ → List Ptr) : Type 0 where
  pub cores : Cores t i u j k' q
  pub ready : state_of k' w ≡ ThreadState.active
  pub waiting : WaitList k' root key ws

-- Of a kernel that has let go of the first of its waiting threads.
module _ (t i u j w root : Ptr) (key : Ptr → ℕ) (ws : List Ptr) (k : Kernel) (q : ℕ → List Ptr)
    (c : Cores t i u j k q) (d : Dormant w t u k) (room : suc (length (q (pri_of k w))) < 2 ^ 16)
    (l : WaitList k root key (w ∷ ws)) where
  enqueue_thread-Woken : Woken t i u j w (next_of k w) key ws (enqueue_thread w k) (joined k w q)
  enqueue_thread-Woken = record {
    cores = enqueue_thread-Cores w t i u j k q c d room;
    ready = enqueue-state w k;
    waiting = record {
      line =
          enqueue_thread-Line w t i u j k q c d room (next_of k w) ws l.out.1 l.distinct.0 l.line.1;
      distinct = l.distinct.1;
      not_null = l.not_null.1;
      out = enqueue_thread-AllOut w t i u j k q c d room ws l.out.1 l.distinct.0;
      sorted = l.sorted.1;
      few = omega (arith, enqueue-count w k, l.few);
    };
  }

Woken-same :
    {t i u j w root : Ptr} {key : Ptr → ℕ} {ws : List Ptr} {k k' : Kernel} {q : ℕ → List Ptr}
    → SameThreads k k'
    → k'.lifetime_thread_count ≡ k.lifetime_thread_count
    → Woken t i u j w root key ws k q
    → Woken t i u j w root key ws k' q
Woken-same {w = w} {root = root} {key = key} {ws = ws} s e a = record {
  cores = Cores-same s a.cores;
  ready = ap (λ b. b.state) (s.tcbs w) ∙ a.ready;
  waiting = WaitList-same root key ws s e a.waiting;
}

leave-count :
    (cpu : ℕ) (m : Bool) (k : Kernel)
    → (end_critical cpu m (unlock k)).lifetime_thread_count ≡ k.lifetime_thread_count
unfolding unlock end_critical
leave-count cpu m k = refl

module _ (t i u j w root : Ptr) (key : Ptr → ℕ) (ws : List Ptr) (k k' : Kernel) (q : ℕ → List Ptr)
    (s : SameThreads k k') (e : k'.lifetime_thread_count ≡ k.lifetime_thread_count)
    (c : Cores t i u j k q) (d : Dormant w t u k) (room : suc (length (q (pri_of k w))) < 2 ^ 16)
    (l : WaitList k root key (w ∷ ws)) where
  -- The whole call, from its critical section on, where `k'` is the kernel that `enqueue_thread` gets.
  pub wake-Woken :
      (cpu : ℕ) (m : Bool)
      → Woken t i u j w
          (next_of k w)
          key
          ws
          (end_critical cpu m (unlock (enqueue_thread w k')))
          (joined k w q)
  wake-Woken cpu m =
      let pri : pri_of k' w ≡ pri_of k w = ap (λ b. b.priority) (s.tcbs w) in
      let next : next_of k' w ≡ next_of k w = ap (λ b. b.next_tcb) (s.tcbs w) in
      let a =
        enqueue_thread-Woken t i u j w root key ws k' q (Cores-same s c) (Dormant-same s d)
          (subst (λ p. suc (length (q p)) < 2 ^ 16) (sym pri) room)
          (WaitList-same root key (w ∷ ws) s e l) in
      let b =
        Woken-same (leave-same cpu m (enqueue_thread w k'))
          (leave-count cpu m (enqueue_thread w k')) a in
      subst
        (λ p.
          Woken t i u j w (next_of k w) key ws (end_critical cpu m (unlock (enqueue_thread w k')))
            (update q p (w ∷ q p)))
        pri
        (subst
          (λ r.
            Woken t i u j w r key ws (end_critical cpu m (unlock (enqueue_thread w k')))
              (joined k' w q))
          next b)

module _ (cpu : ℕ) (sem t i u j w : Ptr) (k : Kernel) (q : ℕ → List Ptr) (ws : List Ptr)
    (c : Cores t i u j k q) (d : Dormant w t u k) (room : suc (length (q (pri_of k w))) < 2 ^ 16)
    (l : WaitList k (blocked_root sem k) (pri_of k) (w ∷ ws)) where
  abbrev kl : Kernel
  kl = lock (start_critical cpu k)

  -- what `enqueue_thread` gets
  abbrev popped : Kernel
  popped = set_bthreads_root sem (next_of kl (blocked_root sem kl)) kl

  popped-same : SameThreads k popped
  unfolding lock start_critical
  popped-same = record { tcbs = λ p. refl; actives = refl; runnings = refl; roots = refl }

  popped-count : popped.lifetime_thread_count ≡ k.lifetime_thread_count
  unfolding lock start_critical
  popped-count = refl

  popped-root : blocked_root sem popped ≡ next_of k w
  unfolding lock start_critical
  popped-root =
      let e : blocked_root sem popped ≡ next_of k (blocked_root sem k) = ground arith in
      e ∙ ap (λ p. next_of k p) l.line.0

  unblock-after :
      (sched_unblock cpu sem k).0
      ≡ end_critical cpu (k.interrupts_off cpu) (unlock (enqueue_thread w popped))
  unfolding sched_unblock lock start_critical
  unblock-after =
      ap (λ p. end_critical cpu (k.interrupts_off cpu) (unlock (enqueue_thread p popped))) l.line.0

  abbrev after : Kernel
  after = end_critical cpu (k.interrupts_off cpu) (unlock (enqueue_thread w popped))

  after-root : blocked_root sem after ≡ next_of k w
  unfolding unlock end_critical
  after-root = ap (λ f. (f sem).bthreads_root) (enqueue-sema w popped) ∙ popped-root

  after-pri : (x : Ptr) → pri_of after x ≡ pri_of k x
  unfolding unlock end_critical
  after-pri x = enqueue-pri w popped x ∙ ap (λ b. b.priority) (popped-same.tcbs x)

  after-run_pt : after.run_pt ≡ k.run_pt
  unfolding unlock end_critical lock start_critical
  after-run_pt = enqueue-run_pt w popped

  unblock-answer :
      (sched_unblock cpu sem k).1 ≡ leb (pri_of after (after.run_pt cpu)) (pri_of after w)
  unfolding sched_unblock lock start_critical
  unblock-answer =
      ap
        (λ p.
          let a = end_critical cpu (k.interrupts_off cpu) (unlock (enqueue_thread p popped)) in
          leb (pri_of a (a.run_pt cpu)) (pri_of a p))
        l.line.0

  -- On a consistent kernel where the first thread blocked on a semaphore is of one of the five
  -- levels, of a state that is not IDLE and on neither core, its level's longer list has fewer than
  -- 2^16 threads, and the blocked threads are in no level, in order of priority and no more than were
  -- ever created: after `sched_unblock` the kernel is consistent with the thread ACTIVE at the front
  -- of its level, the other threads are blocked in the same order, and the answer tells whether the
  -- caller's priority number is at most the thread's.
  pub sched_unblock-Woken :
      Woken t i u j w
        (blocked_root sem (sched_unblock cpu sem k).0)
        (pri_of k)
        ws
        (sched_unblock cpu sem k).0
        (joined k w q)
      × ((sched_unblock cpu sem k).1 ≡ leb (pri_of k (k.run_pt cpu)) (pri_of k w))
  sched_unblock-Woken =
      let a =
        wake-Woken t i u j w (blocked_root sem k) (pri_of k) ws k popped q popped-same popped-count
          c d room l cpu (k.interrupts_off cpu) in
      (
        subst (λ x. Woken t i u j w (blocked_root sem x) (pri_of k) ws x (joined k w q))
            (sym unblock-after)
            (subst (λ r. Woken t i u j w r (pri_of k) ws after (joined k w q)) (sym after-root) a),
        unblock-answer
            ∙ ap (λ f. leb (pri_of after (f cpu)) (pri_of after w)) after-run_pt
            ∙ ap (λ n. leb n (pri_of after w)) (after-pri (k.run_pt cpu))
            ∙ ap (λ n. leb (pri_of k (k.run_pt cpu)) n) (after-pri w),
      )

-- Waking a thread leaves the cores' threads alone.
pub sched_unblock-run_pt :
    (cpu : ℕ) (sem : Ptr) (k : Kernel)
    → ((sched_unblock cpu sem k).0.run_pt ≡ k.run_pt)
      × ((sched_unblock cpu sem k).0.idle_thread ≡ k.idle_thread)
unfolding sched_unblock lock unlock start_critical end_critical enqueue_thread link_front link_alone
sched_unblock-run_pt cpu sem k = (ground arith, ground arith)

-- Nor is the value of the semaphore any concern of it.
pub sched_unblock-value :
    (cpu : ℕ) (sem : Ptr) (k : Kernel)
    → ((sched_unblock cpu sem k).0.sema sem).value ≡ (k.sema sem).value
unfolding sched_unblock lock unlock start_critical end_critical enqueue_thread link_front link_alone
sched_unblock-value cpu sem k = ground arith
