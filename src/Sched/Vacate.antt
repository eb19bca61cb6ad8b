-- ===== src/Sched/Vacate.antt =====
-- A running thread that `dequeue_thread` takes out of its level, with the state that it then gets.
use multicore_rtos.Base.{ℕ, ◌<◌, ◌≡◌, refl, ◌≢◌, ◌∙◌, ap, sym, subst, List, arith}
use native.Mathlib.Decide.{ℕ_discrete}
use multicore_rtos.Heap.{Ptr}
use multicore_rtos.Sched.{Kernel, ThreadState, dequeue_thread, set_state}
use multicore_rtos.Sched.Ready.{state_of, pri_of}
use multicore_rtos.Sched.Change.{In, Rooted-same, weight}
use multicore_rtos.Sched.PutBack.{Levels}
use multicore_rtos.Sched.Consistent.{Cores, idle-ne-running}
use multicore_rtos.Sched.Apart.{Untouched, Ready-Untouched}
use multicore_rtos.Sched.Leave.{Left, dequeue_thread-Left}
use multicore_rtos.Sched.Dequeue.{dequeue-state, dequeue-pri}

set_state-Untouched :
    (t : Ptr) (s : ThreadState) (k : Kernel) (x : Ptr) → x ≢ t → Untouched k (set_state t s k) x
set_state-Untouched t s k x ne = record {
  next = ground arith;
  prev = ground arith;
  pri = ground arith;
  state = ground arith;
}

set_state-Levels :
    (t : Ptr) (s : ThreadState) (k : Kernel) (q : ℕ → List Ptr)
    → ((p : ℕ) (x : Ptr) → p < 5 → In x (q p) → x ≢ t)
    → Levels k q
    → Levels (set_state t s k) q
set_state-Levels t s k q out l = record {
  ready = λ p lt.
      Ready-Untouched k (set_state t s k) p (q p)
        (λ x i. set_state-Untouched t s k x (out p x lt i))
        (record { active_same = refl; running_same = refl }) (l.ready p lt);
  rooted = λ p lt. Rooted-same k (set_state t s k) p (q p) refl (l.rooted p lt);
  idle_level = l.idle_level;
}

pub weightless-ne-running : {s : ThreadState} → weight s ≡ 0 → s ≢ ThreadState.running
weightless-ne-running {s} w e = absurd (omega (arith, sym w ∙ ap weight e))

pub weightless-ne-active : {s : ThreadState} → weight s ≡ 0 → s ≢ ThreadState.active
weightless-ne-active {s} w e = absurd (omega (arith, sym w ∙ ap weight e))

-- the kernel once the thread has left with its new state
abbrev pub vacated : Ptr → ThreadState → Kernel → Kernel
vacated t s k = set_state t s (dequeue_thread t k)

pub record GaveUp (t i u j : Ptr) (k' : Kernel) : Type 0 where
  pub queues : ℕ → List Ptr
  pub cores : Cores t i u j k' queues

module _ (t i u j : Ptr) (s : ThreadState) (k : Kernel) (q : ℕ → List Ptr) (c : Cores t i u j k q)
    (run : state_of k t ≡ ThreadState.running) (off : weight s ≡ 0) where
  abbrev k' : Kernel
  k' = vacated t s k

  pub vacated-state : state_of k' t ≡ s
  vacated-state = ground arith

  pub vacated-state_ne : (x : Ptr) → x ≢ t → state_of k' x ≡ state_of k x
  vacated-state_ne x ne = let d = dequeue-state t k x in ground arith

  pub vacated-pri : (x : Ptr) → pri_of k' x ≡ pri_of k x
  vacated-pri x = let d = dequeue-pri t k x in ground arith

  pub vacated-GaveUp : GaveUp t i u j k'
  vacated-GaveUp = record {
    queues = left.queues;
    cores = record {
      levels = set_state-Levels t s (dequeue_thread t k) left.queues left.gone left.levels;
      listed_here = λ r. absurd (not_running r);
      listed_there = λ r.
          let ne : u ≢ t = λ e. not_running (ap (state_of k') (sym e) ∙ r) in
          let h = c.listed_there (sym (vacated-state_ne u ne) ∙ r) in
          subst (λ p. (p < 5) × In u (left.queues p)) (sym (vacated-pri u))
            (h.0, left.kept (pri_of k u) u ne h.1);
      on_cores = λ x r.
          let ne : x ≢ t = λ e. not_running (ap (state_of k') (sym e) ∙ r) in
          c.on_cores x (sym (vacated-state_ne x ne) ∙ r);
      idle_here = vacated-state_ne i (not_t i c.idle_here) ∙ c.idle_here;
      idle_there = vacated-state_ne j (not_t j c.idle_there) ∙ c.idle_there;
      busy_here = λ a. weightless-ne-active off (sym vacated-state ∙ a);
      busy_there = λ a. elim (ℕ_discrete u t) [
        | yes e ↦ weightless-ne-active off (sym vacated-state ∙ ap (state_of k') (sym e) ∙ a)
        | no ne ↦ c.busy_there (sym (vacated-state_ne u ne) ∙ a)
      ];
      apart = λ r. absurd (not_running r);
    };
  }
    where
      left : Left (dequeue_thread t k) t q
      left = let h = c.listed_here run in dequeue_thread-Left t k q run h.0 h.1 c.levels

      not_running : state_of k' t ≢ ThreadState.running
      not_running r = weightless-ne-running off (sym vacated-state ∙ r)

      not_t : (x : Ptr) → state_of k x ≡ ThreadState.idle → x ≢ t
      not_t x idle e = idle-ne-running idle (ap (state_of k) e ∙ run)
