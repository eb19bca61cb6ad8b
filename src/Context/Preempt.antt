-- ===== src/Context/Preempt.antt =====
-- systick_handler and then pendSV_handler, on either core: the scheduler as the timer drives it.
use multicore_rtos.Base.{
  ℕ, ◌<◌, ◌≡◌, refl, ◌≢◌, ◌∙◌, ap, sym, subst, List, update_self, update_ne, arith,
}
use multicore_rtos.Heap.{Ptr, null}
use multicore_rtos.Sched.{Kernel, schedule}
use multicore_rtos.Sched.Ready.{state_of, pri_of}
use multicore_rtos.Sched.Change.{In, Changed, SameCounts, Ready-same, Rooted-same}
use multicore_rtos.Sched.PutBack.{Levels}
use multicore_rtos.Sched.Consistent.{
  Cores, Cores-swap, schedule-Chosen, schedule-run_pt, schedule-idle_thread,
}
use multicore_rtos.Context.{Core, switch_threads, pend_sv_handler, systick_handler, preempt}
use multicore_rtos.Context.Resume.{switched}

-- The state is consistent for the core and the other one.
abbrev pub At : ℕ → ℕ → Kernel → (ℕ → List Ptr) → Type 0
At cpu other k q =
    Cores (k.run_pt cpu) (k.idle_thread cpu) (k.run_pt other) (k.idle_thread other) k q

module _ (cpu : ℕ) (c : Core) (k : Kernel) where
  abbrev k' : Kernel
  k' = switched cpu c k

  pub switch-Changed : Changed null k k'
  unfolding pend_sv_handler switch_threads
  switch-Changed = record {
    next_same = λ x. ground arith;
    prev_same = λ x. ground arith;
    pri_same = λ x. ground arith;
    state_same = λ x ne. ground arith;
  }

  pub switch-state : (x : Ptr) → state_of k' x ≡ state_of k x
  unfolding pend_sv_handler switch_threads
  switch-state x = ground arith

  pub switch-counts : (p : ℕ) → SameCounts p k k'
  unfolding pend_sv_handler switch_threads
  switch-counts p = record { active_same = refl; running_same = refl }

  switch-Levels : {q : ℕ → List Ptr} → Levels k q → Levels k' q
  unfolding pend_sv_handler
  switch-Levels {q} l = record {
    ready = λ p lt.
        Ready-same {t = null} (q p) switch-Changed switch-state (switch-counts p) (l.ready p lt);
    rooted = λ p lt. Rooted-same k k' p (q p) same_root (l.rooted p lt);
    idle_level = same_idle l.idle_level;
  }
    where
      same_root : {p : ℕ} → k'.thread_schedule p ≡ k.thread_schedule p
      same_root = refl

      same_idle : k.active_priority_count 5 ≢ 0 → k'.active_priority_count 5 ≢ 0
      same_idle ne = ne

  pub switch-Cores : {t i u j : Ptr} {q : ℕ → List Ptr} → Cores t i u j k q → Cores t i u j k' q
  switch-Cores {t} {i} {u} {j} {q} co = record {
    levels = switch-Levels co.levels;
    listed_here = λ r. listed t (co.listed_here (sym (switch-state t) ∙ r));
    listed_there = λ r. listed u (co.listed_there (sym (switch-state u) ∙ r));
    on_cores = λ x r. co.on_cores x (sym (switch-state x) ∙ r);
    idle_here = switch-state i ∙ co.idle_here;
    idle_there = switch-state j ∙ co.idle_there;
    busy_here = λ a. co.busy_here (sym (switch-state t) ∙ a);
    busy_there = λ a. co.busy_there (sym (switch-state u) ∙ a);
    apart = λ r. co.apart (sym (switch-state t) ∙ r);
  }
    where
      listed :
          (x : Ptr)
          → (pri_of k x < 5) × In x (q (pri_of k x))
          → (pri_of k' x < 5) × In x (q (pri_of k' x))
      listed x h = subst (λ p. (p < 5) × In x (q p)) (sym (switch-Changed.pri_same x)) h

  -- The core's thread is now the one that was next; all else that `Cores` names stays.
  pub switch-here : k'.run_pt cpu ≡ k.next_run_pt cpu
  unfolding pend_sv_handler switch_threads
  switch-here = update_self k.run_pt cpu _

  pub switch-there : (other : ℕ) → other ≢ cpu → k'.run_pt other ≡ k.run_pt other
  unfolding pend_sv_handler switch_threads
  switch-there other ne = update_ne k.run_pt cpu _ ne

  pub switch-idle : k'.idle_thread ≡ k.idle_thread
  unfolding pend_sv_handler switch_threads
  switch-idle = refl

pub Cores-at :
    {t t' i i' u u' j j' : Ptr} {k : Kernel} {q : ℕ → List Ptr}
    → t' ≡ t
    → i' ≡ i
    → u' ≡ u
    → j' ≡ j
    → Cores t i u j k q
    → Cores t' i' u' j' k q
Cores-at {t} {t'} {i} {i'} {u} {u'} {j} {j'} {k} {q} a b c d co = rw (a, b, c, d) co

-- The context switch after `schedule` keeps what it has chosen consistent.
pub chosen-At :
    (cpu other now now' : ℕ) (c : Core) (k : Kernel) (q : ℕ → List Ptr)
    → other ≢ cpu
    → Cores
        ((schedule cpu now now' k).next_run_pt cpu)
        (k.idle_thread cpu)
        (k.run_pt other)
        (k.idle_thread other)
        (schedule cpu now now' k)
        q
    → At cpu other (preempt cpu now now' c k).1 q
unfolding preempt systick_handler
chosen-At cpu other now now' c k q ne co =
    let k1 = schedule cpu now now' k in
    let idle = switch-idle cpu c k1 ∙ schedule-idle_thread cpu now now' k in
    Cores-at (switch-here cpu c k1) (ap (λ f. f cpu) idle)
      (switch-there cpu c k1 other ne ∙ ap (λ f. f other) (schedule-run_pt cpu now now' k))
      (ap (λ f. f other) idle) (switch-Cores cpu c k1 co)

-- A tick of one core leaves a consistent state.
pub preempt-At :
    (cpu other now now' : ℕ) (c : Core) (k : Kernel) (q : ℕ → List Ptr)
    → other ≢ cpu
    → At cpu other k q
    → (q' : ℕ → List Ptr) × At cpu other (preempt cpu now now' c k).1 q'
preempt-At cpu other now now' c k q ne co =
    let ch = schedule-Chosen cpu now now' (k.run_pt other) (k.idle_thread other) k q co in
    (ch.queues, chosen-At cpu other now now' c k ch.queues ne ch.cores)

-- Ticks of the two cores, each as a whole, in any order, at any readings of the clock, with whatever the registers hold.
pub data Ticks (k : Kernel) : Kernel → Type 0 where
  here : Ticks k k
  first : {k' : Kernel} (now now' : ℕ) (c : Core) → Ticks k k' → Ticks k (preempt 0 now now' c k').1
  second :
      {k' : Kernel} (now now' : ℕ) (c : Core) → Ticks k k' → Ticks k (preempt 1 now now' c k').1

-- Where the state is consistent for the two cores, it stays so whatever the order in which they take
-- their ticks, each of which is the systick and then the context switch without the other core in
-- between: every level keeps its invariant, a RUNNING thread is that of a core and in the list of its
-- level, the idle threads are IDLE, and the cores never have the same RUNNING thread.
pub Ticks-At :
    {k k' : Kernel} (q : ℕ → List Ptr)
    → At 0 1 k q
    → Ticks k k'
    → (q' : ℕ → List Ptr) × At 0 1 k' q'
Ticks-At q co here = (q, co)
Ticks-At q co (first {k'} now now' c r) =
    let (q1, co1) = Ticks-At q co r in preempt-At 0 1 now now' c k' q1 (omega arith) co1
Ticks-At q co (second {k'} now now' c r) =
    let (q1, co1) = Ticks-At q co r in
    let (q2, co2) = preempt-At 1 0 now now' c k' q1 (omega arith) (Cores-swap co1) in
    (q2, Cores-swap co2)
