-- ===== src/Sched/Refuse.antt =====
-- The ends of `add_thread` of os/schedule.c that make no thread.
use multicore_rtos.Base.{
  ℕ, zero, suc, ◌≡◌, refl, inl, inr, Bool, true, false, Option, none, some, leb, ◌==◌, arith,
  Bool-cases, ◌||◌, subst, sym,
}
use multicore_rtos.Heap.{Ptr, null, Heap, malloc}
use multicore_rtos.Heap.Release.{free}
use multicore_rtos.Sched.{Kernel, priority_lvl_cnt, start_critical, end_critical, lock, unlock}
use multicore_rtos.Sched.Choice.{SameThreads}
use multicore_rtos.Sched.Wait.{release}
use multicore_rtos.Sched.Create.{add_thread, add_stack, tcb_size}

-- The threads are as before, and the lock and the interrupt mask of the core as `held` says.
pub record Refused (cpu : ℕ) (held : Bool) (k k' : Kernel) : Type 0 where
  pub threads : SameThreads k k'
  pub count : k'.lifetime_thread_count ≡ k.lifetime_thread_count
  pub sleepers : k'.sleep_schedule_root ≡ k.sleep_schedule_root
  pub locked : k'.scheduler_locked ≡ held
  pub masked : k'.interrupts_off cpu ≡ (held || k.interrupts_off cpu)

-- The end of a call: an error, or else `held` is false.
abbrev pub RefusedEnds : ℕ → Bool → Kernel → Option (ℕ × Kernel) → Type 0
RefusedEnds cpu held k none = held ≡ false
RefusedEnds cpu held k (some (zero, k')) = held ≡ false
RefusedEnds cpu held k (some (suc n, k')) = Refused cpu held k k'

module _ (cpu : ℕ) (k : Kernel) where
  -- past `lock`, with another heap
  abbrev inside : Heap → Kernel
  inside h = record (lock (start_critical cpu k)) { heap = h }

  left-Refused :
      (h : Heap) → Refused cpu false k (end_critical cpu (k.interrupts_off cpu) (unlock (inside h)))
  unfolding lock unlock start_critical end_critical
  left-Refused h = record {
    threads = record { tcbs = λ p. refl; actives = refl; runnings = refl; roots = refl };
    count = refl;
    sleepers = refl;
    locked = refl;
    masked = ground arith;
  }

  kept-Refused : Refused cpu true k (lock (start_critical cpu k))
  unfolding lock start_critical
  kept-Refused = record {
    threads = record { tcbs = λ p. refl; actives = refl; runnings = refl; roots = refl };
    count = refl;
    sleepers = refl;
    locked = refl;
    masked = ground arith;
  }

  stack-RefusedEnds :
      (task stack_size priority : ℕ) (newtcb : Ptr) (h : Heap)
      → RefusedEnds cpu false k
          (add_stack cpu (k.interrupts_off cpu) task stack_size priority newtcb (inside h))
  unfolding add_stack
  stack-RefusedEnds task stack_size priority newtcb h = go (malloc stack_size h) refl
    where
      freed :
          (h1 : Heap) (r : Option (ℕ × Heap))
          → free newtcb h1 ≡ r
          → RefusedEnds cpu false k (elim (release newtcb (inside h1)) [
            | none ↦ none
            | some k2 ↦ some (1, end_critical cpu (k.interrupts_off cpu) (unlock k2))
          ])
      freed h1 none e = rw e refl
      freed h1 (some (s, h2)) e = rw e (left-Refused h2)

      go :
          (r : Option (Ptr × Heap))
          → malloc stack_size h ≡ r
          → RefusedEnds cpu false k
              (add_stack cpu (k.interrupts_off cpu) task stack_size priority newtcb (inside h))
      go none e = rw (RefusedEnds, e) refl
      go (some (p, h1)) e = elim (Bool-cases (p == null)) [
        | inl failed ↦ rw (RefusedEnds, e, failed) (freed h1 (free newtcb h1) refl)
        | inr made ↦ rw (RefusedEnds, e, made) refl
      ]

module _ (cpu task stack_size priority : ℕ) (k : Kernel) where
  abbrev result : Option (ℕ × Kernel)
  result = add_thread cpu task stack_size priority k

  bad-RefusedEnds : leb priority_lvl_cnt priority ≡ true → RefusedEnds cpu true k result
  unfolding add_thread
  bad-RefusedEnds bad = rw (RefusedEnds, bad) (kept-Refused cpu k)

  good-RefusedEnds : leb priority_lvl_cnt priority ≡ false → RefusedEnds cpu false k result
  unfolding add_thread
  good-RefusedEnds good = go (malloc tcb_size (lock (start_critical cpu k)).heap) refl
    where
      go :
          (r : Option (Ptr × Heap))
          → malloc tcb_size (lock (start_critical cpu k)).heap ≡ r
          → RefusedEnds cpu false k result
      go none e = rw (RefusedEnds, good, e) refl
      go (some (p, h)) e = elim (Bool-cases (p == null)) [
        | inl failed ↦ rw (RefusedEnds, good, e, failed) (left-Refused cpu k h)
        | inr made ↦ rw (good, e, made) (stack-RefusedEnds cpu k task stack_size priority p h)
      ]

  -- For a priority that is not one of the five, `add_thread` returns an error with the lock left taken
  -- and the interrupts left off. For the others, if it returns an error, the lock is free and the
  -- interrupt mask is restored. With either error, no thread, level or list has changed, and the count
  -- of threads is as before.
  pub add_thread-RefusedEnds : RefusedEnds cpu (leb priority_lvl_cnt priority) k result
  add_thread-RefusedEnds = elim (Bool-cases (leb priority_lvl_cnt priority)) [
    | inl bad ↦ subst (λ b. RefusedEnds cpu b k result) (sym bad) (bad-RefusedEnds bad)
    | inr good ↦ subst (λ b. RefusedEnds cpu b k result) (sym good) (good-RefusedEnds good)
  ]
