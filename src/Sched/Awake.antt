-- ===== src/Sched/Awake.antt =====
-- `unsleep` of os/schedule.c as a whole: the first of the sleeping threads goes back into its level.
use multicore_rtos.Base.{
  ℕ, suc, ◌^◌, ◌<◌, ◌≡◌, refl, ◌∙◌, ap, sym, subst, List, ◌∷◌, arith, length, ◌==◌, ==_of_ne, false,
}
use multicore_rtos.Heap.{Ptr, null}
use multicore_rtos.Sched.{Kernel, enqueue_thread, lock, unlock, start_critical, end_critical}
use multicore_rtos.Sched.Ring.{next_of}
use multicore_rtos.Sched.{link_front, link_alone}
use multicore_rtos.Sched.Ready.{pri_of}
use multicore_rtos.Sched.Choice.{SameThreads}
use multicore_rtos.Sched.Consistent.{Cores}
use multicore_rtos.Sched.Line.{tick_of}
use multicore_rtos.Sched.Retire.{WaitList}
use multicore_rtos.Sched.Wait.{unsleep, arm_next, set_sleep_root}
use multicore_rtos.Sched.Join.{joined}
use multicore_rtos.Sched.Rejoin.{Dormant, enqueue-sleepers}
use multicore_rtos.Sched.Unpark.{Woken, wake-Woken}

module _ (cpu now now' : ℕ) (t i u j w : Ptr) (k : Kernel) (q : ℕ → List Ptr) (ws : List Ptr)
    (c : Cores t i u j k q) (d : Dormant w t u k) (room : suc (length (q (pri_of k w))) < 2 ^ 16)
    (l : WaitList k k.sleep_schedule_root (tick_of k) (w ∷ ws)) where
  abbrev kl : Kernel
  kl = lock (start_critical cpu k)

  -- what `enqueue_thread` gets
  abbrev rearmed : Kernel
  rearmed = arm_next now now' (set_sleep_root (next_of kl kl.sleep_schedule_root) kl)

  rearmed-same : SameThreads k rearmed
  unfolding lock start_critical arm_next
  rearmed-same = record {
    tcbs = λ p. ground arith;
    actives = ground arith;
    runnings = ground arith;
    roots = ground arith;
  }

  rearmed-count : rearmed.lifetime_thread_count ≡ k.lifetime_thread_count
  unfolding lock start_critical arm_next
  rearmed-count = ground arith

  rearmed-root : rearmed.sleep_schedule_root ≡ next_of k w
  unfolding lock start_critical arm_next
  rearmed-root =
      let e : rearmed.sleep_schedule_root ≡ next_of k k.sleep_schedule_root = ground arith in
      e ∙ ap (λ p. next_of k p) l.line.0

  abbrev awake : Kernel
  awake = end_critical cpu (k.interrupts_off cpu) (unlock (enqueue_thread w rearmed))

  awake-root : awake.sleep_schedule_root ≡ next_of k w
  unfolding unlock end_critical
  awake-root = enqueue-sleepers w rearmed ∙ rearmed-root

  unsleep-awake : unsleep cpu now now' k ≡ awake
  unfolding unsleep lock start_critical
  unsleep-awake =
      let full : (k.sleep_schedule_root == null) ≡ false =
        ap (λ p. p == null) l.line.0 ∙ ==_of_ne w null (λ e. l.not_null.0 (sym e)) in
      let v : unsleep cpu now now' k
          ≡ end_critical cpu (k.interrupts_off cpu)
              (unlock (enqueue_thread k.sleep_schedule_root rearmed)) =
        rw full refl in
      v
      ∙ ap (λ p. end_critical cpu (k.interrupts_off cpu) (unlock (enqueue_thread p rearmed)))
          l.line.0

  -- On a consistent kernel where the first sleeping thread is of one of the five levels, of a state
  -- that is not IDLE and on neither core, its level's longer list has fewer than 2^16 threads, and the
  -- sleeping threads are in no level, in the order of their ticks and no more than were ever created:
  -- after `unsleep` the kernel is consistent with the thread ACTIVE at the front of its level, and the
  -- other threads sleep on in the same order.
  pub unsleep-Woken :
      Woken t i u j w
        (unsleep cpu now now' k).sleep_schedule_root
        (tick_of k)
        ws
        (unsleep cpu now now' k)
        (joined k w q)
  unsleep-Woken =
      let a =
        wake-Woken t i u j w k.sleep_schedule_root (tick_of k) ws k rearmed q rearmed-same
          rearmed-count c d room l cpu (k.interrupts_off cpu) in
      subst (λ x. Woken t i u j w x.sleep_schedule_root (tick_of k) ws x (joined k w q))
        (sym unsleep-awake)
        (subst (λ r. Woken t i u j w r (tick_of k) ws awake (joined k w q)) (sym awake-root) a)

-- Waking a thread leaves the cores' threads alone.
pub unsleep-run_pt :
    (cpu now now' : ℕ) (k : Kernel)
    → ((unsleep cpu now now' k).run_pt ≡ k.run_pt)
      × ((unsleep cpu now now' k).idle_thread ≡ k.idle_thread)
unfolding unsleep arm_next lock unlock start_critical end_critical enqueue_thread link_front
    link_alone
unsleep-run_pt cpu now now' k = (ground arith, ground arith)
