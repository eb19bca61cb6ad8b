-- ===== src/Sched/Finish.antt =====
-- What the calls that give up the core share: their critical section, and `schedule` at the end.
use multicore_rtos.Base.{ℕ, ◌<◌, ◌≡◌, refl, ◌∙◌, ap, sym, subst, Bool, List, arith}
use multicore_rtos.Heap.{Ptr}
use multicore_rtos.Sched.{
  Kernel, ThreadState, schedule, lock, unlock, start_critical, end_critical, dequeue_thread, unlink,
}
use multicore_rtos.Sched.Ready.{state_of, pri_of}
use multicore_rtos.Sched.Change.{In}
use multicore_rtos.Sched.Choice.{SameThreads, Levels-same}
use multicore_rtos.Sched.Consistent.{
  Cores, Chosen, schedule-Chosen, schedule-run_pt, schedule-idle_thread,
}
use multicore_rtos.Sched.Vacate.{vacated}
use multicore_rtos.Sched.Line.{tick_of}

pub Cores-same :
    {t i u j : Ptr} {k k' : Kernel} {q : ℕ → List Ptr}
    → SameThreads k k'
    → Cores t i u j k q
    → Cores t i u j k' q
Cores-same {t} {i} {u} {j} {k} {k'} {q} s c = record {
  levels = Levels-same s c.levels;
  listed_here = λ r. listed t (c.listed_here (sym (state t) ∙ r));
  listed_there = λ r. listed u (c.listed_there (sym (state u) ∙ r));
  on_cores = λ x r. c.on_cores x (sym (state x) ∙ r);
  idle_here = state i ∙ c.idle_here;
  idle_there = state j ∙ c.idle_there;
  busy_here = λ a. c.busy_here (sym (state t) ∙ a);
  busy_there = λ a. c.busy_there (sym (state u) ∙ a);
  apart = λ r. c.apart (sym (state t) ∙ r);
}
  where
    state : (x : Ptr) → state_of k' x ≡ state_of k x
    state x = ap (λ b. b.state) (s.tcbs x)

    listed :
        (x : Ptr)
        → (pri_of k x < 5) × In x (q (pri_of k x))
        → (pri_of k' x < 5) × In x (q (pri_of k' x))
    listed x h = subst (λ p. (p < 5) × In x (q p)) (sym (ap (λ b. b.priority) (s.tcbs x))) h

pub leave-same : (cpu : ℕ) (m : Bool) (k : Kernel) → SameThreads k (end_critical cpu m (unlock k))
unfolding unlock end_critical
leave-same cpu m k = record { tcbs = λ p. refl; actives = refl; runnings = refl; roots = refl }

pub enter-same : (cpu : ℕ) (k : Kernel) → SameThreads k (lock (start_critical cpu k))
unfolding lock start_critical
enter-same cpu k = record { tcbs = λ p. refl; actives = refl; runnings = refl; roots = refl }

leave-run_pt : (cpu : ℕ) (m : Bool) (k : Kernel) → (end_critical cpu m (unlock k)).run_pt ≡ k.run_pt
unfolding unlock end_critical
leave-run_pt cpu m k = refl

leave-idle_thread :
    (cpu : ℕ) (m : Bool) (k : Kernel) → (end_critical cpu m (unlock k)).idle_thread ≡ k.idle_thread
unfolding unlock end_critical
leave-idle_thread cpu m k = refl

pub vacated-run_pt : (t : Ptr) (s : ThreadState) (k : Kernel) → (vacated t s k).run_pt ≡ k.run_pt
unfolding dequeue_thread unlink
vacated-run_pt t s k = ground arith

pub vacated-idle_thread :
    (t : Ptr) (s : ThreadState) (k : Kernel) → (vacated t s k).idle_thread ≡ k.idle_thread
unfolding dequeue_thread unlink
vacated-idle_thread t s k = ground arith

pub vacated-sema : (t : Ptr) (s : ThreadState) (k : Kernel) → (vacated t s k).sema ≡ k.sema
unfolding dequeue_thread unlink
vacated-sema t s k = ground arith

pub vacated-count :
    (t : Ptr) (s : ThreadState) (k : Kernel)
    → (vacated t s k).lifetime_thread_count ≡ k.lifetime_thread_count
unfolding dequeue_thread unlink
vacated-count t s k = ground arith

pub vacated-sleepers :
    (t : Ptr) (s : ThreadState) (k : Kernel)
    → (vacated t s k).sleep_schedule_root ≡ k.sleep_schedule_root
unfolding dequeue_thread unlink
vacated-sleepers t s k = ground arith

pub vacated-tick :
    (t : Ptr) (s : ThreadState) (k : Kernel) (x : Ptr) → tick_of (vacated t s k) x ≡ tick_of k x
unfolding dequeue_thread unlink
vacated-tick t s k x = ground arith

-- the kernel once the call has left its critical section and called `schedule`
abbrev pub finished : ℕ → ℕ → ℕ → Bool → Kernel → Kernel
finished cpu now now' m k = schedule cpu now now' (end_critical cpu m (unlock k))

pub finished-run_pt :
    (cpu now now' : ℕ) (m : Bool) (k : Kernel) → (finished cpu now now' m k).run_pt ≡ k.run_pt
finished-run_pt cpu now now' m k =
    schedule-run_pt cpu now now' (end_critical cpu m (unlock k)) ∙ leave-run_pt cpu m k

pub finished-idle_thread :
    (cpu now now' : ℕ) (m : Bool) (k : Kernel)
    → (finished cpu now now' m k).idle_thread ≡ k.idle_thread
finished-idle_thread cpu now now' m k =
    schedule-idle_thread cpu now now' (end_critical cpu m (unlock k)) ∙ leave-idle_thread cpu m k

pub finished-Chosen :
    (cpu now now' : ℕ) (m : Bool) (k : Kernel) (i u j : Ptr) (q : ℕ → List Ptr)
    → k.idle_thread cpu ≡ i
    → Cores (k.run_pt cpu) i u j k q
    → Chosen i u j (finished cpu now now' m k) ((finished cpu now now' m k).next_run_pt cpu)
finished-Chosen cpu now now' m k i u j q e c =
    let k' = end_critical cpu m (unlock k) in
    let idle : k'.idle_thread cpu ≡ i = ap (λ f. f cpu) (leave-idle_thread cpu m k) ∙ e in
    let run : k'.run_pt cpu ≡ k.run_pt cpu = ap (λ f. f cpu) (leave-run_pt cpu m k) in
    let c' = Cores-same (leave-same cpu m k) c in
    subst
      (λ x. Chosen x u j (schedule cpu now now' k') ((schedule cpu now now' k').next_run_pt cpu))
      idle
      (schedule-Chosen cpu now now' u j k' q (
        subst (λ x. Cores (k'.run_pt cpu) x u j k' q) (sym idle)
          (subst (λ x. Cores x i u j k' q) (sym run) c')))
