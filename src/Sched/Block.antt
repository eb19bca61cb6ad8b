-- ===== src/Sched/Block.antt =====
-- `sched_block` of os/schedule.c as a whole.
use multicore_rtos.Base.{ℕ, ◌≡◌, refl, ◌∙◌, ap, sym, subst, Option, none, some, List, fun_ext}
use multicore_rtos.Heap.{Ptr}
use multicore_rtos.Sched.{Kernel, ThreadState, lock, start_critical}
use multicore_rtos.Sched.Ready.{state_of, pri_of}
use multicore_rtos.Sched.Change.{weight}
use multicore_rtos.Sched.Consistent.{Cores, Chosen}
use multicore_rtos.Sched.Depart.{Cores-Rethreaded}
use multicore_rtos.Sched.Line.{Line, Sorted, insert_by}
use multicore_rtos.Sched.Waiting.{Waiting, Sorted-same, Line-links}
use multicore_rtos.Sched.Vacate.{vacated, GaveUp, vacated-GaveUp, vacated-state, vacated-pri}
use multicore_rtos.Sched.Finish.{
  finished, finished-Chosen, finished-run_pt, finished-idle_thread, Cores-same, enter-same,
  vacated-run_pt, vacated-idle_thread, vacated-sema,
}
use multicore_rtos.Sched.Wait.{sched_block, block_thread}
use multicore_rtos.Sched.Blocking.{Blocked, block_on-Sorted}
use multicore_rtos.Sched.Kept.{finished-Kept}
use multicore_rtos.Sched.Retire.{WaitList, WaitList-same, vacated-Waiting, AllOut-vacated, Parked}

abbrev pub blocked_root : Ptr → Kernel → Ptr
blocked_root sem k = (k.sema sem).bthreads_root

pub enter-count :
    (cpu : ℕ) (k : Kernel)
    → (lock (start_critical cpu k)).lifetime_thread_count ≡ k.lifetime_thread_count
unfolding lock start_critical
enter-count cpu k = refl

enter-root :
    (cpu : ℕ) (sem : Ptr) (k : Kernel)
    → blocked_root sem (lock (start_critical cpu k)) ≡ blocked_root sem k
unfolding lock start_critical
enter-root cpu sem k = refl

pub enter-idle_thread :
    (cpu : ℕ) (k : Kernel) → (lock (start_critical cpu k)).idle_thread ≡ k.idle_thread
unfolding lock start_critical
enter-idle_thread cpu k = refl

pub enter-run_pt : (cpu : ℕ) (k : Kernel) → (lock (start_critical cpu k)).run_pt ≡ k.run_pt
unfolding lock start_critical
enter-run_pt cpu k = refl

module _ (cpu now now' : ℕ) (sem u j : Ptr) (k : Kernel) (q : ℕ → List Ptr) (ws : List Ptr)
    (c : Cores (k.run_pt cpu) (k.idle_thread cpu) u j k q)
    (run : state_of k (k.run_pt cpu) ≡ ThreadState.running)
    (w : WaitList k (blocked_root sem k) (pri_of k) ws) where
  abbrev t : Ptr
  t = k.run_pt cpu

  abbrev i : Ptr
  i = k.idle_thread cpu

  -- past `lock`
  abbrev k0 : Kernel
  k0 = lock (start_critical cpu k)

  c0 : Cores t i u j k0 q
  c0 = Cores-same (enter-same cpu k) c

  run0 : state_of k0 t ≡ ThreadState.running
  run0 = ap (λ b. b.state) ((enter-same cpu k).tcbs t) ∙ run

  w0 : WaitList k0 (blocked_root sem k) (pri_of k) ws
  w0 = WaitList-same (blocked_root sem k) (pri_of k) ws (enter-same cpu k) (enter-count cpu k) w

  abbrev k1 : Kernel
  k1 = vacated t ThreadState.blocked k0

  enters : Waiting k1 t (blocked_root sem k1) ws
  enters =
      subst (λ r. Waiting k1 t r ws)
        (sym (
          ap (λ f. (f sem).bthreads_root) (vacated-sema t ThreadState.blocked k0)
          ∙ enter-root cpu sem k))
        (vacated-Waiting t i u j ThreadState.blocked k0 q c0 run0 refl (blocked_root sem k)
          (pri_of k) ws w0)

  key_same : (z : Ptr) → pri_of k1 z ≡ pri_of k z
  key_same z =
      vacated-pri t i u j ThreadState.blocked k0 q c0 run0 refl z
      ∙ ap (λ b. b.priority) ((enter-same cpu k).tcbs z)

  blocked : Blocked sem t k1 ws
  blocked =
      block_on-Sorted sem t k1 ws enters (Sorted-same (pri_of k) (pri_of k1) ws key_same w.sorted)

  abbrev k2 : Kernel
  k2 = blocked.after

  cores : (v : GaveUp t i u j k1) → Cores t i u j k2 v.queues
  cores v =
      Cores-Rethreaded blocked.rest
        (ap weight (vacated-state t i u j ThreadState.blocked k0 q c0 run0 refl))
        (AllOut-vacated t i u j ThreadState.blocked k0 q c0 run0 refl ws w0.out) v.cores

  idle2 : k2.idle_thread ≡ k.idle_thread
  idle2 =
      blocked.rest.idles ∙ vacated-idle_thread t ThreadState.blocked k0 ∙ enter-idle_thread cpu k

  run2 : k2.run_pt ≡ k.run_pt
  run2 = blocked.rest.run_pts ∙ vacated-run_pt t ThreadState.blocked k0 ∙ enter-run_pt cpu k

  abbrev k3 : Kernel
  k3 = finished cpu now now' (k.interrupts_off cpu) k2

  abbrev joined_list : List Ptr
  joined_list = insert_by (pri_of k) t ws

  same_list : insert_by (pri_of k1) t ws ≡ joined_list
  same_list = ap (λ f. insert_by f t ws) (fun_ext key_same)

  thread-returned : block_thread sem (k0.run_pt cpu) k0 ≡ some k2
  unfolding block_thread
  thread-returned =
      ap (λ x. block_thread sem x k0) (ap (λ f. f cpu) (enter-run_pt cpu k)) ∙ blocked.returned

  block-returned : sched_block cpu now now' sem k ≡ some k3
  unfolding sched_block
  block-returned =
      ap
        (λ (r : Option Kernel).
          let v : Option Kernel = elim r [
            | none ↦ none
            | some k' ↦ some (finished cpu now now' (k.interrupts_off cpu) k')
          ] in
          v)
        thread-returned

  block-Chosen : Chosen i u j k3 (k3.next_run_pt cpu)
  block-Chosen =
      let v = vacated-GaveUp t i u j ThreadState.blocked k0 q c0 run0 refl in
      finished-Chosen cpu now now' (k.interrupts_off cpu) k2 i u j v.queues (ap (λ f. f cpu) idle2)
        (subst (λ x. Cores x i u j k2 v.queues) (sym (ap (λ f. f cpu) run2)) (cores v))

  -- On a consistent kernel whose core runs a thread, where the threads blocked on the semaphore are
  -- in no level, in order of priority and no more than were ever created: `sched_block` returns, the
  -- running thread is among the blocked ones behind all that have its priority or a higher one, they
  -- are in order of priority, and `schedule` has chosen as on a consistent kernel.
  pub sched_block-Parked :
      Parked k.run_pt k.idle_thread cpu i u j
        (blocked_root sem)
        pri_of
        joined_list
        (sched_block cpu now now' sem k)
  sched_block-Parked =
      let kept = finished-Kept cpu now now' (k.interrupts_off cpu) k2 in
      record {
        after = k3;
        returned = block-returned;
        chosen = block-Chosen;
        line =
            subst (λ r. Line k3 r joined_list) (sym (ap (λ f. (f sem).bthreads_root) kept.sema))
              (subst (λ ys. Line k3 (blocked_root sem k2) ys) same_list
                (Line-links k2 k3 (blocked_root sem k2) (insert_by (pri_of k1) t ws) kept.next
                  blocked.line));
        sorted =
            subst (λ ys. Sorted (pri_of k3) ys) same_list
              (Sorted-same (pri_of k2) (pri_of k3) (insert_by (pri_of k1) t ws) kept.pri
                blocked.sorted);
        run_pts = finished-run_pt cpu now now' (k.interrupts_off cpu) k2 ∙ run2;
        idle_threads = finished-idle_thread cpu now now' (k.interrupts_off cpu) k2 ∙ idle2;
      }
