-- ===== src/Sched/Doze.antt =====
-- `sleep` of os/schedule.c as a whole.
use multicore_rtos.Base.{
  ℕ, ◌≡◌, refl, ◌≢◌, ◌∙◌, ap, sym, subst, Option, none, some, List, [], ◌∷◌, arith, fun_ext, ◌+◌,
  ◌*◌, ◌%◌, ◌^◌, ==_of_ne,
}
use multicore_rtos.Heap.{Ptr}
use multicore_rtos.Sched.{Kernel, ThreadState, lock, start_critical}
use multicore_rtos.Sched.Links.{NotIn}
use multicore_rtos.Sched.Ready.{state_of}
use multicore_rtos.Sched.Change.{weight}
use multicore_rtos.Sched.Consistent.{Cores, Chosen}
use multicore_rtos.Sched.Rethread.{Rethreaded}
use multicore_rtos.Sched.Depart.{AllOut, NotIn-AllOut, Cores-Rethreaded}
use multicore_rtos.Sched.Line.{Line, Sorted, AtLeast, insert_by, tick_of}
use multicore_rtos.Sched.Waiting.{Waiting, Sorted-same, Line-links}
use multicore_rtos.Sched.Vacate.{vacated, GaveUp, vacated-GaveUp, vacated-state}
use multicore_rtos.Sched.Finish.{
  finished, finished-Chosen, finished-run_pt, finished-idle_thread, Cores-same, enter-same,
  vacated-run_pt, vacated-idle_thread, vacated-sleepers, vacated-tick,
}
use multicore_rtos.Sched.Wait.{sleep, sleep_thread, set_resume_tick}
use multicore_rtos.Sched.Sleeping.{Asleep, queue_sleeper-Sorted}
use multicore_rtos.Sched.Block.{enter-count, enter-idle_thread, enter-run_pt}
use multicore_rtos.Sched.Kept.{finished-Kept}
use multicore_rtos.Sched.Retire.{WaitList, WaitList-same, vacated-Waiting, AllOut-vacated, Parked}

-- The tick at which a thread that sleeps for `sleep_time` milliseconds is to resume.
abbrev pub wake_tick : ℕ → ℕ → ℕ
wake_tick now sleep_time = (now + sleep_time * 1000 % 2 ^ 32) % 2 ^ 32

enter-sleepers :
    (cpu : ℕ) (k : Kernel)
    → (lock (start_critical cpu k)).sleep_schedule_root ≡ k.sleep_schedule_root
unfolding lock start_critical
enter-sleepers cpu k = refl

AtLeast-outside :
    (key key' : Ptr → ℕ) (t : Ptr) (n : ℕ) (xs : List Ptr)
    → ((z : Ptr) → z ≢ t → key' z ≡ key z)
    → NotIn t xs
    → AtLeast key n xs
    → AtLeast key' n xs
AtLeast-outside key key' t n [] same out a = tt
AtLeast-outside key key' t n (x ∷ xs) same out a = (
  omega (arith, same x (λ e. out.0 (sym e)), a.0),
  AtLeast-outside key key' t n xs same out.1 a.1,
)

-- A key that changes for a thread outside the list.
Sorted-outside :
    (key key' : Ptr → ℕ) (t : Ptr) (xs : List Ptr)
    → ((z : Ptr) → z ≢ t → key' z ≡ key z)
    → NotIn t xs
    → Sorted key xs
    → Sorted key' xs
Sorted-outside key key' t [] same out s = tt
Sorted-outside key key' t (x ∷ xs) same out s = (
  rw (same x (λ e. out.0 (sym e))) (AtLeast-outside key key' t (key x) xs same out.1 s.0),
  Sorted-outside key key' t xs same out.1 s.1,
)

tick-Rethreaded : (s t : Ptr) (tick : ℕ) (k : Kernel) → Rethreaded s [] k (set_resume_tick t tick k)
tick-Rethreaded s t tick k = record {
  next = λ z n ne. ground arith;
  prev = λ z. ground arith;
  pri = λ z. ground arith;
  state = λ z. ground arith;
  actives = refl;
  runnings = refl;
  roots = refl;
  run_pts = refl;
  idles = refl;
}

AllOut-same :
    (k k' : Kernel) (ws : List Ptr)
    → ((z : Ptr) → state_of k' z ≡ state_of k z)
    → AllOut k ws
    → AllOut k' ws
AllOut-same k k' [] same a = tt
AllOut-same k k' (x ∷ xs) same a = (ap weight (same x) ∙ a.0, AllOut-same k k' xs same a.1)

module _ (cpu now now' now'' sleep_time : ℕ) (u j : Ptr) (k : Kernel) (q : ℕ → List Ptr)
    (ws : List Ptr) (c : Cores (k.run_pt cpu) (k.idle_thread cpu) u j k q)
    (run : state_of k (k.run_pt cpu) ≡ ThreadState.running)
    (w : WaitList k k.sleep_schedule_root (tick_of k) ws) (some_time : sleep_time ≢ 0) where
  abbrev t : Ptr
  t = k.run_pt cpu

  abbrev i : Ptr
  i = k.idle_thread cpu

  abbrev tick : ℕ
  tick = wake_tick now sleep_time

  -- past `lock`
  abbrev kl : Kernel
  kl = lock (start_critical cpu k)

  abbrev k0 : Kernel
  k0 = set_resume_tick t tick kl

  cl : Cores t i u j kl q
  cl = Cores-same (enter-same cpu k) c

  c0 : Cores t i u j k0 q
  c0 = Cores-Rethreaded (tick-Rethreaded i t tick kl) (ap weight cl.idle_here) tt cl

  run0 : state_of k0 t ≡ ThreadState.running
  run0 = (tick-Rethreaded i t tick kl).state t ∙ ap (λ b. b.state) ((enter-same cpu k).tcbs t) ∙ run

  wl : WaitList kl k.sleep_schedule_root (tick_of k) ws
  wl = WaitList-same k.sleep_schedule_root (tick_of k) ws (enter-same cpu k) (enter-count cpu k) w

  -- the ticks once the thread has its new one
  abbrev ticks : Ptr → ℕ
  ticks = tick_of (set_resume_tick t tick k)

  ticks_same : (z : Ptr) → tick_of k0 z ≡ ticks z
  ticks_same z = let e = (enter-same cpu k).tcbs z in ground arith

  w0 : WaitList k0 k.sleep_schedule_root ticks ws
  w0 = record {
    line = Line-links kl k0 k.sleep_schedule_root ws (λ z. ground arith) wl.line;
    distinct = wl.distinct;
    not_null = wl.not_null;
    out = AllOut-same kl k0 ws (tick-Rethreaded i t tick kl).state wl.out;
    sorted =
        Sorted-outside (tick_of k) ticks t ws (λ z ne. ground arith)
          (NotIn-AllOut kl t ws
            (λ o. absurd (
              omega
                (arith, sym o ∙ ap weight (ap (λ b. b.state) ((enter-same cpu k).tcbs t) ∙ run))))
            wl.out)
          wl.sorted;
    few = wl.few;
  }

  abbrev k1 : Kernel
  k1 = vacated t ThreadState.sleeping k0

  enters : Waiting k1 t k1.sleep_schedule_root ws
  enters =
      subst (λ r. Waiting k1 t r ws)
        (sym (vacated-sleepers t ThreadState.sleeping k0 ∙ enter-sleepers cpu k))
        (vacated-Waiting t i u j ThreadState.sleeping k0 q c0 run0 refl k.sleep_schedule_root ticks
          ws w0)

  key_same : (z : Ptr) → tick_of k1 z ≡ ticks z
  key_same z = vacated-tick t ThreadState.sleeping k0 z ∙ ticks_same z

  asleep : Asleep t k1 ws
  asleep =
      queue_sleeper-Sorted t k1 ws enters (Sorted-same ticks (tick_of k1) ws key_same w0.sorted)

  abbrev k2 : Kernel
  k2 = asleep.after

  cores : (v : GaveUp t i u j k1) → Cores t i u j k2 v.queues
  cores v =
      Cores-Rethreaded asleep.rest
        (ap weight (vacated-state t i u j ThreadState.sleeping k0 q c0 run0 refl))
        (AllOut-vacated t i u j ThreadState.sleeping k0 q c0 run0 refl ws w0.out) v.cores

  idle2 : k2.idle_thread ≡ k.idle_thread
  idle2 =
      asleep.rest.idles ∙ vacated-idle_thread t ThreadState.sleeping k0 ∙ enter-idle_thread cpu k

  run2 : k2.run_pt ≡ k.run_pt
  run2 = asleep.rest.run_pts ∙ vacated-run_pt t ThreadState.sleeping k0 ∙ enter-run_pt cpu k

  abbrev k3 : Kernel
  k3 = finished cpu now' now'' (k.interrupts_off cpu) k2

  abbrev joined_list : List Ptr
  joined_list = insert_by ticks t ws

  same_list : insert_by (tick_of k1) t ws ≡ joined_list
  same_list = ap (λ f. insert_by f t ws) (fun_ext key_same)

  thread-returned : sleep_thread now sleep_time (kl.run_pt cpu) kl ≡ some k2
  unfolding sleep_thread
  thread-returned =
      ap (λ x. sleep_thread now sleep_time x kl) (ap (λ f. f cpu) (enter-run_pt cpu k))
      ∙ asleep.returned

  sleep-returned : sleep cpu now now' now'' sleep_time k ≡ some k3
  unfolding sleep
  sleep-returned = rw (==_of_ne sleep_time 0 some_time) (
      ap
        (λ (r : Option Kernel).
          let v : Option Kernel = elim r [
            | none ↦ none
            | some k' ↦ some (finished cpu now' now'' (k.interrupts_off cpu) k')
          ] in
          v)
        thread-returned)

  sleep-Chosen : Chosen i u j k3 (k3.next_run_pt cpu)
  sleep-Chosen =
      let v = vacated-GaveUp t i u j ThreadState.sleeping k0 q c0 run0 refl in
      finished-Chosen cpu now' now'' (k.interrupts_off cpu) k2 i u j v.queues
        (ap (λ f. f cpu) idle2)
        (subst (λ x. Cores x i u j k2 v.queues) (sym (ap (λ f. f cpu) run2)) (cores v))

  -- On a consistent kernel whose core runs a thread, where the sleeping threads are in no level, in
  -- the order of their ticks and no more than were ever created, and for a time that is not 0:
  -- `sleep` returns, the running thread is among the sleeping ones behind all whose tick is not
  -- larger than its own (the clock plus the time in microseconds, both modulo 2^32), they are in the
  -- order of their ticks, and `schedule` has chosen as on a consistent kernel.
  pub sleep-Parked :
      Parked k.run_pt k.idle_thread cpu i u j
        (λ k'. k'.sleep_schedule_root)
        tick_of
        joined_list
        (sleep cpu now now' now'' sleep_time k)
  sleep-Parked =
      let kept = finished-Kept cpu now' now'' (k.interrupts_off cpu) k2 in
      record {
        after = k3;
        returned = sleep-returned;
        chosen = sleep-Chosen;
        line =
            subst (λ r. Line k3 r joined_list) (sym kept.sleepers)
              (subst (λ ys. Line k3 k2.sleep_schedule_root ys) same_list
                (Line-links k2 k3 k2.sleep_schedule_root (insert_by (tick_of k1) t ws) kept.next
                  asleep.line));
        sorted =
            subst (λ ys. Sorted (tick_of k3) ys) same_list
              (Sorted-same (tick_of k2) (tick_of k3) (insert_by (tick_of k1) t ws) kept.tick
                asleep.sorted);
        run_pts = finished-run_pt cpu now' now'' (k.interrupts_off cpu) k2 ∙ run2;
        idle_threads = finished-idle_thread cpu now' now'' (k.interrupts_off cpu) k2 ∙ idle2;
      }
