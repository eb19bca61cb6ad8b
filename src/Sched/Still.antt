-- ===== src/Sched/Still.antt =====
-- `schedule` of os/schedule.c next to threads that wait: their lists stay as they are.
use multicore_rtos.Base.{ℕ, ◌≡◌, refl, ◌≢◌, ◌∙◌, ap, sym, inl, inr, false, List, [], ◌∷◌, arith}
use multicore_rtos.Heap.{Ptr}
use multicore_rtos.Sched.{
  Kernel, ThreadState, is_running, schedule, pick_next, put_back, take_thread, enter_idle, lock,
  unlock, start_critical, end_critical,
}
use multicore_rtos.Sched.Ready.{state_of}
use multicore_rtos.Sched.Change.{weight}
use multicore_rtos.Sched.Depart.{Out, AllOut}
use multicore_rtos.Sched.Waiting.{Line-links}
use multicore_rtos.Sched.Schedule.{entered, schedule-choice}
use multicore_rtos.Sched.Consistent.{Cores, entered-state_ne}
use multicore_rtos.Sched.Kept.{schedule-Kept}
use multicore_rtos.Sched.Retire.{WaitList}

out_off : (s : ThreadState) → weight s ≡ 0 → is_running s ≡ false
out_off ThreadState.running e = absurd (omega arith)
out_off ThreadState.active e = refl
out_off ThreadState.sleeping e = refl
out_off ThreadState.blocked e = refl
out_off ThreadState.dead e = refl
out_off ThreadState.idle e = refl

schedule-count :
    (cpu now now' : ℕ) (k : Kernel)
    → (schedule cpu now now' k).lifetime_thread_count ≡ k.lifetime_thread_count
unfolding schedule pick_next put_back take_thread enter_idle lock unlock start_critical end_critical
schedule-count cpu now now' k = ground arith

module _ (cpu now now' : ℕ) (u j : Ptr) (k : Kernel) (q : ℕ → List Ptr)
    (c : Cores (k.run_pt cpu) (k.idle_thread cpu) u j k q) where
  abbrev k' : Kernel
  k' = schedule cpu now now' k

  -- a thread that neither runs nor is ready stays in its state
  schedule-state : (x : Ptr) → Out k x → state_of k' x ≡ state_of k x
  schedule-state x o =
      let before = entered-state_ne cpu now k x (inr (out_off (state_of k x) o)) in
      elim ((schedule-choice cpu now now' k q u c.levels c.listed_here c.on_cores).1) [
        | inl d ↦ d.states x ∙ before
        | inr d ↦
            let ne : x ≢ d.thread = λ e. absurd (
              omega (
                arith,
                sym o ∙ ap weight (sym before ∙ ap (state_of (entered cpu now k)) e ∙ d.was_active),
              )) in
            d.others x ne ∙ before
      ]

  schedule-AllOut : (ws : List Ptr) → AllOut k ws → AllOut k' ws
  schedule-AllOut [] a = tt
  schedule-AllOut (w ∷ ws) a = (ap weight (schedule-state w a.0) ∙ a.0, schedule-AllOut ws a.1)

  pub schedule-WaitList :
      (root : Ptr) (key : Ptr → ℕ) (ws : List Ptr)
      → WaitList k root key ws
      → WaitList k' root key ws
  schedule-WaitList root key ws w = record {
    line = Line-links k k' root ws ((schedule-Kept cpu now now' k).next) w.line;
    distinct = w.distinct;
    not_null = w.not_null;
    out = schedule-AllOut ws w.out;
    sorted = w.sorted;
    few = rw (schedule-count cpu now now' k) w.few;
  }
