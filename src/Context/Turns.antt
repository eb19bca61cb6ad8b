-- ===== src/Context/Turns.antt =====
-- Ticks of one core, one after the other: the threads of a level take turns.
use multicore_rtos.Base.{
  ℕ, suc, ◌+◌, ◌≤◌, ◌<◌, ◌≡◌, ◌≢◌, ◌∙◌, ap, sym, subst, List, [], ◌∷◌, ◌++◌, arith, length,
  length-append,
}
use mathlib.Core.List.{append_assoc}
use multicore_rtos.Heap.{Ptr}
use multicore_rtos.Sched.{Kernel, ThreadState, schedule}
use multicore_rtos.Sched.Ready.{Ready, state_of, pri_of}
use multicore_rtos.Sched.Change.{In}
use multicore_rtos.Sched.Choice.{ThreadChosen}
use multicore_rtos.Sched.Schedule.{entered}
use multicore_rtos.Sched.Consistent.{
  schedule-run_pt, schedule-pri, entered-pri, thread-Cores, still_running,
}
use multicore_rtos.Sched.Turn.{Turn, schedule-Turn}
use multicore_rtos.Sched.Leave.{In-At}
use multicore_rtos.Context.{Core, preempt, systick_handler}
use multicore_rtos.Context.Preempt.{
  At, chosen-At, switch-Changed, switch-state, switch-counts, switch-here, switch-there,
}

-- The threads of the level `level` take turns on the core `cpu`: `xs` are they, the next one first.
abbrev pub InTurn : ℕ → ℕ → ℕ → Kernel → List Ptr → Type 0
InTurn cpu other level k xs =
    (q : ℕ → List Ptr) × At cpu other k q × Turn (k.run_pt cpu) (k.run_pt other) k q level xs

module _ (cpu other now now' : ℕ) (c : Core) (k : Kernel) (ne : other ≢ cpu) where
  abbrev k2 : Kernel
  k2 = schedule cpu now now' k

  abbrev k3 : Kernel
  k3 = (preempt cpu now now' c k).1

  tick-state : (y : Ptr) → state_of k3 y ≡ state_of k2 y
  unfolding preempt systick_handler
  tick-state y = switch-state cpu c k2 y

  tick-pri : (y : Ptr) → pri_of k3 y ≡ pri_of k y
  unfolding preempt systick_handler
  tick-pri y =
      (switch-Changed cpu c k2).pri_same y ∙ schedule-pri cpu now now' k y ∙ entered-pri cpu now k y

  tick-here : k3.run_pt cpu ≡ k2.next_run_pt cpu
  unfolding preempt systick_handler
  tick-here = switch-here cpu c k2

  tick-there : k3.run_pt other ≡ k.run_pt other
  unfolding preempt systick_handler
  tick-there = switch-there cpu c k2 other ne ∙ ap (λ f. f other) (schedule-run_pt cpu now now' k)

  tick-active : (p : ℕ) → k3.active_priority_count p ≡ k2.active_priority_count p
  unfolding preempt systick_handler
  tick-active p = (switch-counts cpu c k2 p).active_same

  -- The thread that the tick takes is not the other core's, which ran before if it runs now.
  still_alone :
      (q : ℕ → List Ptr) (at : At cpu other k q) (d : ThreadChosen cpu q (entered cpu now k) k2)
      → At cpu other k3 d.queues
      → state_of k3 (k3.run_pt other) ≡ ThreadState.running
      → state_of k (k.run_pt other) ≡ ThreadState.running
  still_alone q at d at' r =
      let u : Ptr = k.run_pt other in
      let runs : state_of k2 u ≡ ThreadState.running =
        sym (tick-state u) ∙ ap (state_of k3) (sym tick-there) ∙ r in
      let here : k3.run_pt cpu ≡ d.thread = tick-here ∙ d.chosen in
      let here_runs : state_of k3 (k3.run_pt cpu) ≡ ThreadState.running =
        ap (state_of k3) here ∙ tick-state d.thread ∙ d.runs in
      let apart : u ≢ d.thread = λ e. at'.apart here_runs (here ∙ sym e ∙ sym tick-there) in
      (still_running cpu now now' u (k.idle_thread other) k q at u
        (sym (d.others u apart) ∙ runs)).1

  -- The first of them is on the core, and behind the others.
  tick-InTurn :
      (level : ℕ) (x : Ptr) (xs : List Ptr)
      → InTurn cpu other level k (x ∷ xs)
      → (k3.run_pt cpu ≡ x) × InTurn cpu other level k3 (xs ++ (x ∷ []))
  tick-InTurn level x xs (q, at, turn) =
      let (d, thread, queue, above) =
        schedule-Turn cpu now now' (k.run_pt other) (k.idle_thread other) k q at level x xs turn in
      let here : k3.run_pt cpu ≡ x = tick-here ∙ d.chosen ∙ thread in
      let at' =
        chosen-At cpu other now now' c k d.queues ne
          (thread-Cores cpu now now' (k.run_pt other) (k.idle_thread other) k q at d) in
      let root_pri : pri_of k x ≡ level =
        (subst (Ready k level) turn.queue (at.levels.ready level turn.in_range)).level.0 in
      (
        here,
        (
          d.queues,
          at',
          record {
            in_range = turn.in_range;
            queue = queue;
            above = λ p lt. tick-active p ∙ above p lt;
            low = λ r. omega (arith, ap (pri_of k3) here ∙ tick-pri x ∙ root_pri);
            alone = λ r e.
                turn.alone (still_alone q at d at' r)
                  (sym (tick-pri (k.run_pt other)) ∙ ap (pri_of k3) (sym tick-there) ∙ e);
          },
        ),
      )

-- Ticks of one core: the readings of the clock and what its registers hold, for each.
pub record Tick : Type 0 where
  pub now : ℕ
  pub now' : ℕ
  pub registers : Core

unfoldable pub ticks : ℕ → List Tick → Kernel → Kernel
ticks cpu [] k = k
ticks cpu (t ∷ ts) k = ticks cpu ts (preempt cpu t.now t.now' t.registers k).1

ticks-turn :
    (cpu other level : ℕ) (xs : List Ptr) (ts : List Tick) (k : Kernel) (ys : List Ptr) (t : Ptr)
    → other ≢ cpu
    → InTurn cpu other level k (xs ++ (t ∷ ys))
    → length ts ≡ suc (length xs)
    → (ticks cpu ts k).run_pt cpu ≡ t
unfolding ticks
ticks-turn cpu other level xs [] k ys t ne turn e = absurd (omega arith)
ticks-turn cpu other level [] (s ∷ []) k ys t ne turn e =
    (tick-InTurn cpu other s.now s.now' s.registers k ne level t ys turn).0
ticks-turn cpu other level [] (s ∷ s' ∷ ts) k ys t ne turn e = absurd (omega arith)
ticks-turn cpu other level (x ∷ xs) (s ∷ ts) k ys t ne turn e =
    let k' : Kernel = (preempt cpu s.now s.now' s.registers k).1 in
    ticks-turn cpu other level xs ts k' (ys ++ (x ∷ [])) t ne
      (subst (InTurn cpu other level k') (append_assoc xs (t ∷ ys) (x ∷ []))
        ((tick-InTurn cpu other s.now s.now' s.registers k ne level x (xs ++ (t ∷ ys)) turn).1))
      (omega arith)

-- What a thread of the level is promised: there is a number of ticks, at least one and at most the
-- number of threads of the level, after which the core runs it.
pub record GetsCore (cpu : ℕ) (k : Kernel) (size : ℕ) (t : Ptr) : Type 0 where
  pub wait : ℕ
  pub positive : 0 < wait
  pub bounded : wait ≤ size
  pub runs : (ts : List Tick) → length ts ≡ wait → (ticks cpu ts k).run_pt cpu ≡ t

-- Where the state is consistent for the two cores, no level above has an ACTIVE thread, the core's own
-- thread does not go back to a level above, and the other core runs no thread of the level: if only
-- this core makes calls, and these are ticks, every thread of the level comes to run on it. There is a
-- number of ticks, at least one and at most the number of threads of the level, after which the core's
-- thread is that one.
pub ticks-GetsCore :
    (cpu other level : ℕ) (k : Kernel) (q : ℕ → List Ptr) (t : Ptr)
    → other ≢ cpu
    → At cpu other k q
    → Turn (k.run_pt cpu) (k.run_pt other) k q level (q level)
    → In t (q level)
    → GetsCore cpu k (length (q level)) t
ticks-GetsCore cpu other level k q t ne at turn i =
    let p = In-At t (q level) i in
    let size : length (q level) ≡ length p.before + suc (length p.after) =
      ap length p.split ∙ length-append p.before (t ∷ p.after) in
    record {
      wait = suc (length p.before);
      positive = omega arith;
      bounded = omega (arith, size);
      runs = λ ts e.
          ticks-turn cpu other level p.before ts k p.after t ne
            (subst (InTurn cpu other level k) p.split (q, at, turn)) e;
    }
