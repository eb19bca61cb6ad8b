-- ===== src/Sched/Consistent.antt =====
-- The scheduler's state between two calls, with its two cores, and what `schedule` does to it.
use multicore_rtos.Base.{
  ℕ, ◌<◌, ◌≡◌, refl, ◌≢◌, ◌∙◌, ap, sym, ◌⊎◌, inl, inr, false, List, arith, Bool-cases, subst,
}
use native.Mathlib.Decide.{ℕ_discrete}
use multicore_rtos.Heap.{Ptr}
use multicore_rtos.Sched.{
  Kernel, ThreadState, is_running, schedule, pick_next, put_back, take_thread, enter_idle, lock,
  unlock, start_critical, end_critical,
}
use multicore_rtos.Sched.Ready.{state_of, pri_of}
use multicore_rtos.Sched.Change.{In}
use multicore_rtos.Sched.PutBack.{Levels, IsListed, running_of}
use multicore_rtos.Sched.Choice.{IdleChosen, ThreadChosen, In-AllAt}
use multicore_rtos.Sched.Schedule.{OnCores, entered, schedule-choice}

-- Of two cores of which one runs the thread `t` and has the idle thread `i`, and the other `u` and
-- `j`: the levels are right, a thread that is RUNNING is `t` or `u` and is in the list of its level,
-- and the idle threads are IDLE. The two threads are no threads that wait for a core, and two RUNNING
-- ones are not the same.
pub record Cores (t i u j : Ptr) (k : Kernel) (q : ℕ → List Ptr) : Type 0 where
  pub levels : Levels k q
  pub listed_here : IsListed k q t
  pub listed_there : IsListed k q u
  pub on_cores : OnCores k t u
  pub idle_here : state_of k i ≡ ThreadState.idle
  pub idle_there : state_of k j ≡ ThreadState.idle
  pub busy_here : state_of k t ≢ ThreadState.active
  pub busy_there : state_of k u ≢ ThreadState.active
  pub apart : state_of k t ≡ ThreadState.running → t ≢ u

-- The same, seen from the other core.
pub Cores-swap :
    {t i u j : Ptr} {k : Kernel} {q : ℕ → List Ptr} → Cores t i u j k q → Cores u j t i k q
Cores-swap {k} c = record {
  levels = c.levels;
  listed_here = c.listed_there;
  listed_there = c.listed_here;
  on_cores = λ x r. elim (c.on_cores x r) [ inl e ↦ inr e | inr e ↦ inl e ];
  idle_here = c.idle_there;
  idle_there = c.idle_here;
  busy_here = c.busy_there;
  busy_there = c.busy_here;
  apart = λ r e. c.apart (ap (state_of k) (sym e) ∙ r) (sym e);
}

running-ne-active : {s : ThreadState} → s ≡ ThreadState.running → s ≢ ThreadState.active
running-ne-active e r = cc

idle-ne-active : {s : ThreadState} → s ≡ ThreadState.idle → s ≢ ThreadState.active
idle-ne-active e r = cc

pub idle-ne-running : {s : ThreadState} → s ≡ ThreadState.idle → s ≢ ThreadState.running
idle-ne-running e r = cc

pub entered-pri : (cpu now : ℕ) (k : Kernel) (x : Ptr) → pri_of (entered cpu now k) x ≡ pri_of k x
unfolding put_back lock start_critical
entered-pri cpu now k x = ground arith

entered-idle_thread : (cpu now : ℕ) (k : Kernel) → (entered cpu now k).idle_thread ≡ k.idle_thread
unfolding put_back lock start_critical
entered-idle_thread cpu now k = ground arith

-- Putting the old thread back changes at most that thread, and only if it runs.
pub entered-state_ne :
    (cpu now : ℕ) (k : Kernel) (x : Ptr)
    → (x ≢ k.run_pt cpu) ⊎ (is_running (state_of k x) ≡ false)
    → state_of (entered cpu now k) x ≡ state_of k x
unfolding put_back lock start_critical
entered-state_ne cpu now k x (inl ne) = ground arith
entered-state_ne cpu now k x (inr off) = ground arith

entered-run_off :
    (cpu now : ℕ) (k : Kernel) → state_of (entered cpu now k) (k.run_pt cpu) ≢ ThreadState.running
unfolding put_back lock start_critical
entered-run_off cpu now k r = ground arith

pick_next-pri : (cpu now : ℕ) (k : Kernel) (x : Ptr) → pri_of (pick_next cpu now k) x ≡ pri_of k x
unfolding pick_next take_thread enter_idle
pick_next-pri cpu now k x = ground arith

pub schedule-pri :
    (cpu now now' : ℕ) (k : Kernel) (x : Ptr)
    → pri_of (schedule cpu now now' k) x ≡ pri_of (entered cpu now k) x
unfolding schedule unlock end_critical
schedule-pri cpu now now' k x = pick_next-pri cpu now' (entered cpu now k) x

pick_next-run_pt : (cpu now : ℕ) (k : Kernel) → (pick_next cpu now k).run_pt ≡ k.run_pt
unfolding pick_next take_thread enter_idle
pick_next-run_pt cpu now k = ground arith

pick_next-idle_thread :
    (cpu now : ℕ) (k : Kernel) → (pick_next cpu now k).idle_thread ≡ k.idle_thread
unfolding pick_next take_thread enter_idle
pick_next-idle_thread cpu now k = ground arith

entered-run_pt : (cpu now : ℕ) (k : Kernel) → (entered cpu now k).run_pt ≡ k.run_pt
unfolding put_back lock start_critical
entered-run_pt cpu now k = ground arith

pub schedule-run_pt : (cpu now now' : ℕ) (k : Kernel) → (schedule cpu now now' k).run_pt ≡ k.run_pt
unfolding schedule unlock end_critical
schedule-run_pt cpu now now' k =
    pick_next-run_pt cpu now' (entered cpu now k) ∙ entered-run_pt cpu now k

pub schedule-idle_thread :
    (cpu now now' : ℕ) (k : Kernel) → (schedule cpu now now' k).idle_thread ≡ k.idle_thread
unfolding schedule unlock end_critical
schedule-idle_thread cpu now now' k =
    pick_next-idle_thread cpu now' (entered cpu now k) ∙ entered-idle_thread cpu now k

-- What runs next, of the core that calls `schedule`: with it as the core's thread, the state is
-- consistent again.
pub record Chosen (i u j : Ptr) (k : Kernel) (t : Ptr) : Type 0 where
  pub queues : ℕ → List Ptr
  pub cores : Cores t i u j k queues

module _ (cpu now now' : ℕ) (u j : Ptr) (k : Kernel) (q : ℕ → List Ptr)
    (c : Cores (k.run_pt cpu) (k.idle_thread cpu) u j k q) where
  abbrev pub k1 : Kernel
  k1 = entered cpu now k

  abbrev pub k2 : Kernel
  k2 = schedule cpu now now' k

  idle_of : (x : Ptr) → state_of k x ≡ ThreadState.idle → state_of k1 x ≡ ThreadState.idle
  idle_of x e = entered-state_ne cpu now k x (inr (rw e refl)) ∙ e

  -- A thread that runs after the old one is put back is that of the other core, and ran before.
  pub still_running :
      (x : Ptr)
      → state_of k1 x ≡ ThreadState.running
      → (x ≡ u) × (state_of k x ≡ ThreadState.running)
  still_running x r =
      let ne : x ≢ k.run_pt cpu = λ e. entered-run_off cpu now k (ap (state_of k1) (sym e) ∙ r) in
      let before : state_of k x ≡ ThreadState.running =
        sym (entered-state_ne cpu now k x (inl ne)) ∙ r in
      (elim (c.on_cores x before) [ inl e ↦ absurd (ne e) | inr e ↦ e ], before)

  -- The other core's thread is not made ready by putting the old one back.
  still_busy : state_of k1 u ≢ ThreadState.active
  still_busy a = elim (ℕ_discrete u (k.run_pt cpu)) [
    | no ne ↦ c.busy_there (sym (entered-state_ne cpu now k u (inl ne)) ∙ a)
    | yes e ↦ elim (Bool-cases (is_running (state_of k u))) [
      | inl on ↦ c.apart (ap (state_of k) (sym e) ∙ running_of _ on) (sym e)
      | inr off ↦ c.busy_there (sym (entered-state_ne cpu now k u (inr off)) ∙ a)
    ]
  ]

  -- a thread of a list of `q`, in a list that keeps its threads
  listed_within :
      (queues : ℕ → List Ptr) (x : Ptr)
      → ((p : ℕ) (t : Ptr) → In t (q p) → In t (queues p))
      → (pri_of k x < 5) × In x (q (pri_of k x))
      → (pri_of k2 x < 5) × In x (queues (pri_of k2 x))
  listed_within queues x kept h =
      subst (λ p. (p < 5) × In x (queues p))
        (sym (schedule-pri cpu now now' k x ∙ entered-pri cpu now k x))
        (h.0, kept (pri_of k x) x h.1)

  module _ (d : IdleChosen cpu q k1 k2) where
    idle-Chosen : Chosen (k.idle_thread cpu) u j k2 (k2.next_run_pt cpu)
    idle-Chosen =
        let next : k2.next_run_pt cpu ≡ k.idle_thread cpu =
          d.chosen ∙ ap (λ f. f cpu) (entered-idle_thread cpu now k) in
        record {
          queues = q;
          cores = record {
            levels = d.levels;
            listed_here = λ r. absurd (
                idle-ne-running (idle_now (k.idle_thread cpu) c.idle_here)
                  (ap (state_of k2) (sym next) ∙ r));
            listed_there = λ r.
                listed_within q u (λ p t h. h)
                  (c.listed_there ((still_running u (sym (d.states u) ∙ r)).1));
            on_cores = λ x r. inr ((still_running x (sym (d.states x) ∙ r)).0);
            idle_here = idle_now (k.idle_thread cpu) c.idle_here;
            idle_there = idle_now j c.idle_there;
            busy_here = λ a.
                idle-ne-active (idle_now (k.idle_thread cpu) c.idle_here)
                  (ap (state_of k2) (sym next) ∙ a);
            busy_there = λ a. still_busy (sym (d.states u) ∙ a);
            apart = λ r. absurd (
                idle-ne-running (idle_now (k.idle_thread cpu) c.idle_here)
                  (ap (state_of k2) (sym next) ∙ r));
          };
        }
      where
        idle_now : (x : Ptr) → state_of k x ≡ ThreadState.idle → state_of k2 x ≡ ThreadState.idle
        idle_now x e = d.states x ∙ idle_of x e

  module _ (d : ThreadChosen cpu q k1 k2) where
    other_of : (x : Ptr) → state_of k1 x ≢ ThreadState.active → x ≢ d.thread
    other_of x off e = off (ap (state_of k1) e ∙ d.was_active)

    pub thread-Cores : Cores (k2.next_run_pt cpu) (k.idle_thread cpu) u j k2 d.queues
    thread-Cores = record {
      levels = d.levels;
      listed_here =
          λ r. subst (λ t. (pri_of k2 t < 5) × In t (d.queues (pri_of k2 t))) (sym d.chosen) here;
      listed_there = there;
      on_cores = λ x r. elim (ℕ_discrete x d.thread) [
        | yes e ↦ inl (e ∙ sym d.chosen)
        | no ne ↦ inr ((still_running x (sym (d.others x ne) ∙ r)).0)
      ];
      idle_here = idle_now (k.idle_thread cpu) c.idle_here;
      idle_there = idle_now j c.idle_there;
      busy_here = λ a. running-ne-active (ap (state_of k2) d.chosen ∙ d.runs) a;
      busy_there = λ a. still_busy (sym (d.others u (λ e. distinct (sym e))) ∙ a);
      apart = λ r e. distinct (sym d.chosen ∙ e);
    }
      where
        distinct : d.thread ≢ u
        distinct e = still_busy (ap (state_of k1) (sym e) ∙ d.was_active)

        idle_now : (x : Ptr) → state_of k x ≡ ThreadState.idle → state_of k2 x ≡ ThreadState.idle
        idle_now x e = d.others x (other_of x (λ a. idle-ne-active (idle_of x e) a)) ∙ idle_of x e

        level_of : pri_of k1 d.thread ≡ d.level
        level_of =
            entered-pri cpu now k d.thread
            ∙ In-AllAt (pri_of k) d.level d.thread (q d.level) d.member
                (c.levels.ready d.level d.in_range).level

        here : (pri_of k2 d.thread < 5) × In d.thread (d.queues (pri_of k2 d.thread))
        here =
            subst (λ p. (p < 5) × In d.thread (d.queues p))
              (sym (schedule-pri cpu now now' k d.thread ∙ level_of))
              (d.in_range, d.kept d.level d.thread d.member)

        there :
            state_of k2 u ≡ ThreadState.running → (pri_of k2 u < 5) × In u (d.queues (pri_of k2 u))
        there r = elim (ℕ_discrete u d.thread) [
          | yes e ↦ subst (λ t. (pri_of k2 t < 5) × In t (d.queues (pri_of k2 t))) (sym e) here
          | no ne ↦
              listed_within d.queues u d.kept
                (c.listed_there ((still_running u (sym (d.others u ne) ∙ r)).1))
        ]

    thread-Chosen : Chosen (k.idle_thread cpu) u j k2 (k2.next_run_pt cpu)
    thread-Chosen = record { queues = d.queues; cores = thread-Cores }

  -- From a consistent state, `schedule` chooses a thread with which the state is consistent again.
  pub schedule-Chosen : Chosen (k.idle_thread cpu) u j k2 (k2.next_run_pt cpu)
  schedule-Chosen =
      elim ((schedule-choice cpu now now' k q u c.levels c.listed_here c.on_cores).1) [
        | inl d ↦ idle-Chosen d
        | inr d ↦ thread-Chosen d
      ]
