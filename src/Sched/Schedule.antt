-- ===== src/Sched/Schedule.antt =====
-- `schedule` as a whole: what it chooses between taking the lock and giving it back.
use multicore_rtos.Base.{
  ℕ, ◌≤◌, ◌<◌, ◌≡◌, refl, ◌≢◌, ◌∙◌, ap, sym, ◌⊎◌, inl, inr, true, false, List, [], ◌∷◌, arith,
  Bool-cases,
}
use native.Mathlib.Decide.{ℕ_discrete}
use multicore_rtos.Heap.{Ptr}
use multicore_rtos.Sched.{
  Kernel, ThreadState, is_running, pick_next, put_back, take_thread, enter_idle, schedule, lock,
  unlock, start_critical, end_critical,
}
use multicore_rtos.Sched.Links.{Distinct, NotIn}
use multicore_rtos.Sched.Ready.{state_of, tally}
use multicore_rtos.Sched.PutBack.{
  Levels, IsListed, put_back-Levels, running_of, back-Changed, back-state, back-state_off,
}
use multicore_rtos.Sched.Choice.{
  IdleChosen, ThreadChosen, SameThreads, Levels-same, pick_next-choice,
}

-- In a list without duplicates whose running threads are all `u`, at most one runs.
tally-one :
    (st : Ptr → ThreadState) (u : Ptr) (xs : List Ptr)
    → Distinct xs
    → ((x : Ptr) → st x ≡ ThreadState.running → x ≡ u)
    → tally is_running st xs ≤ 1
tally-one st u [] d h = omega arith
tally-one st u (x ∷ xs) d h = elim (Bool-cases (is_running (st x))) [
  | inl on ↦
      let none = tally-none st u xs (rw (h x (running_of _ on)) at d.0) h in
      rw (on, none) (omega arith)
  | inr off ↦ rw off (omega (arith, tally-one st u xs d.1 h))
]
  where
    tally-none :
        (st : Ptr → ThreadState) (u : Ptr) (ys : List Ptr)
        → NotIn u ys
        → ((x : Ptr) → st x ≡ ThreadState.running → x ≡ u)
        → tally is_running st ys ≡ 0
    tally-none st u [] n h = refl
    tally-none st u (y ∷ ys) n h = elim (Bool-cases (is_running (st y))) [
      | inl on ↦ absurd (n.0 (sym (h y (running_of _ on))))
      | inr off ↦ rw (off, tally-none st u ys n.1 h) refl
    ]

-- Only the thread of this core and the thread `u` of the other one run.
abbrev pub OnCores : Kernel → Ptr → Ptr → Type 0
OnCores k t u = (x : Ptr) → state_of k x ≡ ThreadState.running → (x ≡ t) ⊎ (x ≡ u)

back-others :
    (cpu now : ℕ) (k : Kernel) (u : Ptr)
    → OnCores k (k.run_pt cpu) u
    → (x : Ptr) → state_of (put_back cpu now k) x ≡ ThreadState.running
    → x ≡ u
back-others cpu now k u on x r = elim (ℕ_discrete x (k.run_pt cpu)) [
  | yes e ↦ absurd (gone (rw e at r))
  | no ne ↦ elim (on x (sym ((back-Changed cpu now k).state_same x ne) ∙ r)) [
    | inl e ↦ absurd (ne e)
    | inr e ↦ e
  ]
]
  where
    gone : state_of (put_back cpu now k) (k.run_pt cpu) ≢ ThreadState.running
    gone r = elim (Bool-cases (is_running (state_of k (k.run_pt cpu)))) [
      | inl was ↦ (let a = sym r ∙ back-state cpu now k (running_of _ was) in cc)
      | inr off ↦
          (let b = ap is_running (sym (back-state_off cpu now k off (k.run_pt cpu)) ∙ r) in cc)
    ]

-- the kernel once `schedule` has taken the lock and put back the thread that ran
abbrev pub entered : ℕ → ℕ → Kernel → Kernel
entered cpu now k = put_back cpu now (lock (start_critical cpu k))

lock-same : (cpu : ℕ) (k : Kernel) → SameThreads k (lock (start_critical cpu k))
unfolding lock start_critical
lock-same cpu k = record { tcbs = λ p. refl; actives = refl; runnings = refl; roots = refl }

lock-IsListed :
    (cpu : ℕ) (k : Kernel) (q : ℕ → List Ptr)
    → IsListed k q (k.run_pt cpu)
    → IsListed (lock (start_critical cpu k)) q ((lock (start_critical cpu k)).run_pt cpu)
unfolding lock start_critical
lock-IsListed cpu k q i = i

lock-OnCores :
    (cpu : ℕ) (k : Kernel) (u : Ptr)
    → OnCores k (k.run_pt cpu) u
    → OnCores (lock (start_critical cpu k)) ((lock (start_critical cpu k)).run_pt cpu) u
unfolding lock start_critical
lock-OnCores cpu k u on = on

pub schedule-same :
    (cpu now now' : ℕ) (k : Kernel)
    → SameThreads (pick_next cpu now' (entered cpu now k)) (schedule cpu now now' k)
unfolding schedule unlock end_critical
schedule-same cpu now now' k = record {
  tcbs = λ p. refl;
  actives = refl;
  runnings = refl;
  roots = refl;
}

pub schedule-next :
    (cpu now now' : ℕ) (k : Kernel)
    → (schedule cpu now now' k).next_run_pt cpu
      ≡ (pick_next cpu now' (entered cpu now k)).next_run_pt cpu
unfolding schedule unlock end_critical
schedule-next cpu now now' k = refl

-- the invariant once the old thread is put back
pub entered-Levels :
    (cpu now : ℕ) (k : Kernel) (q : ℕ → List Ptr)
    → Levels k q
    → IsListed k q (k.run_pt cpu)
    → Levels (entered cpu now k) q
entered-Levels cpu now k q l i =
    put_back-Levels cpu now (lock (start_critical cpu k)) q (Levels-same (lock-same cpu k) l)
      (lock-IsListed cpu k q i)

-- What pick_next has chosen stays chosen when the lock is given back.
unfoldable pub schedule-ThreadChosen :
    (cpu now now' : ℕ) (k : Kernel) (q : ℕ → List Ptr)
    → ThreadChosen cpu q (entered cpu now k) (pick_next cpu now' (entered cpu now k))
    → ThreadChosen cpu q (entered cpu now k) (schedule cpu now now' k)
schedule-ThreadChosen cpu now now' k q c =
    let same = schedule-same cpu now now' k in
    record {
      level = c.level;
      in_range = c.in_range;
      above = c.above;
      thread = c.thread;
      chosen = schedule-next cpu now now' k ∙ c.chosen;
      member = c.member;
      was_active = c.was_active;
      runs = ap (λ t. t.state) (same.tcbs c.thread) ∙ c.runs;
      others = λ t ne. ap (λ x. x.state) (same.tcbs t) ∙ c.others t ne;
      queues = c.queues;
      kept = c.kept;
      levels = Levels-same same c.levels;
    }

-- How `schedule` leaves the core: the lock is free, the interrupt mask of each core is what it
-- was, and the switch to the chosen thread is pending.
pub record Exit (cpu : ℕ) (k k' : Kernel) : Type 0 where
  pub unlocked : k'.scheduler_locked ≡ false
  pub mask : (c : ℕ) → k'.interrupts_off c ≡ k.interrupts_off c
  pub pending : k'.pend_sv cpu ≡ true

put_back-masks :
    (cpu now c : ℕ) (k : Kernel) → (put_back cpu now k).interrupts_off c ≡ k.interrupts_off c
unfolding put_back
put_back-masks cpu now c k = ground arith

pick_next-masks :
    (cpu now c : ℕ) (k : Kernel) → (pick_next cpu now k).interrupts_off c ≡ k.interrupts_off c
unfolding pick_next take_thread enter_idle
pick_next-masks cpu now c k = ground arith

schedule-Exit : (cpu now now' : ℕ) (k : Kernel) → Exit cpu k (schedule cpu now now' k)
unfolding schedule lock unlock start_critical end_critical
schedule-Exit cpu now now' k = record {
  unlocked = refl;
  mask = λ c.
      let a = pick_next-masks cpu now' c (put_back cpu now (lock (start_critical cpu k))) in
      let b = put_back-masks cpu now c (lock (start_critical cpu k)) in ground arith;
  pending = ground arith;
}

-- What `schedule` does, from a kernel that satisfies the invariant of the levels in which the
-- thread of this core, if it is RUNNING, is in the list of its level and no other thread than
-- that one and `u` is RUNNING: either no level below the idle level has an ACTIVE thread once the
-- old thread is put back, and the core's idle thread is next; or the next thread was ACTIVE, is now
-- RUNNING, and belongs to the first level that has an ACTIVE thread. The invariant holds
-- afterwards, the lock is free, the interrupt masks are restored and the switch is pending.
pub schedule-choice :
    (cpu now now' : ℕ) (k : Kernel) (q : ℕ → List Ptr) (u : Ptr)
    → Levels k q
    → IsListed k q (k.run_pt cpu)
    → OnCores k (k.run_pt cpu) u
    → Exit cpu k (schedule cpu now now' k)
      × (IdleChosen cpu q (entered cpu now k) (schedule cpu now now' k)
          ⊎ ThreadChosen cpu q (entered cpu now k) (schedule cpu now now' k))
schedule-choice cpu now now' k q u l i on = (
  schedule-Exit cpu now now' k,
  elim (pick_next-choice cpu now' (entered cpu now k) q l1 one) [
    | inl c ↦ inl (record {
      none_active = c.none_active;
      chosen = end-next ∙ c.chosen;
      states = λ t. ap (λ x. x.state) (end-same.tcbs t) ∙ c.states t;
      levels = Levels-same end-same c.levels;
    })
    | inr c ↦ inr (schedule-ThreadChosen cpu now now' k q c)
  ],
)
  where
    l1 : Levels (entered cpu now k) q
    l1 = entered-Levels cpu now k q l i

    one : (p : ℕ) → p < 5 → tally is_running (state_of (entered cpu now k)) (q p) ≤ 1
    one p lt =
        tally-one _ u (q p) ((l1.ready p lt).distinct)
          (back-others cpu now (lock (start_critical cpu k)) u (lock-OnCores cpu k u on))

    end-same : SameThreads (pick_next cpu now' (entered cpu now k)) (schedule cpu now now' k)
    end-same = schedule-same cpu now now' k

    end-next :
        (schedule cpu now now' k).next_run_pt cpu
        ≡ (pick_next cpu now' (entered cpu now k)).next_run_pt cpu
    end-next = schedule-next cpu now now' k
