-- ===== src/Sched/PutBack.antt =====
-- The start of `schedule`: the thread that ran goes back to the active threads of its level.
use multicore_rtos.Base.{
  ℕ, ◌+◌, ◌-◌, ◌%◌, ◌^◌, ◌<◌, ◌≡◌, refl, ◌≢◌, sym, inl, inr, true, false, List, [], ◌∷◌, arith,
  Bool-cases,
}
use native.Mathlib.Decide.{ℕ_discrete}
use multicore_rtos.Heap.{Ptr}
use multicore_rtos.Sched.{Kernel, ThreadState, is_running, put_back}
use multicore_rtos.Sched.Ready.{Ready, Rooted, state_of, pri_of, tally}
use multicore_rtos.Sched.Change.{
  In, Changed, SameCounts, Ready-here, Ready-elsewhere, Ready-same, Rooted-same,
}

-- Every level has its invariant, and the idle level is never empty.
pub record Levels (k : Kernel) (q : ℕ → List Ptr) : Type 0 where
  pub ready : (p : ℕ) → p < 5 → Ready k p (q p)
  pub rooted : (p : ℕ) → p < 5 → Rooted k p (q p)
  pub idle_level : k.active_priority_count 5 ≢ 0

pub running_of : (s : ThreadState) → is_running s ≡ true → s ≡ ThreadState.running
running_of ThreadState.running h = refl
running_of ThreadState.active h = cc
running_of ThreadState.sleeping h = cc
running_of ThreadState.blocked h = cc
running_of ThreadState.dead h = cc
running_of ThreadState.idle h = cc

module _ (cpu now : ℕ) (k : Kernel) where
  abbrev k' : Kernel
  k' = put_back cpu now k

  abbrev pub run : Ptr
  run = k.run_pt cpu

  pub back-Changed : Changed run k k'
  unfolding put_back
  back-Changed = record {
    next_same = λ x. ground arith;
    prev_same = λ x. ground arith;
    pri_same = λ x. ground arith;
    state_same = λ x ne. ground arith;
  }

  back-root : k'.thread_schedule ≡ k.thread_schedule
  unfolding put_back
  back-root = ground arith

  -- The thread that ran was running.
  module _ (on : state_of k run ≡ ThreadState.running) where
    pub back-state : state_of k' run ≡ ThreadState.active
    unfolding put_back
    back-state = ground arith

    back-active :
        k'.active_priority_count (pri_of k run)
        ≡ (k.active_priority_count (pri_of k run) + 1) % 2 ^ 16
    unfolding put_back
    back-active = ground arith

    back-running :
        k'.running_priority_count (pri_of k run)
        ≡ (k.running_priority_count (pri_of k run) + 2 ^ 16 - 1) % 2 ^ 16
    unfolding put_back
    back-running = ground arith

    back-counts_ne : (p : ℕ) → p ≢ pri_of k run → SameCounts p k k'
    unfolding put_back
    back-counts_ne p ne = record { active_same = ground arith; running_same = ground arith }

  -- It was not: the levels stay as they are.
  module _ (off : is_running (state_of k run) ≡ false) where
    pub back-state_off : (x : Ptr) → state_of k' x ≡ state_of k x
    unfolding put_back
    back-state_off x = ground arith

    back-counts_off : (p : ℕ) → SameCounts p k k'
    unfolding put_back
    back-counts_off p = record { active_same = ground arith; running_same = ground arith }

-- A thread that runs on the core is in the list of its level.
abbrev pub IsListed : Kernel → (ℕ → List Ptr) → Ptr → Type 0
IsListed k q t = state_of k t ≡ ThreadState.running → (pri_of k t < 5) × In t (q (pri_of k t))

module _ (cpu now : ℕ) (k : Kernel) (q : ℕ → List Ptr) (l : Levels k q) where
  back_on :
      (on : state_of k (run cpu now k) ≡ ThreadState.running)
      → (pri_of k (run cpu now k) < 5) × In (run cpu now k) (q (pri_of k (run cpu now k)))
      → Levels (put_back cpu now k) q
  back_on on i = record {
    ready = λ p lt. elim (ℕ_discrete p (pri_of k t)) [
      | yes same ↦ rw same here
      | no other ↦
          Ready-elsewhere (q p) (back-Changed cpu now k) (back-counts_ne cpu now k on p other)
            (λ e. other (sym e)) (l.ready p lt)
    ];
    rooted = λ p lt.
        Rooted-same k (put_back cpu now k) p (q p) (rw (back-root cpu now k)) (l.rooted p lt);
    idle_level = rw ((back-counts_ne cpu now k on 5 (omega (arith, i.0))).active_same) l.idle_level;
  }
    where
      t : Ptr
      t = run cpu now k

      r : Ready k (pri_of k t) (q (pri_of k t))
      r = l.ready (pri_of k t) i.0

      one_running : 0 < k.running_priority_count (pri_of k t)
      one_running = rw r.runnings (tally_pos (q (pri_of k t)) i.1)
        where
          tally_pos : (xs : List Ptr) → In t xs → 0 < tally is_running (state_of k) xs
          tally_pos [] j = absurd j
          tally_pos (x ∷ xs) (inl e) = rw (← e, on) (omega arith)
          tally_pos (x ∷ xs) (inr j) = omega (arith, tally_pos xs j)

      here : Ready (put_back cpu now k) (pri_of k t) (q (pri_of k t))
      here =
          Ready-here (q (pri_of k t)) (back-Changed cpu now k) i.1
            (rw (on, back-state cpu now k on) refl)
            (rw (on, back-state cpu now k on)
              (omega (
                arith,
                back-active cpu now k on,
                r.actives,
                r.runnings,
                r.ready,
                r.small,
                one_running,
              )))
            (rw (on, back-state cpu now k on)
              (omega (
                arith,
                back-running cpu now k on,
                r.actives,
                r.runnings,
                r.ready,
                r.small,
                one_running,
              )))
            r

  back_off : is_running (state_of k (run cpu now k)) ≡ false → Levels (put_back cpu now k) q
  back_off off = record {
    ready = λ p lt.
        Ready-same (q p) (back-Changed cpu now k) (back-state_off cpu now k off)
          (back-counts_off cpu now k off p) (l.ready p lt);
    rooted = λ p lt.
        Rooted-same k (put_back cpu now k) p (q p) (rw (back-root cpu now k)) (l.rooted p lt);
    idle_level = rw ((back-counts_off cpu now k off 5).active_same) l.idle_level;
  }

  -- Putting the thread back keeps the invariant of every level.
  pub put_back-Levels : IsListed k q (run cpu now k) → Levels (put_back cpu now k) q
  put_back-Levels i = elim (Bool-cases (is_running (state_of k (run cpu now k)))) [
    | inl on ↦ back_on (running_of _ on) (i (running_of _ on))
    | inr off ↦ back_off off
  ]
