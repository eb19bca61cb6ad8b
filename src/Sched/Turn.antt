-- ===== src/Sched/Turn.antt =====
-- Taking turns in `schedule` of os/schedule.c: the root of the first level that has an ACTIVE thread
-- is next, and goes to the end of its level.
use multicore_rtos.Base.{
  ℕ, ◌+◌, ◌≤◌, ◌<◌, ◌≡◌, refl, ◌≢◌, ◌∙◌, ap, sym, subst, inl, inr, false, List, [], ◌∷◌, ◌++◌,
  arith, Bool-cases, update_self,
}
use native.Mathlib.Decide.{ℕ_discrete}
use multicore_rtos.Heap.{Ptr}
use multicore_rtos.Sched.{
  Kernel, ThreadState, is_running, schedule, pick_next, put_back, take_thread, find_level, lock,
  start_critical,
}
use multicore_rtos.Sched.Ready.{Ready, Rooted, state_of, pri_of}
use multicore_rtos.Sched.PutBack.{Levels, running_of}
use multicore_rtos.Sched.Level.{FirstLevel, find_level-FirstLevel}
use multicore_rtos.Sched.Pick.{take-counts_ne}
use multicore_rtos.Sched.Take.{Taken, take_root, head_active}
use multicore_rtos.Sched.Choice.{ThreadChosen, pick-take, take-ThreadChosen}
use multicore_rtos.Sched.Schedule.{entered, entered-Levels, schedule-same, schedule-ThreadChosen}
use multicore_rtos.Sched.Consistent.{Cores, still_running}

-- The core with the thread `t` serves `level`: no level above has an ACTIVE thread or is the one that
-- `t` goes back to, and the thread `u` of the other core, if it is RUNNING, is of another level.
pub record Turn (t u : Ptr) (k : Kernel) (q : ℕ → List Ptr) (level : ℕ) (xs : List Ptr)
    : Type 0 where
  pub in_range : level < 5
  pub queue : q level ≡ xs
  pub above : (p : ℕ) → p < level → k.active_priority_count p ≡ 0
  pub low : state_of k t ≡ ThreadState.running → level ≤ pri_of k t
  pub alone : state_of k u ≡ ThreadState.running → pri_of k u ≢ level

entered-active :
    (cpu now p : ℕ) (k : Kernel)
    → (state_of k (k.run_pt cpu) ≡ ThreadState.running → p ≢ pri_of k (k.run_pt cpu))
    → (entered cpu now k).active_priority_count p ≡ k.active_priority_count p
unfolding put_back lock start_critical
entered-active cpu now p k ne = ground arith

-- the level that is found
level_found :
    (counts : ℕ → ℕ) (level : ℕ)
    → level < 5
    → counts level ≢ 0
    → ((p : ℕ) → p < level → counts p ≡ 0)
    → (find_level 6 0 counts ≡ level) × FirstLevel counts 0 level
level_found counts level lt hit above =
    let from_zero : 0 + level ≡ level = omega arith in
    let (first, le) = find_level-FirstLevel 6 0 level counts (rw from_zero hit) (omega arith) in
    let same : find_level 6 0 counts ≡ level = elim (ℕ_discrete (find_level 6 0 counts) level) [
      | yes e ↦ e
      | no ne ↦ absurd (first.nonzero (above (find_level 6 0 counts) (omega arith)))
    ] in
    (same, subst (FirstLevel counts 0) same first)

-- The root of a level is taken, if it does not run.
abbrev RootTaken : ℕ → ℕ → Kernel → Ptr → List Ptr → List Ptr → Type 0
RootTaken cpu pri k x xs ys = (t : Taken cpu pri k ys) × (t.thread ≡ x) × (t.queue ≡ xs ++ (x ∷ []))

root_active :
    (pri : ℕ) (k : Kernel) (x : Ptr) (xs : List Ptr)
    → Ready k pri (x ∷ xs)
    → is_running (state_of k x) ≡ false
    → k.active_priority_count pri ≢ 0
root_active pri k x xs r off zero =
    let act = head_active (state_of k) x xs r.ready off in omega (arith, zero, rw act at r.actives)

root_taken :
    (cpu pri : ℕ) (k : Kernel) (x : Ptr) (xs ys : List Ptr)
    → ys ≡ x ∷ xs
    → Ready k pri ys
    → Rooted k pri ys
    → is_running (state_of k x) ≡ false
    → (k.active_priority_count pri ≢ 0) × RootTaken cpu pri k x xs ys
unfolding take_root
root_taken cpu pri k x xs ys e r root off =
    let r' : Ready k pri (x ∷ xs) = subst (Ready k pri) e r in
    let hit = root_active pri k x xs r' off in
    (
      hit,
      subst (RootTaken cpu pri k x xs) (sym e)
          (take_root cpu pri k x xs r' (subst (Rooted k pri) e root) off hit, refl, refl),
    )

module _ (cpu now now' : ℕ) (u j : Ptr) (k : Kernel) (q : ℕ → List Ptr)
    (c : Cores (k.run_pt cpu) (k.idle_thread cpu) u j k q) (level : ℕ) (x : Ptr) (xs : List Ptr)
    (turn : Turn (k.run_pt cpu) u k q level (x ∷ xs)) where
  abbrev k1 : Kernel
  k1 = entered cpu now k

  l1 : Levels k1 q
  l1 = entered-Levels cpu now k q c.levels c.listed_here

  root_pri : pri_of k x ≡ level
  root_pri = (subst (Ready k level) turn.queue (c.levels.ready level turn.in_range)).level.0

  root_off : is_running (state_of k1 x) ≡ false
  root_off = elim (Bool-cases (is_running (state_of k1 x))) [
    | inl on ↦
        let (same, before) = still_running cpu now now' u j k q c x (running_of _ on) in
        absurd
          (turn.alone (ap (state_of k) (sym same) ∙ before) (ap (pri_of k) (sym same) ∙ root_pri))
    | inr off ↦ off
  ]

  none_above : (p : ℕ) → p < level → k1.active_priority_count p ≡ 0
  none_above p lt =
      entered-active cpu now p k (λ r e. absurd (omega (arith, turn.low r))) ∙ turn.above p lt

  picked :
      (d : ThreadChosen cpu q k1 (pick_next cpu now' k1)) × (d.thread ≡ x)
      × (d.queues level ≡ xs ++ (x ∷ []))
      × ((p : ℕ) → p < level → (pick_next cpu now' k1).active_priority_count p ≡ 0)
  unfolding take-ThreadChosen
  picked =
      let (hit, (t, thread, queue)) =
        root_taken cpu level k1 x xs (q level) turn.queue (l1.ready level turn.in_range)
          (l1.rooted level turn.in_range) root_off in
      let (same, first) = level_found k1.active_priority_count level turn.in_range hit none_above in
      let take : pick_next cpu now' k1 ≡ take_thread cpu level k1 =
        pick-take cpu now' k1 (omega (arith, same, turn.in_range))
        ∙ ap (λ p. take_thread cpu p k1) same in
      rw take (
        take-ThreadChosen cpu level k1 q l1 turn.in_range first t,
        thread,
        update_self q level t.queue ∙ queue,
        λ p lt. (take-counts_ne cpu level p k1 (omega arith)).active_same ∙ none_above p lt,
      )

  -- The root is chosen and goes to the end of the level.
  pub schedule-Turn :
      (d : ThreadChosen cpu q k1 (schedule cpu now now' k)) × (d.thread ≡ x)
      × (d.queues level ≡ xs ++ (x ∷ []))
      × ((p : ℕ) → p < level → (schedule cpu now now' k).active_priority_count p ≡ 0)
  unfolding schedule-ThreadChosen
  schedule-Turn =
      let (d, thread, queue, above) = picked in
      (
        schedule-ThreadChosen cpu now now' k q d,
        thread,
        queue,
        λ p lt. ap (λ f. f p) (schedule-same cpu now now' k).actives ∙ above p lt,
      )
