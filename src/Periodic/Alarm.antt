-- ===== src/Periodic/Alarm.antt =====
-- A call of `schedule_background` of os/periodic.c: the task that is due, its next time and the alarm.
use multicore_rtos.Base.{
  ℕ, ◌+◌, ◌*◌, ◌%◌, ◌^◌, ◌≤◌, ◌≡◌, refl, ◌∙◌, sym, ap, subst, inl, inr, true, false, some, List, [],
  ◌∷◌, arith, ltb, length, Bool-cases, update, update_ne, fun_ext,
}
use multicore_rtos.Heap.{Ptr}
use multicore_rtos.Timer.{TimerId, arm_timer}
use multicore_rtos.Periodic.{Background, set_sched_time, arm, resort, schedule_background}
use multicore_rtos.Periodic.Splice.{put-AtLeast, put-Sorted}
use multicore_rtos.Periodic.Turns.{due, next_in, prev_in, requeue, Listed, resort-Requeued}
use multicore_rtos.Sched.Links.{NotIn, Distinct, Chain-frame}
use multicore_rtos.Sched.Line.{AtLeast, Sorted, AtLeast-weaken}

requeue-Sorted :
    (key : Ptr → ℕ) (t : Ptr) (xs : List Ptr) → Sorted key xs → Sorted key (requeue key t xs)
requeue-Sorted key t [] s = (tt, tt)
requeue-Sorted key t (r ∷ ys) s = elim (Bool-cases (ltb (key r) (key t))) [
  | inl later ↦
      let le : key r ≤ key t = ground arith in
      rw later (put-AtLeast key (key t) t (key r) ys le s.0, put-Sorted key (key t) t ys refl s.1)
  | inr first ↦
      let le : key t ≤ key r = ground arith in
      rw first ((le, AtLeast-weaken key (key t) (key r) ys le s.0), s)
]

module _ (key : Ptr → ℕ) (t v : ℕ) where
  AtLeast-update :
      (m : ℕ) (xs : List Ptr) → NotIn t xs → AtLeast key m xs → AtLeast (update key t v) m xs
  AtLeast-update m [] out a = tt
  AtLeast-update m (x ∷ xs) out a =
      let same = update_ne key t v (λ e. out.0 (sym e)) in
      (omega (arith, same, a.0), AtLeast-update m xs out.1 a.1)

  Sorted-update : (xs : List Ptr) → NotIn t xs → Sorted key xs → Sorted (update key t v) xs
  Sorted-update [] out s = tt
  Sorted-update (x ∷ xs) out s =
      let same = update_ne key t v (λ e. out.0 (sym e)) in
      (
        subst (λ n. AtLeast (update key t v) n xs) (sym same) (AtLeast-update (key x) xs out.1 s.0),
        Sorted-update xs out.1 s.1,
      )

-- The time of the next run, on uint32_t.
abbrev pub next_run : Background → Ptr → ℕ
next_run s t = (due s t + (s.bgt t).period * 1000 % 2 ^ 32) % 2 ^ 32

abbrev pub due_then : Background → Ptr → Ptr → ℕ
due_then s t = update (due s) t (next_run s t)

-- The task `t` has run and is back in the list.
pub record Ran (fuel : ℕ) (t : Ptr) (xs : List Ptr) (s : Background) : Type 0 where
  pub after : Background
  pub returned : schedule_background fuel s ≡ some after
  pub listed : Listed after (requeue (due_then s t) t xs)
  pub sorted : Sorted (due after) (requeue (due_then s t) t xs)
  pub due_same : (x : Ptr) → due after x ≡ due_then s t x
  pub func_same : (x : Ptr) → (after.bgt x).func ≡ (s.bgt x).func
  pub period_same : (x : Ptr) → (after.bgt x).period ≡ (s.bgt x).period
  pub ran : after.ran ≡ (s.bgt t).func ∷ s.ran
  pub armed :
      after.timer ≡ arm_timer TimerId.periodic (due after after.periodic_schedule_root) s.timer
  pub unlocked : after.locked ≡ false

-- the state when the list is sorted again
abbrev started : Background → Ptr → Background
started s t =
    set_sched_time t (next_run s t) (record s { ran = (s.bgt t).func ∷ s.ran; locked = true })

abbrev finished : Background → Background
finished s3 = record (arm (due s3 s3.periodic_schedule_root) s3) { locked = false }

schedule_background-resort :
    (fuel : ℕ) (s s3 : Background)
    → resort fuel s.periodic_schedule_root (started s s.periodic_schedule_root) ≡ some s3
    → schedule_background fuel s ≡ some (finished s3)
unfolding schedule_background
schedule_background-resort fuel s s3 e = rw (schedule_background, e) refl

module _ (t : Ptr) (s : Background) (x : Ptr) where
  started-due : due (started s t) x ≡ due_then s t x
  started-due = ground arith

  started-func : ((started s t).bgt x).func ≡ (s.bgt x).func
  started-func = ground arith

  started-period : ((started s t).bgt x).period ≡ (s.bgt x).period
  started-period = ground arith

  started-next : next_in (started s t) x ≡ next_in s x
  started-next = ground arith

  started-prev : prev_in (started s t) x ≡ prev_in s x
  started-prev = ground arith

-- For a circular list of tasks from the root on, whose other tasks are in the order of their times,
-- and as much fuel as there are others: `schedule_background` ends. It has called the function of the
-- task at the root, whose time is now later by its period in microseconds, modulo 2^32, and no task
-- has changed otherwise; that task is in the list behind the others that are due before it, the
-- whole list is in the order of the times, and the alarm is armed for its first. The lock is free.
pub schedule_background-Ran :
    (fuel : ℕ) (t : Ptr) (xs : List Ptr) (s : Background)
    → Listed s (t ∷ xs)
    → Distinct (t ∷ xs)
    → Sorted (due s) xs
    → length xs ≤ fuel
    → Ran fuel t xs s
schedule_background-Ran fuel t xs s l d o le =
    let key : due (started s t) ≡ due_then s t = fun_ext (started-due t s) in
    let q =
      resort-Requeued t xs (started s t) fuel
        (
          l.0,
          Chain-frame (next_in s) (prev_in s) (next_in (started s t)) (prev_in (started s t)) t xs t
              (started-next t s) (started-prev t s) l.1,
        )
        d le in
    let now = fun_ext q.relinked.due_same ∙ key in
    record {
      after = finished q.after;
      returned =
          schedule_background-resort fuel s q.after
            (subst (λ r. resort fuel r (started s r) ≡ some q.after) (sym l.0) q.returned);
      listed = subst (λ k. Listed (finished q.after) (requeue k t xs)) key q.listed;
      sorted =
          subst (λ k. Sorted k (requeue (due_then s t) t xs)) (sym now)
            (requeue-Sorted (due_then s t) t xs (Sorted-update (due s) t (next_run s t) xs d.0 o));
      due_same = λ x. q.relinked.due_same x ∙ started-due t s x;
      func_same = λ x. q.relinked.func_same x ∙ started-func t s x;
      period_same = λ x. q.relinked.period_same x ∙ started-period t s x;
      ran = q.relinked.ran_same;
      armed =
          ap (arm_timer TimerId.periodic (due q.after q.after.periodic_schedule_root))
            q.relinked.timer_same;
      unlocked = refl;
    }
