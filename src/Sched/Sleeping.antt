-- ===== src/Sched/Sleeping.antt =====
-- The queue of sleeping threads in `sleep` of os/schedule.c, and its order.
use multicore_rtos.Base.{
  ◌+◌, ℕ, zero, suc, ◌+◌, ◌%◌, ◌^◌, ◌≡◌, refl, ◌≢◌, ◌∙◌, ap, sym, inl, inr, true, false, some, List,
  [], ◌∷◌, arith, ◌==◌, ==_of_ne, ltb, Bool-cases,
}
use multicore_rtos.Heap.{Ptr, null}
use multicore_rtos.Timer.{arm_timer}
use multicore_rtos.Sched.{Kernel, set_next}
use multicore_rtos.Sched.Wait.{insert_sleeping, queue_sleeper, set_sleep_root, arm_sleep}
use multicore_rtos.Sched.Links.{NotIn}
use multicore_rtos.Sched.Ring.{next_of}
use multicore_rtos.Sched.Rethread.{Rethreaded, Rethreaded-set_next, Rethreaded-trans}
use multicore_rtos.Sched.Line.{
  Line, Sorted, insert_by, insert_by-Sorted, walk, walk-Joined, tick_of,
}
use multicore_rtos.Sched.Waiting.{Waiting, Sorted-same, front-Line, Line-links}

insert_sleeping-walk :
    (fuel : ℕ) (t n : Ptr) (k : Kernel) → insert_sleeping fuel t n k ≡ walk (tick_of k) fuel t n k
unfolding insert_sleeping walk
insert_sleeping-walk zero t n k = refl
insert_sleeping-walk (suc fuel) t n k = rw (insert_sleeping-walk fuel t (next_of k n) k) refl

-- The thread has joined the sleeping threads.
pub record Asleep (t : Ptr) (k : Kernel) (xs : List Ptr) : Type 0 where
  pub after : Kernel
  pub returned : queue_sleeper t k ≡ some after
  pub line : Line after after.sleep_schedule_root (insert_by (tick_of k) t xs)
  pub rest : Rethreaded t xs k after
  pub sorted : Sorted (tick_of after) (insert_by (tick_of k) t xs)
  pub armed : after.sleep_schedule_root ≡ t → after.timer.alarm 0 ≡ tick_of k t % 2 ^ 32

module _ (t : Ptr) (k : Kernel) where
  sleep-empty :
      k.sleep_schedule_root ≡ null
      → queue_sleeper t k ≡ some (arm_sleep (tick_of k t) (set_sleep_root t k))
  unfolding queue_sleeper
  sleep-empty e =
      let n : (k.sleep_schedule_root == null) ≡ true = ap (λ p. p == null) e in rw n refl

  sleep-front :
      (x : Ptr)
      → k.sleep_schedule_root ≡ x
      → x ≢ null
      → ltb (tick_of k t) (tick_of k x) ≡ true
      → queue_sleeper t k ≡ some (arm_sleep (tick_of k t) (set_sleep_root t (set_next t x k)))
  unfolding queue_sleeper
  sleep-front x e ne before =
      let n : (k.sleep_schedule_root == null) ≡ false =
        ap (λ p. p == null) e ∙ ==_of_ne x null ne in
      let b : ltb (tick_of k t) (tick_of k k.sleep_schedule_root) ≡ true =
        ap (λ p. ltb (tick_of k t) (tick_of k p)) e ∙ before in
      let w : queue_sleeper t k
          ≡ some (arm_sleep (tick_of k t) (set_sleep_root t (set_next t k.sleep_schedule_root k))) =
        rw (n, b) refl in
      w ∙ ap (λ p. some (arm_sleep (tick_of k t) (set_sleep_root t (set_next t p k)))) e

  sleep-behind :
      (x : Ptr)
      → k.sleep_schedule_root ≡ x
      → x ≢ null
      → ltb (tick_of k t) (tick_of k x) ≡ false
      → queue_sleeper t k ≡ walk (tick_of k) (k.lifetime_thread_count + 1) t x k
  unfolding queue_sleeper
  sleep-behind x e ne behind =
      let n : (k.sleep_schedule_root == null) ≡ false =
        ap (λ p. p == null) e ∙ ==_of_ne x null ne in
      let b : ltb (tick_of k t) (tick_of k k.sleep_schedule_root) ≡ false =
        ap (λ p. ltb (tick_of k t) (tick_of k p)) e ∙ behind in
      let w : queue_sleeper t k
          ≡ insert_sleeping (k.lifetime_thread_count + 1) t k.sleep_schedule_root k =
        rw (n, b) refl in
      w
      ∙ ap (λ p. insert_sleeping (k.lifetime_thread_count + 1) t p k) e
      ∙ insert_sleeping-walk (k.lifetime_thread_count + 1) t x k

root-Rethreaded :
    (t : Ptr) (ws : List Ptr) (tick : ℕ) (p : Ptr) (k : Kernel)
    → Rethreaded t ws k (arm_sleep tick (set_sleep_root p k))
root-Rethreaded t ws tick p k = record {
  next = λ z n ne. refl;
  prev = λ z. refl;
  pri = λ z. refl;
  state = λ z. refl;
  actives = refl;
  runnings = refl;
  roots = refl;
  run_pts = refl;
  idles = refl;
}

-- Where a thread with its link NULL is not among the sleeping threads, which are in the order of
-- their ticks and no more than were ever created, `sleep` ends its walk and leaves the list with
-- the thread behind all whose tick is not larger, in order; the alarm is set to the thread's tick
-- if it is the first.
pub queue_sleeper-Sorted :
    (t : Ptr) (k : Kernel) (xs : List Ptr)
    → Waiting k t k.sleep_schedule_root xs
    → Sorted (tick_of k) xs
    → Asleep t k xs
unfolding arm_timer
queue_sleeper-Sorted t k [] w s = record {
  after = arm_sleep (tick_of k t) (set_sleep_root t k);
  returned = sleep-empty t k w.line;
  line = (refl, w.loose);
  rest = root-Rethreaded t [] (tick_of k t) t k;
  sorted = (tt, tt);
  armed = λ _. ground arith;
}
queue_sleeper-Sorted t k (x ∷ xs) w s =
    let ne : x ≢ null = λ e. w.not_null.0 (sym e) in
    let order = insert_by-Sorted (tick_of k) t (x ∷ xs) s in
    elim (Bool-cases (ltb (tick_of k t) (tick_of k x))) [
      | inl before ↦ record {
        after = arm_sleep (tick_of k t) (set_sleep_root t (set_next t x k));
        returned = sleep-front t k x w.line.0 ne before;
        line = rw before (front t x xs k w.fresh (refl, w.line.1));
        rest =
            Rethreaded-trans (Rethreaded-set_next t (x ∷ xs) t x k (λ z n zt. zt))
              (root-Rethreaded t (x ∷ xs) (tick_of k t) t (set_next t x k));
        sorted = Sorted-same (tick_of k) _ _ (λ z. ground arith) order;
        armed = λ _. ground arith;
      }
      | inr behind ↦
          let j =
            walk-Joined (tick_of k) t k w.some_thread w.loose (k.lifetime_thread_count + 1) x xs
              w.line.1 w.distinct w.not_null.1 w.fresh (omega (arith, w.few)) in
          record {
            after = j.after;
            returned = sleep-behind t k x w.line.0 ne behind ∙ j.returned;
            line = rw behind (j.root_same ∙ w.line.0, j.line.1);
            rest = j.rest;
            sorted = Sorted-same (tick_of k) _ _ j.tick_same order;
            armed = λ e. absurd (w.fresh.0 (sym (sym (j.root_same ∙ w.line.0) ∙ e)));
          }
    ]
  where
    front :
        (t x : Ptr) (xs : List Ptr) (k : Kernel)
        → NotIn t (x ∷ xs)
        → Line k x (x ∷ xs)
        → Line (arm_sleep (tick_of k t) (set_sleep_root t (set_next t x k))) t (t ∷ x ∷ xs)
    front t x xs k fresh l =
        Line-links (set_next t x k) (arm_sleep (tick_of k t) (set_sleep_root t (set_next t x k))) t
          (t ∷ x ∷ xs) (λ z. refl) (front-Line t x xs k fresh l)
