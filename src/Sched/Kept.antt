-- ===== src/Sched/Kept.antt =====
-- What `schedule` leaves alone: links, priorities, ticks, and the lists of waiting threads.
use multicore_rtos.Base.{ℕ, ◌≡◌, refl, ◌∙◌, arith, Bool}
use multicore_rtos.Heap.{Ptr}
use multicore_rtos.Sched.{
  Kernel, schedule, pick_next, put_back, take_thread, enter_idle, lock, unlock, start_critical,
  end_critical,
}
use multicore_rtos.Sched.Ring.{next_of}
use multicore_rtos.Sched.Ready.{pri_of}
use multicore_rtos.Sched.Line.{tick_of}
use multicore_rtos.Sched.Schedule.{entered}
use multicore_rtos.Sched.Finish.{finished}

pub record Kept (k k' : Kernel) : Type 0 where
  pub next : (x : Ptr) → next_of k' x ≡ next_of k x
  pub pri : (x : Ptr) → pri_of k' x ≡ pri_of k x
  pub tick : (x : Ptr) → tick_of k' x ≡ tick_of k x
  pub sema : k'.sema ≡ k.sema
  pub sleepers : k'.sleep_schedule_root ≡ k.sleep_schedule_root

Kept-trans : {k k' k'' : Kernel} → Kept k k' → Kept k' k'' → Kept k k''
Kept-trans a b = record {
  next = λ x. b.next x ∙ a.next x;
  pri = λ x. b.pri x ∙ a.pri x;
  tick = λ x. b.tick x ∙ a.tick x;
  sema = b.sema ∙ a.sema;
  sleepers = b.sleepers ∙ a.sleepers;
}

entered-Kept : (cpu now : ℕ) (k : Kernel) → Kept k (entered cpu now k)
unfolding put_back lock start_critical
entered-Kept cpu now k = record {
  next = λ x. ground arith;
  pri = λ x. ground arith;
  tick = λ x. ground arith;
  sema = ground arith;
  sleepers = ground arith;
}

pick_next-Kept : (cpu now : ℕ) (k : Kernel) → Kept k (pick_next cpu now k)
unfolding pick_next take_thread enter_idle
pick_next-Kept cpu now k = record {
  next = λ x. ground arith;
  pri = λ x. ground arith;
  tick = λ x. ground arith;
  sema = ground arith;
  sleepers = ground arith;
}

leave-Kept : (cpu : ℕ) (m : Bool) (k : Kernel) → Kept k (end_critical cpu m (unlock k))
unfolding unlock end_critical
leave-Kept cpu m k = record {
  next = λ x. refl;
  pri = λ x. refl;
  tick = λ x. refl;
  sema = refl;
  sleepers = refl;
}

schedule_end-Kept :
    (cpu now now' : ℕ) (k : Kernel)
    → Kept (pick_next cpu now' (entered cpu now k)) (schedule cpu now now' k)
unfolding schedule unlock end_critical
schedule_end-Kept cpu now now' k = record {
  next = λ x. refl;
  pri = λ x. refl;
  tick = λ x. refl;
  sema = refl;
  sleepers = refl;
}

pub schedule-Kept : (cpu now now' : ℕ) (k : Kernel) → Kept k (schedule cpu now now' k)
schedule-Kept cpu now now' k =
    Kept-trans (Kept-trans (entered-Kept cpu now k) (pick_next-Kept cpu now' (entered cpu now k)))
      (schedule_end-Kept cpu now now' k)

pub finished-Kept : (cpu now now' : ℕ) (m : Bool) (k : Kernel) → Kept k (finished cpu now now' m k)
finished-Kept cpu now now' m k =
    Kept-trans (leave-Kept cpu m k) (schedule-Kept cpu now now' (end_critical cpu m (unlock k)))
