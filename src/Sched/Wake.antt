-- ===== src/Sched/Wake.antt =====
-- The alarm that `unsleep` sets for the next sleeping thread.
use multicore_rtos.Base.{
  ℕ, ◌+◌, ◌%◌, ◌^◌, ◌≤◌, ◌<◌, ◌≡◌, refl, ◌≢◌, ◌∙◌, ap, true, false, arith, ltb, ◌==◌, ==_of_ne,
}
use multicore_rtos.Heap.{Ptr, null}
use multicore_rtos.Timer.{arm_timer}
use multicore_rtos.Sched.{
  Kernel, enqueue_thread, link_front, link_alone, start_critical, end_critical, lock, unlock,
}
use multicore_rtos.Sched.Ring.{next_of}
use multicore_rtos.Sched.Line.{tick_of}
use multicore_rtos.Sched.Wait.{unsleep, arm_next, set_sleep_root}

enqueue_thread-timer : (t : Ptr) (k : Kernel) → (enqueue_thread t k).timer ≡ k.timer
unfolding enqueue_thread link_front link_alone
enqueue_thread-timer t k = ground arith

arm_next-late :
    (now now' : ℕ) (k : Kernel)
    → k.sleep_schedule_root ≢ null
    → tick_of k k.sleep_schedule_root < 2 ^ 32
    → 2 ^ 32 ≤ now
    → (arm_next now now' k).timer.alarm 0 ≡ (now' + 10) % 2 ^ 32
unfolding arm_next arm_timer
arm_next-late now now' k ne small late =
    let a : (k.sleep_schedule_root == null) ≡ false = ==_of_ne k.sleep_schedule_root null ne in
    let b : ltb (tick_of k k.sleep_schedule_root) (now + 10) ≡ true = ground arith in rw (a, b) refl

-- Where at least two threads sleep and the clock has reached 2^32 microseconds, `unsleep` sets the
-- alarm to ten microseconds after its reading of the clock, whatever the tick at which the next
-- thread is to resume.
pub unsleep-late :
    (cpu now now' : ℕ) (k : Kernel)
    → k.sleep_schedule_root ≢ null
    → next_of k k.sleep_schedule_root ≢ null
    → tick_of k (next_of k k.sleep_schedule_root) < 2 ^ 32
    → 2 ^ 32 ≤ now
    → (unsleep cpu now now' k).timer.alarm 0 ≡ (now' + 10) % 2 ^ 32
unfolding unsleep lock unlock start_critical end_critical
unsleep-late cpu now now' k root_ne next_ne small late =
    let a : (k.sleep_schedule_root == null) ≡ false = ==_of_ne k.sleep_schedule_root null root_ne in
    let ks = set_sleep_root (next_of k k.sleep_schedule_root) (lock (start_critical cpu k)) in
    let e =
      ap (λ t. t.alarm 0) (enqueue_thread-timer k.sleep_schedule_root (arm_next now now' ks)) in
    rw a (e ∙ arm_next-late now now' ks next_ne small late)
