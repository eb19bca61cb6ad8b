-- ===== src/Sema.antt =====
-- os/semaphore.c and os/semaphore.h, and the test-and-set of hw/hwctrl.h: binary and counting
-- semaphores over the scheduler. The spinlocks 30 and 31 are free when a call takes them and free
-- again when it returns, so they are no fields of the state.
pub mod Waits
pub mod Signals
mod Tests
use multicore_rtos.Base.{
  ℕ, ◌+◌, ◌-◌, ◌%◌, ◌^◌, Bool, false, Option, none, some, ◌==◌, if◌then◌else◌, update,
}
use multicore_rtos.Heap.{Ptr, null}
use multicore_rtos.Sched.{Kernel, schedule, start_critical, end_critical}
use multicore_rtos.Sched.Wait.{sched_block, sched_unblock}

abbrev pub set_value : Ptr → ℕ → Kernel → Kernel
set_value sem v k = record k { sema = update k.sema sem (record (k.sema sem) { value = v }) }

pub init_semaphore : Ptr → ℕ → Kernel → Kernel
init_semaphore sem v k = record k {
  sema = update k.sema sem (record { value = v; bthreads_root = null });
}

-- The result is the value from before.
unfoldable pub atomic_test_and_set : Ptr → Kernel → ℕ × Kernel
atomic_test_and_set sem k = ((k.sema sem).value, set_value sem 1 k)

unfoldable pub atomic_clear : Ptr → Kernel → Kernel
atomic_clear sem k = set_value sem 0 k

-- One round of a wait: the caller goes on, or it is blocked and runs the next round when it is
-- scheduled again. `stuck` is a list walk that ran out of fuel.
pub data Wait : Type 0 where
  acquired : Kernel → Wait
  blocked : Kernel → Wait
  stuck : Wait

unfoldable pub blocked_of : Option Kernel → Wait
blocked_of none = stuck
blocked_of (some k) = blocked k

-- One round of `while (atomic_test_and_set(...)) sched_block(sem)`.
unfoldable pub b_wait : ℕ → ℕ → ℕ → Ptr → Kernel → Wait
unfolding atomic_test_and_set blocked_of
b_wait cpu now now' sem k =
    let (rv, k') = atomic_test_and_set sem k in
    if rv == 0 then acquired k' else blocked_of (sched_block cpu now now' sem k')

-- `if (sem->bthreads_root != NULL) { if (sched_unblock(sem)) schedule(); }`
unfoldable pub wake : ℕ → ℕ → ℕ → Ptr → Kernel → Kernel
wake cpu now now' sem k =
    if (k.sema sem).bthreads_root == null
    then k
    else (let (k', reschedule) = sched_unblock cpu sem k in
        if reschedule then schedule cpu now now' k' else k')

unfoldable pub b_signal : ℕ → ℕ → ℕ → Ptr → Kernel → Kernel
unfolding wake atomic_clear
b_signal cpu now now' sem k =
    let stat = k.interrupts_off cpu in
    end_critical cpu stat (wake cpu now now' sem (atomic_clear sem (start_critical cpu k)))

-- The start of `c_wait`: `stat`, and the state for its loop.
unfoldable pub c_wait_enter : ℕ → Kernel → Bool × Kernel
c_wait_enter cpu k = (k.interrupts_off cpu, start_critical cpu k)

-- One round of the loop in `c_wait`, with what follows it: before it blocks, the interrupts are enabled.
unfoldable pub c_wait : ℕ → ℕ → ℕ → Ptr → Bool → Kernel → Wait
unfolding blocked_of
c_wait cpu now now' sem stat k =
    if (k.sema sem).value == 0
    then blocked_of (sched_block cpu now now' sem (end_critical cpu false k))
    else acquired (end_critical cpu stat (set_value sem ((k.sema sem).value - 1) k))

-- `value++` on the 32 bits of an int32_t.
unfoldable pub c_signal : ℕ → ℕ → ℕ → Ptr → Kernel → Kernel
unfolding wake
c_signal cpu now now' sem k =
    let stat = k.interrupts_off cpu in
    end_critical cpu stat (
      wake cpu now now' sem
        (set_value sem (((k.sema sem).value + 1) % 2 ^ 32) (start_critical cpu k)))
