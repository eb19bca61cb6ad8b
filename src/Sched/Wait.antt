-- ===== src/Sched/Wait.antt =====
-- The calls of os/schedule.c that take a thread out of the schedule and put it back: blocking on a
-- semaphore, sleeping and ending.
use multicore_rtos.Base.{
  ℕ, zero, suc, ◌+◌, ◌*◌, ◌%◌, ◌^◌, Bool, Option, none, some, ltb, leb, ◌==◌, if◌then◌else◌, update,
}
use multicore_rtos.Heap.{Ptr, null}
use multicore_rtos.Heap.Release.{free}
use multicore_rtos.Timer.{TimerId, arm_timer}
use multicore_rtos.Sched.{
  ThreadState, Kernel, set_next, set_state, enqueue_thread, dequeue_thread, schedule,
  start_critical, end_critical, lock, unlock,
}

-- `while (1)` in `sched_block`: behind which node the thread goes, by priority. The fuel is one more
-- than the number of threads ever created; `none` means that it ran out.
unfoldable pub insert_blocked : ℕ → Ptr → Ptr → Kernel → Option Kernel
insert_blocked zero thread node k = none
insert_blocked (suc fuel) thread node k =
    let follower = (k.tcb node).next_tcb in
    let rest = insert_blocked fuel thread follower k in
    if follower == null
    then some (set_next node thread k)
    else if ltb (k.tcb thread).priority (k.tcb follower).priority
    then some (set_next node thread (set_next thread follower k))
    else rest

abbrev pub set_bthreads_root : Ptr → Ptr → Kernel → Kernel
set_bthreads_root sem p k = record k {
  sema = update k.sema sem (record (k.sema sem) { bthreads_root = p });
}

-- The thread goes into the list of the semaphore.
unfoldable pub block_on : Ptr → Ptr → Kernel → Option Kernel
unfolding insert_blocked
block_on sem thread k =
    let root = (k.sema sem).bthreads_root in
    if root == null
    then some (set_bthreads_root sem thread k)
    else if ltb (k.tcb thread).priority (k.tcb root).priority
    then some (set_bthreads_root sem thread (set_next thread root k))
    else insert_blocked (k.lifetime_thread_count + 1) thread root k

-- The part of `sched_block` between lock and unlock.
unfoldable pub block_thread : Ptr → Ptr → Kernel → Option Kernel
unfolding block_on
block_thread sem thread k =
    block_on sem thread (set_state thread ThreadState.blocked (dequeue_thread thread k))

unfoldable pub sched_block : ℕ → ℕ → ℕ → Ptr → Kernel → Option Kernel
unfolding block_thread
sched_block cpu now now' sem k0 =
    let primask = k0.interrupts_off cpu in
    let k = lock (start_critical cpu k0) in
    elim (block_thread sem (k.run_pt cpu) k) [
      | none ↦ none
      | some k' ↦ some (schedule cpu now now' (end_critical cpu primask (unlock k')))
    ]

-- The second result is what `sched_unblock` returns.
unfoldable pub sched_unblock : ℕ → Ptr → Kernel → Kernel × Bool
sched_unblock cpu sem k0 =
    let primask = k0.interrupts_off cpu in
    let k = lock (start_critical cpu k0) in
    let thread = (k.sema sem).bthreads_root in
    let k1 = enqueue_thread thread (set_bthreads_root sem (k.tcb thread).next_tcb k) in
    let k2 = end_critical cpu primask (unlock k1) in
    (k2, leb (k2.tcb (k2.run_pt cpu)).priority (k2.tcb thread).priority)

unfoldable pub insert_sleeping : ℕ → Ptr → Ptr → Kernel → Option Kernel
insert_sleeping zero thread node k = none
insert_sleeping (suc fuel) thread node k =
    let follower = (k.tcb node).next_tcb in
    let rest = insert_sleeping fuel thread follower k in
    if follower == null
    then some (set_next node thread k)
    else if ltb (k.tcb thread).resume_tick (k.tcb follower).resume_tick
    then some (set_next node thread (set_next thread follower k))
    else rest

abbrev pub arm_sleep : ℕ → Kernel → Kernel
arm_sleep tick k = record k { timer = arm_timer TimerId.sleep tick k.timer }

abbrev pub set_sleep_root : Ptr → Kernel → Kernel
set_sleep_root p k = record k { sleep_schedule_root = p }

-- The thread goes into the sleep queue, by its resume_tick.
unfoldable pub queue_sleeper : Ptr → Kernel → Option Kernel
unfolding insert_sleeping
queue_sleeper thread k =
    let root = k.sleep_schedule_root in
    let tick = (k.tcb thread).resume_tick in
    if root == null
    then some (arm_sleep tick (set_sleep_root thread k))
    else if ltb tick (k.tcb root).resume_tick
    then some (arm_sleep tick (set_sleep_root thread (set_next thread root k)))
    else insert_sleeping (k.lifetime_thread_count + 1) thread root k

abbrev pub set_resume_tick : Ptr → ℕ → Kernel → Kernel
set_resume_tick p tick k = record k {
  tcb = update k.tcb p (record (k.tcb p) { resume_tick = tick });
}

-- uint32_t: the sum of the clock and `sleep_time * 1000` loses its high bits.
unfoldable pub sleep_thread : ℕ → ℕ → Ptr → Kernel → Option Kernel
unfolding queue_sleeper
sleep_thread now sleep_time thread k = queue_sleeper thread (
    set_state thread ThreadState.sleeping (
      dequeue_thread thread
        (set_resume_tick thread ((now + sleep_time * 1000 % 2 ^ 32) % 2 ^ 32) k)))

-- `now` is read for the tick, the other two by `schedule`.
unfoldable pub sleep : ℕ → ℕ → ℕ → ℕ → ℕ → Kernel → Option Kernel
unfolding sleep_thread
sleep cpu now now' now'' sleep_time k0 =
    if sleep_time == 0
    then some k0
    else (let primask = k0.interrupts_off cpu in
        let k = lock (start_critical cpu k0) in
        elim (sleep_thread now sleep_time (k.run_pt cpu) k) [
          | none ↦ none
          | some k' ↦ some (schedule cpu now' now'' (end_critical cpu primask (unlock k')))
        ])

-- The alarm for the next sleeper: not before ten microseconds from now.
unfoldable pub arm_next : ℕ → ℕ → Kernel → Kernel
arm_next now now' k =
    let root = k.sleep_schedule_root in
    if root == null
    then k
    else if ltb (k.tcb root).resume_tick (now + 10)
    then arm_sleep (now' + 10) k
    else arm_sleep (k.tcb root).resume_tick k

unfoldable pub unsleep : ℕ → ℕ → ℕ → Kernel → Kernel
unfolding arm_next
unsleep cpu now now' k0 =
    if k0.sleep_schedule_root == null
    then k0
    else (let primask = k0.interrupts_off cpu in
        let k = lock (start_critical cpu k0) in
        let resumed_thread = k.sleep_schedule_root in
        let k1 = arm_next now now' (set_sleep_root (k.tcb resumed_thread).next_tcb k) in
        end_critical cpu primask (unlock (enqueue_thread resumed_thread k1)))

-- A call of `free` whose result is dropped; `none` would be a search that never ends.
abbrev pub release : Ptr → Kernel → Option Kernel
release p k = elim (free p k.heap) [ none ↦ none | some (_, h) ↦ some (record k { heap = h }) ]

pub kill : ℕ → ℕ → ℕ → Kernel → Option Kernel
kill cpu now now' k0 =
    let primask = k0.interrupts_off cpu in
    let k = start_critical cpu k0 in
    let thread = k.run_pt cpu in
    let k1 = unlock (set_state thread ThreadState.dead (dequeue_thread thread (lock k))) in
    elim (release (k1.tcb thread).stack k1) [
      | none ↦ none
      | some k2 ↦ elim (release thread k2) [
        | none ↦ none
        | some k3 ↦ some (
            end_critical cpu primask
              (schedule cpu now now' (record k3 { run_pt = update k3.run_pt cpu k3.black_hole })))
      ]
    ]
