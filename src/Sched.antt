-- ===== src/Sched.antt =====
-- os/schedule.c and os/schedule.h: threads, their queues and the choice of the next thread.
-- A TCB_t is a record in a store by address. The number of the core and the readings of the clock
-- are arguments. `lock(SCHEDULER)` and the interrupt mask are flags of the state; the lock is free
-- when a call takes it, since each call runs to its unlock before the other core goes on.
pub mod Links
pub mod Ring
pub mod Ready
pub mod Change
pub mod Level
pub mod Pick
pub mod Take
pub mod PutBack
pub mod Choice
pub mod Schedule
pub mod Consistent
pub mod Turn
pub mod Apart
pub mod Join
pub mod Leave
pub mod Depart
pub mod Vacate
pub mod Finish
pub mod Kept
pub mod Retire
pub mod Still
pub mod Block
pub mod Doze
pub mod Rejoin
pub mod Unpark
pub mod Awake
pub mod Cases
pub mod CoreTests
mod Tests
pub mod Enqueue
pub mod Dequeue
pub mod Wait
pub mod Rethread
pub mod Line
pub mod Waiting
pub mod Blocking
pub mod Sleeping
pub mod Create
pub mod Refuse
pub mod Report
pub mod Wake
use multicore_rtos.Base.{
  ℕ, zero, suc, ◌+◌, ◌-◌, ◌*◌, ◌%◌, ◌^◌, Bool, true, false, ◌&&◌, ◌==◌, if◌then◌else◌, update,
}
use multicore_rtos.Heap.{Ptr, null, Heap}
use multicore_rtos.Timer.{Timer}

pub data ThreadState : Type 0 where
  running active sleeping blocked dead idle : ThreadState

abbrev pub is_running : ThreadState → Bool
is_running ThreadState.running = true
is_running _ = false

abbrev pub is_active : ThreadState → Bool
is_active ThreadState.active = true
is_active _ = false

abbrev pub is_idle : ThreadState → Bool
is_idle ThreadState.idle = true
is_idle _ = false

-- TCB_t
pub record Tcb : Type 0 where
  pub sp : Ptr
  pub next_tcb : Ptr
  pub prev_tcb : Ptr
  pub id : ℕ
  pub state : ThreadState
  pub resume_tick : ℕ
  pub priority : ℕ
  pub stack : Ptr

-- Sema4_t
pub record Sema4 : Type 0 where
  pub value : ℕ
  pub bthreads_root : Ptr

abbrev pub priority_lvl_cnt : ℕ
priority_lvl_cnt = 5

abbrev pub idle_priority : ℕ
idle_priority = priority_lvl_cnt

-- The static variables of schedule.c, the memory that they point to, and what they share with
-- the rest of the system. `black_hole` is the address of RunPtBlackHole.
pub record Kernel : Type 0 where
  pub tcb : Ptr → Tcb
  pub sema : Ptr → Sema4
  pub words : Ptr → ℕ
  pub heap : Heap
  pub timer : Timer
  pub black_hole : Ptr
  pub run_pt : ℕ → Ptr
  pub next_run_pt : ℕ → Ptr
  pub idle_thread : ℕ → Ptr
  pub idle_time : ℕ → ℕ
  pub idle_time_start : ℕ → ℕ
  pub lifetime_thread_count : ℕ
  pub active_priority_count : ℕ → ℕ
  pub running_priority_count : ℕ → ℕ
  pub thread_schedule : ℕ → Ptr
  pub sleep_schedule_root : Ptr
  pub scheduler_locked : Bool
  pub interrupts_off : ℕ → Bool
  pub pend_sv : ℕ → Bool

-- `++` and `--` on uint16_t
abbrev pub inc16 : ℕ → ℕ
inc16 n = (n + 1) % 2 ^ 16

abbrev pub dec16 : ℕ → ℕ
dec16 n = (n + 2 ^ 16 - 1) % 2 ^ 16

-- Stores to one field of the TCB at an address.
abbrev pub set_next : Ptr → Ptr → Kernel → Kernel
set_next p q k = record k { tcb = update k.tcb p (record (k.tcb p) { next_tcb = q }) }

abbrev pub set_prev : Ptr → Ptr → Kernel → Kernel
set_prev p q k = record k { tcb = update k.tcb p (record (k.tcb p) { prev_tcb = q }) }

abbrev pub set_state : Ptr → ThreadState → Kernel → Kernel
set_state p st k = record k { tcb = update k.tcb p (record (k.tcb p) { state = st }) }

abbrev pub set_root : ℕ → Ptr → Kernel → Kernel
set_root pri p k = record k { thread_schedule = update k.thread_schedule pri p }

abbrev pub add_active : ℕ → Kernel → Kernel
add_active pri k = record k {
  active_priority_count = update k.active_priority_count pri (inc16 (k.active_priority_count pri));
}

abbrev pub sub_active : ℕ → Kernel → Kernel
sub_active pri k = record k {
  active_priority_count = update k.active_priority_count pri (dec16 (k.active_priority_count pri));
}

abbrev pub add_running : ℕ → Kernel → Kernel
add_running pri k = record k {
  running_priority_count =
      update k.running_priority_count pri (inc16 (k.running_priority_count pri));
}

abbrev pub sub_running : ℕ → Kernel → Kernel
sub_running pri k = record k {
  running_priority_count =
      update k.running_priority_count pri (dec16 (k.running_priority_count pri));
}

-- The list part of `enqueue_thread`: the first thread of a level, or one before the root.
pub link_alone : ℕ → Ptr → Kernel → Kernel
link_alone pri thread k = set_prev thread thread (set_next thread thread (set_root pri thread k))

pub link_front : ℕ → Ptr → Kernel → Kernel
link_front pri thread k0 =
    let root = k0.thread_schedule pri in
    let k1 = set_next thread root k0 in
    let k2 = set_prev thread (k1.tcb root).prev_tcb k1 in
    let k3 = set_next (k2.tcb thread).prev_tcb thread k2 in
    let k4 = set_prev root thread k3 in set_root pri thread k4

pub enqueue_thread : Ptr → Kernel → Kernel
unfolding link_alone link_front
enqueue_thread thread k =
    let pri = (k.tcb thread).priority in
    let linked =
      if k.thread_schedule pri == null then link_alone pri thread k else link_front pri thread k in
    add_active pri (set_state thread ThreadState.active linked)

-- `thread->prev_tcb->next_tcb = thread->next_tcb` and the two lines below it.
pub unlink : ℕ → Ptr → Kernel → Kernel
unlink pri thread k0 =
    let k1 = set_next (k0.tcb thread).prev_tcb (k0.tcb thread).next_tcb k0 in
    let k2 = set_prev (k1.tcb thread).next_tcb (k1.tcb thread).prev_tcb k1 in
    set_root pri (k2.tcb thread).next_tcb k2

pub dequeue_thread : Ptr → Kernel → Kernel
dequeue_thread thread k0 =
    let pri = (k0.tcb thread).priority in
    let k1 = if is_running (k0.tcb thread).state then sub_running pri k0 else k0 in
    let k2 =
      if (k1.active_priority_count pri == 0) && (k1.running_priority_count pri == 0)
      then set_root pri null k1
      else unlink pri thread k1 in
    set_next thread null k2

enter_idle : ℕ → ℕ → Kernel → Kernel
enter_idle cpu now k = record k { idle_time_start = update k.idle_time_start cpu now }

-- uint64_t arithmetic
exit_idle : ℕ → ℕ → Kernel → Kernel
exit_idle cpu now k = record k {
  idle_time =
      update k.idle_time cpu
        ((k.idle_time cpu + (now + 2 ^ 64 - k.idle_time_start cpu) % 2 ^ 64) % 2 ^ 64);
}

-- `while (ActivePriorityCount[pri] == 0) pri++`: six levels, of which the last is the idle level.
-- Past it the C code reads outside the array.
pub find_level : ℕ → ℕ → (ℕ → ℕ) → ℕ
find_level zero pri counts = pri
find_level (suc fuel) pri counts =
    let rest = find_level fuel (pri + 1) counts in if counts pri == 0 then rest else pri

-- The idle time and the state of the thread that ran, at the start of `schedule`.
pub put_back : ℕ → ℕ → Kernel → Kernel
unfolding exit_idle
put_back cpu now k =
    let k1 = if is_idle (k.tcb (k.run_pt cpu)).state then exit_idle cpu now k else k in
    let run = k1.run_pt cpu in
    if is_running (k1.tcb run).state
    then (let pri = (k1.tcb run).priority in
        sub_running pri (add_active pri (set_state run ThreadState.active k1)))
    else k1

-- The thread of level `pri` that `schedule` takes, and the root of the level after that.
pub take_thread : ℕ → ℕ → Kernel → Kernel
take_thread cpu pri k =
    let root = k.thread_schedule pri in
    let k1 =
      if is_running (k.tcb root).state
      then record k { next_run_pt = update k.next_run_pt cpu (k.tcb root).next_tcb }
      else set_root pri (k.tcb root).next_tcb
          (record k { next_run_pt = update k.next_run_pt cpu root }) in
    add_running pri (sub_active pri (set_state (k1.next_run_pt cpu) ThreadState.running k1))

pub pick_next : ℕ → ℕ → Kernel → Kernel
unfolding take_thread enter_idle find_level
pick_next cpu now k =
    let pri = find_level 6 0 k.active_priority_count in
    if pri == idle_priority
    then enter_idle cpu now
        (record k { next_run_pt = update k.next_run_pt cpu (k.idle_thread cpu) })
    else take_thread cpu pri k

-- `start_critical`, `end_critical` and the spinlock.
unfoldable pub start_critical : ℕ → Kernel → Kernel
start_critical cpu k = record k { interrupts_off = update k.interrupts_off cpu true }

unfoldable pub end_critical : ℕ → Bool → Kernel → Kernel
end_critical cpu primask k = record k { interrupts_off = update k.interrupts_off cpu primask }

pub lock : Kernel → Kernel
lock k = record k { scheduler_locked = true }

pub unlock : Kernel → Kernel
unlock k = record k { scheduler_locked = false }

-- `schedule`, with two readings of the clock.
pub schedule : ℕ → ℕ → ℕ → Kernel → Kernel
unfolding put_back pick_next start_critical end_critical lock unlock
schedule cpu now now' k =
    let primask = k.interrupts_off cpu in
    let k1 = put_back cpu now (lock (start_critical cpu k)) in
    let k2 = pick_next cpu now' k1 in
    end_critical cpu primask (unlock (record k2 { pend_sv = update k2.pend_sv cpu true }))
