-- ===== src/Sched/Create.antt =====
-- The calls of os/schedule.c that make threads, start a core and report on the scheduler.
use multicore_rtos.Base.{
  ℕ, zero, suc, ◌+◌, ◌-◌, ◌*◌, ◌/◌, ◌%◌, ◌^◌, Bool, Option, none, some, leb, ◌==◌, if◌then◌else◌,
  update,
}
use multicore_rtos.Heap.{Ptr, null, malloc}
use multicore_rtos.Sched.{
  ThreadState, Tcb, Kernel, priority_lvl_cnt, idle_priority, find_level, enqueue_thread, set_state,
  set_root, add_running, sub_active, start_critical, end_critical, lock, unlock,
}
use multicore_rtos.Sched.Wait.{release}

-- sizeof(TCB_t), with the one-byte enums of arm-none-eabi.
abbrev pub tcb_size : ℕ
tcb_size = 28

abbrev pub store : Ptr → ℕ → Kernel → Kernel
store p v k = record k { words = update k.words p v }

-- The three words that a new stack holds.
pub init_stack : Ptr → ℕ → ℕ → Kernel → Kernel
init_stack stack stack_size task k =
    store stack 0xDEAD_BEEF
      (store (stack + stack_size - 8) task (store (stack + stack_size - 4) 0x0100_0000 k))

abbrev pub set_tcb : Ptr → Tcb → Kernel → Kernel
set_tcb p t k = record k { tcb = update k.tcb p t }

-- `add_thread` below its calls of `malloc`. The id is a uint8_t, as is the priority.
pub admit_thread : ℕ → ℕ → ℕ → Ptr → Ptr → Kernel → Kernel
unfolding init_stack
admit_thread task stack_size priority newtcb stack k =
    let count = (k.lifetime_thread_count + 1) % 2 ^ 32 in
    let k1 =
      set_tcb newtcb
        (record (k.tcb newtcb) {
          id = count % 2 ^ 8;
          priority = priority % 2 ^ 8;
          stack = stack;
          sp = stack + stack_size - 64;
        })
        (record k { lifetime_thread_count = count }) in
    enqueue_thread newtcb (init_stack stack stack_size task k1)

-- A call of `malloc` by the kernel.
abbrev pub allocate : ℕ → Kernel → Option (Ptr × Kernel)
allocate size k = elim (malloc size k.heap) [
  | none ↦ none
  | some (p, h) ↦ some (p, record k { heap = h })
]

-- `add_thread` with its TCB at hand.
unfoldable pub add_stack : ℕ → Bool → ℕ → ℕ → ℕ → Ptr → Kernel → Option (ℕ × Kernel)
unfolding admit_thread
add_stack cpu primask task stack_size priority newtcb k = elim (allocate stack_size k) [
  | none ↦ none
  | some (stack, k1) ↦
      if stack == null
      then elim (release newtcb k1) [
        | none ↦ none
        | some k2 ↦ some (1, end_critical cpu primask (unlock k2))
      ]
      else some (
        0,
        end_critical cpu primask (unlock (admit_thread task stack_size priority newtcb stack k1)),
      )
]

-- The early return for a bad priority leaves the lock taken and the interrupts off.
unfoldable pub add_thread : ℕ → ℕ → ℕ → ℕ → Kernel → Option (ℕ × Kernel)
unfolding add_stack
add_thread cpu task stack_size priority k0 =
    let primask = k0.interrupts_off cpu in
    let k = lock (start_critical cpu k0) in
    if leb priority_lvl_cnt priority then some (1, k) else elim (allocate tcb_size k) [
      | none ↦ none
      | some (newtcb, k1) ↦
          if newtcb == null
          then some (1, end_critical cpu primask (unlock k1))
          else add_stack cpu primask task stack_size priority newtcb k1
    ]

-- The idle thread of a core: `entry` is the address of `idle_thread`.
pub init_idle : ℕ → ℕ → Ptr → Ptr → Kernel → Kernel
unfolding init_stack
init_idle cpu entry idle_tcb stack k =
    let k1 =
      set_tcb idle_tcb
        (record (k.tcb idle_tcb) {
          id = 0;
          priority = priority_lvl_cnt;
          state = ThreadState.idle;
          stack = stack;
          sp = stack + 64;
        })
        k in
    let k2 = init_stack stack 128 entry k1 in
    record k2 {
      idle_thread = update k2.idle_thread cpu idle_tcb;
      active_priority_count = update k2.active_priority_count idle_priority 1;
    }

-- The first thread of a core.
pub first_thread : ℕ → Kernel → Kernel
first_thread cpu k =
    let pri = find_level 6 0 k.active_priority_count in
    if pri == idle_priority
    then record k { run_pt = update k.run_pt cpu (k.idle_thread cpu) }
    else (let root = k.thread_schedule pri in
        let k1 =
          set_root pri (k.tcb root).next_tcb (record k { run_pt = update k.run_pt cpu root }) in
        add_running pri (sub_active pri (set_state (k1.run_pt cpu) ThreadState.running k1)))

-- The part of `init_scheduler` on the scheduler's state, from `lock` to `unlock`. The wake-up of
-- core 1 and the systick are in Launch; the jump to the first thread is not modelled.
unfoldable pub start_core : ℕ → ℕ → Kernel → Option Kernel
unfolding init_idle first_thread
start_core cpu entry k0 = elim (allocate tcb_size (lock k0)) [
  | none ↦ none
  | some (idle_tcb, k1) ↦ if idle_tcb == null then some k1 else elim (allocate 128 k1) [
    | none ↦ none
    | some (stack, k2) ↦
        if stack == null
        then some k2
        else some (unlock (first_thread cpu (init_idle cpu entry idle_tcb stack k2)))
  ]
]

pub record SchedulerStats : Type 0 where
  pub running_thread_cnt : ℕ
  pub active_thread_cnt : ℕ
  pub lifetime_thread_cnt : ℕ

-- The sum over the first `n` levels, on uint16_t.
unfoldable pub sum_levels : ℕ → (ℕ → ℕ) → ℕ
sum_levels zero counts = 0
sum_levels (suc n) counts = (sum_levels n counts + counts n) % 2 ^ 16

unfoldable pub scheduler_stats : Kernel → SchedulerStats
unfolding sum_levels
scheduler_stats k = record {
  running_thread_cnt = sum_levels priority_lvl_cnt k.running_priority_count;
  active_thread_cnt = sum_levels priority_lvl_cnt k.active_priority_count;
  lifetime_thread_cnt = k.lifetime_thread_count % 2 ^ 16;
}

-- Per mille; the clock reads 0 only at reset, where the C code divides by 0.
pub get_idle_percentage : ℕ → ℕ → Kernel → ℕ
get_idle_percentage cpu now k = (k.idle_time cpu * 1000 % 2 ^ 64 + now / 2) % 2 ^ 64 / now % 2 ^ 32
