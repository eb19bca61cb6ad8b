-- ===== src/Context.antt =====
-- os/interrupts.c: the context switch in pendSV_handler. A core has the registers R4 to R11, by
-- number, and SP; the other registers and the return are saved and restored by the hardware. Stacks
-- are words of the kernel's memory. The hardware takes the pending flag away when the handler starts.
pub mod Frame
pub mod Resume
pub mod Preempt
pub mod Runs
pub mod Turns
pub mod Tests
use multicore_rtos.Base.{ℕ, ◌+◌, ◌-◌, ◌%◌, ◌^◌, false, update}
use multicore_rtos.Heap.{Ptr}
use multicore_rtos.Sched.{Kernel, schedule}

pub record Core : Type 0 where
  pub r : ℕ → ℕ
  pub sp : ℕ

abbrev pub Words : Type 0
Words = Ptr → ℕ

-- `PUSH {R4-R7}`: the lowest register goes to the lowest address.
pub push_low : Core → Words → Core × Words
push_low c w =
    let p : ℕ = (c.sp + 2 ^ 32 - 16) % 2 ^ 32 in
    (
      record c { sp = p },
      update (update (update (update w p (c.r 4)) (p + 4) (c.r 5)) (p + 8) (c.r 6)) (p + 12)
          (c.r 7),
    )

-- `POP {R4-R7}`
pub pop_low : Core → Words → Core
pop_low c w = record c {
  r =
      update (update (update (update c.r 4 (w c.sp)) 5 (w (c.sp + 4))) 6 (w (c.sp + 8))) 7
        (w (c.sp + 12));
  sp = (c.sp + 16) % 2 ^ 32;
}

-- `MOV R4, R8` and so on
pub low_from_high : Core → Core
low_from_high c = record c {
  r = update (update (update (update c.r 4 (c.r 8)) 5 (c.r 9)) 6 (c.r 10)) 7 (c.r 11);
}

-- `MOV R8, R4` and so on
pub high_from_low : Core → Core
high_from_low c = record c {
  r = update (update (update (update c.r 8 (c.r 4)) 9 (c.r 5)) 10 (c.r 6)) 11 (c.r 7);
}

pub save_context : Core → Words → Core × Words
unfolding push_low low_from_high
save_context c w = let (c1, w1) = push_low c w in push_low (low_from_high c1) w1

pub restore_context : Core → Words → Core
unfolding pop_low high_from_low
restore_context c w = pop_low (high_from_low (pop_low c w)) w

-- The stores of the handler to RunPt and to the TCB of the thread that ran.
pub switch_threads : ℕ → ℕ → Words → Kernel → Kernel
switch_threads cpu sp w k =
    let old = k.run_pt cpu in
    record k {
      words = w;
      tcb = update k.tcb old (record (k.tcb old) { sp = sp });
      run_pt = update k.run_pt cpu (k.next_run_pt cpu);
      interrupts_off = update k.interrupts_off cpu false;
      pend_sv = update k.pend_sv cpu false;
    }

pub pend_sv_handler : ℕ → Core → Kernel → Core × Kernel
unfolding save_context restore_context switch_threads
pend_sv_handler cpu c k =
    let (c1, w1) = save_context c k.words in
    let k1 = switch_threads cpu c1.sp w1 k in
    (restore_context (record c1 { sp = (k1.tcb (k1.run_pt cpu)).sp }) k1.words, k1)

-- systick_handler, at two readings of the clock.
pub systick_handler : ℕ → ℕ → ℕ → Kernel → Kernel
systick_handler cpu now now' k = schedule cpu now now' k

-- The tick of a core: the two handlers run one after the other, since the second is the one that the
-- first leaves pending.
pub preempt : ℕ → ℕ → ℕ → Core → Kernel → Core × Kernel
unfolding systick_handler pend_sv_handler
preempt cpu now now' c k = pend_sv_handler cpu c (systick_handler cpu now now' k)
