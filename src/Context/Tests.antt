-- ===== src/Context/Tests.antt =====
-- Context switches on a kernel of two cores.
use multicore_rtos.Base.{ℕ, ◌+◌, refl, ◌≢◌, List, arith, inl, inr, [], ◌∷◌, true, false}
use multicore_rtos.Heap.{Ptr}
use multicore_rtos.Sched.{Kernel}
use multicore_rtos.Sched.Cases.{two_cores, two_cores-Cores, queues}
use multicore_rtos.Context.{Core, pend_sv_handler, switch_threads, preempt}
use multicore_rtos.Context.Frame.{SameRegisters}
use multicore_rtos.Context.Resume.{
  Suspended, switched, pend_sv_handler-Suspended, pend_sv_handler-resumes,
}
use multicore_rtos.Context.Preempt.{At}
use multicore_rtos.Sched.Ready.{pri_of}
use multicore_rtos.Sched.Line.{insert_by}
use multicore_rtos.Sched.Wait.{sched_block}
use multicore_rtos.Sched.Block.{blocked_root, sched_block-Parked}
use multicore_rtos.Sched.Retire.{Parked}
use multicore_rtos.Sched.Cases.{waiting_threads, waiting_threads-Cores, blocked-WaitList}
use multicore_rtos.Context.Runs.{Run, Run-At}
use multicore_rtos.Context.Turns.{GetsCore, ticks-GetsCore}
use multicore_rtos.Sched.Turn.{Turn}

-- a core whose registers hold their own numbers and more
abbrev core_at : ℕ → ℕ → Core
core_at base p = record { r = λ n. base + n; sp = p }

-- 32 is to run next on core 0.
abbrev switching : Kernel
switching = record two_cores { next_run_pt = λ _. 32 }

-- 16 is suspended, 32 runs and 16 is to run next.
abbrev switching_back : Kernel
switching_back = record (switched 0 (core_at 70 1032) switching) { next_run_pt = λ _. 16 }

switching_back-Suspended : Suspended 16 1000 (core_at 70 1032) switching_back
switching_back-Suspended =
    let s = (pend_sv_handler-Suspended 0 (core_at 70 1032) switching 1000 (omega arith) refl).0 in
    record { pointer = s.pointer; frame = s.frame }

switching_back-run_pt : switching_back.run_pt 0 ≢ 16
unfolding pend_sv_handler switch_threads
switching_back-run_pt = omega arith

pend_sv_handler-resumes_example :
    SameRegisters (core_at 70 1032) (pend_sv_handler 0 (core_at 90 2032) switching_back).0
pend_sv_handler-resumes_example =
    pend_sv_handler-resumes 0 (core_at 70 1032) (core_at 90 2032) switching_back 16 1000 2000
      (omega arith) refl (omega arith) refl (inr (omega arith)) switching_back-run_pt refl
      switching_back-Suspended

-- 16 blocks on core 0, and then core 1 has a tick.
parked :
    Parked waiting_threads.run_pt waiting_threads.idle_thread 0 80 48 48
      (blocked_root 200)
      pri_of
      (insert_by (pri_of waiting_threads) 16 (64 ∷ []))
      (sched_block 0 7 9 200 waiting_threads)
parked =
    sched_block-Parked 0 7 9 200 48 48 waiting_threads queues (64 ∷ []) waiting_threads-Cores refl
      blocked-WaitList

Run-At_example :
    (q : ℕ → List Ptr) × At 0 1
      (preempt 1 20 21 (core_at 50 3032) (switched 0 (core_at 70 1032) parked.after)).1
      q
Run-At_example = Run-At queues waiting_threads-Cores (
    Run.tick true 20 21 (core_at 50 3032) (
      Run.block false 7 9 (core_at 70 1032) 200 (64 ∷ []) Run.start refl blocked-WaitList
        parked.returned))

-- 32 and 16 take turns on core 0.
two_cores-Turn : Turn 16 48 two_cores queues 1 (32 ∷ 16 ∷ [])
two_cores-Turn = record {
  in_range = omega arith;
  queue = refl;
  above = λ p lt. ground arith;
  low = λ r. omega arith;
  alone = λ r. cc;
}

ticks-GetsCore_example : GetsCore 0 two_cores 2 16
ticks-GetsCore_example =
    ticks-GetsCore 0 1 1 two_cores queues 16 (omega arith) two_cores-Cores two_cores-Turn
      (inr (inl refl))
