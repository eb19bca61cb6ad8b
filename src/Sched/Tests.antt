-- ===== src/Sched/Tests.antt =====
-- A kernel of five threads, and what the scheduler does with it.
use multicore_rtos.Base.{◌+◌, ◌%◌, ◌^◌, ◌≡◌, refl, ◌⊎◌, inl, inr, arith, ◌==◌, if◌then◌else◌}
use multicore_rtos.Sched.{
  Kernel, ThreadState, is_running, is_active, schedule, put_back, pick_next, lock, unlock,
  start_critical, end_critical, take_thread, find_level,
}
use multicore_rtos.Sched.Ready.{state_of}
use multicore_rtos.Sched.Choice.{IdleChosen, ThreadChosen}
use multicore_rtos.Sched.Schedule.{Exit, entered, schedule-choice}
use multicore_rtos.Sched.Create.{scheduler_stats}
use multicore_rtos.Sched.Report.{total, scheduler_stats-total}
use multicore_rtos.Sched.Wait.{unsleep}
use multicore_rtos.Sched.Wake.{unsleep-late}
use multicore_rtos.Sched.Cases.{threads, two_cores, queues, two_cores-Levels, two_cores-OnCores}

schedule-choice_example :
    Exit 0 two_cores (schedule 0 7 9 two_cores)
    × (IdleChosen 0 queues (entered 0 7 two_cores) (schedule 0 7 9 two_cores)
        ⊎ ThreadChosen 0 queues (entered 0 7 two_cores) (schedule 0 7 9 two_cores))
schedule-choice_example =
    schedule-choice 0 7 9 two_cores queues 48 two_cores-Levels (λ _. (omega arith, inr (inl refl)))
      two_cores-OnCores

-- Core 0 goes on with the other thread of the level, which then has no thread that runs.
schedule_run :
    ((schedule 0 7 9 two_cores).next_run_pt 0 ≡ 32)
    × (state_of (schedule 0 7 9 two_cores) 16 ≡ ThreadState.active)
    × ((schedule 0 7 9 two_cores).thread_schedule 1 ≡ 16)
unfolding schedule put_back pick_next lock unlock start_critical end_critical take_thread find_level
schedule_run = (refl, refl, refl)

scheduler_stats-total_example :
    ((scheduler_stats two_cores).running_thread_cnt
      ≡ total is_running (state_of two_cores) queues 5 % 2 ^ 16)
    × ((scheduler_stats two_cores).active_thread_cnt
        ≡ total is_active (state_of two_cores) queues 5 % 2 ^ 16)
    × ((scheduler_stats two_cores).lifetime_thread_cnt ≡ two_cores.lifetime_thread_count % 2 ^ 16)
scheduler_stats-total_example = scheduler_stats-total two_cores queues two_cores-Levels

-- 64 and then 48 sleep; 48 is to resume more than an hour after the clock's reading.
abbrev two_sleepers : Kernel
two_sleepers = record two_cores {
  tcb = λ p.
      if p == 64
      then record (threads 64) { next_tcb = 48 }
      else record (threads p) { resume_tick = 4_200_000_000 };
  sleep_schedule_root = 64;
}

unsleep-late_example :
    (unsleep 0 (2 ^ 32) (2 ^ 32) two_sleepers).timer.alarm 0 ≡ (2 ^ 32 + 10) % 2 ^ 32
unsleep-late_example =
    unsleep-late 0 (2 ^ 32) (2 ^ 32) two_sleepers (omega arith) (omega arith) (omega arith)
      (omega arith)
