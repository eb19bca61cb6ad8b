-- ===== src/Sched/CoreTests.antt =====
-- The calls of os/schedule.c on a kernel of two cores.
use multicore_rtos.Base.{◌≡◌, refl, [], ◌∷◌, arith, leb}
use multicore_rtos.Sched.{
  schedule, put_back, pick_next, lock, unlock, start_critical, end_critical, take_thread,
  find_level,
}
use multicore_rtos.Sched.Ready.{pri_of}
use multicore_rtos.Sched.Line.{tick_of, insert_by}
use multicore_rtos.Sched.Wait.{sched_block, sleep, sched_unblock, unsleep, set_resume_tick}
use multicore_rtos.Sched.Block.{sched_block-Parked, blocked_root}
use multicore_rtos.Sched.Doze.{sleep-Parked, wake_tick}
use multicore_rtos.Sched.Retire.{Parked}
use multicore_rtos.Sched.Join.{joined}
use multicore_rtos.Sched.Unpark.{Woken, sched_unblock-Woken}
use multicore_rtos.Sched.Awake.{unsleep-Woken}
use multicore_rtos.Sched.{priority_lvl_cnt}
use multicore_rtos.Sched.Create.{add_thread}
use multicore_rtos.Sched.Refuse.{RefusedEnds, add_thread-RefusedEnds}
use multicore_rtos.Sched.Cases.{
  two_cores, queues, waiting_threads, waiting_threads-Cores, blocked-WaitList, sleeping-WaitList,
  waiting_threads-Dormant,
}

sched_block-Parked_example :
    Parked waiting_threads.run_pt waiting_threads.idle_thread 0 80 48 48
      (blocked_root 200)
      pri_of
      (insert_by (pri_of waiting_threads) 16 (64 ∷ []))
      (sched_block 0 7 9 200 waiting_threads)
sched_block-Parked_example =
    sched_block-Parked 0 7 9 200 48 48 waiting_threads queues (64 ∷ []) waiting_threads-Cores refl
      blocked-WaitList

sleep-Parked_example :
    Parked waiting_threads.run_pt waiting_threads.idle_thread 0 80 48 48
      (λ k. k.sleep_schedule_root)
      tick_of
      (insert_by (tick_of (set_resume_tick 16 (wake_tick 5 30) waiting_threads)) 16 (64 ∷ []))
      (sleep 0 5 7 9 30 waiting_threads)
sleep-Parked_example =
    sleep-Parked 0 5 7 9 30 48 48 waiting_threads queues (64 ∷ []) waiting_threads-Cores refl
      sleeping-WaitList (omega arith)

sched_unblock-Woken_example :
    Woken 16 80 48 48 64
      (blocked_root 200 (sched_unblock 0 200 waiting_threads).0)
      (pri_of waiting_threads)
      []
      (sched_unblock 0 200 waiting_threads).0
      (joined waiting_threads 64 queues)
    × ((sched_unblock 0 200 waiting_threads).1
        ≡ leb (pri_of waiting_threads 16) (pri_of waiting_threads 64))
sched_unblock-Woken_example =
    sched_unblock-Woken 0 200 16 80 48 48 64 waiting_threads queues [] waiting_threads-Cores
      waiting_threads-Dormant (omega arith) blocked-WaitList

unsleep-Woken_example :
    Woken 16 80 48 48 64
      (unsleep 0 7 9 waiting_threads).sleep_schedule_root
      (tick_of waiting_threads)
      []
      (unsleep 0 7 9 waiting_threads)
      (joined waiting_threads 64 queues)
unsleep-Woken_example =
    unsleep-Woken 0 7 9 16 80 48 48 64 waiting_threads queues [] waiting_threads-Cores
      waiting_threads-Dormant (omega arith) sleeping-WaitList

-- Between systick_handler and pendSV_handler of core 0, the thread that still runs there may be chosen
-- by the other core.
chosen_twice :
    ((schedule 0 7 9 two_cores).run_pt 0 ≡ 16)
    × ((schedule 1 10 11 (schedule 0 7 9 two_cores)).next_run_pt 1 ≡ 16)
unfolding schedule put_back pick_next lock unlock start_critical end_critical take_thread find_level
chosen_twice = (refl, refl)

-- There are five levels, so 7 is none.
add_thread-RefusedEnds_example :
    RefusedEnds 0 (leb priority_lvl_cnt 7) two_cores (add_thread 0 4096 512 7 two_cores)
add_thread-RefusedEnds_example = add_thread-RefusedEnds 0 4096 512 7 two_cores
