-- ===== src/Sema/Tests.antt =====
-- A semaphore that is taken, with a thread that is blocked on it.
use multicore_rtos.Base.{◌≡◌, refl, [], ◌∷◌, false, arith}
use multicore_rtos.Sema.{b_wait, c_wait, c_wait_enter, b_signal, c_signal}
use multicore_rtos.Sema.Signals.{Ends, b_signal-Ends, c_signal-Ends}
use multicore_rtos.Sema.Waits.{BinaryEnds, CountingEnds, b_wait-BinaryEnds, c_wait-CountingEnds}
use multicore_rtos.Sched.Cases.{
  waiting_threads, queues, waiting_threads-Cores, blocked-WaitList, waiting_threads-Dormant,
}

b_wait-BinaryEnds_example :
    BinaryEnds 0 7 9 200 48 48 waiting_threads queues
      (64 ∷ [])
      waiting_threads-Cores
      refl
      blocked-WaitList
      (b_wait 0 7 9 200 waiting_threads)
b_wait-BinaryEnds_example =
    b_wait-BinaryEnds 0 7 9 200 48 48 waiting_threads queues (64 ∷ []) waiting_threads-Cores refl
      blocked-WaitList

c_wait-CountingEnds_example :
    CountingEnds 0 7 9 200 48 48 waiting_threads queues
      (64 ∷ [])
      waiting_threads-Cores
      refl
      blocked-WaitList
      false
      (c_wait 0 7 9 200 false waiting_threads)
c_wait-CountingEnds_example =
    c_wait-CountingEnds 0 7 9 200 48 48 waiting_threads queues (64 ∷ []) waiting_threads-Cores refl
      blocked-WaitList false

b_signal-Ends_example :
    Ends 0 200 48 48 0 waiting_threads queues (64 ∷ []) (b_signal 0 7 9 200 waiting_threads)
b_signal-Ends_example =
    b_signal-Ends 0 7 9 200 48 48 waiting_threads queues (64 ∷ []) waiting_threads-Cores
      (waiting_threads-Dormant, omega arith) blocked-WaitList

c_signal-Ends_example :
    Ends 0 200 48 48 2 waiting_threads queues (64 ∷ []) (c_signal 0 7 9 200 waiting_threads)
c_signal-Ends_example =
    c_signal-Ends 0 7 9 200 48 48 waiting_threads queues (64 ∷ []) waiting_threads-Cores
      (waiting_threads-Dormant, omega arith) blocked-WaitList (omega arith)

-- the interrupt mask that `c_wait` saves
enter_run : (c_wait_enter 0 waiting_threads).0 ≡ false
unfolding c_wait_enter
enter_run = refl
