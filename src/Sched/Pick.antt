-- ===== src/Sched/Pick.antt =====
-- The choice of `schedule`: the thread that it takes from a level.
use multicore_rtos.Base.{
  ℕ, ◌+◌, ◌-◌, ◌%◌, ◌^◌, ◌≤◌, ◌≡◌, ◌≢◌, List, [], ◌∷◌, arith, if◌then◌else◌, length,
}
use multicore_rtos.Heap.{Ptr}
use multicore_rtos.Sched.{Kernel, ThreadState, is_running, is_active, take_thread}
use multicore_rtos.Sched.Ring.{next_of}
use multicore_rtos.Sched.Ready.{state_of, tally}
use multicore_rtos.Sched.Change.{Changed, SameCounts, weight}

pub tally-le :
    (st : Ptr → ThreadState) (xs : List Ptr)
    → tally is_active st xs + tally is_running st xs ≤ length xs
tally-le st [] = omega arith
tally-le st (x ∷ xs) = omega (arith, tally-le st xs, weight-le (st x))
  where
    weight-le : (s : ThreadState) → weight s ≤ 1
    weight-le ThreadState.running = omega arith
    weight-le s = omega arith

-- What `take_thread` does once it has settled on the thread `t`.
module _ (cpu pri : ℕ) (t : Ptr) (k : Kernel)
    (chosen : (take_thread cpu pri k).next_run_pt cpu ≡ t) where
  abbrev k' : Kernel
  k' = take_thread cpu pri k

  pub take-Changed : Changed t k k'
  unfolding take_thread
  take-Changed = record {
    next_same = λ x. ground arith;
    prev_same = λ x. ground arith;
    pri_same = λ x. ground arith;
    state_same = λ x ne. ground arith;
  }

  pub take-state : state_of k' t ≡ ThreadState.running
  unfolding take_thread
  take-state = ground arith

pub take-active :
    (cpu pri : ℕ) (k : Kernel)
    → (take_thread cpu pri k).active_priority_count pri
      ≡ (k.active_priority_count pri + 2 ^ 16 - 1) % 2 ^ 16
unfolding take_thread
take-active cpu pri k = ground arith

pub take-running :
    (cpu pri : ℕ) (k : Kernel)
    → (take_thread cpu pri k).running_priority_count pri
      ≡ (k.running_priority_count pri + 1) % 2 ^ 16
unfolding take_thread
take-running cpu pri k = ground arith

pub take-counts_ne : (cpu pri j : ℕ) (k : Kernel) → j ≢ pri → SameCounts j k (take_thread cpu pri k)
unfolding take_thread
take-counts_ne cpu pri j k ne = record { active_same = ground arith; running_same = ground arith }

-- the root, unless it runs on the other core: then the thread behind it
pub take-next :
    (cpu pri : ℕ) (k : Kernel)
    → (take_thread cpu pri k).next_run_pt cpu ≡ (
        if is_running (state_of k (k.thread_schedule pri))
        then next_of k (k.thread_schedule pri)
        else k.thread_schedule pri)
unfolding take_thread
take-next cpu pri k = ground arith

pub take-root :
    (cpu pri : ℕ) (k : Kernel)
    → (take_thread cpu pri k).thread_schedule pri ≡ (
        if is_running (state_of k (k.thread_schedule pri))
        then k.thread_schedule pri
        else next_of k (k.thread_schedule pri))
unfolding take_thread
take-root cpu pri k = ground arith

pub take-root_ne :
    (cpu pri j : ℕ) (k : Kernel)
    → j ≢ pri
    → (take_thread cpu pri k).thread_schedule j ≡ k.thread_schedule j
unfolding take_thread
take-root_ne cpu pri j k ne = ground arith
