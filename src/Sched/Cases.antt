-- ===== src/Sched/Cases.antt =====
-- A kernel of five threads and two cores, and one with threads that wait.
use multicore_rtos.Base.{
  ℕ, ◌<◌, refl, ◌≢◌, inl, inr, false, List, [], ◌∷◌, arith, ◌==◌, if◌then◌else◌, ==_of_ne,
}
use native.Mathlib.Decide.{ℕ_discrete}
use multicore_rtos.Heap.{Ptr, null}
use multicore_rtos.Sched.{Kernel, Tcb, ThreadState}
use multicore_rtos.Sched.Ready.{Ready, Rooted, state_of}
use multicore_rtos.Sched.PutBack.{Levels}
use multicore_rtos.Sched.Schedule.{OnCores}
use multicore_rtos.Sched.Waiting.{Waiting}
use multicore_rtos.Sched.Ready.{pri_of}
use multicore_rtos.Sched.Line.{tick_of}
use multicore_rtos.Sched.Consistent.{Cores}
use multicore_rtos.Sched.Finish.{Cores-same}
use multicore_rtos.Sched.Retire.{WaitList}
use multicore_rtos.Sched.Rejoin.{Dormant}

abbrev pub thread_at : Ptr → Ptr → ThreadState → ℕ → Tcb
thread_at n p s pri = record {
  sp = 0;
  next_tcb = n;
  prev_tcb = p;
  id = 0;
  state = s;
  resume_tick = 0;
  priority = pri;
  stack = 0;
}

-- 16 runs on core 0 and 48, an idle thread, on core 1; 80 is the other idle thread, 32 is
-- ready and 64 is blocked.
abbrev pub threads : Ptr → Tcb
threads p =
    if p == 16
    then thread_at 32 32 ThreadState.running 1
    else if p == 32
    then thread_at 16 16 ThreadState.active 1
    else if p == 48
    then thread_at 0 0 ThreadState.idle 5
    else if p == 80
    then thread_at 0 0 ThreadState.idle 5
    else thread_at 0 0 ThreadState.blocked 1

abbrev pub two_cores : Kernel
two_cores = record {
  tcb = threads;
  sema = λ _. record { value = 0; bthreads_root = null };
  words = λ _. 0;
  heap = record { heap_ptr = 0x2000_0000; heap_tree = λ _. null; heap_lock = 0 };
  timer = record { alarm = λ _. 0; systime_start = 0 };
  black_hole = 96;
  run_pt = λ cpu. if cpu == 0 then 16 else 48;
  next_run_pt = λ cpu. if cpu == 0 then 16 else 48;
  idle_thread = λ cpu. if cpu == 0 then 80 else 48;
  idle_time = λ _. 0;
  idle_time_start = λ _. 0;
  lifetime_thread_count = 5;
  active_priority_count = λ p. if p == 1 then 1 else if p == 5 then 2 else 0;
  running_priority_count = λ p. if p == 1 then 1 else 0;
  thread_schedule = λ p. if p == 1 then 32 else null;
  sleep_schedule_root = null;
  scheduler_locked = false;
  interrupts_off = λ _. false;
  pend_sv = λ _. false;
}

abbrev pub queues : ℕ → List Ptr
queues p = if p == 1 then 32 ∷ 16 ∷ [] else []

pub Ready-one : Ready two_cores 1 (32 ∷ 16 ∷ [])
Ready-one = record {
  cycle = (refl, refl, (refl, refl));
  distinct = ((omega arith, tt), (tt, tt));
  not_null = (omega arith, (omega arith, tt));
  level = (refl, (refl, tt));
  actives = refl;
  runnings = refl;
  ready = refl;
  small = omega arith;
}

pub Ready-swapped : Ready two_cores 1 (16 ∷ 32 ∷ [])
Ready-swapped = record {
  cycle = (refl, refl, (refl, refl));
  distinct = ((omega arith, tt), (tt, tt));
  not_null = (omega arith, (omega arith, tt));
  level = (refl, (refl, tt));
  actives = refl;
  runnings = refl;
  ready = refl;
  small = omega arith;
}

pub Ready-empty : (p : ℕ) → p ≢ 1 → p < 5 → Ready two_cores p (queues p)
Ready-empty p ne lt = rw (==_of_ne p 1 ne) (record {
  cycle = tt;
  distinct = tt;
  not_null = tt;
  level = tt;
  actives = ground arith;
  runnings = ground arith;
  ready = refl;
  small = omega arith;
})

pub Rooted-empty : (p : ℕ) → p ≢ 1 → Rooted two_cores p (queues p)
Rooted-empty p ne = rw (==_of_ne p 1 ne) (ground arith)

pub two_cores-Levels : Levels two_cores queues
two_cores-Levels = record {
  ready = λ p lt. elim (ℕ_discrete p 1) [ yes e ↦ rw e Ready-one | no ne ↦ Ready-empty p ne lt ];
  rooted = λ p lt. elim (ℕ_discrete p 1) [ yes e ↦ rw e refl | no ne ↦ Rooted-empty p ne ];
  idle_level = omega arith;
}

pub two_cores-OnCores : OnCores two_cores 16 48
two_cores-OnCores x r = elim (ℕ_discrete x 16) [ yes e ↦ inl e | no ne ↦ absurd (other x ne r) ]
  where
    other : (x : Ptr) → x ≢ 16 → state_of two_cores x ≢ ThreadState.running
    other x ne r = ground arith

-- 64 is blocked and asleep, and 48 is to join it.
abbrev pub waiting_threads : Kernel
waiting_threads = record two_cores {
  sema = λ _. record { value = 1; bthreads_root = 64 };
  sleep_schedule_root = 64;
}

pub waiting_threads-Waiting : Waiting waiting_threads 48 64 (64 ∷ [])
waiting_threads-Waiting = record {
  some_thread = omega arith;
  loose = refl;
  line = (refl, refl);
  distinct = (tt, tt);
  not_null = (omega arith, tt);
  fresh = (omega arith, tt);
  few = omega arith;
}

pub two_cores-Cores : Cores 16 80 48 48 two_cores queues
two_cores-Cores = record {
  levels = two_cores-Levels;
  listed_here = λ r. (omega arith, inr (inl refl));
  listed_there = λ r. cc;
  on_cores = two_cores-OnCores;
  idle_here = refl;
  idle_there = refl;
  busy_here = λ a. cc;
  busy_there = λ a. cc;
  apart = λ r. omega arith;
}

pub waiting_threads-Cores : Cores 16 80 48 48 waiting_threads queues
waiting_threads-Cores =
    Cores-same (record { tcbs = λ p. refl; actives = refl; runnings = refl; roots = refl })
      two_cores-Cores

pub blocked-WaitList : WaitList waiting_threads 64 (pri_of waiting_threads) (64 ∷ [])
blocked-WaitList = record {
  line = (refl, refl);
  distinct = (tt, tt);
  not_null = (omega arith, tt);
  out = (refl, tt);
  sorted = (tt, tt);
  few = omega arith;
}

pub sleeping-WaitList : WaitList waiting_threads 64 (tick_of waiting_threads) (64 ∷ [])
sleeping-WaitList = record {
  line = (refl, refl);
  distinct = (tt, tt);
  not_null = (omega arith, tt);
  out = (refl, tt);
  sorted = (tt, tt);
  few = omega arith;
}

-- 64 may go back into its level.
pub waiting_threads-Dormant : Dormant 64 16 48 waiting_threads
waiting_threads-Dormant = record {
  some_thread = omega arith;
  in_range = omega arith;
  out = refl;
  not_idle = λ e. cc;
  not_here = omega arith;
  not_there = omega arith;
}
