-- ===== src/Periodic/Tests.antt =====
-- Three background tasks.
use multicore_rtos.Base.{ℕ, ◌≡◌, refl, false, [], ◌∷◌, arith, ◌==◌, if◌then◌else◌}
use multicore_rtos.Heap.Cases.{empty_heap, empty_heap-malloc}
use multicore_rtos.Heap.{Ptr}
use multicore_rtos.Periodic.{Bgt, Background}
use multicore_rtos.Periodic.Turns.{requeue, Listed}
use multicore_rtos.Periodic.Alarm.{Ran, due_then, schedule_background-Ran}
use multicore_rtos.Periodic.Added.{Added, with_task, due_with, add_periodic_task-Added}

abbrev task_at : Ptr → Ptr → ℕ → Bgt
task_at n p t = record { func = 7; next = n; prev = p; period = 1; sched_time = t }

-- 16, 32 and 48, in this order, are due at 100, 500 and 2000; each runs once in 1000.
abbrev three_tasks : Background
three_tasks = record {
  bgt = λ p.
      if p == 16
      then task_at 32 48 100
      else if p == 32
      then task_at 48 16 500
      else task_at 16 32 2000;
  periodic_schedule_root = 16;
  timer = record { alarm = λ _. 0; systime_start = 0 };
  heap = empty_heap;
  locked = false;
  ran = [];
}

three_tasks-Listed : Listed three_tasks (16 ∷ 32 ∷ 48 ∷ [])
three_tasks-Listed = (refl, (refl, refl, (refl, refl, (refl, refl))))

-- 16 is due at 1100 then, between the others.
requeued : requeue (due_then three_tasks 16) 16 (32 ∷ 48 ∷ []) ≡ 32 ∷ 16 ∷ 48 ∷ []
requeued = refl

schedule_background-Ran_example : Ran 2 16 (32 ∷ 48 ∷ []) three_tasks
schedule_background-Ran_example =
    schedule_background-Ran 2 16 (32 ∷ 48 ∷ []) three_tasks three_tasks-Listed
      ((omega arith, (omega arith, tt)), ((omega arith, tt), (tt, tt)))
      ((omega arith, tt), (tt, tt)) (omega arith)

-- A task that is due at 50, before all others, is the last one.
added_last :
    with_task (due_with three_tasks 0x2000_0000 50) 0x2000_0000 (16 ∷ 32 ∷ 48 ∷ [])
    ≡ 16 ∷ 32 ∷ 48 ∷ 0x2000_0000 ∷ []
added_last = refl

add_periodic_task-Added_example :
    Added 3 50 9 0 0x2000_0000 (16 ∷ 32 ∷ 48 ∷ []) three_tasks empty_heap-malloc.0
add_periodic_task-Added_example =
    add_periodic_task-Added 3 50 9 0 0x2000_0000 (16 ∷ 32 ∷ 48 ∷ []) three_tasks empty_heap-malloc.0
      empty_heap-malloc.1 three_tasks-Listed
      ((omega arith, (omega arith, tt)), ((omega arith, tt), (tt, tt)))
      (omega arith, (omega arith, (omega arith, tt)))
      (omega arith, (omega arith, (omega arith, (omega arith, tt)))) (omega arith)
