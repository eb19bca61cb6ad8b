-- ===== src/Periodic.antt =====
-- os/periodic.c and os/periodic.h: background tasks in a circular list, by the time of their next run.
pub mod Splice
pub mod Turns
pub mod Alarm
pub mod Added
mod Tests
use multicore_rtos.Base.{
  ℕ, zero, suc, ◌+◌, ◌*◌, ◌%◌, ◌^◌, Bool, true, false, Option, none, some, ltb, ◌==◌, if◌then◌else◌,
  update, ◌&&◌, not, List, ◌∷◌,
}
use multicore_rtos.Heap.{Ptr, null, Heap, malloc}
use multicore_rtos.Timer.{Timer, TimerId, arm_timer}

-- BGT_t
pub record Bgt : Type 0 where
  pub func : ℕ
  pub next : Ptr
  pub prev : Ptr
  pub period : ℕ
  pub sched_time : ℕ

-- `ran` lists the functions that were called, the latest first; what they do is not modelled.
pub record Background : Type 0 where
  pub bgt : Ptr → Bgt
  pub periodic_schedule_root : Ptr
  pub timer : Timer
  pub heap : Heap
  pub locked : Bool
  pub ran : List ℕ

abbrev pub set_next : Ptr → Ptr → Background → Background
set_next p q s = record s { bgt = update s.bgt p (record (s.bgt p) { next = q }) }

abbrev pub set_prev : Ptr → Ptr → Background → Background
set_prev p q s = record s { bgt = update s.bgt p (record (s.bgt p) { prev = q }) }

abbrev pub set_sched_time : Ptr → ℕ → Background → Background
set_sched_time p t s = record s { bgt = update s.bgt p (record (s.bgt p) { sched_time = t }) }

abbrev pub set_root : Ptr → Background → Background
set_root p s = record s { periodic_schedule_root = p }

abbrev pub arm : ℕ → Background → Background
arm t s = record s { timer = arm_timer TimerId.periodic t s.timer }

-- `while (node != PeriodicScheduleRoot && bgthread->sched_time > node->sched_time)`, on fuel.
pub find_place : ℕ → ℕ → Ptr → Background → Option Ptr
find_place zero time node s = none
find_place (suc fuel) time node s =
    let rest = find_place fuel time (s.bgt node).next s in
    if not (node == s.periodic_schedule_root) && ltb (s.bgt node).sched_time time
    then rest
    else some node

-- The four stores that put `bgthread` before `node`.
pub insert_before : Ptr → Ptr → Background → Background
insert_before bgthread node s0 =
    let s1 = set_next bgthread node s0 in
    let s2 = set_prev bgthread (s1.bgt node).prev s1 in
    let s3 = set_next (s2.bgt node).prev bgthread s2 in set_prev node bgthread s3

-- The root is taken out; its successor becomes the root.
pub remove_root : Ptr → Background → Background
remove_root bgthread s0 =
    let s1 = set_next (s0.bgt bgthread).prev (s0.bgt bgthread).next s0 in
    let s2 = set_prev (s1.bgt bgthread).next (s1.bgt bgthread).prev s1 in
    set_root (s2.bgt bgthread).next s2

pub resort : ℕ → Ptr → Background → Option Background
unfolding find_place insert_before remove_root
resort fuel bgthread s =
    let time = (s.bgt bgthread).sched_time in
    if ltb (s.bgt (s.bgt bgthread).next).sched_time time
    then (let s1 = remove_root bgthread s in
        elim (find_place fuel time (s1.bgt s1.periodic_schedule_root).next s1) [
          | none ↦ none
          | some node ↦ some (insert_before bgthread node s1)
        ])
    else some s

-- `lock` and `unlock` are those of BGSCHEDULER.
pub schedule_background : ℕ → Background → Option Background
unfolding resort
schedule_background fuel s =
    let bgthread = s.periodic_schedule_root in
    let t = s.bgt bgthread in
    let s1 = record s { ran = t.func ∷ s.ran; locked = true } in
    let s2 = set_sched_time bgthread ((t.sched_time + t.period * 1000 % 2 ^ 32) % 2 ^ 32) s1 in
    elim (resort fuel bgthread s2) [
      | none ↦ none
      | some s3 ↦
          some (record (arm (s3.bgt s3.periodic_schedule_root).sched_time s3) { locked = false })
    ]

-- The list part of `add_periodic_task`.
pub insert_task : ℕ → Ptr → Background → Option Background
unfolding find_place insert_before
insert_task fuel bgthread s =
    let root = s.periodic_schedule_root in
    let time = (s.bgt bgthread).sched_time in
    if root == null
    then some
        (arm time (set_root bgthread (set_prev bgthread bgthread (set_next bgthread bgthread s))))
    else if ltb time (s.bgt root).sched_time
    then some (insert_before bgthread root (arm time s))
    else elim (find_place fuel time (s.bgt root).next s) [
      | none ↦ none
      | some node ↦ some (insert_before bgthread node s)
    ]

abbrev pub init_task : Ptr → ℕ → ℕ → ℕ → Background → Background
init_task p task period time s = record s {
  bgt = update s.bgt p (record (s.bgt p) { func = task; period = period; sched_time = time });
}

-- sizeof(BGT_t) is 20. Where `malloc` fails the lock stays taken. On success the function ends
-- without a return value: the model has none then.
pub add_periodic_task : ℕ → ℕ → ℕ → ℕ → Background → Option (Option ℕ × Background)
unfolding insert_task
add_periodic_task fuel now task period s = elim (malloc 20 s.heap) [
  | none ↦ none
  | some (p, h) ↦
      if p == null
      then some (some 1, record s { heap = h; locked = true })
      else elim (insert_task fuel p (
          init_task p task period ((now + period * 1000 % 2 ^ 32) % 2 ^ 32)
            (record s { heap = h; locked = true }))) [
              | none ↦ none
              | some s' ↦ some (none, record s' { locked = false })
            ]
]
