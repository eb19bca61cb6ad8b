-- ===== src/Periodic/Added.antt =====
-- `add_periodic_task` of os/periodic.c: where in the list a new task goes.
use multicore_rtos.Base.{
  ℕ, ◌+◌, ◌*◌, ◌%◌, ◌^◌, ◌≤◌, ◌≡◌, refl, ◌≢◌, ◌∙◌, sym, ap, subst, inl, inr, true, false, Option,
  none, some, List, [], ◌∷◌, ◌++◌, arith, ltb, if◌then◌else◌, length, Bool-cases, ==_of_ne, fun_ext,
  update,
}
use multicore_rtos.Heap.{Ptr, null, Heap, malloc}
use multicore_rtos.Periodic.{
  Background, set_next, set_prev, set_root, arm, find_place, insert_before, insert_task, init_task,
  add_periodic_task,
}
use multicore_rtos.Periodic.Splice.{
  place, place_before, put, prev-place, place_ne, place_before_ne, put-Chain,
}
use multicore_rtos.Periodic.Turns.{
  due, next_in, prev_in, Listed, insert_before-root, insert_before-Relinked, find_place-place,
  insert_before-Spliced,
}
use multicore_rtos.Sched.Links.{
  NotIn, Distinct, Cycle, last, NotIn-last, prev-last, Chain-retarget, Chain-frame, Cycle-rotate,
}

-- The list with the new task: the last one where it is due before the root, else at its place.
abbrev pub with_task : (Ptr → ℕ) → Ptr → List Ptr → List Ptr
with_task key t [] = t ∷ []
with_task key t (r ∷ ys) =
    if ltb (key t) (key r) then r ∷ (ys ++ (t ∷ [])) else r ∷ put key (key t) t ys

-- The stores to the links, and the alarm, leave the tasks as they are.
pub record Inserted (s : Background) (out : List Ptr) (r : Option Background) : Type 0 where
  pub after : Background
  pub returned : r ≡ some after
  pub listed : Listed after out
  pub due_same : (x : Ptr) → due after x ≡ due s x
  pub func_same : (x : Ptr) → (after.bgt x).func ≡ (s.bgt x).func
  pub period_same : (x : Ptr) → (after.bgt x).period ≡ (s.bgt x).period
  pub ran_same : after.ran ≡ s.ran

module _ (fuel : ℕ) (t : Ptr) (s : Background) where
  alone-Inserted : s.periodic_schedule_root ≡ null → Inserted s (t ∷ []) (insert_task fuel t s)
  unfolding insert_task
  alone-Inserted e = record {
    after = arm (due s t) (set_root t (set_prev t t (set_next t t s)));
    returned = rw (insert_task, e) refl;
    listed = (refl, (ground arith, ground arith));
    due_same = λ x. ground arith;
    func_same = λ x. ground arith;
    period_same = λ x. ground arith;
    ran_same = refl;
  }

  insert_task-before :
      s.periodic_schedule_root ≢ null
      → ltb (due s t) (due s s.periodic_schedule_root) ≡ true
      → insert_task fuel t s ≡ some (insert_before t s.periodic_schedule_root (arm (due s t) s))
  unfolding insert_task
  insert_task-before ne before =
      let full = ==_of_ne s.periodic_schedule_root null ne in rw (insert_task, full, before) refl

  insert_task-behind :
      (n : Ptr)
      → s.periodic_schedule_root ≢ null
      → ltb (due s t) (due s s.periodic_schedule_root) ≡ false
      → find_place fuel (due s t) (next_in s s.periodic_schedule_root) s ≡ some n
      → insert_task fuel t s ≡ some (insert_before t n s)
  unfolding insert_task
  insert_task-behind n ne behind found =
      let full = ==_of_ne s.periodic_schedule_root null ne in
      rw (insert_task, full, behind, found) refl

module _ (t r : Ptr) (ys : List Ptr) (s : Background) (c : Cycle (next_in s) (prev_in s) (r ∷ ys))
    (d : Distinct (r ∷ ys)) (out : NotIn t (r ∷ ys)) where
  last-Cycle :
      Cycle (next_in (insert_before t r s)) (prev_in (insert_before t r s)) (r ∷ (ys ++ (t ∷ [])))
  last-Cycle =
      let s' = insert_before t r s in
      let spliced =
        insert_before-Spliced t r (last r ys) s (prev-last (next_in s) (prev_in s) r ys r c) out.0
          (NotIn-last t r ys out) in
      Cycle-rotate (next_in s') (prev_in s') t (r ∷ ys) (
        spliced.next_new,
        spliced.prev_after,
        Chain-retarget (next_in s) (prev_in s) (next_in s') (prev_in s') r ys r t t c d d.0 out.1
            out spliced.next_same spliced.prev_same spliced.next_before spliced.prev_new,
      )

  abbrev node : Ptr
  node = place (due s) (due s t) r ys r

  placed-Cycle :
      Cycle
        (next_in (insert_before t node s))
        (prev_in (insert_before t node s))
        (r ∷ put (due s) (due s t) t ys)
  placed-Cycle =
      put-Chain t (next_in s) (prev_in s) _ _ (due s) (due s t) r ys r c d d.0 out out.0 (
        insert_before-Spliced t node (place_before (due s) (due s t) r ys) s
          (prev-place (due s) (due s t) (next_in s) (prev_in s) r ys r c)
          (place_ne (due s) (due s t) t r ys r out.1 out.0)
          (place_before_ne (due s) (due s t) t r ys out))

pub insert_task-Inserted :
    (fuel : ℕ) (t : Ptr) (xs : List Ptr) (s : Background)
    → Listed s xs
    → Distinct xs
    → NotIn t xs
    → NotIn null xs
    → length xs ≤ fuel
    → Inserted s (with_task (due s) t xs) (insert_task fuel t s)
insert_task-Inserted fuel t [] s l d out nn le = alone-Inserted fuel t s l
insert_task-Inserted fuel t (r ∷ ys) s (root, c) d out nn le =
    let full : s.periodic_schedule_root ≢ null = λ e. nn.0 (sym e ∙ root) in
    elim (Bool-cases (ltb (due s t) (due s r))) [
      | inl before ↦
          let armed = arm (due s t) s in
          let f = insert_before-Relinked t r armed in
          rw before (record {
            after = insert_before t r armed;
            returned =
                insert_task-before fuel t s full (ap (λ p. ltb (due s t) (due s p)) root ∙ before)
                ∙ ap (λ p. some (insert_before t p armed)) root;
            listed = (insert_before-root t r armed ∙ root, last-Cycle t r ys armed c d out);
            due_same = f.due_same;
            func_same = f.func_same;
            period_same = f.period_same;
            ran_same = f.ran_same;
          })
      | inr behind ↦
          let n = place (due s) (due s t) r ys r in
          let f = insert_before-Relinked t n s in
          let found = find_place-place (due s t) r s root ys fuel r c d.0 (omega (arith, le)) in
          rw behind (record {
            after = insert_before t n s;
            returned =
                insert_task-behind fuel t s n full (ap (λ p. ltb (due s t) (due s p)) root ∙ behind)
                  (ap (λ p. find_place fuel (due s t) (next_in s p) s) root ∙ found);
            listed = (insert_before-root t n s ∙ root, placed-Cycle t r ys s c d out);
            due_same = f.due_same;
            func_same = f.func_same;
            period_same = f.period_same;
            ran_same = f.ran_same;
          })
    ]

-- The time at which the new task is due, on uint32_t.
abbrev pub first_run : ℕ → ℕ → ℕ
first_run now period = (now + period * 1000 % 2 ^ 32) % 2 ^ 32

abbrev pub due_with : Background → Ptr → ℕ → Ptr → ℕ
due_with s p time = update (due s) p time

-- What `add_periodic_task` makes of the list, where `malloc` has returned `p`.
pub record Added (fuel now task period : ℕ) (p : Ptr) (xs : List Ptr) (s : Background) (h : Heap)
    : Type 0 where
  pub after : Background
  pub returned : add_periodic_task fuel now task period s ≡ some (none, after)
  pub listed : Listed after (with_task (due_with s p (first_run now period)) p xs)
  pub due_same : (x : Ptr) → due after x ≡ due_with s p (first_run now period) x
  pub func_same : (x : Ptr) → x ≢ p → (after.bgt x).func ≡ (s.bgt x).func
  pub period_same : (x : Ptr) → x ≢ p → (after.bgt x).period ≡ (s.bgt x).period
  pub none_ran : after.ran ≡ s.ran
  pub its_func : (after.bgt p).func ≡ task
  pub its_period : (after.bgt p).period ≡ period
  pub unlocked : after.locked ≡ false

module _ (now task period : ℕ) (p : Ptr) (s : Background) (h : Heap) where
  abbrev with_node : Background
  with_node = init_task p task period (first_run now period) (record s { heap = h; locked = true })

  with_node-due : (x : Ptr) → due with_node x ≡ due_with s p (first_run now period) x
  with_node-due x = ground arith

  with_node-func : (x : Ptr) → x ≢ p → (with_node.bgt x).func ≡ (s.bgt x).func
  with_node-func x ne = ground arith

  with_node-period : (x : Ptr) → x ≢ p → (with_node.bgt x).period ≡ (s.bgt x).period
  with_node-period x ne = ground arith

  add_periodic_task-insert :
      (fuel : ℕ) (s' : Background)
      → malloc 20 s.heap ≡ some (p, h)
      → p ≢ null
      → insert_task fuel p with_node ≡ some s'
      → add_periodic_task fuel now task period s ≡ some (none, record s' { locked = false })
  unfolding add_periodic_task
  add_periodic_task-insert fuel s' m ne e =
      let full = ==_of_ne p null ne in rw (add_periodic_task, m, full, e) refl

  with_node-Listed : (xs : List Ptr) → NotIn p xs → Listed s xs → Listed with_node xs
  with_node-Listed [] out l = l
  with_node-Listed (r ∷ ys) out l = (
    l.0,
    Chain-frame (next_in s) (prev_in s) (next_in with_node) (prev_in with_node) r ys r
        (λ x. ground arith) (λ x. ground arith) l.1,
  )

-- For a circular list of tasks, `malloc` having returned a block that is not one of them, and as much
-- fuel as there are tasks: `add_periodic_task` ends. Every task keeps its function, its period and its
-- time and stays in the list, no function is called, and the new one is in the list with its function, its period and a first time of the clock plus the period in
-- microseconds, modulo 2^32: behind the root and those that are due before it, but as the last one,
-- behind later tasks as well, where it is due before the root. The lock is free.
pub add_periodic_task-Added :
    (fuel now task period : ℕ) (p : Ptr) (xs : List Ptr) (s : Background) (h : Heap)
    → malloc 20 s.heap ≡ some (p, h)
    → Listed s xs
    → Distinct xs
    → NotIn p xs
    → NotIn null (p ∷ xs)
    → length xs ≤ fuel
    → Added fuel now task period p xs s h
add_periodic_task-Added fuel now task period p xs s h m l d out nn le =
    let start = with_node now task period p s h in
    let key : due start ≡ due_with s p (first_run now period) =
      fun_ext (with_node-due now task period p s h) in
    let i =
      insert_task-Inserted fuel p xs start (with_node-Listed now task period p s h xs out l) d out
        nn.1 le in
    record {
      after = record i.after { locked = false };
      returned =
          add_periodic_task-insert now task period p s h fuel i.after m (λ e. nn.0 (sym e))
            i.returned;
      listed =
          subst (λ k. Listed (record i.after { locked = false }) (with_task k p xs)) key i.listed;
      due_same = λ x. i.due_same x ∙ with_node-due now task period p s h x;
      func_same = λ x ne. i.func_same x ∙ with_node-func now task period p s h x ne;
      period_same = λ x ne. i.period_same x ∙ with_node-period now task period p s h x ne;
      none_ran = i.ran_same;
      its_func = i.func_same p ∙ ground arith;
      its_period = i.period_same p ∙ ground arith;
      unlocked = refl;
    }
