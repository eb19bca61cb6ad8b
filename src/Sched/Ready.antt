-- ===== src/Sched/Ready.antt =====
-- The invariant of a priority level: its circular list and the two counters of its threads.
use multicore_rtos.Base.{
  ℕ, ◌+◌, ◌^◌, ◌<◌, ◌≡◌, refl, ◌≢◌, ◌∙◌, sym, Bool, List, [], ◌∷◌, ◌++◌, arith, if◌then◌else◌,
  length, length-append,
}
use mathlib.Core.List.{append_assoc, append-nil}
use multicore_rtos.Heap.{Ptr, null}
use multicore_rtos.Sched.{Kernel, ThreadState, is_running, is_active}
use multicore_rtos.Sched.Links.{Cycle, Distinct, NotIn, Cycle-rotate, NotIn-append}
use multicore_rtos.Sched.Ring.{next_of, prev_of}

abbrev pub state_of : Kernel → Ptr → ThreadState
state_of k p = (k.tcb p).state

-- how many threads of the list are in a state that passes the test
abbrev pub tally : (ThreadState → Bool) → (Ptr → ThreadState) → List Ptr → ℕ
tally f st [] = 0
tally f st (x ∷ xs) = (if f (st x) then 1 else 0) + tally f st xs

abbrev pub AllAt : (Ptr → ℕ) → ℕ → List Ptr → Type 0
AllAt pri_of pri [] = Unit
AllAt pri_of pri (x ∷ xs) = (pri_of x ≡ pri) × AllAt pri_of pri xs

abbrev pub pri_of : Kernel → Ptr → ℕ
pri_of k p = (k.tcb p).priority

-- The threads of level `pri`, read from any of them on.
pub record Ready (k : Kernel) (pri : ℕ) (xs : List Ptr) : Type 0 where
  pub cycle : Cycle (next_of k) (prev_of k) xs
  pub distinct : Distinct xs
  pub not_null : NotIn null xs
  pub level : AllAt (pri_of k) pri xs
  pub actives : k.active_priority_count pri ≡ tally is_active (state_of k) xs
  pub runnings : k.running_priority_count pri ≡ tally is_running (state_of k) xs
  pub ready : tally is_active (state_of k) xs + tally is_running (state_of k) xs ≡ length xs
  pub small : length xs < 2 ^ 16

abbrev pub Rooted : Kernel → ℕ → List Ptr → Type 0
Rooted k pri [] = k.thread_schedule pri ≡ null
Rooted k pri (x ∷ xs) = k.thread_schedule pri ≡ x

pub tally-append :
    (f : ThreadState → Bool) (st : Ptr → ThreadState) (xs ys : List Ptr)
    → tally f st (xs ++ ys) ≡ tally f st xs + tally f st ys
tally-append f st [] ys = omega arith
tally-append f st (x ∷ xs) ys = omega (arith, tally-append f st xs ys)

pub tally-frame :
    (f : ThreadState → Bool) (st st' : Ptr → ThreadState) (t : Ptr) (xs : List Ptr)
    → NotIn t xs
    → ((x : Ptr) → x ≢ t → st' x ≡ st x)
    → tally f st' xs ≡ tally f st xs
tally-frame f st st' t [] out same = refl
tally-frame f st st' t (x ∷ xs) out same =
    rw (same x (λ e. out.0 (sym e)), tally-frame f st st' t xs out.1 same)

pub AllAt-frame :
    (p p' : Ptr → ℕ) (pri : ℕ) (xs : List Ptr)
    → ((x : Ptr) → p' x ≡ p x)
    → AllAt p pri xs
    → AllAt p' pri xs
AllAt-frame p p' pri [] same h = tt
AllAt-frame p p' pri (x ∷ xs) same h = (same x ∙ h.0, AllAt-frame p p' pri xs same h.1)

AllAt-append :
    (p : Ptr → ℕ) (pri : ℕ) (xs ys : List Ptr)
    → AllAt p pri xs
    → AllAt p pri ys
    → AllAt p pri (xs ++ ys)
AllAt-append p pri [] ys h g = g
AllAt-append p pri (x ∷ xs) ys h g = (h.0, AllAt-append p pri xs ys h.1 g)

NotIn-snoc : (x y : Ptr) (xs : List Ptr) → NotIn x xs → x ≢ y → NotIn x (xs ++ (y ∷ []))
NotIn-snoc x y xs h ne = NotIn-append x xs (y ∷ []) h (ne, tt)

Distinct-snoc : (x : Ptr) (xs : List Ptr) → NotIn x xs → Distinct xs → Distinct (xs ++ (x ∷ []))
Distinct-snoc x [] out d = (tt, tt)
Distinct-snoc x (y ∷ xs) out d =
    (NotIn-snoc y x xs d.0 (λ e. out.0 (sym e)), Distinct-snoc x xs out.1 d.1)

-- The list of a level may be read from its second thread on.
pub Ready-step :
    {k : Kernel} {pri : ℕ} (x : Ptr) (xs : List Ptr)
    → Ready k pri (x ∷ xs)
    → Ready k pri (xs ++ (x ∷ []))
Ready-step {k} {pri} x xs r = record {
  cycle = Cycle-rotate (next_of k) (prev_of k) x xs r.cycle;
  distinct = Distinct-snoc x xs r.distinct.0 r.distinct.1;
  not_null = NotIn-snoc null x xs r.not_null.1 r.not_null.0;
  level = AllAt-append (pri_of k) pri xs (x ∷ []) r.level.1 (r.level.0, tt);
  actives = omega (arith, r.actives, tally-append is_active (state_of k) xs (x ∷ []));
  runnings = omega (arith, r.runnings, tally-append is_running (state_of k) xs (x ∷ []));
  ready = omega (
    arith,
    r.ready,
    tally-append is_active (state_of k) xs (x ∷ []),
    tally-append is_running (state_of k) xs (x ∷ []),
    length-append xs (x ∷ []),
  );
  small = omega (arith, r.small, length-append xs (x ∷ []));
}

pub Ready-rotate :
    {k : Kernel} {pri : ℕ} (xs ys : List Ptr) → Ready k pri (xs ++ ys) → Ready k pri (ys ++ xs)
Ready-rotate [] ys r = rw append-nil r
Ready-rotate {k} {pri} (x ∷ xs) ys r =
    let e : (xs ++ ys) ++ (x ∷ []) ≡ xs ++ (ys ++ (x ∷ [])) = append_assoc xs ys (x ∷ []) in
    let s = Ready-rotate xs (ys ++ (x ∷ [])) (rw e at (Ready-step x (xs ++ ys) r)) in
    rw append_assoc at s
