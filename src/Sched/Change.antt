-- ===== src/Sched/Change.antt =====
-- A level when one of its threads changes its state, and when a thread of another level does.
use multicore_rtos.Base.{
  ℕ, ◌+◌, ◌≡◌, ◌≢◌, ◌∙◌, ap, fun_ext, ◌⊎◌, inl, inr, sym, Bool, List, [], ◌∷◌, arith, if◌then◌else◌,
}
use multicore_rtos.Heap.{Ptr}
use multicore_rtos.Sched.{Kernel, ThreadState, is_running, is_active}
use multicore_rtos.Sched.Links.{Cycle, Distinct, NotIn, Chain-frame}
use multicore_rtos.Sched.Ring.{next_of, prev_of}
use multicore_rtos.Sched.Ready.{
  Ready, Rooted, state_of, pri_of, tally, tally-frame, AllAt, AllAt-frame,
}

abbrev pub In : Ptr → List Ptr → Type 0
In t [] = ⊥
In t (x ∷ xs) = (t ≡ x) ⊎ In t xs

-- 1 for a state that passes the test
abbrev pub one_if : (ThreadState → Bool) → ThreadState → ℕ
one_if f s = if f s then 1 else 0

-- The two kernels have the same links and priorities, and the same states but for `t`.
pub record Changed (t : Ptr) (k k' : Kernel) : Type 0 where
  pub next_same : (x : Ptr) → next_of k' x ≡ next_of k x
  pub prev_same : (x : Ptr) → prev_of k' x ≡ prev_of k x
  pub pri_same : (x : Ptr) → pri_of k' x ≡ pri_of k x
  pub state_same : (x : Ptr) → x ≢ t → state_of k' x ≡ state_of k x

-- The counters of level `pri` are the same.
pub record SameCounts (pri : ℕ) (k k' : Kernel) : Type 0 where
  pub active_same : k'.active_priority_count pri ≡ k.active_priority_count pri
  pub running_same : k'.running_priority_count pri ≡ k.running_priority_count pri

pub NotIn-AllAt :
    (p : Ptr → ℕ) (t : Ptr) (pri : ℕ) (xs : List Ptr) → p t ≢ pri → AllAt p pri xs → NotIn t xs
NotIn-AllAt p t pri [] ne h = tt
NotIn-AllAt p t pri (x ∷ xs) ne h = ((λ e. ne (ap p e ∙ h.0)), NotIn-AllAt p t pri xs ne h.1)

tally-change :
    (f : ThreadState → Bool) (st st' : Ptr → ThreadState) (t : Ptr) (xs : List Ptr)
    → In t xs
    → Distinct xs
    → ((x : Ptr) → x ≢ t → st' x ≡ st x)
    → tally f st' xs + one_if f (st t) ≡ tally f st xs + one_if f (st' t)
tally-change f st st' t [] i d same = absurd i
tally-change f st st' t (x ∷ xs) (inl e) d same =
    rw (e, tally-frame f st st' x xs d.0 (λ y ne. same y (λ q. ne (q ∙ e)))) (omega arith)
tally-change f st st' t (x ∷ xs) (inr i) d same =
    rw (same x (λ e. not-In x xs d.0 (rw (sym e) at i)))
      (omega (arith, tally-change f st st' t xs i d.1 same))
  where
    not-In : (y : Ptr) (ys : List Ptr) → NotIn y ys → In y ys → ⊥
    not-In y [] n i = i
    not-In y (z ∷ ys) n (inl e) = n.0 e
    not-In y (z ∷ ys) n (inr i) = not-In y ys n.1 i

Cycle-Changed :
    {t : Ptr} {k k' : Kernel} (xs : List Ptr)
    → Changed t k k'
    → Cycle (next_of k) (prev_of k) xs
    → Cycle (next_of k') (prev_of k') xs
Cycle-Changed [] ch c = tt
Cycle-Changed (x ∷ xs) ch c = Chain-frame _ _ _ _ x xs x ch.next_same ch.prev_same c

-- A level that does not have the thread.
pub Ready-elsewhere :
    {t : Ptr} {k k' : Kernel} {pri : ℕ} (xs : List Ptr)
    → Changed t k k'
    → SameCounts pri k k'
    → pri_of k t ≢ pri
    → Ready k pri xs
    → Ready k' pri xs
Ready-elsewhere {t} {k} {k'} {pri} xs ch co ne r =
    let out = NotIn-AllAt (pri_of k) t pri xs ne r.level in
    let act = tally-frame is_active (state_of k) (state_of k') t xs out ch.state_same in
    let run = tally-frame is_running (state_of k) (state_of k') t xs out ch.state_same in
    record {
      cycle = Cycle-Changed xs ch r.cycle;
      distinct = r.distinct;
      not_null = r.not_null;
      level = AllAt-frame (pri_of k) (pri_of k') pri xs ch.pri_same r.level;
      actives = co.active_same ∙ r.actives ∙ sym act;
      runnings = co.running_same ∙ r.runnings ∙ sym run;
      ready = rw (act, run) r.ready;
      small = r.small;
    }

abbrev pub weight : ThreadState → ℕ
weight s = one_if is_active s + one_if is_running s

-- The level of the thread: the new state is active or running as well, and the counters follow it.
pub Ready-here :
    {t : Ptr} {k k' : Kernel} {pri : ℕ} (xs : List Ptr)
    → Changed t k k'
    → In t xs
    → weight (state_of k t) ≡ weight (state_of k' t)
    → k'.active_priority_count pri + one_if is_active (state_of k t)
      ≡ k.active_priority_count pri + one_if is_active (state_of k' t)
    → k'.running_priority_count pri + one_if is_running (state_of k t)
      ≡ k.running_priority_count pri + one_if is_running (state_of k' t)
    → Ready k pri xs
    → Ready k' pri xs
Ready-here {t} {k} {k'} {pri} xs ch i w ea er r =
    let act = tally-change is_active (state_of k) (state_of k') t xs i r.distinct ch.state_same in
    let run = tally-change is_running (state_of k) (state_of k') t xs i r.distinct ch.state_same in
    record {
      cycle = Cycle-Changed xs ch r.cycle;
      distinct = r.distinct;
      not_null = r.not_null;
      level = AllAt-frame (pri_of k) (pri_of k') pri xs ch.pri_same r.level;
      actives = omega (arith, ea, act, r.actives);
      runnings = omega (arith, er, run, r.runnings);
      ready = omega (arith, w, act, run, r.ready);
      small = r.small;
    }

-- Nothing of the level changes.
pub Ready-same :
    {t : Ptr} {k k' : Kernel} {pri : ℕ} (xs : List Ptr)
    → Changed t k k'
    → ((x : Ptr) → state_of k' x ≡ state_of k x)
    → SameCounts pri k k'
    → Ready k pri xs
    → Ready k' pri xs
Ready-same {t} {k} {k'} {pri} xs ch same co r =
    let e : state_of k' ≡ state_of k = fun_ext same in
    record {
      cycle = Cycle-Changed xs ch r.cycle;
      distinct = r.distinct;
      not_null = r.not_null;
      level = AllAt-frame (pri_of k) (pri_of k') pri xs ch.pri_same r.level;
      actives = co.active_same ∙ r.actives ∙ ap (λ st. tally is_active st xs) (sym e);
      runnings = co.running_same ∙ r.runnings ∙ ap (λ st. tally is_running st xs) (sym e);
      ready = rw e r.ready;
      small = r.small;
    }

-- A root stays where the links stay.
pub Rooted-same :
    (k k' : Kernel) (pri : ℕ) (xs : List Ptr)
    → k'.thread_schedule pri ≡ k.thread_schedule pri
    → Rooted k pri xs
    → Rooted k' pri xs
Rooted-same k k' pri [] e r = e ∙ r
Rooted-same k k' pri (x ∷ xs) e r = e ∙ r
