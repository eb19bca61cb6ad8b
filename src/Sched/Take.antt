-- ===== src/Sched/Take.antt =====
-- The choice of `schedule` in os/schedule.c: the thread taken from a level, and the level after it.
use multicore_rtos.Base.{
  ℕ, suc, ◌+◌, ◌^◌, ◌≤◌, ◌<◌, ◌≡◌, refl, ◌≢◌, ◌∙◌, inl, inr, true, false, List, [], ◌∷◌, ◌++◌,
  arith, length, Bool-cases,
}
use multicore_rtos.Heap.{Ptr}
use multicore_rtos.Sched.{Kernel, ThreadState, is_running, is_active, take_thread}
use multicore_rtos.Sched.Links.{Chain}
use multicore_rtos.Sched.Ring.{next_of, prev_of}
use multicore_rtos.Sched.Ready.{Ready, Rooted, Ready-step, state_of, tally}
use multicore_rtos.Sched.Change.{In, one_if, weight, Ready-here}
use multicore_rtos.Sched.Pick.{
  tally-le, take-Changed, take-state, take-active, take-running, take-next, take-root,
}

-- The thread that `take_thread` takes from the level with the list `xs`, and the list after that.
pub record Taken (cpu pri : ℕ) (k : Kernel) (xs : List Ptr) : Type 0 where
  pub thread : Ptr
  pub chosen : (take_thread cpu pri k).next_run_pt cpu ≡ thread
  pub member : In thread xs
  pub was_active : state_of k thread ≡ ThreadState.active
  pub runs : state_of (take_thread cpu pri k) thread ≡ ThreadState.running
  pub queue : List Ptr
  pub kept : (t : Ptr) → In t xs → In t queue
  pub others : (t : Ptr) → t ≢ thread → state_of (take_thread cpu pri k) t ≡ state_of k t
  pub ready : Ready (take_thread cpu pri k) pri queue
  pub rooted : Rooted (take_thread cpu pri k) pri queue

In-behind : (x : Ptr) (xs : List Ptr) → In x (xs ++ (x ∷ []))
In-behind x [] = inl refl
In-behind x (y ∷ xs) = inr (In-behind x xs)

In-before : (x : Ptr) (xs : List Ptr) (t : Ptr) → In t xs → In t (xs ++ (x ∷ []))
In-before x [] t i = absurd i
In-before x (y ∷ xs) t (inl e) = inl e
In-before x (y ∷ xs) t (inr i) = inr (In-before x xs t i)

pub In-rotate : (x : Ptr) (xs : List Ptr) (t : Ptr) → In t (x ∷ xs) → In t (xs ++ (x ∷ []))
In-rotate x xs t (inl e) = rw e (In-behind x xs)
In-rotate x xs t (inr i) = In-before x xs t i

active_of : (s : ThreadState) → is_running s ≡ false → 0 < weight s → s ≡ ThreadState.active
active_of ThreadState.active a b = refl
active_of ThreadState.running a b = cc
active_of ThreadState.sleeping a b = absurd (omega arith)
active_of ThreadState.blocked a b = absurd (omega arith)
active_of ThreadState.dead a b = absurd (omega arith)
active_of ThreadState.idle a b = absurd (omega arith)

-- In a list of threads that are active or running, one that does not run is active.
pub head_active :
    (st : Ptr → ThreadState) (x : Ptr) (xs : List Ptr)
    → tally is_active st (x ∷ xs) + tally is_running st (x ∷ xs) ≡ suc (length xs)
    → is_running (st x) ≡ false
    → st x ≡ ThreadState.active
head_active st x xs e r = active_of (st x) r (omega (arith, e, tally-le st xs))

module _ (cpu pri : ℕ) (k : Kernel) (x : Ptr) (xs : List Ptr) (r : Ready k pri (x ∷ xs))
    (root : k.thread_schedule pri ≡ x) where
  abbrev pub k' : Kernel
  k' = take_thread cpu pri k

  -- the invariant, for the list read from the old root on
  pub same_order :
      (t : Ptr)
      → k'.next_run_pt cpu ≡ t
      → In t (x ∷ xs)
      → state_of k t ≡ ThreadState.active
      → k.active_priority_count pri ≢ 0
      → Ready k' pri (x ∷ xs)
  same_order t chosen i act some_active =
      let run = take-state cpu pri t k chosen in
      Ready-here (x ∷ xs) (take-Changed cpu pri t k chosen) i (rw (act, run) refl)
        (rw (act, run) (omega (arith, take-active cpu pri k, small_active)))
        (rw (act, run) (omega (arith, take-running cpu pri k, small_running))) r
    where
      small_active : k.active_priority_count pri < 2 ^ 16
      small_active = omega (arith, r.actives, r.ready, r.small)

      small_running : k.running_priority_count pri + 1 < 2 ^ 16
      small_running = omega (arith, r.runnings, r.actives, r.ready, r.small)

  -- The root does not run: it is taken, and the next thread becomes the root.
  unfoldable pub take_root :
      is_running (state_of k x) ≡ false → k.active_priority_count pri ≢ 0 → Taken cpu pri k (x ∷ xs)
  take_root off some_active =
      let act : state_of k x ≡ ThreadState.active = head_active (state_of k) x xs r.ready off in
      let chosen : k'.next_run_pt cpu ≡ x = take-next cpu pri k ∙ rw (root, off) in
      record {
        thread = x;
        chosen = chosen;
        member = inl refl;
        was_active = act;
        runs = take-state cpu pri x k chosen;
        queue = xs ++ (x ∷ []);
        kept = λ t i. In-rotate x xs t i;
        others = (take-Changed cpu pri x k chosen).state_same;
        ready = Ready-step x xs (same_order x chosen (inl refl) act some_active);
        rooted = new_root xs r.cycle (take-root cpu pri k ∙ rw (root, off));
      }
    where
      new_root :
          (ys : List Ptr)
          → Chain (next_of k) (prev_of k) x ys x
          → k'.thread_schedule pri ≡ next_of k x
          → Rooted k' pri (ys ++ (x ∷ []))
      new_root [] c e = e ∙ c.0
      new_root (y ∷ ys) c e = e ∙ c.0

-- The root runs on the other core: the thread behind it is taken.
take_second :
    (cpu pri : ℕ) (k : Kernel) (x : Ptr) (xs : List Ptr) (r : Ready k pri (x ∷ xs))
    → k.thread_schedule pri ≡ x
    → is_running (state_of k x) ≡ true
    → tally is_running (state_of k) (x ∷ xs) ≤ 1
    → k.active_priority_count pri ≢ 0
    → Taken cpu pri k (x ∷ xs)
take_second cpu pri k x [] r root on one some_active =
    absurd (some_active (r.actives ∙ alone (state_of k x) on))
  where
    alone : (s : ThreadState) → is_running s ≡ true → one_if is_active s + 0 ≡ 0
    alone ThreadState.active h = cc
    alone ThreadState.running h = refl
    alone s h = omega arith
take_second cpu pri k x (b ∷ xs) r root on one some_active =
    let chosen : (take_thread cpu pri k).next_run_pt cpu ≡ b =
      take-next cpu pri k ∙ rw (root, on) r.cycle.0 in
    record {
      thread = b;
      chosen = chosen;
      member = inr (inl refl);
      was_active = act;
      runs = take-state cpu pri b k chosen;
      queue = x ∷ b ∷ xs;
      kept = λ t i. i;
      others = (take-Changed cpu pri b k chosen).state_same;
      ready = same_order cpu pri k x (b ∷ xs) r root b chosen (inr (inl refl)) act some_active;
      rooted = take-root cpu pri k ∙ rw (root, on);
    }
  where
    weights :
        (s : ThreadState)
        → is_running s ≡ true
        → (one_if is_active s ≡ 0) × (one_if is_running s ≡ 1)
    weights ThreadState.running h = (refl, refl)
    weights ThreadState.active h = cc
    weights ThreadState.sleeping h = cc
    weights ThreadState.blocked h = cc
    weights ThreadState.dead h = cc
    weights ThreadState.idle h = cc

    off_of : (s : ThreadState) → one_if is_running s ≡ 0 → is_running s ≡ false
    off_of ThreadState.running h = absurd (omega arith)
    off_of ThreadState.active h = refl
    off_of ThreadState.sleeping h = refl
    off_of ThreadState.blocked h = refl
    off_of ThreadState.dead h = refl
    off_of ThreadState.idle h = refl

    act : state_of k b ≡ ThreadState.active
    act =
        head_active (state_of k) b xs (omega (arith, r.ready, weights (state_of k x) on))
          (off_of (state_of k b) (omega (arith, one, weights (state_of k x) on)))

-- From a level with an active thread, of whose threads at most one runs, `take_thread` takes an
-- active one.
pub take_thread-Taken :
    (cpu pri : ℕ) (k : Kernel) (xs : List Ptr)
    → Ready k pri xs
    → Rooted k pri xs
    → k.active_priority_count pri ≢ 0
    → tally is_running (state_of k) xs ≤ 1
    → Taken cpu pri k xs
take_thread-Taken cpu pri k [] r root some_active one = absurd (some_active r.actives)
take_thread-Taken cpu pri k (x ∷ xs) r root some_active one =
    elim (Bool-cases (is_running (state_of k x))) [
      | inl on ↦ take_second cpu pri k x xs r root on one some_active
      | inr off ↦ take_root cpu pri k x xs r root off some_active
    ]
