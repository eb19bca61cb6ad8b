-- ===== src/Sched/Leave.antt =====
-- All levels when `dequeue_thread` takes the running thread out of its level.
use multicore_rtos.Base.{
  ℕ, ◌+◌, ◌^◌, ◌<◌, ◌≡◌, ◌≢◌, ◌∙◌, ap, sym, subst, List, [], ◌∷◌, ◌++◌, arith, inl, inr, update,
  update_self, update_ne,
}
use native.Mathlib.Decide.{ℕ_discrete}
use multicore_rtos.Heap.{Ptr, null}
use multicore_rtos.Sched.{Kernel, ThreadState, dequeue_thread, unlink}
use multicore_rtos.Sched.Links.{NotIn, last, NotIn-last, NotIn-append, prev-last}
use multicore_rtos.Sched.Ring.{next_of, prev_of}
use multicore_rtos.Sched.Ready.{Ready, Rooted, Ready-rotate, state_of, pri_of}
use multicore_rtos.Sched.Change.{In, SameCounts, Rooted-same, NotIn-AllAt}
use multicore_rtos.Sched.Choice.{In-AllAt}
use multicore_rtos.Sched.PutBack.{Levels}
use multicore_rtos.Sched.Dequeue.{
  dequeue_thread-Ready, dequeue-state, dequeue-pri, dequeue-next_ne, dequeue-prev_ne, tally-run,
  tally-act,
}
use multicore_rtos.Sched.Apart.{Untouched, Ready-apart}

-- A list with the thread at its place.
pub record At (t : Ptr) (xs : List Ptr) : Type 0 where
  pub before : List Ptr
  pub after : List Ptr
  pub split : xs ≡ before ++ (t ∷ after)

pub In-At : (t : Ptr) (xs : List Ptr) → In t xs → At t xs
In-At t [] i = absurd i
In-At t (x ∷ xs) (inl e) = record { before = []; after = xs; split = ap (λ y. y ∷ xs) (sym e) }
In-At t (x ∷ xs) (inr i) =
    let a = In-At t xs i in
    record { before = x ∷ a.before; after = a.after; split = ap (λ ys. x ∷ ys) a.split }

In-append_left : (x : Ptr) (xs ys : List Ptr) → In x xs → In x (xs ++ ys)
In-append_left x [] ys i = absurd i
In-append_left x (y ∷ xs) ys (inl e) = inl e
In-append_left x (y ∷ xs) ys (inr i) = inr (In-append_left x xs ys i)

In-append_right : (x : Ptr) (xs ys : List Ptr) → In x ys → In x (xs ++ ys)
In-append_right x [] ys i = i
In-append_right x (y ∷ xs) ys i = inr (In-append_right x xs ys i)

-- The others are in the list that begins behind the thread.
In-rest : (t x : Ptr) (xs ys : List Ptr) → x ≢ t → In x (xs ++ (t ∷ ys)) → In x (ys ++ xs)
In-rest t x [] ys ne (inl e) = absurd (ne e)
In-rest t x [] ys ne (inr i) = In-append_left x ys [] i
In-rest t x (z ∷ xs) ys ne (inl e) = In-append_right x ys (z ∷ xs) (inl e)
In-rest t x (z ∷ xs) ys ne (inr i) = insert ys (In-rest t x xs ys ne i)
  where
    insert : (ws : List Ptr) → In x (ws ++ xs) → In x (ws ++ (z ∷ xs))
    insert [] i = inr i
    insert (w ∷ ws) (inl e) = inl e
    insert (w ∷ ws) (inr i) = inr (insert ws i)

dequeue-counts_ne :
    (t : Ptr) (k : Kernel) (p : ℕ) → p ≢ pri_of k t → SameCounts p k (dequeue_thread t k)
unfolding dequeue_thread unlink
dequeue-counts_ne t k p ne = record { active_same = ground arith; running_same = ground arith }

dequeue-root_ne :
    (t : Ptr) (k : Kernel) (p : ℕ)
    → p ≢ pri_of k t
    → (dequeue_thread t k).thread_schedule p ≡ k.thread_schedule p
unfolding dequeue_thread unlink
dequeue-root_ne t k p ne = ground arith

dequeue-links_alone :
    (t : Ptr) (k : Kernel) (x : Ptr)
    → state_of k t ≡ ThreadState.running
    → k.active_priority_count (pri_of k t) ≡ 0
    → k.running_priority_count (pri_of k t) ≡ 1
    → x ≢ t
    → (next_of (dequeue_thread t k) x ≡ next_of k x)
      × (prev_of (dequeue_thread t k) x ≡ prev_of k x)
unfolding dequeue_thread unlink
dequeue-links_alone t k x e a r ne = ground arith

dequeue-links_ne :
    (t : Ptr) (k : Kernel) (xs : List Ptr) (x : Ptr)
    → state_of k t ≡ ThreadState.running
    → Ready k (pri_of k t) (t ∷ xs)
    → NotIn x (t ∷ xs)
    → (next_of (dequeue_thread t k) x ≡ next_of k x)
      × (prev_of (dequeue_thread t k) x ≡ prev_of k x)
dequeue-links_ne t k [] x run r out =
    dequeue-links_alone t k x run (omega (arith, r.actives, tally-act t k run []))
      (omega (arith, r.runnings, tally-run t k run [])) out.0
dequeue-links_ne t k (b ∷ ys) x run r out =
    let l = last b ys in
    let before : prev_of k t ≡ l = prev-last (next_of k) (prev_of k) b ys t r.cycle.2 in
    let tb : t ≢ b = r.distinct.0.0 in
    let tl : t ≢ l = NotIn-last t b ys r.distinct.0 in
    let many : k.active_priority_count (pri_of k t) + k.running_priority_count (pri_of k t) ≢ 1 =
      omega (arith, r.actives, r.runnings, r.ready) in
    let busy : 0 < k.running_priority_count (pri_of k t) =
      omega (arith, r.runnings, tally-run t k run (b ∷ ys)) in
    let few : k.running_priority_count (pri_of k t) < 2 ^ 16 =
      omega (arith, r.runnings, r.ready, r.small) in
    let xl : x ≢ l = NotIn-last x b ys out.1 in
    (
      dequeue-next_ne t k b l run r.cycle.0 before tb tl many busy few x xl out.0,
      dequeue-prev_ne t k b l run r.cycle.0 before tb tl many busy few x out.0 out.1.0,
    )

pub NotIn-In : (x y : Ptr) (xs : List Ptr) → NotIn x xs → In y xs → y ≢ x
NotIn-In x y [] n i = absurd i
NotIn-In x y (z ∷ xs) n (inl e) = λ f. n.0 (sym f ∙ e)
NotIn-In x y (z ∷ xs) n (inr i) = NotIn-In x y xs n.1 i

NotIn-rest : (t x : Ptr) (xs ys : List Ptr) → NotIn x (xs ++ (t ∷ ys)) → NotIn x (t ∷ (ys ++ xs))
NotIn-rest t x [] ys n = (n.0, NotIn-append x ys [] n.1 tt)
NotIn-rest t x (z ∷ xs) ys n =
    let rest = NotIn-rest t x xs ys n.1 in
    let parts = NotIn-parts ys rest.1 in (rest.0, NotIn-append x ys (z ∷ xs) parts.0 (n.0, parts.1))
  where
    NotIn-parts : (ws : List Ptr) → NotIn x (ws ++ xs) → NotIn x ws × NotIn x xs
    NotIn-parts [] m = (tt, m)
    NotIn-parts (w ∷ ws) m = let p = NotIn-parts ws m.1 in ((m.0, p.0), p.1)

-- The lists that are left: the others are in those in which they were.
pub record Left (k' : Kernel) (t : Ptr) (q : ℕ → List Ptr) : Type 0 where
  pub queues : ℕ → List Ptr
  pub levels : Levels k' queues
  pub kept : (p : ℕ) (x : Ptr) → x ≢ t → In x (q p) → In x (queues p)
  pub gone : (p : ℕ) (x : Ptr) → p < 5 → In x (queues p) → x ≢ t

-- Where every level satisfies its invariant, a RUNNING thread of one of the five levels may leave the
-- list of its level, wherever it is in it: the levels satisfy their invariants again, every other
-- thread is in the list where it was, and this one is in none.
pub dequeue_thread-Left :
    (t : Ptr) (k : Kernel) (q : ℕ → List Ptr)
    → state_of k t ≡ ThreadState.running
    → pri_of k t < 5
    → In t (q (pri_of k t))
    → Levels k q
    → Left (dequeue_thread t k) t q
dequeue_thread-Left t k q run in_range i l = record {
  queues = update q (pri_of k t) rest;
  levels = record {
    ready = λ p lt. elim (ℕ_discrete p (pri_of k t)) [
      | yes e ↦ rw (e, update_self q (pri_of k t) rest) here.0
      | no ne ↦ rw (update_ne q (pri_of k t) rest ne) (
          Ready-apart k (dequeue_thread t k) p (untouched p ne) (q p) (dequeue-counts_ne t k p ne)
            (l.ready p lt))
    ];
    rooted = λ p lt. elim (ℕ_discrete p (pri_of k t)) [
      | yes e ↦ rw (e, update_self q (pri_of k t) rest) here.1
      | no ne ↦
          rw (update_ne q (pri_of k t) rest ne)
            (Rooted-same k (dequeue_thread t k) p (q p) (dequeue-root_ne t k p ne) (l.rooted p lt))
    ];
    idle_level = rw ((dequeue-counts_ne t k 5 (omega (arith, in_range))).active_same) l.idle_level;
  };
  kept = λ p x ne m. elim (ℕ_discrete p (pri_of k t)) [
    | yes e ↦
        rw (e, update_self q (pri_of k t) rest)
          (In-rest t x at.before at.after ne (rw at.split at (rw e at m)))
    | no other ↦ rw (update_ne q (pri_of k t) rest other) m
  ];
  gone = λ p x lt m. elim (ℕ_discrete p (pri_of k t)) [
    | yes e ↦ NotIn-In t x rest turned.distinct.0 (rw (e, update_self q (pri_of k t) rest) at m)
    | no other ↦ λ f. other (
        sym (
          In-AllAt (pri_of k) p x (q p) (rw (update_ne q (pri_of k t) rest other) at m)
            (l.ready p lt).level)
        ∙ ap (pri_of k) f)
  ];
}
  where
    at : At t (q (pri_of k t))
    at = In-At t (q (pri_of k t)) i

    rest : List Ptr
    rest = at.after ++ at.before

    turned : Ready k (pri_of k t) (t ∷ rest)
    turned =
        Ready-rotate at.before (t ∷ at.after)
          (subst (Ready k (pri_of k t)) at.split (l.ready (pri_of k t) in_range))

    here :
        Ready (dequeue_thread t k) (pri_of k t) rest × Rooted (dequeue_thread t k) (pri_of k t) rest
    here = dequeue_thread-Ready t k run rest turned

    untouched :
        (p : ℕ) → p ≢ pri_of k t → (x : Ptr) → pri_of k x ≡ p → Untouched k (dequeue_thread t k) x
    untouched p ne x e =
        let out : NotIn x (t ∷ rest) =
          NotIn-AllAt (pri_of k) x (pri_of k t) (t ∷ rest) (λ f. ne (sym e ∙ f)) turned.level in
        let links = dequeue-links_ne t k rest x run turned out in
        record {
          next = links.0;
          prev = links.1;
          pri = dequeue-pri t k x;
          state = dequeue-state t k x;
        }

-- The links of a thread outside the list stay.
pub dequeue-next_outside :
    (t : Ptr) (k : Kernel) (q : ℕ → List Ptr) (x : Ptr)
    → state_of k t ≡ ThreadState.running
    → pri_of k t < 5
    → In t (q (pri_of k t))
    → Levels k q
    → NotIn x (q (pri_of k t))
    → next_of (dequeue_thread t k) x ≡ next_of k x
dequeue-next_outside t k q x run in_range i l out =
    let at = In-At t (q (pri_of k t)) i in
    (dequeue-links_ne t k (at.after ++ at.before) x run
      (Ready-rotate at.before (t ∷ at.after)
        (subst (Ready k (pri_of k t)) at.split (l.ready (pri_of k t) in_range)))
      (NotIn-rest t x at.before at.after (subst (NotIn x) at.split out))).0

pub dequeue-next_self : (t : Ptr) (k : Kernel) → next_of (dequeue_thread t k) t ≡ null
unfolding dequeue_thread
dequeue-next_self t k = ground arith
