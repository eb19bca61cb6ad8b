-- ===== src/Sched/Join.antt =====
-- All levels when `enqueue_thread` adds a thread to one of them.
use multicore_rtos.Base.{
  ℕ, suc, ◌^◌, ◌<◌, ◌≡◌, ◌≢◌, ◌∙◌, ap, sym, List, [], ◌∷◌, arith, length, update, update_self,
  update_ne,
}
use native.Mathlib.Decide.{ℕ_discrete}
use multicore_rtos.Heap.{Ptr, null}
use multicore_rtos.Sched.{Kernel, enqueue_thread, link_front, link_alone}
use multicore_rtos.Sched.Links.{NotIn, last, NotIn-last, prev-last}
use multicore_rtos.Sched.Ring.{
  next_of, prev_of, Queue, front-next_ne, front-prev_ne, enqueue-next, enqueue-prev, root-ne-null,
}
use multicore_rtos.Sched.Ready.{Ready, Rooted, pri_of, AllAt}
use multicore_rtos.Sched.Change.{SameCounts, Rooted-same}
use multicore_rtos.Sched.PutBack.{Levels}
use multicore_rtos.Sched.Enqueue.{Queue-Ready, enqueue_thread-Ready, enqueue-state_ne, enqueue-pri}
use multicore_rtos.Sched.Apart.{Untouched, Ready-apart}

enqueue-alone_ne :
    (t : Ptr) (k : Kernel) (x : Ptr)
    → k.thread_schedule (pri_of k t) ≡ null
    → x ≢ t
    → (next_of (enqueue_thread t k) x ≡ next_of k x)
      × (prev_of (enqueue_thread t k) x ≡ prev_of k x)
unfolding enqueue_thread link_alone
enqueue-alone_ne t k x e ne = rw e (ground arith)

enqueue-counts_ne :
    (t : Ptr) (k : Kernel) (p : ℕ) → p ≢ pri_of k t → SameCounts p k (enqueue_thread t k)
unfolding enqueue_thread link_front link_alone
enqueue-counts_ne t k p ne = record { active_same = ground arith; running_same = ground arith }

enqueue-root_ne :
    (t : Ptr) (k : Kernel) (p : ℕ)
    → p ≢ pri_of k t
    → (enqueue_thread t k).thread_schedule p ≡ k.thread_schedule p
unfolding enqueue_thread link_front link_alone
enqueue-root_ne t k p ne = ground arith

-- A thread outside the list keeps its links.
pub enqueue-links_outside :
    (t : Ptr) (k : Kernel) (xs : List Ptr) (x : Ptr)
    → Ready k (pri_of k t) xs
    → Rooted k (pri_of k t) xs
    → NotIn t xs
    → NotIn x xs
    → x ≢ t
    → (next_of (enqueue_thread t k) x ≡ next_of k x)
      × (prev_of (enqueue_thread t k) x ≡ prev_of k x)
enqueue-links_outside t k [] x r root out off xt = enqueue-alone_ne t k x root xt
enqueue-links_outside t k (y ∷ ys) x r root out off xt =
    let q : Queue k (pri_of k t) (y ∷ ys) = Queue-Ready (y ∷ ys) r root in
    let full = root-ne-null k (pri_of k t) y ys q in
    let back = prev-last (next_of k) (prev_of k) y ys y q.1 in
    let tl : t ≢ last y ys = NotIn-last t y ys out in
    let xl : x ≢ last y ys = NotIn-last x y ys off in
    (
      enqueue-next t k x full
          ∙ front-next_ne (pri_of k t) t y (last y ys) k q.0 back out.0 tl x xl xt,
      enqueue-prev t k x full
          ∙ front-prev_ne (pri_of k t) t y (last y ys) k q.0 back out.0 tl x off.0 xt,
    )

level-NotIn : (f : Ptr → ℕ) (p : ℕ) (x : Ptr) (xs : List Ptr) → AllAt f p xs → f x ≢ p → NotIn x xs
level-NotIn f p x [] all ne = tt
level-NotIn f p x (y ∷ ys) all ne = ((λ e. ne (ap f e ∙ all.0)), level-NotIn f p x ys all.1 ne)

enqueue-links_ne :
    (t : Ptr) (k : Kernel) (xs : List Ptr) (x : Ptr)
    → Ready k (pri_of k t) xs
    → Rooted k (pri_of k t) xs
    → NotIn t xs
    → pri_of k x ≢ pri_of k t
    → (next_of (enqueue_thread t k) x ≡ next_of k x)
      × (prev_of (enqueue_thread t k) x ≡ prev_of k x)
enqueue-links_ne t k xs x r root out ne =
    enqueue-links_outside t k xs x r root out (level-NotIn (pri_of k) (pri_of k t) x xs r.level ne)
      (λ e. ne (ap (pri_of k) e))

-- the lists once the thread is in front of its level's
abbrev pub joined : (k : Kernel) (t : Ptr) → (ℕ → List Ptr) → ℕ → List Ptr
joined k t q = update q (pri_of k t) (t ∷ q (pri_of k t))

-- Where every level satisfies its invariant, a thread of one of the five levels that is not in the
-- list of its level and whose address is not NULL may join it, if the longer list has fewer than 2^16
-- threads: the levels satisfy their invariants again, with the thread at the front of its list and the
-- other lists as they were.
pub enqueue_thread-Levels :
    (t : Ptr) (k : Kernel) (q : ℕ → List Ptr)
    → t ≢ null
    → pri_of k t < 5
    → NotIn t (q (pri_of k t))
    → suc (length (q (pri_of k t))) < 2 ^ 16
    → Levels k q
    → Levels (enqueue_thread t k) (joined k t q)
enqueue_thread-Levels t k q some_t in_range out room l = record {
  ready = λ p lt. elim (ℕ_discrete p (pri_of k t)) [
    | yes e ↦ rw (e, update_self q (pri_of k t) (t ∷ q (pri_of k t))) here.0
    | no ne ↦ rw (update_ne q (pri_of k t) (t ∷ q (pri_of k t)) ne) (
        Ready-apart k (enqueue_thread t k) p (untouched p ne) (q p) (enqueue-counts_ne t k p ne)
          (l.ready p lt))
  ];
  rooted = λ p lt. elim (ℕ_discrete p (pri_of k t)) [
    | yes e ↦ rw (e, update_self q (pri_of k t) (t ∷ q (pri_of k t))) here.1
    | no ne ↦
        rw (update_ne q (pri_of k t) (t ∷ q (pri_of k t)) ne)
          (Rooted-same k (enqueue_thread t k) p (q p) (enqueue-root_ne t k p ne) (l.rooted p lt))
  ];
  idle_level = rw ((enqueue-counts_ne t k 5 (omega (arith, in_range))).active_same) l.idle_level;
}
  where
    ready : Ready k (pri_of k t) (q (pri_of k t))
    ready = l.ready (pri_of k t) in_range

    root : Rooted k (pri_of k t) (q (pri_of k t))
    root = l.rooted (pri_of k t) in_range

    here :
        Ready (enqueue_thread t k) (pri_of k t) (t ∷ q (pri_of k t))
        × Rooted (enqueue_thread t k) (pri_of k t) (t ∷ q (pri_of k t))
    here = enqueue_thread-Ready t k (q (pri_of k t)) some_t ready root out room

    untouched :
        (p : ℕ) → p ≢ pri_of k t → (x : Ptr) → pri_of k x ≡ p → Untouched k (enqueue_thread t k) x
    untouched p ne x e =
        let other : pri_of k x ≢ pri_of k t = λ f. ne (sym e ∙ f) in
        let links = enqueue-links_ne t k (q (pri_of k t)) x ready root out other in
        record {
          next = links.0;
          prev = links.1;
          pri = enqueue-pri t k x;
          state = enqueue-state_ne t k x (λ f. other (ap (pri_of k) f));
        }
