-- ===== src/Sched/Ring.antt =====
-- The queue of a priority level is a circular list behind its root: what `enqueue_thread` and
-- `dequeue_thread` make of it.
use multicore_rtos.Base.{ℕ, ◌≡◌, ◌≢◌, ◌∙◌, sym, List, [], ◌∷◌, arith, ==_of_ne}
use multicore_rtos.Heap.{Ptr, null}
use multicore_rtos.Sched.{Kernel, link_alone, link_front, enqueue_thread}
use multicore_rtos.Sched.Links.{
  Cycle, Distinct, NotIn, last, NotIn-last, prev-last, Chain-retarget, Chain-frame,
}

abbrev pub next_of : Kernel → Ptr → Ptr
next_of k p = (k.tcb p).next_tcb

abbrev pub prev_of : Kernel → Ptr → Ptr
prev_of k p = (k.tcb p).prev_tcb

-- Level `pri` has the threads of the list, in the order in which they are scheduled.
abbrev pub Queue : Kernel → ℕ → List Ptr → Type 0
Queue k pri [] = k.thread_schedule pri ≡ null
Queue k pri (x ∷ xs) =
    (k.thread_schedule pri ≡ x)
    × Cycle (next_of k) (prev_of k) (x ∷ xs)
    × Distinct (x ∷ xs)
    × NotIn null (x ∷ xs)

-- `link_front` before the root `r`, where `l` is the last node
module _ (pri t r l : Ptr) (k : Kernel) (root : k.thread_schedule pri ≡ r) (back : prev_of k r ≡ l)
    (tr : t ≢ r) (tl : t ≢ l) where
  pub front-next_ne : (x : Ptr) → x ≢ l → x ≢ t → next_of (link_front pri t k) x ≡ next_of k x
  unfolding link_front
  front-next_ne x xl xt = ground arith

  front-next_last : next_of (link_front pri t k) l ≡ t
  unfolding link_front
  front-next_last = ground arith

  front-next_new : next_of (link_front pri t k) t ≡ r
  unfolding link_front
  front-next_new = ground arith

  pub front-prev_ne : (x : Ptr) → x ≢ r → x ≢ t → prev_of (link_front pri t k) x ≡ prev_of k x
  unfolding link_front
  front-prev_ne x xr xt = ground arith

  front-prev_root : prev_of (link_front pri t k) r ≡ t
  unfolding link_front
  front-prev_root = ground arith

  front-prev_new : prev_of (link_front pri t k) t ≡ l
  unfolding link_front
  front-prev_new = ground arith

  front-root : (link_front pri t k).thread_schedule pri ≡ t
  unfolding link_front
  front-root = ground arith

-- The stores that end `enqueue_thread` change no link.
module _ (t : Ptr) (k : Kernel) (x : Ptr) where
  pub enqueue-next :
      (k.thread_schedule (k.tcb t).priority ≢ null)
      → next_of (enqueue_thread t k) x ≡ next_of (link_front (k.tcb t).priority t k) x
  unfolding enqueue_thread
  enqueue-next ne = rw (==_of_ne _ _ ne) (ground arith)

  pub enqueue-prev :
      (k.thread_schedule (k.tcb t).priority ≢ null)
      → prev_of (enqueue_thread t k) x ≡ prev_of (link_front (k.tcb t).priority t k) x
  unfolding enqueue_thread
  enqueue-prev ne = rw (==_of_ne _ _ ne) (ground arith)

enqueue-root : (t : Ptr) (k : Kernel) → (enqueue_thread t k).thread_schedule (k.tcb t).priority ≡ t
unfolding enqueue_thread link_front link_alone
enqueue-root t k = ground arith

enqueue_alone :
    (t : Ptr) (k : Kernel)
    → k.thread_schedule (k.tcb t).priority ≡ null
    → (next_of (enqueue_thread t k) t ≡ t) × (prev_of (enqueue_thread t k) t ≡ t)
unfolding enqueue_thread link_alone
enqueue_alone t k e = rw e (ground arith)

link_front-Cycle :
    (pri t r : ℕ) (xs : List Ptr) (k : Kernel)
    → Queue k pri (r ∷ xs)
    → NotIn t (r ∷ xs)
    → Cycle (next_of (link_front pri t k)) (prev_of (link_front pri t k)) (t ∷ r ∷ xs)
link_front-Cycle pri t r xs k q out =
    let back = prev-last (next_of k) (prev_of k) r xs r q.1 in
    let tl : t ≢ last r xs = NotIn-last t r xs out in
    (
      front-next_new pri t r (last r xs) k q.0 back out.0 tl,
      front-prev_root pri t r (last r xs) k q.0 back out.0 tl,
      Chain-retarget (next_of k) (prev_of k) _ _ r xs r t t q.1 q.2 q.2.0 out.1 out
          (front-next_ne pri t r (last r xs) k q.0 back out.0 tl)
          (front-prev_ne pri t r (last r xs) k q.0 back out.0 tl)
          (front-next_last pri t r (last r xs) k q.0 back out.0 tl)
          (front-prev_new pri t r (last r xs) k q.0 back out.0 tl),
    )

pub root-ne-null :
    (k : Kernel) (pri r : ℕ) (xs : List Ptr) → Queue k pri (r ∷ xs) → k.thread_schedule pri ≢ null
root-ne-null k pri r xs q e = q.3.0 (sym e ∙ q.0)

-- `enqueue_thread` puts a thread that is in no queue at the front of the queue of its level.
pub enqueue_thread-Queue :
    (t : Ptr) (k : Kernel) (xs : List Ptr)
    → t ≢ null
    → Queue k (k.tcb t).priority xs
    → NotIn t xs
    → Queue (enqueue_thread t k) (k.tcb t).priority (t ∷ xs)
enqueue_thread-Queue t k [] ne q out =
    (enqueue-root t k, enqueue_alone t k q, (tt, tt), ((λ e. ne (sym e)), tt))
enqueue_thread-Queue t k (r ∷ xs) ne q out =
    let full = root-ne-null k (k.tcb t).priority r xs q in
    (
      enqueue-root t k,
      Chain-frame _ _ _ _ t (r ∷ xs) t (λ x. enqueue-next t k x full) (λ x. enqueue-prev t k x full)
          (link_front-Cycle (k.tcb t).priority t r xs k q out),
      (out, q.2),
      ((λ e. ne (sym e)), q.3),
    )
