-- ===== src/Sched/Blocking.antt =====
-- The threads blocked on a semaphore in `sched_block` of os/schedule.c, and their order.
use multicore_rtos.Base.{
  ◌+◌, ℕ, zero, suc, ◌+◌, ◌≡◌, refl, ◌≢◌, ◌∙◌, ap, sym, inl, inr, true, false, some, List, [], ◌∷◌,
  arith, ◌==◌, ==_of_ne, ltb, Bool-cases,
}
use multicore_rtos.Heap.{Ptr, null}
use multicore_rtos.Sched.{Kernel, set_next}
use multicore_rtos.Sched.Wait.{insert_blocked, block_on, set_bthreads_root}
use multicore_rtos.Sched.Links.{NotIn}
use multicore_rtos.Sched.Ring.{next_of}
use multicore_rtos.Sched.Ready.{pri_of}
use multicore_rtos.Sched.Rethread.{Rethreaded, Rethreaded-set_next, Rethreaded-trans}
use multicore_rtos.Sched.Line.{Line, Sorted, insert_by, insert_by-Sorted, walk, walk-Joined}
use multicore_rtos.Sched.Waiting.{Waiting, Sorted-same, front-Line, Line-links}

insert_blocked-walk :
    (fuel : ℕ) (t n : Ptr) (k : Kernel) → insert_blocked fuel t n k ≡ walk (pri_of k) fuel t n k
unfolding insert_blocked walk
insert_blocked-walk zero t n k = refl
insert_blocked-walk (suc fuel) t n k = rw (insert_blocked-walk fuel t (next_of k n) k) refl

-- The thread has joined the blocked threads of the semaphore.
pub record Blocked (sem t : Ptr) (k : Kernel) (xs : List Ptr) : Type 0 where
  pub after : Kernel
  pub returned : block_on sem t k ≡ some after
  pub line : Line after (after.sema sem).bthreads_root (insert_by (pri_of k) t xs)
  pub rest : Rethreaded t xs k after
  pub sorted : Sorted (pri_of after) (insert_by (pri_of k) t xs)

module _ (sem t : Ptr) (k : Kernel) where
  block-empty :
      (k.sema sem).bthreads_root ≡ null → block_on sem t k ≡ some (set_bthreads_root sem t k)
  unfolding block_on
  block-empty e =
      let n : ((k.sema sem).bthreads_root == null) ≡ true = ap (λ p. p == null) e in rw n refl

  block-front :
      (x : Ptr)
      → (k.sema sem).bthreads_root ≡ x
      → x ≢ null
      → ltb (pri_of k t) (pri_of k x) ≡ true
      → block_on sem t k ≡ some (set_bthreads_root sem t (set_next t x k))
  unfolding block_on
  block-front x e ne before =
      let n : ((k.sema sem).bthreads_root == null) ≡ false =
        ap (λ p. p == null) e ∙ ==_of_ne x null ne in
      let b : ltb (pri_of k t) (pri_of k (k.sema sem).bthreads_root) ≡ true =
        ap (λ p. ltb (pri_of k t) (pri_of k p)) e ∙ before in
      let w : block_on sem t k
          ≡ some (set_bthreads_root sem t (set_next t (k.sema sem).bthreads_root k)) =
        rw (n, b) refl in
      w ∙ ap (λ p. some (set_bthreads_root sem t (set_next t p k))) e

  block-behind :
      (x : Ptr)
      → (k.sema sem).bthreads_root ≡ x
      → x ≢ null
      → ltb (pri_of k t) (pri_of k x) ≡ false
      → block_on sem t k ≡ walk (pri_of k) (k.lifetime_thread_count + 1) t x k
  unfolding block_on
  block-behind x e ne behind =
      let n : ((k.sema sem).bthreads_root == null) ≡ false =
        ap (λ p. p == null) e ∙ ==_of_ne x null ne in
      let b : ltb (pri_of k t) (pri_of k (k.sema sem).bthreads_root) ≡ false =
        ap (λ p. ltb (pri_of k t) (pri_of k p)) e ∙ behind in
      let w : block_on sem t k
          ≡ insert_blocked (k.lifetime_thread_count + 1) t (k.sema sem).bthreads_root k =
        rw (n, b) refl in
      w
      ∙ ap (λ p. insert_blocked (k.lifetime_thread_count + 1) t p k) e
      ∙ insert_blocked-walk (k.lifetime_thread_count + 1) t x k

root-Rethreaded :
    (t : Ptr) (ws : List Ptr) (sem p : Ptr) (k : Kernel)
    → Rethreaded t ws k (set_bthreads_root sem p k)
root-Rethreaded t ws sem p k = record {
  next = λ z n ne. refl;
  prev = λ z. refl;
  pri = λ z. refl;
  state = λ z. refl;
  actives = refl;
  runnings = refl;
  roots = refl;
  run_pts = refl;
  idles = refl;
}

-- Where a thread with its link NULL is not among the threads blocked on a semaphore, which are in
-- order of priority and no more than were ever created, `sched_block` ends its walk and leaves the
-- list with the thread behind all that have its priority or a higher one, in order of priority.
pub block_on-Sorted :
    (sem t : Ptr) (k : Kernel) (xs : List Ptr)
    → Waiting k t (k.sema sem).bthreads_root xs
    → Sorted (pri_of k) xs
    → Blocked sem t k xs
block_on-Sorted sem t k [] w s = record {
  after = set_bthreads_root sem t k;
  returned = block-empty sem t k w.line;
  line = (ground arith, w.loose);
  rest = root-Rethreaded t [] sem t k;
  sorted = (tt, tt);
}
block_on-Sorted sem t k (x ∷ xs) w s =
    let ne : x ≢ null = λ e. w.not_null.0 (sym e) in
    let order = insert_by-Sorted (pri_of k) t (x ∷ xs) s in
    elim (Bool-cases (ltb (pri_of k t) (pri_of k x))) [
      | inl before ↦ record {
        after = set_bthreads_root sem t (set_next t x k);
        returned = block-front sem t k x w.line.0 ne before;
        line = rw before (front t x xs k w.fresh (refl, w.line.1));
        rest =
            Rethreaded-trans (Rethreaded-set_next t (x ∷ xs) t x k (λ z n zt. zt))
              (root-Rethreaded t (x ∷ xs) sem t (set_next t x k));
        sorted = Sorted-same (pri_of k) _ _ (λ z. ground arith) order;
      }
      | inr behind ↦
          let j =
            walk-Joined (pri_of k) t k w.some_thread w.loose (k.lifetime_thread_count + 1) x xs
              w.line.1 w.distinct w.not_null.1 w.fresh (omega (arith, w.few)) in
          record {
            after = j.after;
            returned = block-behind sem t k x w.line.0 ne behind ∙ j.returned;
            line = rw behind (ap (λ f. (f sem).bthreads_root) j.sema_same ∙ w.line.0, j.line.1);
            rest = j.rest;
            sorted = Sorted-same (pri_of k) _ _ j.rest.pri order;
          }
    ]
  where
    front :
        (t x : Ptr) (xs : List Ptr) (k : Kernel)
        → NotIn t (x ∷ xs)
        → Line k x (x ∷ xs)
        → Line
            (set_bthreads_root sem t (set_next t x k))
            ((set_bthreads_root sem t (set_next t x k)).sema sem).bthreads_root
            (t ∷ x ∷ xs)
    front t x xs k fresh l =
        let l' =
          Line-links (set_next t x k) (set_bthreads_root sem t (set_next t x k)) t (t ∷ x ∷ xs)
            (λ z. refl) (front-Line t x xs k fresh l) in
        (ground arith, l'.1)
