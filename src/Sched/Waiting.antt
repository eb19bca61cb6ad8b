-- ===== src/Sched/Waiting.antt =====
-- Threads that wait in a list that ends at NULL, and one that is to join it.
use multicore_rtos.Base.{ℕ, ◌≤◌, ◌≡◌, refl, ◌≢◌, sym, subst, List, [], ◌∷◌, arith, length, fun_ext}
use multicore_rtos.Heap.{Ptr, null}
use multicore_rtos.Sched.{Kernel, set_next}
use multicore_rtos.Sched.Links.{Distinct, NotIn}
use multicore_rtos.Sched.Ring.{next_of}
use multicore_rtos.Sched.Line.{Line, Sorted, Line-set}

-- A list of waiting threads, and a thread that is to join it: its link is NULL, as `dequeue_thread`
-- leaves it.
pub record Waiting (k : Kernel) (t root : Ptr) (xs : List Ptr) : Type 0 where
  pub some_thread : t ≢ null
  pub loose : next_of k t ≡ null
  pub line : Line k root xs
  pub distinct : Distinct xs
  pub not_null : NotIn null xs
  pub fresh : NotIn t xs
  pub few : length xs ≤ k.lifetime_thread_count

pub Sorted-same :
    (key key' : Ptr → ℕ) (xs : List Ptr)
    → ((z : Ptr) → key' z ≡ key z)
    → Sorted key xs
    → Sorted key' xs
Sorted-same key key' xs same s = subst (λ f. Sorted f xs) (sym (fun_ext same)) s

-- A thread whose link is set, in front of a list that does not have it.
pub front-Line :
    (t x : Ptr) (xs : List Ptr) (k : Kernel)
    → NotIn t (x ∷ xs)
    → Line k x (x ∷ xs)
    → Line (set_next t x k) t (t ∷ x ∷ xs)
front-Line t x xs k fresh l = (refl, rw (next_here) (Line-set t x k x (x ∷ xs) fresh l))
  where
    next_here : next_of (set_next t x k) t ≡ x
    next_here = ground arith

-- The lists of another kernel with the same links.
pub Line-links :
    (k k' : Kernel) (p : Ptr) (xs : List Ptr)
    → ((z : Ptr) → next_of k' z ≡ next_of k z)
    → Line k p xs
    → Line k' p xs
Line-links k k' p [] same l = l
Line-links k k' p (x ∷ xs) same l = (l.0, rw (same x) (Line-links k k' (next_of k x) xs same l.1))
