-- ===== src/Sched/Retire.antt =====
-- A running thread that leaves its level for a list of waiting threads.
use multicore_rtos.Base.{ℕ, ◌≤◌, ◌≡◌, ◌≢◌, ◌∙◌, ap, sym, Option, some, List, [], ◌∷◌, arith, length}
use multicore_rtos.Heap.{Ptr, null}
use multicore_rtos.Sched.{Kernel, ThreadState}
use multicore_rtos.Sched.Links.{Distinct, NotIn}
use multicore_rtos.Sched.Ring.{next_of}
use multicore_rtos.Sched.Ready.{state_of, pri_of}
use multicore_rtos.Sched.Change.{weight}
use multicore_rtos.Sched.Choice.{SameThreads}
use multicore_rtos.Sched.Consistent.{Cores, Chosen}
use multicore_rtos.Sched.Leave.{NotIn-In, dequeue-next_outside, dequeue-next_self}
use multicore_rtos.Sched.Depart.{Out, AllOut, AllOut-NotIn}
use multicore_rtos.Sched.Line.{Line, Sorted}
use multicore_rtos.Sched.Waiting.{Waiting, Line-links}
use multicore_rtos.Sched.Vacate.{vacated, vacated-state_ne}
use multicore_rtos.Sched.Finish.{vacated-count}

-- Threads in no level that wait in a list, in the order of a key: no more than were ever created.
pub record WaitList (k : Kernel) (root : Ptr) (key : Ptr → ℕ) (ws : List Ptr) : Type 0 where
  pub line : Line k root ws
  pub distinct : Distinct ws
  pub not_null : NotIn null ws
  pub out : AllOut k ws
  pub sorted : Sorted key ws
  pub few : length ws ≤ k.lifetime_thread_count

pub WaitList-same :
    {k k' : Kernel} (root : Ptr) (key : Ptr → ℕ) (ws : List Ptr)
    → SameThreads k k'
    → k'.lifetime_thread_count ≡ k.lifetime_thread_count
    → WaitList k root key ws
    → WaitList k' root key ws
WaitList-same {k} {k'} root key ws s e w = record {
  line = Line-links k k' root ws (λ z. ap (λ b. b.next_tcb) (s.tcbs z)) w.line;
  distinct = w.distinct;
  not_null = w.not_null;
  out = same ws w.out;
  sorted = w.sorted;
  few = rw e w.few;
}
  where
    same : (xs : List Ptr) → AllOut k xs → AllOut k' xs
    same [] a = tt
    same (x ∷ xs) a = (ap (λ b. weight b.state) (s.tcbs x) ∙ a.0, same xs a.1)

-- A list of threads in no level, that ends at NULL, and a running thread that leaves its level.
module _ (t i u j : Ptr) (s : ThreadState) (k : Kernel) (q : ℕ → List Ptr) (c : Cores t i u j k q)
    (run : state_of k t ≡ ThreadState.running) (off : weight s ≡ 0) where
  some_t : t ≢ null
  some_t =
      let h = c.listed_here run in
      NotIn-In null t (q (pri_of k t)) ((c.levels.ready (pri_of k t) h.0).not_null) h.1

  differs : (x : Ptr) → Out k x → x ≢ t
  differs x o e = absurd (omega (arith, sym o ∙ ap (λ y. weight (state_of k y)) e ∙ ap weight run))

  pub AllOut-vacated : (ws : List Ptr) → AllOut k ws → AllOut (vacated t s k) ws
  AllOut-vacated [] a = tt
  AllOut-vacated (w ∷ ws) a = (
    ap weight (vacated-state_ne t i u j s k q c run off w (differs w a.0)) ∙ a.0,
    AllOut-vacated ws a.1,
  )

  vacated-next : (x : Ptr) → Out k x → next_of (vacated t s k) x ≡ next_of k x
  vacated-next x o =
      let h = c.listed_here run in
      let out =
        AllOut-NotIn k (pri_of k t) x (q (pri_of k t)) (c.levels.ready (pri_of k t) h.0) o in
      let e = dequeue-next_outside t k q x run h.0 h.1 c.levels out in ground arith

  NotIn-AllOut_self : (ws : List Ptr) → AllOut k ws → NotIn t ws
  NotIn-AllOut_self [] a = tt
  NotIn-AllOut_self (w ∷ ws) a = ((λ e. differs w a.0 (sym e)), NotIn-AllOut_self ws a.1)

  Line-vacated : (p : Ptr) (ws : List Ptr) → AllOut k ws → Line k p ws → Line (vacated t s k) p ws
  Line-vacated p [] a l = l
  Line-vacated p (w ∷ ws) a l =
      (l.0, rw (vacated-next w a.0) (Line-vacated (next_of k w) ws a.1 l.1))

  -- The thread may join the list.
  pub vacated-Waiting :
      (root : Ptr) (key : Ptr → ℕ) (ws : List Ptr)
      → WaitList k root key ws
      → Waiting (vacated t s k) t root ws
  vacated-Waiting root key ws w = record {
    some_thread = some_t;
    loose = let e = dequeue-next_self t k in ground arith;
    line = Line-vacated root ws w.out w.line;
    distinct = w.distinct;
    not_null = w.not_null;
    fresh = NotIn-AllOut_self ws w.out;
    few = rw (vacated-count t s k) w.few;
  }

-- What a call that parks its thread in a list leaves: the next thread is chosen, and the list has the
-- thread at its place.
pub record Parked (runs idles : ℕ → Ptr) (cpu : ℕ) (i u j : Ptr) (root : Kernel → Ptr)
    (key : Kernel → Ptr → ℕ) (out : List Ptr) (r : Option Kernel) : Type 0 where
  pub after : Kernel
  pub returned : r ≡ some after
  pub chosen : Chosen i u j after (after.next_run_pt cpu)
  pub line : Line after (root after) out
  pub sorted : Sorted (key after) out
  pub run_pts : after.run_pt ≡ runs
  pub idle_threads : after.idle_thread ≡ idles
