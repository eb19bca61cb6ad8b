-- ===== src/Sched/Rethread.antt =====
-- A change of the links of waiting threads: what stays the same.
use multicore_rtos.Base.{◌≡◌, refl, ◌≢◌, ◌∙◌, List, ◌∷◌, arith}
use multicore_rtos.Heap.{Ptr}
use multicore_rtos.Sched.{Kernel, set_next}
use multicore_rtos.Sched.Links.{NotIn}
use multicore_rtos.Sched.Ring.{next_of, prev_of}
use multicore_rtos.Sched.Ready.{state_of, pri_of}

-- Only the links of `t` and of the threads of the list may differ, and what is not the levels'.
pub record Rethreaded (t : Ptr) (ws : List Ptr) (k k' : Kernel) : Type 0 where
  pub next : (z : Ptr) → NotIn z ws → z ≢ t → next_of k' z ≡ next_of k z
  pub prev : (z : Ptr) → prev_of k' z ≡ prev_of k z
  pub pri : (z : Ptr) → pri_of k' z ≡ pri_of k z
  pub state : (z : Ptr) → state_of k' z ≡ state_of k z
  pub actives : k'.active_priority_count ≡ k.active_priority_count
  pub runnings : k'.running_priority_count ≡ k.running_priority_count
  pub roots : k'.thread_schedule ≡ k.thread_schedule
  pub run_pts : k'.run_pt ≡ k.run_pt
  pub idles : k'.idle_thread ≡ k.idle_thread

pub Rethreaded-trans :
    {t : Ptr} {ws : List Ptr} {k k' k'' : Kernel}
    → Rethreaded t ws k k'
    → Rethreaded t ws k' k''
    → Rethreaded t ws k k''
Rethreaded-trans a b = record {
  next = λ z n ne. b.next z n ne ∙ a.next z n ne;
  prev = λ z. b.prev z ∙ a.prev z;
  pri = λ z. b.pri z ∙ a.pri z;
  state = λ z. b.state z ∙ a.state z;
  actives = b.actives ∙ a.actives;
  runnings = b.runnings ∙ a.runnings;
  roots = b.roots ∙ a.roots;
  run_pts = b.run_pts ∙ a.run_pts;
  idles = b.idles ∙ a.idles;
}

-- A store to the link of `t`, or of a thread of the list.
pub Rethreaded-set_next :
    (t : Ptr) (ws : List Ptr) (n q : Ptr) (k : Kernel)
    → ((z : Ptr) → NotIn z ws → z ≢ t → z ≢ n)
    → Rethreaded t ws k (set_next n q k)
Rethreaded-set_next t ws n q k out = record {
  next = λ z o ne. let zn = out z o ne in ground arith;
  prev = λ z. ground arith;
  pri = λ z. ground arith;
  state = λ z. ground arith;
  actives = refl;
  runnings = refl;
  roots = refl;
  run_pts = refl;
  idles = refl;
}

pub Rethreaded-grow :
    {t : Ptr} {ws : List Ptr} (x : Ptr) {k k' : Kernel}
    → Rethreaded t ws k k'
    → Rethreaded t (x ∷ ws) k k'
Rethreaded-grow x a = record {
  next = λ z n ne. a.next z n.1 ne;
  prev = a.prev;
  pri = a.pri;
  state = a.state;
  actives = a.actives;
  runnings = a.runnings;
  roots = a.roots;
  run_pts = a.run_pts;
  idles = a.idles;
}
