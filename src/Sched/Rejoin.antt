-- ===== src/Sched/Rejoin.antt =====
-- The two cores when `enqueue_thread` of os/schedule.c brings a thread back into its level.
use multicore_rtos.Base.{
  ℕ, suc, ◌^◌, ◌<◌, ◌≡◌, ◌≢◌, ◌∙◌, ap, sym, subst, List, [], ◌∷◌, arith, inr, length, update_self,
  update_ne,
}
use native.Mathlib.Decide.{ℕ_discrete}
use multicore_rtos.Heap.{Ptr, null}
use multicore_rtos.Sched.{Kernel, ThreadState, enqueue_thread, link_front, link_alone}
use multicore_rtos.Sched.Links.{NotIn}
use multicore_rtos.Sched.Ring.{next_of}
use multicore_rtos.Sched.Ready.{state_of, pri_of}
use multicore_rtos.Sched.Change.{In, weight}
use multicore_rtos.Sched.Consistent.{Cores}
use multicore_rtos.Sched.Enqueue.{enqueue-state_ne, enqueue-pri}
use multicore_rtos.Sched.Depart.{Out, AllOut, AllOut-NotIn}
use multicore_rtos.Sched.Line.{Line}
use multicore_rtos.Sched.Join.{joined, enqueue_thread-Levels, enqueue-links_outside}

pub enqueue-state : (t : Ptr) (k : Kernel) → state_of (enqueue_thread t k) t ≡ ThreadState.active
unfolding enqueue_thread link_front link_alone
enqueue-state t k = ground arith

pub enqueue-run_pt : (t : Ptr) (k : Kernel) → (enqueue_thread t k).run_pt ≡ k.run_pt
unfolding enqueue_thread link_front link_alone
enqueue-run_pt t k = ground arith

pub enqueue-sema : (t : Ptr) (k : Kernel) → (enqueue_thread t k).sema ≡ k.sema
unfolding enqueue_thread link_front link_alone
enqueue-sema t k = ground arith

pub enqueue-sleepers :
    (t : Ptr) (k : Kernel) → (enqueue_thread t k).sleep_schedule_root ≡ k.sleep_schedule_root
unfolding enqueue_thread link_front link_alone
enqueue-sleepers t k = ground arith

In-joined :
    (k : Kernel) (w : Ptr) (q : ℕ → List Ptr) (p : ℕ) (x : Ptr) → In x (q p) → In x (joined k w q p)
In-joined k w q p x i = elim (ℕ_discrete p (pri_of k w)) [
  | yes e ↦
      rw (e, update_self q (pri_of k w) (w ∷ q (pri_of k w))) (inr (subst (λ r. In x (q r)) e i))
  | no ne ↦ rw (update_ne q (pri_of k w) (w ∷ q (pri_of k w)) ne) i
]

-- A thread that waits, of one of the five levels, and that no core runs.
pub record Dormant (w t u : Ptr) (k : Kernel) : Type 0 where
  pub some_thread : w ≢ null
  pub in_range : pri_of k w < 5
  pub out : Out k w
  pub not_idle : state_of k w ≢ ThreadState.idle
  pub not_here : t ≢ w
  pub not_there : u ≢ w

module _ (w t i u j : Ptr) (k : Kernel) (q : ℕ → List Ptr) (c : Cores t i u j k q)
    (p : Dormant w t u k) (room : suc (length (q (pri_of k w))) < 2 ^ 16) where
  abbrev k' : Kernel
  k' = enqueue_thread w k

  outside : (x : Ptr) → Out k x → NotIn x (q (pri_of k w))
  outside x o =
      AllOut-NotIn k (pri_of k w) x (q (pri_of k w)) (c.levels.ready (pri_of k w) p.in_range) o

  same_state : (x : Ptr) → x ≢ w → state_of k' x ≡ state_of k x
  same_state x ne = enqueue-state_ne w k x ne

  not_w : (x : Ptr) → state_of k' x ≡ ThreadState.running → x ≢ w
  not_w x r e =
      let a : state_of k' x ≡ ThreadState.active = ap (state_of k') e ∙ enqueue-state w k in cc

  listed :
      (x : Ptr)
      → (pri_of k x < 5) × In x (q (pri_of k x))
      → (pri_of k' x < 5) × In x (joined k w q (pri_of k' x))
  listed x h =
      subst (λ n. (n < 5) × In x (joined k w q n)) (sym (enqueue-pri w k x))
        (h.0, In-joined k w q (pri_of k x) x h.1)

  idle_ne : (x : Ptr) → state_of k x ≡ ThreadState.idle → x ≢ w
  idle_ne x e f = p.not_idle (ap (state_of k) (sym f) ∙ e)

  pub enqueue_thread-Cores : Cores t i u j k' (joined k w q)
  enqueue_thread-Cores = record {
    levels = enqueue_thread-Levels w k q p.some_thread p.in_range (outside w p.out) room c.levels;
    listed_here = λ r. listed t (c.listed_here (sym (same_state t p.not_here) ∙ r));
    listed_there = λ r. listed u (c.listed_there (sym (same_state u p.not_there) ∙ r));
    on_cores = λ x r. c.on_cores x (sym (same_state x (not_w x r)) ∙ r);
    idle_here = same_state i (idle_ne i c.idle_here) ∙ c.idle_here;
    idle_there = same_state j (idle_ne j c.idle_there) ∙ c.idle_there;
    busy_here = λ a. c.busy_here (sym (same_state t p.not_here) ∙ a);
    busy_there = λ a. c.busy_there (sym (same_state u p.not_there) ∙ a);
    apart = λ r. c.apart (sym (same_state t p.not_here) ∙ r);
  }

  -- The list of those that go on waiting.
  pub enqueue_thread-Line :
      (r : Ptr) (ws : List Ptr) → AllOut k ws → NotIn w ws → Line k r ws → Line k' r ws
  enqueue_thread-Line r [] a out l = l
  enqueue_thread-Line r (x ∷ ws) a out l =
      let e =
        (enqueue-links_outside w k (q (pri_of k w)) x (c.levels.ready (pri_of k w) p.in_range)
          (c.levels.rooted (pri_of k w) p.in_range) (outside w p.out) (outside x a.0)
          (λ f. out.0 (sym f))).0 in
      (l.0, rw e (enqueue_thread-Line (next_of k x) ws a.1 out.1 l.1))

  pub enqueue_thread-AllOut : (ws : List Ptr) → AllOut k ws → NotIn w ws → AllOut k' ws
  enqueue_thread-AllOut [] a out = tt
  enqueue_thread-AllOut (x ∷ ws) a out = (
    subst (λ s. weight s ≡ 0) (sym (same_state x (λ f. out.0 (sym f)))) a.0,
    enqueue_thread-AllOut ws a.1 out.1,
  )
