-- ===== src/Sched/Choice.antt =====
-- What `schedule` chooses: an active thread of the first level that has one, or the idle thread.
use multicore_rtos.Base.{
  ==_of_ne, update_self, update_ne, ℕ, ◌≤◌, ◌<◌, ◌≡◌, refl, ◌≢◌, ◌∙◌, ap, sym, ◌⊎◌, inl, inr, List,
  [], ◌∷◌, arith, update,
}
use native.Mathlib.Decide.{ℕ_discrete}
use multicore_rtos.Heap.{Ptr, null}
use multicore_rtos.Sched.{
  Kernel, ThreadState, is_running, pick_next, take_thread, enter_idle, find_level,
}
use multicore_rtos.Sched.Ready.{AllAt, state_of, pri_of, tally}
use multicore_rtos.Sched.Change.{In, Ready-elsewhere, Ready-same, Rooted-same}
use multicore_rtos.Sched.Level.{FirstLevel, find_level-FirstLevel}
use multicore_rtos.Sched.Take.{Taken, take_thread-Taken}
use multicore_rtos.Sched.Pick.{take-Changed, take-counts_ne, take-root_ne}
use multicore_rtos.Sched.PutBack.{Levels}

-- No level has an active thread in `k`, and the core runs its idle thread next in `k'`.
pub record IdleChosen (cpu : ℕ) (q : ℕ → List Ptr) (k k' : Kernel) : Type 0 where
  pub none_active : (p : ℕ) → p < 5 → k.active_priority_count p ≡ 0
  pub chosen : k'.next_run_pt cpu ≡ k.idle_thread cpu
  pub states : (t : Ptr) → state_of k' t ≡ state_of k t
  pub levels : Levels k' q

-- `level` is the first with an active thread in `k`; one of its active threads runs next in `k'`.
pub record ThreadChosen (cpu : ℕ) (q : ℕ → List Ptr) (k k' : Kernel) : Type 0 where
  pub level : ℕ
  pub in_range : level < 5
  pub above : (p : ℕ) → p < level → k.active_priority_count p ≡ 0
  pub thread : Ptr
  pub chosen : k'.next_run_pt cpu ≡ thread
  pub member : In thread (q level)
  pub was_active : state_of k thread ≡ ThreadState.active
  pub runs : state_of k' thread ≡ ThreadState.running
  pub others : (t : Ptr) → t ≢ thread → state_of k' t ≡ state_of k t
  pub queues : ℕ → List Ptr
  pub kept : (p : ℕ) (t : Ptr) → In t (q p) → In t (queues p)
  pub levels : Levels k' queues

-- The two kernels have the same threads, counters and roots.
pub record SameThreads (k k' : Kernel) : Type 0 where
  pub tcbs : (p : Ptr) → k'.tcb p ≡ k.tcb p
  pub actives : k'.active_priority_count ≡ k.active_priority_count
  pub runnings : k'.running_priority_count ≡ k.running_priority_count
  pub roots : k'.thread_schedule ≡ k.thread_schedule

pub Levels-same : {k k' : Kernel} {q : ℕ → List Ptr} → SameThreads k k' → Levels k q → Levels k' q
Levels-same {k} {k'} {q} s l = record {
  ready = λ p lt.
      Ready-same {t = null} (q p)
        (record {
          next_same = λ x. ap (λ t. t.next_tcb) (s.tcbs x);
          prev_same = λ x. ap (λ t. t.prev_tcb) (s.tcbs x);
          pri_same = λ x. ap (λ t. t.priority) (s.tcbs x);
          state_same = λ x ne. ap (λ t. t.state) (s.tcbs x);
        })
        (λ x. ap (λ t. t.state) (s.tcbs x))
        (record { active_same = ap (λ f. f p) s.actives; running_same = ap (λ f. f p) s.runnings })
        (l.ready p lt);
  rooted = λ p lt. Rooted-same k k' p (q p) (ap (λ f. f p) s.roots) (l.rooted p lt);
  idle_level = rw s.actives l.idle_level;
}

pub In-AllAt : (f : Ptr → ℕ) (n : ℕ) (t : Ptr) (xs : List Ptr) → In t xs → AllAt f n xs → f t ≡ n
In-AllAt f n t [] i a = absurd i
In-AllAt f n t (x ∷ xs) (inl e) a = ap f e ∙ a.0
In-AllAt f n t (x ∷ xs) (inr i) a = In-AllAt f n t xs i a.1

pick-idle :
    (cpu now : ℕ) (k : Kernel)
    → find_level 6 0 k.active_priority_count ≡ 5
    → SameThreads k (pick_next cpu now k)
      × ((pick_next cpu now k).next_run_pt cpu ≡ k.idle_thread cpu)
unfolding pick_next enter_idle
pick-idle cpu now k e = (
  record {
    tcbs = λ p. ground arith;
    actives = ground arith;
    runnings = ground arith;
    roots = ground arith;
  },
  ground arith,
)

pub pick-take :
    (cpu now : ℕ) (k : Kernel)
    → find_level 6 0 k.active_priority_count ≢ 5
    → pick_next cpu now k ≡ take_thread cpu (find_level 6 0 k.active_priority_count) k
unfolding pick_next
pick-take cpu now k ne = rw (==_of_ne _ 5 ne) refl

-- The level that `find_level` gives has an active thread; the others stay as they are.
unfoldable pub take-ThreadChosen :
    (cpu pri : ℕ) (k : Kernel) (q : ℕ → List Ptr)
    → Levels k q
    → pri < 5
    → FirstLevel k.active_priority_count 0 pri
    → Taken cpu pri k (q pri)
    → ThreadChosen cpu q k (take_thread cpu pri k)
take-ThreadChosen cpu pri k q l lt first t = record {
  level = pri;
  in_range = lt;
  above = λ p b. first.below p (omega arith) b;
  thread = t.thread;
  chosen = t.chosen;
  member = t.member;
  was_active = t.was_active;
  runs = t.runs;
  others = t.others;
  queues = update q pri t.queue;
  kept = λ p x i. elim (ℕ_discrete p pri) [
    | yes e ↦ rw (e, update_self q pri t.queue) (t.kept x (rw e at i))
    | no ne ↦ rw (update_ne q pri t.queue ne) i
  ];
  levels = record {
    ready = λ p b. elim (ℕ_discrete p pri) [
      | yes e ↦ rw (e, update_self q pri t.queue) t.ready
      | no ne ↦ rw (update_ne q pri t.queue ne) (
          Ready-elsewhere (q p) (take-Changed cpu pri t.thread k t.chosen)
            (take-counts_ne cpu pri p k ne)
            (λ e.
              ne (sym e ∙ In-AllAt (pri_of k) pri t.thread (q pri) t.member (l.ready pri lt).level))
            (l.ready p b))
    ];
    rooted = λ p b. elim (ℕ_discrete p pri) [
      | yes e ↦ rw (e, update_self q pri t.queue) t.rooted
      | no ne ↦ rw (update_ne q pri t.queue ne) (
          Rooted-same k (take_thread cpu pri k) p (q p) (take-root_ne cpu pri p k ne)
            (l.rooted p b))
    ];
    idle_level = rw ((take-counts_ne cpu pri 5 k (omega (arith, lt))).active_same) l.idle_level;
  };
}

-- From an invariant kernel in which each level has at most one running thread.
pub pick_next-choice :
    (cpu now : ℕ) (k : Kernel) (q : ℕ → List Ptr)
    → Levels k q
    → ((p : ℕ) → p < 5 → tally is_running (state_of k) (q p) ≤ 1)
    → IdleChosen cpu q k (pick_next cpu now k) ⊎ ThreadChosen cpu q k (pick_next cpu now k)
pick_next-choice cpu now k q l one =
    let (first, le) =
      find_level-FirstLevel 6 0 5 k.active_priority_count l.idle_level (omega arith) in
    elim (ℕ_discrete (find_level 6 0 k.active_priority_count) 5) [
      | yes e ↦
          let (same, chosen) = pick-idle cpu now k e in
          inl (record {
            none_active = λ p b. first.below p (omega arith) (omega (arith, e, b));
            chosen = chosen;
            states = λ t. ap (λ x. x.state) (same.tcbs t);
            levels = Levels-same same l;
          })
      | no ne ↦
          let lt : find_level 6 0 k.active_priority_count < 5 = omega (arith, le, ne) in
          inr (
            rw (pick-take cpu now k ne) (
              take-ThreadChosen cpu _ k q l lt first (
                take_thread-Taken cpu _ k (q _) (l.ready _ lt) (l.rooted _ lt) first.nonzero
                  (one _ lt))))
    ]
