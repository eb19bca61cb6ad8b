-- ===== src/Sched/Depart.antt =====
-- The two cores when a running thread leaves the schedule: what `sched_block`, `sleep` and `kill` do
-- before they call `schedule`.
use multicore_rtos.Base.{
  ℕ, ◌+◌, ◌≤◌, ◌<◌, ◌≡◌, refl, ◌≢◌, ◌∙◌, ap, sym, subst, List, [], ◌∷◌, inl, inr, arith, length,
}
use multicore_rtos.Heap.{Ptr}
use multicore_rtos.Sched.{Kernel, ThreadState, is_running, is_active}
use multicore_rtos.Sched.Links.{NotIn}
use multicore_rtos.Sched.Ready.{Ready, state_of, pri_of, tally}
use multicore_rtos.Sched.Change.{In, SameCounts, Rooted-same, weight}
use multicore_rtos.Sched.Pick.{tally-le}
use multicore_rtos.Sched.PutBack.{Levels}
use multicore_rtos.Sched.Consistent.{Cores}
use multicore_rtos.Sched.Apart.{Untouched, Ready-Untouched}
use multicore_rtos.Sched.Rethread.{Rethreaded}

-- Threads that are in no level: neither ACTIVE nor RUNNING.
abbrev pub Out : Kernel → Ptr → Type 0
Out k x = weight (state_of k x) ≡ 0

abbrev pub AllOut : Kernel → List Ptr → Type 0
AllOut k [] = Unit
AllOut k (x ∷ xs) = Out k x × AllOut k xs

-- A thread of a list of which all are ready is ready.
member-weight :
    (st : Ptr → ThreadState) (x : Ptr) (xs : List Ptr)
    → tally is_active st xs + tally is_running st xs ≡ length xs
    → In x xs
    → weight (st x) ≢ 0
member-weight st x [] e i = absurd i
member-weight st x (y ∷ ys) e (inl q) = rw q (omega (arith, e, tally-le st ys))
member-weight st x (y ∷ ys) e (inr i) =
    member-weight st x ys (omega (arith, e, tally-le st ys, weight-le (st y))) i
  where
    weight-le : (s : ThreadState) → weight s ≤ 1
    weight-le ThreadState.running = omega arith
    weight-le s = omega arith

pub listed-NotOut :
    {k : Kernel} {p : ℕ} (x : Ptr) (xs : List Ptr)
    → Ready k p xs
    → In x xs
    → weight (state_of k x) ≢ 0
listed-NotOut {k} x xs r i = member-weight (state_of k) x xs r.ready i

pub NotIn-AllOut :
    (k : Kernel) (x : Ptr) (ws : List Ptr) → weight (state_of k x) ≢ 0 → AllOut k ws → NotIn x ws
NotIn-AllOut k x [] ne all = tt
NotIn-AllOut k x (w ∷ ws) ne all =
    ((λ e. ne (ap (λ y. weight (state_of k y)) e ∙ all.0)), NotIn-AllOut k x ws ne all.1)

pub AllOut-NotIn :
    (k : Kernel) (p : ℕ) (x : Ptr) (xs : List Ptr) → Ready k p xs → Out k x → NotIn x xs
AllOut-NotIn k p x xs r o = go xs (λ y i. listed-NotOut y xs r i)
  where
    go : (ys : List Ptr) → ((y : Ptr) → In y ys → weight (state_of k y) ≢ 0) → NotIn x ys
    go [] h = tt
    go (y ∷ ys) h = (
      (λ e. h y (inl refl) (ap (λ z. weight (state_of k z)) (sym e) ∙ o)),
      go ys (λ z i. h z (inr i)),
    )

-- A change of links of threads that are in no level.
module _ {s : Ptr} {ws : List Ptr} {k k' : Kernel} (re : Rethreaded s ws k k') (some_out : Out k s)
    (all_out : AllOut k ws) where
  Levels-Rethreaded : {q : ℕ → List Ptr} → Levels k q → Levels k' q
  Levels-Rethreaded {q} l = record {
    ready =
        λ p lt. Ready-Untouched k k' p (q p) (λ x i. untouched p lt x i) (counts p) (l.ready p lt);
    rooted = λ p lt. Rooted-same k k' p (q p) (ap (λ f. f p) re.roots) (l.rooted p lt);
    idle_level = rw re.actives l.idle_level;
  }
    where
      counts : (p : ℕ) → SameCounts p k k'
      counts p = record {
        active_same = ap (λ f. f p) re.actives;
        running_same = ap (λ f. f p) re.runnings;
      }

      untouched : (p : ℕ) → p < 5 → (x : Ptr) → In x (q p) → Untouched k k' x
      untouched p lt x i =
          let busy = listed-NotOut x (q p) (l.ready p lt) i in
          record {
            next =
                re.next x (NotIn-AllOut k x ws busy all_out)
                  (λ e. busy (ap (λ y. weight (state_of k y)) e ∙ some_out));
            prev = re.prev x;
            pri = re.pri x;
            state = re.state x;
          }

  pub Cores-Rethreaded : {t i u j : Ptr} {q : ℕ → List Ptr} → Cores t i u j k q → Cores t i u j k' q
  Cores-Rethreaded {t} {i} {u} {j} {q} c = record {
    levels = Levels-Rethreaded c.levels;
    listed_here = λ r. listed t (c.listed_here (sym (re.state t) ∙ r));
    listed_there = λ r. listed u (c.listed_there (sym (re.state u) ∙ r));
    on_cores = λ x r. c.on_cores x (sym (re.state x) ∙ r);
    idle_here = re.state i ∙ c.idle_here;
    idle_there = re.state j ∙ c.idle_there;
    busy_here = λ a. c.busy_here (sym (re.state t) ∙ a);
    busy_there = λ a. c.busy_there (sym (re.state u) ∙ a);
    apart = λ r. c.apart (sym (re.state t) ∙ r);
  }
    where
      listed :
          (x : Ptr)
          → (pri_of k x < 5) × In x (q (pri_of k x))
          → (pri_of k' x < 5) × In x (q (pri_of k' x))
      listed x h = subst (λ p. (p < 5) × In x (q p)) (sym (re.pri x)) h
