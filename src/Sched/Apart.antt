-- ===== src/Sched/Apart.antt =====
-- A level when threads of another level change.
use multicore_rtos.Base.{ℕ, ◌≡◌, refl, ◌∙◌, sym, Bool, List, [], ◌∷◌, inl, inr}
use multicore_rtos.Heap.{Ptr}
use multicore_rtos.Sched.{Kernel, ThreadState, is_running, is_active}
use multicore_rtos.Sched.Links.{Chain, Cycle, last}
use multicore_rtos.Sched.Ring.{next_of, prev_of}
use multicore_rtos.Sched.Ready.{Ready, state_of, pri_of, tally, AllAt}
use multicore_rtos.Sched.Change.{In, SameCounts}
use multicore_rtos.Sched.Choice.{In-AllAt}

-- The links, the level and the state of a thread are the same.
pub record Untouched (k k' : Kernel) (x : Ptr) : Type 0 where
  pub next : next_of k' x ≡ next_of k x
  pub prev : prev_of k' x ≡ prev_of k x
  pub pri : pri_of k' x ≡ pri_of k x
  pub state : state_of k' x ≡ state_of k x

module _ (k k' : Kernel) where
  abbrev AllSame : List Ptr → Type 0
  AllSame xs = (x : Ptr) → In x xs → Untouched k k' x

  Chain-same :
      (a : Ptr) (xs : List Ptr) (z : Ptr)
      → Untouched k k' a
      → AllSame xs
      → Untouched k k' z
      → Chain (next_of k) (prev_of k) a xs z
      → Chain (next_of k') (prev_of k') a xs z
  Chain-same a [] z at all end c = (at.next ∙ c.0, end.prev ∙ c.1)
  Chain-same a (b ∷ xs) z at all end c =
      let here = all b (inl refl) in
      (at.next ∙ c.0, here.prev ∙ c.1, Chain-same b xs z here (λ x i. all x (inr i)) end c.2)

  Cycle-same :
      (xs : List Ptr)
      → AllSame xs
      → Cycle (next_of k) (prev_of k) xs
      → Cycle (next_of k') (prev_of k') xs
  Cycle-same [] all c = tt
  Cycle-same (x ∷ xs) all c =
      let here = all x (inl refl) in Chain-same x xs x here (λ y i. all y (inr i)) here c

  tally-same :
      (f : ThreadState → Bool) (xs : List Ptr)
      → AllSame xs
      → tally f (state_of k') xs ≡ tally f (state_of k) xs
  tally-same f [] all = refl
  tally-same f (x ∷ xs) all = rw ((all x (inl refl)).state, tally-same f xs (λ y i. all y (inr i)))

  AllAt-same : (p : ℕ) (xs : List Ptr) → AllSame xs → AllAt (pri_of k) p xs → AllAt (pri_of k') p xs
  AllAt-same p [] all at = tt
  AllAt-same p (x ∷ xs) all at =
      ((all x (inl refl)).pri ∙ at.0, AllAt-same p xs (λ y i. all y (inr i)) at.1)

  -- The threads of the list are untouched.
  pub Ready-Untouched :
      (p : ℕ) (xs : List Ptr)
      → ((x : Ptr) → In x xs → Untouched k k' x)
      → SameCounts p k k'
      → Ready k p xs
      → Ready k' p xs
  Ready-Untouched p xs all co r = record {
    cycle = Cycle-same xs all r.cycle;
    distinct = r.distinct;
    not_null = r.not_null;
    level = AllAt-same p xs all r.level;
    actives = co.active_same ∙ r.actives ∙ sym (tally-same is_active xs all);
    runnings = co.running_same ∙ r.runnings ∙ sym (tally-same is_running xs all);
    ready = rw (tally-same is_active xs all, tally-same is_running xs all) r.ready;
    small = r.small;
  }

  -- The threads of its priority are.
  pub Ready-apart :
      (p : ℕ)
      → ((x : Ptr) → pri_of k x ≡ p → Untouched k k' x)
      → (xs : List Ptr) → SameCounts p k k'
      → Ready k p xs
      → Ready k' p xs
  Ready-apart p same xs co r =
      Ready-Untouched p xs (λ x i. same x (In-AllAt (pri_of k) p x xs i r.level)) co r

-- The last thread of a level is of that level.
pub last-AllAt :
    (f : Ptr → ℕ) (p : ℕ) (a : Ptr) (xs : List Ptr) → AllAt f p (a ∷ xs) → f (last a xs) ≡ p
last-AllAt f p a [] all = all.0
last-AllAt f p a (b ∷ xs) all = last-AllAt f p b xs all.1
