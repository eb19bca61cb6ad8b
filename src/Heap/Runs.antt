-- ===== src/Heap/Runs.antt =====
-- Runs of the loop in `malloc`: a bounded number of rounds from one state to an outcome.
use multicore_rtos.Base.{ℕ, suc, ◌+◌, ◌≤◌, ◌≡◌, ◌∙◌, arith}
use multicore_rtos.Heap.{Walk, Round, again, allocate, exhausted, malloc_round, malloc_loop}

-- what `m` more rounds make of an outcome
unfoldable pub resume : ℕ → ℕ → Round → Round
resume m size (again s) = malloc_loop m size s
resume m size (allocate i b t) = allocate i b t
resume m size (exhausted t) = exhausted t

-- within `k` rounds the loop takes `w` to the outcome `r`
pub record Runs (size k : ℕ) (w : Walk) (r : Round) : Type 0 where
  pub rounds : ℕ
  pub within : rounds ≤ k
  pub runs : (m : ℕ) → malloc_loop (rounds + m) size w ≡ resume m size r

malloc_loop-suc :
    (m size : ℕ) (w : Walk) → malloc_loop (suc m) size w ≡ resume m size (malloc_round size w)
unfolding malloc_loop resume
malloc_loop-suc m size w = ground arith

module _ {size : ℕ} {w : Walk} where
  pub Runs-round : {r : Round} → malloc_round size w ≡ r → Runs size 1 w r
  Runs-round {r} e = record {
    rounds = 1;
    within = omega arith;
    runs = λ m. let s : 1 + m ≡ suc m = omega arith in rw s (malloc_loop-suc m size w ∙ rw e);
  }

  pub Runs-bind :
      {w' : Walk} {r : Round} {k l : ℕ}
      → Runs size k w (again w')
      → Runs size l w' r
      → Runs size (k + l) w r
  unfolding resume
  Runs-bind f g = record {
    rounds = f.rounds + g.rounds;
    within = omega arith;
    runs = λ m.
        let s : f.rounds + g.rounds + m ≡ f.rounds + (g.rounds + m) = omega arith in
        rw s (f.runs (g.rounds + m) ∙ g.runs m);
  }

  pub Runs-weaken : {r : Round} {k l : ℕ} → Runs size k w r → k ≤ l → Runs size l w r
  Runs-weaken f le = record { rounds = f.rounds; within = omega arith; runs = f.runs }
