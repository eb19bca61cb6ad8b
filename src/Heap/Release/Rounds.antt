-- ===== src/Heap/Release/Rounds.antt =====
-- The rounds of the loop in `find_ptr` of os/heap.c, and runs of several of them.
use multicore_rtos.Base.{
  ℕ, suc, ◌+◌, ◌*◌, ◌^◌, ◌≤◌, ◌≡◌, ◌∙◌, ◌≢◌, true, false, arith, ◌==◌, ◌||◌, if◌then◌else◌,
}
use multicore_rtos.Heap.{Ptr, Tree, null, left, right}
use multicore_rtos.Heap.Release.{Visit, FindRound, again, index, visit_up, find_round, find_loop}

-- what `m` more rounds make of an outcome
unfoldable pub go_on : ℕ → Tree → Ptr → FindRound → FindRound
go_on m t ptr (again s) = find_loop m t ptr s
go_on m t ptr (index i) = index i

-- within `k` rounds the loop takes `s` to the outcome `r`
pub record Finds (t : Tree) (ptr : Ptr) (k : ℕ) (s : Visit) (r : FindRound) : Type 0 where
  pub rounds : ℕ
  pub within : rounds ≤ k
  pub finds : (m : ℕ) → find_loop (rounds + m) t ptr s ≡ go_on m t ptr r

abbrev pub visit : ℕ → ℕ → Visit
visit i skip = record { i = i; skip = skip }

module _ (t : Tree) (ptr : Ptr) where
  find_loop-suc :
      (m : ℕ) (s : Visit) → find_loop (suc m) t ptr s ≡ go_on m t ptr (find_round t ptr s)
  unfolding find_loop go_on
  find_loop-suc m s = ground arith

  pub Finds-round : {s : Visit} {r : FindRound} → find_round t ptr s ≡ r → Finds t ptr 1 s r
  Finds-round {s} {r} e = record {
    rounds = 1;
    within = omega arith;
    finds = λ m. let q : 1 + m ≡ suc m = omega arith in rw q (find_loop-suc m s ∙ rw e);
  }

  pub Finds-bind :
      {s s' : Visit} {r : FindRound} {k l : ℕ}
      → Finds t ptr k s (again s')
      → Finds t ptr l s' r
      → Finds t ptr (k + l) s r
  unfolding go_on
  Finds-bind f g = record {
    rounds = f.rounds + g.rounds;
    within = omega arith;
    finds = λ m.
        let q : f.rounds + g.rounds + m ≡ f.rounds + (g.rounds + m) = omega arith in
        rw q (f.finds (g.rounds + m) ∙ g.finds m);
  }

  pub Finds-weaken :
      {s : Visit} {r : FindRound} {k l : ℕ} → Finds t ptr k s r → k ≤ l → Finds t ptr l s r
  Finds-weaken f le = record { rounds = f.rounds; within = omega arith; finds = f.finds }

  pub bottom_round :
      (i skip : ℕ)
      → i + 2 ≤ 2 ^ 11
      → 2 ^ 10 ≤ i + 1
      → t i ≢ ptr
      → find_round t ptr (visit i skip) ≡ visit_up (visit i skip)
  unfolding find_round
  bottom_round i skip room low ne = ground arith

  module _ (i skip : ℕ) (room : i + 2 ≤ 2 ^ 10) (ne : t i ≢ ptr) where
    -- A round at an inner node whose left child is no way down.
    pub right_round :
        skip ≢ 2 * i + 2
        → ((t (2 * i + 1) == null) || ((2 * i + 1) == skip)) ≡ true
        → find_round t ptr (visit i skip) ≡ (
            if t (2 * i + 2) == null
            then visit_up (visit i skip)
            else again (visit (2 * i + 2) skip))
    unfolding find_round
    right_round other stop =
        let l : left i ≡ 2 * i + 1 = omega arith in
        let r : right i ≡ 2 * i + 2 = omega arith in rw (l, r) (ground arith)

    pub left_round :
        skip ≤ i
        → (t (2 * i + 1) == null) ≡ false
        → find_round t ptr (visit i skip) ≡ again (visit (2 * i + 1) skip)
    unfolding find_round
    left_round le down =
        let l : left i ≡ 2 * i + 1 = omega arith in
        let r : right i ≡ 2 * i + 2 = omega arith in rw (l, r) (ground arith)

    pub last_round : skip ≡ 2 * i + 2 → find_round t ptr (visit i skip) ≡ visit_up (visit i skip)
    unfolding find_round
    last_round e = let r : right i ≡ 2 * i + 2 = omega arith in rw r (ground arith)

  pub hit_round : (i skip : ℕ) → t i ≡ ptr → find_round t ptr (visit i skip) ≡ index i
  unfolding find_round
  hit_round i skip e = ground arith
