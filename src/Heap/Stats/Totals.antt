-- ===== src/Heap/Stats/Totals.antt =====
-- Runs of the loop in `heap_stats` of os/heap.c that end with a total.
use multicore_rtos.Base.{
  ℕ, suc, ◌+◌, ◌*◌, ◌/◌, ◌%◌, ◌^◌, ◌≤◌, ◌≡◌, refl, ◌≢◌, true, false, ◌||◌, arith, ◌==◌, ==_of_ne,
  if◌then◌else◌,
}
use multicore_rtos.Heap.{Tree, null, branch_node, heap_size, is_leaf, left, right, parent}
use multicore_rtos.Heap.Stats.{
  Tally, TallyRound, again, total, tally_up, tally_children, tally_round, tally_loop,
}
use multicore_rtos.Heap.Descend.{blk}

-- within `suc k` rounds the loop ends with `n`
pub record Totals (t : Tree) (k : ℕ) (s : Tally) (n : ℕ) : Type 0 where
  pub rounds : ℕ
  pub within : rounds ≤ k
  pub ends : (m : ℕ) → tally_loop (suc (rounds + m)) t s ≡ total n

abbrev pub tally : ℕ → ℕ → ℕ → ℕ → Tally
tally used i block skip = record { used = used; i = i; block_size = block; skip = skip }

-- the way up of a round, or its end at the root
abbrev pub leave : Tally → TallyRound
leave s = if s.i == 0 then total s.used else again (tally_up s)

module _ (t : Tree) where
  pub Totals-end : {s : Tally} {n : ℕ} → tally_round t s ≡ total n → Totals t 0 s n
  unfolding tally_loop
  Totals-end e = record { rounds = 0; within = omega arith; ends = λ m. rw (tally_loop, e) refl }

  pub Totals-round :
      {s s' : Tally} {n k : ℕ} → tally_round t s ≡ again s' → Totals t k s' n → Totals t (suc k) s n
  unfolding tally_loop
  Totals-round e f = record {
    rounds = suc f.rounds;
    within = omega (arith, f.within);
    ends = λ m.
        let q : suc f.rounds + m ≡ suc (f.rounds + m) = omega arith in
        rw (tally_loop, e) (rw q (f.ends m));
  }

  -- what follows depends on the outcome of the first round only
  pub Totals-same :
      {s s' : Tally} {n k : ℕ}
      → tally_round t s ≡ tally_round t s'
      → Totals t k s' n
      → Totals t k s n
  unfolding tally_loop
  Totals-same e f = record {
    rounds = f.rounds;
    within = f.within;
    ends = λ m. rw (tally_loop, e) (f.ends m);
  }

  pub Totals-weaken : {s : Tally} {n k l : ℕ} → Totals t k s n → k ≤ l → Totals t l s n
  Totals-weaken f le = record { rounds = f.rounds; within = omega (arith, f.within); ends = f.ends }

  module _ (h i used : ℕ) (room : i + 2 ≤ 2 ^ 10) (branch : t i ≡ branch_node) where
    -- A round at an inner node whose left child is no way down.
    pub right_round :
        (skip : ℕ)
        → skip ≢ 2 * i + 2
        → ((t (2 * i + 1) == null) || ((2 * i + 1) == skip)) ≡ true
        → tally_round t (tally used i (blk 128 (suc h)) skip) ≡ (
            if t (2 * i + 2) == null
            then leave (tally used i (blk 128 (suc h)) skip)
            else again (tally used (2 * i + 2) (blk 128 h) skip))
    unfolding tally_round tally_children
    right_round skip other stop =
        let l : left i ≡ 2 * i + 1 = omega arith in
        let r : right i ≡ 2 * i + 2 = omega arith in
        let b : blk 128 (suc h) / 2 ≡ blk 128 h = omega arith in rw (branch, l, r, b) (ground arith)

    pub left_round :
        (skip : ℕ)
        → skip ≤ i
        → (t (2 * i + 1) == null) ≡ false
        → tally_round t (tally used i (blk 128 (suc h)) skip)
          ≡ again (tally used (2 * i + 1) (blk 128 h) skip)
    unfolding tally_round tally_children
    left_round skip le down =
        let l : left i ≡ 2 * i + 1 = omega arith in
        let r : right i ≡ 2 * i + 2 = omega arith in
        let b : blk 128 (suc h) / 2 ≡ blk 128 h = omega arith in rw (branch, l, r, b) (ground arith)

    pub last_round :
        tally_round t (tally used i (blk 128 (suc h)) (2 * i + 2))
        ≡ leave (tally used i (blk 128 (suc h)) (2 * i + 2))
    unfolding tally_round tally_children
    last_round = let r : right i ≡ 2 * i + 2 = omega arith in rw (branch, r) (ground arith)

  -- a round at an allocated block below the root, which is also one at its parent
  pub leaf_round :
      (h used c i skip : ℕ)
      → c ≢ 0
      → parent c ≡ i
      → t i ≡ branch_node
      → is_leaf (t c) ≡ true
      → used + blk 128 h ≤ heap_size
      → tally_round t (tally used c (blk 128 h) skip)
        ≡ tally_round t (tally (used + blk 128 h) i (blk 128 (suc h)) c)
  unfolding tally_round
  leaf_round h used c i skip ne up branch leaf le =
      let sum : (used + blk 128 h) % 2 ^ 32 ≡ used + blk 128 h = omega arith in
      let double : blk 128 h * 2 % 2 ^ 32 ≡ blk 128 (suc h) = omega arith in
      rw (branch, leaf, sum, double, up, ==_of_ne c 0 ne) refl
