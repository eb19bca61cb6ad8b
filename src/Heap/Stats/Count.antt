-- ===== src/Heap/Stats/Count.antt =====
-- The loop of `heap_stats` in os/heap.c below a node of the abstract heap.
use multicore_rtos.Base.{
  ℕ, zero, suc, ◌+◌, ◌*◌, ◌%◌, ◌^◌, ◌≤◌, ◌≡◌, refl, ◌∙◌, ◌≢◌, inl, inr, true, false, ◌||◌, arith,
  ◌==◌, Bool-cases, ==_of_ne, if◌then◌else◌,
}
use multicore_rtos.Heap.{Ptr, Tree, null, branch_node, heap_size, parent}
use multicore_rtos.Heap.Stats.{Tally, again, tally_round}
use multicore_rtos.Heap.Descend.{blk, cost, pow2, suc_room}
use multicore_rtos.Heap.Buddy.{
  Buddy, free, used, split, is_free, IsBase, Rep, root_null, is_leaf-is_used,
}
use multicore_rtos.Heap.Stats.Totals.{
  Totals, tally, leave, Totals-round, Totals-same, Totals-weaken, right_round, left_round,
  last_round, leaf_round,
}
use multicore_rtos.Heap.Stats.Bytes.{allocated, allocated-free, allocated-le}

module _ (base : Ptr) (ok : IsBase base) (t : Tree) (n : ℕ) where
  -- a round that goes up from `i`, with `u` bytes counted, ends with `n` within `k` more rounds
  abbrev pub Rises : ℕ → ℕ → ℕ → ℕ → Type 0
  Rises h i u k =
      (s : Tally) (skip : ℕ) → tally_round t s ≡ leave (tally u i (blk 128 h) skip) → Totals t k s n

  -- the parent of `c` goes on from the count `u`
  abbrev pub Back : ℕ → ℕ → ℕ → ℕ → ℕ → Type 0
  Back h i c u k = Totals t k (tally u i (blk 128 (suc h)) c) n

  module _ (h i : ℕ) (l r : Buddy) (room : i + 2 ≤ 2 ^ 10)
      (rep : Rep base (split l r) (suc h) i t) where
    -- The rest of a round at `i`, once the left child is counted.
    right_part :
        (u skip k : ℕ)
        → skip ≢ 2 * i + 2
        → ((t (2 * i + 1) == null) || ((2 * i + 1) == skip)) ≡ true
        → Rises (suc h) i (u + allocated h r) k
        → (is_free r ≡ false
            → Back h i (2 * i + 2) (u + allocated h r) k
            → Totals t (cost h + k) (tally u (2 * i + 2) (blk 128 h) skip) n)
        → Totals t (cost h + k + 1) (tally u i (blk 128 (suc h)) skip) n
    right_part u skip k other stop up below = elim (Bool-cases (is_free r)) [
      | inl none_there ↦
          let same : u + allocated h r ≡ u = rw (allocated-free r h none_there) (omega arith) in
          Totals-weaken t (rw same at up _ skip (round ∙ rw (null_right, none_there) refl))
            (omega arith)
      | inr down ↦
          Totals-weaken t
            (Totals-round t (round ∙ rw (null_right, down) refl)
              (below down (up _ (2 * i + 2) (last_round t h i (u + allocated h r) room rep.0))))
            (omega arith)
    ]
      where
        null_right : (t (2 * i + 2) == null) ≡ is_free r
        null_right = root_null base r h (2 * i + 2) t ok rep.2

        round : tally_round t (tally u i (blk 128 (suc h)) skip) ≡ (
            if t (2 * i + 2) == null
            then leave (tally u i (blk 128 (suc h)) skip)
            else again (tally u (2 * i + 2) (blk 128 h) skip))
        round = right_round t h i u room rep.0 skip other stop

    -- both parts of the count below `i`
    pub split_part :
        (u skip k : ℕ)
        → skip ≤ i
        → Rises (suc h) i (u + allocated h l + allocated h r) k
        → (is_free l ≡ false
            → Back h i (2 * i + 1) (u + allocated h l) (cost h + k + 1)
            → Totals t (cost h + (cost h + k + 1)) (tally u (2 * i + 1) (blk 128 h) skip) n)
        → ((u' skip' : ℕ)
            → u' ≤ u + allocated h l
            → skip' ≤ 2 * i + 2
            → is_free r ≡ false
            → Back h i (2 * i + 2) (u' + allocated h r) k
            → Totals t (cost h + k) (tally u' (2 * i + 2) (blk 128 h) skip') n)
        → Totals t (2 * cost h + k + 2) (tally u i (blk 128 (suc h)) skip) n
    split_part u skip k le up go_left go_right = elim (Bool-cases (is_free l)) [
      | inl none_there ↦
          let same : u + allocated h l ≡ u = rw (allocated-free l h none_there) (omega arith) in
          Totals-weaken t
            (right_part u skip k (omega arith) (rw (null_left, none_there) refl) (rw same at up)
              (go_right u skip (omega arith) (omega arith)))
            (omega arith)
      | inr down ↦
          Totals-weaken t
            (Totals-round t (left_round t h i u room rep.0 skip le (null_left ∙ down)) (
              go_left down (
                right_part (u + allocated h l) (2 * i + 1) k (omega arith) (ground arith) up
                  (go_right (u + allocated h l) (2 * i + 1) (omega arith) (omega arith)))))
            (omega arith)
    ]
      where
        null_left : (t (2 * i + 1) == null) ≡ is_free l
        null_left = root_null base l h (2 * i + 1) t ok rep.1

  -- Below a node `c` other than the root the loop counts the allocated blocks, and comes back.
  pub count :
      (b : Buddy) (h c i u skip k : ℕ)
      → c ≢ 0
      → parent c ≡ i
      → t i ≡ branch_node
      → (c + 2) * pow2 h ≤ 2 ^ 11
      → u + blk 128 h ≤ heap_size
      → skip ≤ c
      → Rep base b h c t
      → is_free b ≡ false
      → Back h i c (u + allocated h b) k
      → Totals t (cost h + k) (tally u c (blk 128 h) skip) n
  unfolding allocated
  count free h c i u skip k ne up branch room fits le rep open_node back = cc
  count used h c i u skip k ne up branch room fits le rep open_node back =
      Totals-weaken t
        (Totals-same t
          (leaf_round t h u c i skip ne up branch (is_leaf-is_used base used h c t ok rep) fits)
          back)
        (omega arith)
  count (split l r) zero c i u skip k ne up branch room fits le rep open_node back = absurd rep
  count (split l r) (suc h) c i u skip k ne up branch room fits le rep open_node back =
      Totals-weaken t
        (split_part h c l r (suc_room h c room) rep u skip (suc k) le
          (λ s skip' e. Totals-round t (e ∙ risen _ skip') (rw sum at back))
          (λ q b.
            count l h (2 * c + 1) c u skip (cost h + suc k + 1) (omega arith) (omega arith) rep.0
              (grind arith) (omega arith) (omega arith) rep.1 q b)
          (λ u' skip' bound below q b.
            count r h (2 * c + 2) c u' skip' (suc k) (omega arith) (omega arith) rep.0 (grind arith)
              (omega (arith, allocated-le l h)) below rep.2 q b))
        (omega arith)
    where
      sum : u + (allocated h l + allocated h r) ≡ u + allocated h l + allocated h r
      sum = omega arith

      risen :
          (u' skip' : ℕ)
          → leave (tally u' c (blk 128 (suc h)) skip')
            ≡ again (tally u' i (blk 128 (suc (suc h))) c)
      risen u' skip' =
          let double : blk 128 (suc h) * 2 % 2 ^ 32 ≡ blk 128 (suc (suc h)) = omega arith in
          rw (==_of_ne c 0 ne, up, double) refl
