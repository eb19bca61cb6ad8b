-- ===== src/Heap/Release/Seek.antt =====
-- The loop of `find_ptr` in os/heap.c next to a search of the abstract heap.
use multicore_rtos.Base.{
  ℕ, zero, suc, ◌+◌, ◌*◌, ◌^◌, ◌≤◌, ◌≡◌, refl, sym, ◌∙◌, ◌≢◌, inl, inr, Option, none, some, true,
  false, arith, ◌==◌, ◌||◌, if◌then◌else◌, Bool-cases,
}
use native.Mathlib.Decide.{ℕ_discrete}
use multicore_rtos.Heap.{Ptr, Tree, null, branch_node, parent}
use multicore_rtos.Heap.Release.{Visit, FindRound, again, index, visit_up, find_round}
use multicore_rtos.Heap.Descend.{cost, pow2, suc_room}
use multicore_rtos.Heap.Buddy.{
  Buddy, free, used, split, IsBase, node_address, Rep, Hollow, Empty-root, is_free, root_null,
}
use multicore_rtos.Heap.Release.Rounds.{
  Finds, visit, Finds-round, Finds-bind, Finds-weaken, bottom_round, right_round, left_round,
  last_round, hit_round,
}

abbrev pub first : Option ℕ → Option ℕ → Option ℕ
first (some j) _ = some j
first none k = k

-- the loop's outcome at node `i`
abbrev pub found : ℕ → Option ℕ → FindRound
found i (some j) = index j
found i none = visit_up (visit i 0)

cost_pos : (h : ℕ) → 1 ≤ cost h
cost_pos zero = omega arith
cost_pos (suc h) = omega arith

module _ (base : Ptr) where
  -- The node of the block at `ptr`, in the tree of height `h` at node `i`.
  unfoldable pub seek : Ptr → ℕ → ℕ → Buddy → Option ℕ
  seek ptr h i free = none
  seek ptr h i used = if node_address base h i == ptr then some i else none
  seek ptr zero i (split l r) = none
  seek ptr (suc h) i (split l r) = first (seek ptr h (2 * i + 1) l) (seek ptr h (2 * i + 2) r)

  module _ (t : Tree) (ptr : Ptr) where
    -- a round at a node that is not the one looked for and has no way down
    leave_round :
        (h i skip : ℕ)
        → (i + 2) * pow2 h ≤ 2 ^ 11
        → 2 ^ 10 ≤ (i + 1) * pow2 h
        → skip ≤ i
        → Hollow h i t
        → t i ≢ ptr
        → find_round t ptr (visit i skip) ≡ visit_up (visit i skip)
    leave_round zero i skip room low le hollow ne =
        bottom_round t ptr i skip (omega arith) (omega arith) ne
    leave_round (suc h) i skip room low le hollow ne =
        let l = Empty-root h (2 * i + 1) t hollow.0 in
        let r = Empty-root h (2 * i + 2) t hollow.1 in
        right_round t ptr i skip (suc_room h i room) ne (omega arith) (rw l refl) ∙ rw r refl

    up_from : (c i : ℕ) → c ≢ 0 → parent c ≡ i → visit_up (visit c 0) ≡ again (visit i c)
    up_from c i ne e = ground arith

    first-none : (o : Option ℕ) → first o none ≡ o
    first-none (some j) = refl
    first-none none = refl

    -- A round goes down to the child `c`; what follows depends on the search there.
    returned :
        (h i c skip k : ℕ) (s : Visit) (o o' : Option ℕ)
        → c ≢ 0
        → parent c ≡ i
        → find_round t ptr s ≡ again (visit c skip)
        → Finds t ptr (cost h) (visit c skip) (found c o)
        → Finds t ptr k (visit i c) (found i o')
        → Finds t ptr (1 + cost h + k) s (found i (first o o'))
    returned h i c skip k s (some j) o' ne up e below back =
        Finds-weaken t ptr (Finds-bind t ptr (Finds-round t ptr e) below) (omega arith)
    returned h i c skip k s none o' ne up e below back =
        Finds-bind t ptr (Finds-bind t ptr (Finds-round t ptr e) (rw (up_from c i ne up) at below))
          back

    module _ (ok : IsBase base) (other : ptr ≢ branch_node) where
      module _ (h i skip : ℕ) (room : i + 2 ≤ 2 ^ 10) (ne : t i ≢ ptr) (apart : skip ≢ 2 * i + 2)
          (stop : ((t (2 * i + 1) == null) || ((2 * i + 1) == skip)) ≡ true) where
        open_right :
            (r : Buddy)
            → is_free r ≡ false
            → Rep base r h (2 * i + 2) t
            → Finds t ptr
                (cost h)
                (visit (2 * i + 2) skip)
                (found (2 * i + 2) (seek ptr h (2 * i + 2) r))
            → Finds t ptr (cost h + 2) (visit i skip) (found i (seek ptr h (2 * i + 2) r))
        open_right r down rep below =
            let null_right = root_null base r h (2 * i + 2) t ok rep in
            rw (← first-none (seek ptr h (2 * i + 2) r)) (
              Finds-weaken t ptr
                (returned h i (2 * i + 2) skip 1 (visit i skip) _ none (omega arith) (omega arith)
                  (right_round t ptr i skip room ne apart stop ∙ rw (null_right, down) refl) below
                  (Finds-round t ptr (last_round t ptr i (2 * i + 2) room ne refl)))
                (omega arith))

        -- The rest of a round at `i`, once the left child is done with.
        right_part :
            (r : Buddy)
            → Rep base r h (2 * i + 2) t
            → (is_free r ≡ false
                → Finds t ptr
                    (cost h)
                    (visit (2 * i + 2) skip)
                    (found (2 * i + 2) (seek ptr h (2 * i + 2) r)))
            → Finds t ptr (cost h + 2) (visit i skip) (found i (seek ptr h (2 * i + 2) r))
        unfolding seek
        right_part free rep below =
            let null_right = root_null base free h (2 * i + 2) t ok rep in
            Finds-weaken t ptr
              (Finds-round t ptr (right_round t ptr i skip room ne apart stop ∙ rw null_right refl))
              (omega arith)
        right_part used rep below = open_right used refl rep (below refl)
        right_part (split l r) rep below = open_right (split l r) refl rep (below refl)

      closed_left :
          (b : Buddy) (h i : ℕ) (o : Option ℕ) {k : ℕ} {s : Visit}
          → is_free b ≡ true
          → Finds t ptr k s (found i o)
          → Finds t ptr k s (found i (first (seek ptr h (2 * i + 1) b) o))
      unfolding seek
      closed_left free h i o e f = f
      closed_left used h i o e f = cc
      closed_left (split b c) h i o e f = cc

      -- both parts of the search below `i`
      split_part :
          (h i skip : ℕ) (l r : Buddy)
          → i + 2 ≤ 2 ^ 10
          → skip ≤ i
          → Rep base (split l r) (suc h) i t
          → (is_free l ≡ false
              → Finds t ptr
                  (cost h)
                  (visit (2 * i + 1) skip)
                  (found (2 * i + 1) (seek ptr h (2 * i + 1) l)))
          → ((skip' : ℕ)
              → skip' ≤ 2 * i + 2
              → is_free r ≡ false
              → Finds t ptr
                  (cost h)
                  (visit (2 * i + 2) skip')
                  (found (2 * i + 2) (seek ptr h (2 * i + 2) r)))
          → Finds t ptr (cost (suc h)) (visit i skip) (found i (seek ptr (suc h) i (split l r)))
      unfolding seek
      split_part h i skip l r room le rep go_left go_right = elim (Bool-cases (is_free l)) [
        | inl closed ↦ closed_left l h i _ closed (
            Finds-weaken t ptr
              (right_part h i skip room ne (omega arith) (rw (null_left, closed) refl) r rep.2
                (go_right skip (omega arith)))
              (omega arith))
        | inr down ↦
            Finds-weaken t ptr
              (returned h i (2 * i + 1) skip (cost h + 2) (visit i skip) _ _ (omega arith)
                (omega arith) (left_round t ptr i skip room ne le (null_left ∙ down)) (go_left down)
                (right_part h i (2 * i + 1) room ne (omega arith) (ground arith) r rep.2
                  (go_right (2 * i + 1) (omega arith))))
              (omega arith)
      ]
        where
          ne : t i ≢ ptr
          ne q = other (sym q ∙ rep.0)

          null_left : (t (2 * i + 1) == null) ≡ is_free l
          null_left = root_null base l h (2 * i + 1) t ok rep.1

      -- a round at an allocated block
      used_round :
          (h i skip : ℕ)
          → (i + 2) * pow2 h ≤ 2 ^ 11
          → 2 ^ 10 ≤ (i + 1) * pow2 h
          → skip ≤ i
          → Rep base used h i t
          → find_round t ptr (visit i skip) ≡ found i (seek ptr h i used)
      unfolding seek
      used_round h i skip room low le rep =
          let whole : find_round t ptr (visit i skip)
              ≡ (if t i == ptr then index i else visit_up (visit i skip)) =
            elim (ℕ_discrete (t i) ptr) [
              | yes e ↦ rw (hit_round t ptr i skip e) (ground arith)
              | no ne ↦ rw (leave_round h i skip room low le rep.1 ne) (ground arith)
            ] in
          rw (whole, rep.0) (ground arith)

      -- From its first round at node `i` on, the loop does what `seek` does below `i`.
      pub seek-Finds :
          (b : Buddy) (h i skip : ℕ)
          → (i + 2) * pow2 h ≤ 2 ^ 11
          → 2 ^ 10 ≤ (i + 1) * pow2 h
          → skip ≤ i
          → Rep base b h i t
          → is_free b ≡ false
          → Finds t ptr (cost h) (visit i skip) (found i (seek ptr h i b))
      unfolding seek
      seek-Finds free h i skip room low le rep e = cc
      seek-Finds used h i skip room low le rep e =
          Finds-weaken t ptr (Finds-round t ptr (used_round h i skip room low le rep)) (cost_pos h)
      seek-Finds (split l r) zero i skip room low le rep e = absurd rep
      seek-Finds (split l r) (suc h) i skip room low le rep e =
          split_part h i skip l r (suc_room h i room) le rep
            (λ q. seek-Finds l h (2 * i + 1) skip (grind arith) (grind arith) (omega arith) rep.1 q)
            (λ skip' b q. seek-Finds r h (2 * i + 2) skip' (grind arith) (grind arith) b rep.2 q)
