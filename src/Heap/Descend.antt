-- ===== src/Heap/Descend.antt =====
-- The search of `malloc` as a recursion over the tree, and the loop's agreement with it.
use multicore_rtos.Base.{
  ℕ, zero, suc, ◌+◌, ◌*◌, ◌%◌, ◌^◌, ◌≤◌, ◌<◌, ◌≡◌, refl, ◌∙◌, ◌≢◌, inl, inr, true, false, sym,
  arith, ◌==◌, ◌/◌, ◌||◌, ==_of_ne, if◌then◌else◌, Bool-cases, update,
}
use multicore_rtos.Heap.{
  Tree, null, branch_node, heap_size, Walk, Round, again, allocate, exhausted, is_leaf, parent,
  left, right, malloc_round, choose_child, up_or_break, traverse_up, traverse_down,
}
use multicore_rtos.Heap.Runs.{Runs, Runs-round, Runs-bind, Runs-weaken}

-- A search ends at a free node of the right size, or leaves the tree without one.
pub data Search : Type 0 where
  hit : ℕ → Tree → Search
  miss : Tree → Search

abbrev pub mark : Tree → ℕ → Tree
mark t i = update t i branch_node

-- back at a node whose child has no room
unfoldable pub revisit : ℕ → Search → Search
revisit i (hit j t) = hit j t
revisit i (miss t) = miss (mark t i)

-- The child `c` of `i`, if it is no allocated block; `r` is the search below it.
unfoldable pub enter : ℕ → ℕ → Tree → Search → Search
enter i c t r = if is_leaf (t c) then miss t else revisit i r

unfoldable pub or_else : Search → (Tree → Search) → Search
or_else (hit j t) f = hit j t
or_else (miss t) f = f t

-- `h` levels below node `i` are the nodes of the wanted size.
unfoldable pub descend : ℕ → ℕ → Tree → Search
descend zero i t = if t i == null then hit i t else miss t
descend (suc h) i t =
    or_else (enter i (2 * i + 1) (mark t i) (descend h (2 * i + 1) (mark t i)))
      (λ t'. enter i (2 * i + 2) t' (descend h (2 * i + 2) t'))

or_else-miss : (s : Search) → or_else s miss ≡ s
unfolding or_else
or_else-miss (hit j t) = refl
or_else-miss (miss t) = refl

-- the size of a block `h` levels above one of `size` bytes
abbrev pub blk : ℕ → ℕ → ℕ
blk size zero = size
blk size (suc h) = 2 * blk size h

abbrev pub pow2 : ℕ → ℕ
pow2 zero = 1
pow2 (suc h) = 2 * pow2 h

abbrev pub walk : ℕ → ℕ → ℕ → Tree → Walk
walk i block skip t = record { i = i; block_size = block; skip = skip; tree = t }

-- the loop's outcome at node `i`
unfoldable pub after : ℕ → ℕ → ℕ → Search → Round
after size block i (hit j t) = allocate j size t
after size block i (miss t) =
    if i == 0 then exhausted t else again (walk (parent i) (block * 2 % 2 ^ 32) i t)

-- an upper bound on the rounds below a node
abbrev pub cost : ℕ → ℕ
cost zero = 1
cost (suc h) = 2 * cost h + 3

pub size-le-blk : (size h : ℕ) → size ≤ blk size h
size-le-blk size zero = omega arith
size-le-blk size (suc h) = omega (arith, size-le-blk size h)

pub pow2_pos : (h : ℕ) → 0 < pow2 h
pow2_pos zero = omega arith
pow2_pos (suc h) = omega (arith, pow2_pos h)

pub pow2_room : (h i : ℕ) → (i + 2) * pow2 h ≤ 2 ^ 11 → i < 2 ^ 11
pow2_room h i le = grind (arith, pow2_pos h)

pub suc_room : (h i : ℕ) → (i + 2) * pow2 (suc h) ≤ 2 ^ 11 → i + 2 ≤ 2 ^ 10
suc_room h i le = grind (arith, pow2_pos h)

choose-right :
    (size h i skip : ℕ) (t : Tree)
    → i + 2 ≤ 2 ^ 10
    → skip ≢ 2 * i + 2
    → (is_leaf (t (2 * i + 1)) || ((2 * i + 1) == skip)) ≡ true
    → choose_child (walk i (blk size (suc h)) skip t) ≡ (
        if is_leaf (t (2 * i + 2))
        then up_or_break (walk i (blk size (suc h)) skip t)
        else again (walk (2 * i + 2) (blk size h) skip t))
unfolding choose_child traverse_down
choose-right size h i skip t room ne stop =
    let r : right i ≡ 2 * i + 2 = omega arith in
    let l : left i ≡ 2 * i + 1 = omega arith in
    let b : blk size (suc h) / 2 ≡ blk size h = omega arith in
    rw (r, l, ==_of_ne _ _ (λ e. ne (sym e)), stop, b)

module _ {size : ℕ} (pos : 0 < size) where
  -- A round at an inner node.
  inner_round :
      (h i skip : ℕ) (t : Tree)
      → i < 2 ^ 11
      → malloc_round size (walk i (blk size (suc h)) skip t)
        ≡ choose_child (walk i (blk size (suc h)) skip (mark t i))
  unfolding malloc_round
  inner_round h i skip t lt = ground (arith, size-le-blk size h)

  -- the way back from a child without room
  after_child :
      (h i c : ℕ) (t : Tree)
      → c ≢ 0
      → parent c ≡ i
      → blk size (suc h) ≤ heap_size
      → after size (blk size h) c (miss t) ≡ again (walk i (blk size (suc h)) c t)
  unfolding after
  after_child h i c t ne e le = ground arith

  -- A round goes down to the child `c`; what follows depends on the search there.
  returned :
      (h i c k : ℕ) (w w' : Walk) (d : Search) (f : Tree → Search)
      → c ≢ 0
      → parent c ≡ i
      → blk size (suc h) ≤ heap_size
      → malloc_round size w ≡ again w'
      → Runs size (cost h) w' (after size (blk size h) c d)
      → ((t : Tree)
          → Runs size k
              (walk i (blk size (suc h)) c t)
              (after size (blk size (suc h)) i (f (mark t i))))
      → Runs size (1 + cost h + k) w (after size (blk size (suc h)) i (or_else (revisit i d) f))
  unfolding after or_else revisit
  returned h i c k w w' (hit j t) f ne up le e ih back =
      Runs-weaken (Runs-bind (Runs-round e) ih) (omega arith)
  returned h i c k w w' (miss t) f ne up le e ih back =
      Runs-bind (Runs-bind (Runs-round e) (rw (after_child h i c t ne up le) at ih)) (back t)

  -- the last round at `i`, back from its right child
  last_round :
      (h i : ℕ) (t : Tree)
      → i + 2 ≤ 2 ^ 10
      → Runs size 1
          (walk i (blk size (suc h)) (2 * i + 2) t)
          (after size (blk size (suc h)) i (miss (mark t i)))
  unfolding after choose_child up_or_break
  last_round h i t room = Runs-round (inner_round h i (2 * i + 2) t (omega arith) ∙ ground arith)

  -- the rest of a round at `i`, once the left child is done with
  right_part :
      (h i skip : ℕ) (w : Walk) (t : Tree)
      → i + 2 ≤ 2 ^ 10
      → blk size (suc h) ≤ heap_size
      → malloc_round size w ≡ (
          if is_leaf (t (2 * i + 2))
          then up_or_break (walk i (blk size (suc h)) skip t)
          else again (walk (2 * i + 2) (blk size h) skip t))
      → Runs size
          (cost h)
          (walk (2 * i + 2) (blk size h) skip t)
          (after size (blk size h) (2 * i + 2) (descend h (2 * i + 2) t))
      → Runs size
          (cost h + 2)
          w
          (after size (blk size (suc h)) i (enter i (2 * i + 2) t (descend h (2 * i + 2) t)))
  unfolding enter after up_or_break
  right_part h i skip w t room le e ih = elim (Bool-cases (is_leaf (t (2 * i + 2)))) [
    | inl full ↦ rw full (Runs-weaken (Runs-round (rw full at e)) (omega arith))
    | inr open_child ↦ rw open_child (
        rw (← or_else-miss (revisit i (descend h (2 * i + 2) t))) (
          Runs-weaken
            (returned h i (2 * i + 2) 1 w (walk (2 * i + 2) (blk size h) skip t)
              (descend h (2 * i + 2) t) miss (omega arith) (omega arith) le (rw open_child at e) ih
              (λ t'. last_round h i t' room))
            (omega arith)))
  ]

  -- a round at a node of the wanted size
  wanted_round :
      (i skip : ℕ) (t : Tree)
      → 0 < i
      → size ≤ heap_size
      → malloc_round size (walk i size skip t) ≡ after size size i (descend zero i t)
  unfolding malloc_round traverse_up after descend
  wanted_round i skip t pos_i le = ground arith

  -- A round at an inner node whose left child is no way down.
  past_left :
      (h i skip : ℕ) (t : Tree)
      → i + 2 ≤ 2 ^ 10
      → skip ≢ 2 * i + 2
      → (is_leaf (mark t i (2 * i + 1)) || ((2 * i + 1) == skip)) ≡ true
      → blk size (suc h) ≤ heap_size
      → malloc_round size (walk i (blk size (suc h)) skip t) ≡ (
          if is_leaf (mark t i (2 * i + 2))
          then up_or_break (walk i (blk size (suc h)) skip (mark t i))
          else again (walk (2 * i + 2) (blk size h) skip (mark t i)))
  past_left h i skip t room ne stop le =
      inner_round h i skip t (omega arith) ∙ choose-right size h i skip (mark t i) room ne stop

  down_left :
      (h i skip : ℕ) (t : Tree)
      → i + 2 ≤ 2 ^ 10
      → skip ≤ i
      → is_leaf (mark t i (2 * i + 1)) ≡ false
      → malloc_round size (walk i (blk size (suc h)) skip t)
        ≡ again (walk (2 * i + 1) (blk size h) skip (mark t i))
  unfolding choose_child traverse_down
  down_left h i skip t room below open_child = inner_round h i skip t (omega arith) ∙ ground arith

  inner_part :
      (h i skip : ℕ) (t : Tree)
      → i + 2 ≤ 2 ^ 10
      → blk size (suc h) ≤ heap_size
      → skip ≤ i
      → ((t' : Tree)
          → Runs size
              (cost h)
              (walk (2 * i + 1) (blk size h) skip t')
              (after size (blk size h) (2 * i + 1) (descend h (2 * i + 1) t')))
      → ((skip' : ℕ) (t' : Tree)
          → skip' ≤ 2 * i + 2
          → Runs size
              (cost h)
              (walk (2 * i + 2) (blk size h) skip' t')
              (after size (blk size h) (2 * i + 2) (descend h (2 * i + 2) t')))
      → Runs size
          (cost (suc h))
          (walk i (blk size (suc h)) skip t)
          (after size (blk size (suc h)) i (descend (suc h) i t))
  unfolding descend enter or_else
  inner_part h i skip t room le below go_left go_right =
      elim (Bool-cases (is_leaf (mark t i (2 * i + 1)))) [
        | inl full ↦ rw full (
            Runs-weaken
              (right_part h i skip _ (mark t i) room le
                (past_left h i skip t room (omega arith) (rw full) le)
                (go_right skip (mark t i) (omega arith)))
              (omega arith))
        | inr open_child ↦ rw open_child (
            Runs-weaken
              (returned h i (2 * i + 1) (cost h + 2) _ _ (descend h (2 * i + 1) (mark t i))
                (λ t'. enter i (2 * i + 2) t' (descend h (2 * i + 2) t')) (omega arith)
                (omega arith) le (down_left h i skip t room below open_child) (go_left (mark t i))
                (λ t'.
                  right_part h i (2 * i + 1) _ (mark t' i) room le
                    (past_left h i (2 * i + 1) t' room (omega arith) (ground arith) le)
                    (go_right (2 * i + 1) (mark t' i) (omega arith))))
              (omega arith))
      ]

  -- From its first round at node `i` on, the loop does what `descend` does below `i`.
  pub loop-descend :
      (h i skip : ℕ) (t : Tree)
      → (i + 2) * pow2 h ≤ 2 ^ 11
      → blk size h ≤ heap_size
      → skip ≤ i
      → (h ≡ 0 → 0 < i)
      → Runs size (cost h) (walk i (blk size h) skip t) (after size (blk size h) i (descend h i t))
  loop-descend zero i skip t room le below pos_i =
      Runs-round (wanted_round i skip t (pos_i refl) le)
  loop-descend (suc h) i skip t room le below pos_i =
      inner_part h i skip t (suc_room h i room) le below
        (λ t'.
          loop-descend h (2 * i + 1) skip t' (grind arith) (omega arith) (omega arith)
            (λ _. omega arith))
        (λ skip' t' b.
          loop-descend h (2 * i + 2) skip' t' (grind arith) (omega arith) b (λ _. omega arith))
