-- ===== src/Heap/Refine.antt =====
-- `malloc` of os/heap.c as a whole, next to first fit on the abstract heap.
use multicore_rtos.Base.{
  ℕ, zero, suc, ◌+◌, ◌-◌, ◌*◌, ◌^◌, ◌≤◌, ◌≡◌, refl, ◌∙◌, sym, subst, ap, Option, none, some, false,
  arith, update_self, update_ne, ◌==◌, ltb,
}
use multicore_rtos.Heap.{
  Ptr, Tree, Heap, null, branch_node, heap_size, heap_size_min, malloc, malloc_finish, malloc_loop,
  malloc_fuel, block_size_for, b_wait, b_signal, walk_start,
}
use multicore_rtos.Heap.Descend.{
  Search, hit, miss, mark, descend, blk, pow2, cost, loop-descend, after, walk,
}
use multicore_rtos.Heap.Size.{Level, block_size_for-Level}
use multicore_rtos.Heap.Runs.{Runs, resume}
use multicore_rtos.Heap.Under.{Under, Under-self, pow2_le}
use multicore_rtos.Heap.Buddy.{
  Buddy, free, used, split, is_used, raise, alloc, alloc-free, Hollow-frame, Hollow-of_Empty,
  update-Same-left, update-Same-right, Empty-root, IsBase, node_address_bounds, Rep, Empty-frame,
}
use multicore_rtos.Heap.Alloc.{
  Placed, Placed-left, Placed-right, node_address-Placed, Agrees, split-Agrees, mark_same, blk_pos,
}

module _ (base : Ptr) (e : ℕ) where
  start-Agrees :
      (h i : ℕ) (t : Tree) (a : ℕ × Buddy) (s : Search)
      → Agrees base e h i (mark t i) (some a) s
      → Agrees base e h i t (some a) s
  start-Agrees h i t (o, b) (miss t') q = q
  start-Agrees h i t (o, b) (hit j t') q = record {
    under = q.under;
    outside = λ k n.
        q.outside k n
        ∙ update_ne t i branch_node (λ same. n (subst (Under h i) (sym same) (Under-self h i)));
    address = q.address;
    rep = q.rep;
  }

  descend-mark : (h i : ℕ) (t : Tree) → descend (suc h) i (mark t i) ≡ descend (suc h) i t
  unfolding descend
  descend-mark h i t = rw (mark_same (mark t i) i (update_self t i branch_node))

  Rep-mark :
      (h i : ℕ) (t : Tree)
      → Rep base free (suc h) i t
      → Rep base (split free free) (suc h) i (mark t i)
  Rep-mark h i t rep = (
    update_self t i branch_node,
    Empty-frame h (2 * i + 1) t (mark t i) (update-Same-left h i branch_node t) rep.1,
    Empty-frame h (2 * i + 2) t (mark t i) (update-Same-right h i branch_node t) rep.2,
  )

  split-root : (h i : ℕ) (l r : Buddy) (t : Tree) → Rep base (split l r) h i t → t i ≡ branch_node
  split-root zero i l r t rep = absurd rep
  split-root (suc h) i l r t rep = rep.0

  take-Agrees :
      (i off : ℕ) (b : Buddy) (t : Tree)
      → IsBase base
      → Placed e i off
      → Rep base b e i t
      → Agrees base e e i t (alloc e zero off b) (descend zero i t)
  unfolding alloc descend
  take-Agrees i off free t ok place rep = rw (Empty-root e i t rep) (record {
    under = Under-self e i;
    outside = λ k n. refl;
    address = node_address-Placed base e i off place;
    rep = (
      update_self t i (base + off) ∙ sym (node_address-Placed base e i off place),
      Hollow-frame e i t _ (λ j ne u. update_ne t i (base + off) ne) (Hollow-of_Empty e i t rep),
    );
  })
  take-Agrees i off used t ok place rep =
      let ne : (t i == null) ≡ false = ground (arith, node_address_bounds base e i) in rw ne refl
  take-Agrees i off (split l r) t ok place rep =
      let ne : (t i == null) ≡ false = rw (split-root e i l r t rep) in rw ne refl

  alloc-split : (h off : ℕ) → alloc e (suc h) off (split free free) ≡ alloc e (suc h) off free
  unfolding alloc
  alloc-split h off = refl

  free-Agrees :
      (h i off : ℕ) (t : Tree)
      → Agrees base e
          (suc (raise e h))
          i
          (mark t i)
          (alloc e (suc h) off (split free free))
          (descend (suc h) i (mark t i))
      → Agrees base e (suc (raise e h)) i t (alloc e (suc h) off free) (descend (suc h) i t)
  free-Agrees h i off t q =
      let (o, b, found) = alloc-free e (suc h) off in
      rw found (
        start-Agrees (suc (raise e h)) i t (o, b) _
          (rw (alloc-split h off, found, descend-mark h i t) at q))

  -- At every node the search agrees with first fit on what the subtree stands for.
  pub descend-alloc :
      (h i off : ℕ) (b : Buddy) (t : Tree)
      → IsBase base
      → Placed (raise e h) i off
      → Rep base b (raise e h) i t
      → (is_used b ≡ false)
      → Agrees base e (raise e h) i t (alloc e h off b) (descend h i t)
  descend-alloc zero i off b t ok place rep open_node = take-Agrees i off b t ok place rep
  descend-alloc (suc h) i off used t ok place rep open_node = cc
  descend-alloc (suc h) i off (split l r) t ok place rep open_node =
      split-Agrees base e h i off l r t ok rep
        (λ q. descend-alloc h (2 * i + 1) off l t ok (Placed-left place) rep.1 q)
        (λ q. descend-alloc h (2 * i + 2) _ r t ok (Placed-right place) rep.2 q)
  descend-alloc (suc h) i off free t ok place rep open_node =
      let marked = Rep-mark (raise e h) i t rep in
      free-Agrees h i off t (
        split-Agrees base e h i off free free (mark t i) ok marked
          (λ q. descend-alloc h (2 * i + 1) off free (mark t i) ok (Placed-left place) marked.1 q)
          (λ q. descend-alloc h (2 * i + 2) _ free (mark t i) ok (Placed-right place) marked.2 q))

-- What a call of `malloc` returns, by what first fit finds: the address and the tree of the block,
-- or NULL and the tree as it was. The lock is free again.
pub data Served (h : Heap) : Option (ℕ × Buddy) → Option (Ptr × Heap) → Type 0 where
  granted :
      {o : ℕ} {b : Buddy} {t : Tree}
      → Rep h.heap_ptr b 10 0 t
      → Served h (some (o, b)) (some (h.heap_ptr + o, record h { heap_tree = t; heap_lock = 0 }))
  refused : Served h none (some (null, record h { heap_lock = 0 }))

Served-of :
    (h : Heap) (size e : ℕ) (a : Option (ℕ × Buddy)) (s : Search)
    → size ≡ blk heap_size_min e
    → Agrees h.heap_ptr e 10 0 h.heap_tree a s
    → Served h a (malloc_finish (b_wait h) (after size (blk heap_size_min 10) 0 s))
unfolding malloc_finish b_wait b_signal after
Served-of h size e (some (o, b)) (hit j t) rounded q = rw (rounded, q.address) (granted q.rep)
Served-of h size e (some a) (miss t) rounded q = absurd q
Served-of h size e none (hit j t) rounded q = absurd q
Served-of h size e none (miss t) rounded q = rw q refused

blk-raise : (size e h : ℕ) → blk (blk size e) h ≡ blk size (raise e h)
blk-raise size e zero = refl
blk-raise size e (suc h) = omega (arith, blk-raise size e h)

pub cost-pow2 : (h : ℕ) → cost h + 3 ≡ 4 * pow2 h
cost-pow2 zero = refl
cost-pow2 (suc h) = omega (arith, cost-pow2 h)

raise-le : (e h : ℕ) → h ≤ raise e h
raise-le e zero = omega arith
raise-le e (suc h) = omega (arith, raise-le e h)

-- At the root the loop never goes up.
resume-after :
    (m size block : ℕ) (s : Search) → resume m size (after size block 0 s) ≡ after size block 0 s
unfolding resume after
resume-after m size block (hit j t) = refl
resume-after m size block (miss t) = refl

enough_fuel :
    (size : ℕ) (s : Search) {k : ℕ} {t : Tree}
    → k ≤ malloc_fuel
    → Runs size k (walk 0 heap_size 0 t) (after size heap_size 0 s)
    → malloc_loop malloc_fuel size (walk_start t) ≡ after size heap_size 0 s
enough_fuel size s {t} le f =
    let fuel : f.rounds + (malloc_fuel - f.rounds) ≡ malloc_fuel = omega (arith, f.within) in
    ap (λ n. malloc_loop n size (walk_start t)) (sym fuel)
    ∙ f.runs (malloc_fuel - f.rounds)
    ∙ resume-after (malloc_fuel - f.rounds) size heap_size s

malloc_loop-descend :
    (size e h : ℕ) (t : Tree)
    → size ≡ blk heap_size_min e
    → raise e (suc h) ≡ 10
    → malloc_loop malloc_fuel size (walk_start t) ≡ after size heap_size 0 (descend (suc h) 0 t)
malloc_loop-descend size e h t rounded top = enough_fuel size (descend (suc h) 0 t) bound (
    subst (λ b. Runs size (cost (suc h)) (walk 0 b 0 t) (after size b 0 (descend (suc h) 0 t)))
      whole
      (loop-descend (omega (arith, rounded, blk_pos e)) (suc h) 0 0 t (omega (arith, room))
        (omega (arith, whole)) (omega arith) (λ q. absurd (omega arith))))
  where
    room : pow2 (suc h) ≤ pow2 10
    room = pow2_le (suc h) 10 (omega (arith, raise-le e (suc h), top))

    bound : cost (suc h) ≤ malloc_fuel
    bound = omega (arith, cost-pow2 (suc h), room)

    whole : blk size (suc h) ≡ heap_size
    whole =
        ap (λ s. blk s (suc h)) rounded
        ∙ blk-raise heap_size_min e (suc h)
        ∙ ap (blk heap_size_min) top

pub root_Placed : Placed 10 0 0
root_Placed = record { at = refl; fits = omega arith; node = omega arith }

malloc-Served :
    (size : ℕ) (h : Heap) (b : Buddy)
    → size ≤ 2 ^ 16
    → IsBase h.heap_ptr
    → is_used b ≡ false
    → Rep h.heap_ptr b 10 0 h.heap_tree
    → (l : Level size) → Served h (alloc l.height (suc l.above) 0 b) (malloc size h)
unfolding malloc
malloc-Served size h b le ok open_root rep l =
    let small : ltb heap_size size ≡ false = ground arith in
    let found =
      descend-alloc h.heap_ptr l.height (suc l.above) 0 0 b h.heap_tree ok
        (subst (λ H. Placed H 0 0) (sym l.top) root_Placed)
        (subst (λ H. Rep h.heap_ptr b H 0 h.heap_tree) (sym l.top) rep) open_root in
    rw
      (
        small,
        malloc_loop-descend (block_size_for size) l.height l.above h.heap_tree l.rounded l.top,
      )
      (Served-of h (block_size_for size) l.height _ _ l.rounded (
        subst
          (λ H.
            Agrees h.heap_ptr l.height H 0 h.heap_tree (alloc l.height (suc l.above) 0 b)
              (descend (suc l.above) 0 h.heap_tree))
          l.top found))

-- The allocator's state stands for the abstract heap `b`, which is not one single block.
pub record Represents (h : Heap) (b : Buddy) : Type 0 where
  pub base : IsBase h.heap_ptr
  pub open_root : is_used b ≡ false
  pub rep : Rep h.heap_ptr b 10 0 h.heap_tree

-- Where the state represents an abstract heap that is not one single allocated block, a call
-- of `malloc` for at most half the heap ends, and returns what first fit on the abstract heap
-- finds among the blocks of the least size, of 128 bytes times a power of two, that holds the
-- request: the address and a tree for the abstract heap with that block allocated, or NULL and
-- the tree unchanged. In both cases the lock is released.
pub malloc-alloc :
    (size : ℕ) (h : Heap) (b : Buddy)
    → size ≤ 2 ^ 16
    → Represents h b
    → (l : Level size) × Served h (alloc l.height (suc l.above) 0 b) (malloc size h)
malloc-alloc size h b le r =
    let l = block_size_for-Level size le in
    (l, malloc-Served size h b le r.base r.open_root r.rep l)
