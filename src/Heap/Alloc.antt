-- ===== src/Heap/Alloc.antt =====
-- The search of `malloc` in os/heap.c next to first fit on the abstract heap.
use multicore_rtos.Base.{
  ℕ, zero, suc, ◌+◌, ◌*◌, ◌%◌, ◌^◌, ◌≤◌, ◌<◌, ◌≡◌, refl, ◌∙◌, sym, subst, fun_ext, inl, inr, Option,
  none, some, true, false, arith, update, update_ne,
}
use multicore_rtos.Heap.{Ptr, Tree, branch_node, heap_size, heap_size_min, is_leaf, block_address}
use multicore_rtos.Heap.Descend.{
  Search, hit, miss, mark, revisit, enter, or_else, descend, blk, pow2, pow2_pos,
}
use multicore_rtos.Heap.Under.{Under, children_apart, not-Under-left, not-Under-right}
use multicore_rtos.Heap.Buddy.{
  Buddy, free, used, split, is_used, raise, either, alloc, IsBase, node_address, Rep, Rep-frame,
  is_leaf-is_used, alloc-used,
}

-- Node `i` of height `h` stands for the bytes from `off` on, and lies in the array.
pub record Placed (h i off : ℕ) : Type 0 where
  pub at : (i + 1) * blk heap_size_min h % heap_size ≡ off
  pub fits : off + blk heap_size_min h ≤ heap_size
  pub node : (i + 2) * pow2 h ≤ 2 ^ 11

pub blk-pow2 : (h : ℕ) → blk heap_size_min h ≡ 128 * pow2 h
blk-pow2 zero = refl
blk-pow2 (suc h) = omega (arith, blk-pow2 h)

pub blk_pos : (h : ℕ) → 0 < blk heap_size_min h
blk_pos h = omega (arith, blk-pow2 h, pow2_pos h)

pub Placed-left : {h i off : ℕ} → Placed (suc h) i off → Placed h (2 * i + 1) off
Placed-left {h} {i} {off} p = record {
  at = omega (arith, p.at, p.fits);
  fits = omega (arith, p.fits, blk_pos h);
  node = omega (arith, p.node, pow2_pos h);
}

pub Placed-right :
    {h i off : ℕ} → Placed (suc h) i off → Placed h (2 * i + 2) (off + blk heap_size_min h)
Placed-right {h} {i} {off} p = record {
  at = omega (arith, p.at, p.fits, blk_pos h);
  fits = omega (arith, p.fits);
  node = omega (arith, p.node, pow2_pos h);
}

pub node_address-Placed : (base h i off : ℕ) → Placed h i off → node_address base h i ≡ base + off
unfolding block_address
node_address-Placed base h i off p = omega (arith, p.at, p.fits, p.node, blk-pow2 h)

no_room : (e h off : ℕ) (b : Buddy) → is_used b ≡ true → alloc e h off b ≡ none
no_room e h off used q = alloc-used e h off
no_room e h off free q = cc
no_room e h off (split l r) q = cc

pub mark_same : (t : Tree) (i : ℕ) → t i ≡ branch_node → mark t i ≡ t
mark_same t i e = fun_ext λ j. ground arith

module _ (base : Ptr) (e : ℕ) where
  -- a block of height `e` at offset `o` found in node `j`
  pub record Hit (h i : ℕ) (t : Tree) (o : ℕ) (b : Buddy) (j : ℕ) (t' : Tree) : Type 0 where
    pub under : Under h i j
    pub outside : (k : ℕ) → (Under h i k → ⊥) → t' k ≡ t k
    pub address : node_address base e j ≡ base + o
    pub rep : Rep base b h i (update t' j (base + o))

  abbrev pub Agrees : ℕ → ℕ → Tree → Option (ℕ × Buddy) → Search → Type 0
  Agrees h i t (some (o, b)) (hit j t') = Hit h i t o b j t'
  Agrees h i t none (miss t') = t' ≡ t
  Agrees h i t (some _) (miss _) = ⊥
  Agrees h i t none (hit _ _) = ⊥

  -- The written node lies under `i` too.
  Hit-outer :
      (h i : ℕ) (t : Tree) (o : ℕ) (b : Buddy) (j : ℕ) (t' : Tree)
      → Hit h i t o b j t'
      → (k : ℕ) → (Under h i k → ⊥)
      → update t' j (base + o) k ≡ t k
  Hit-outer h i t o b j t' q k n =
      update_ne t' j (base + o) (λ same. n (subst (Under h i) (sym same) q.under)) ∙ q.outside k n

  module _ (h i : ℕ) (t : Tree) (branch : t i ≡ branch_node) where
    revisit-Agrees :
        (c : ℕ) (a : Option (ℕ × Buddy)) (s : Search)
        → Agrees h c t a s
        → Agrees h c t a (revisit i s)
    unfolding revisit
    revisit-Agrees c (some a) (hit j t') q = q
    revisit-Agrees c (some a) (miss t') q = q
    revisit-Agrees c none (hit j t') q = q
    revisit-Agrees c none (miss t') q = rw q (mark_same t i branch)

    enter-Agrees :
        (c : ℕ) (b : Buddy) (a : Option (ℕ × Buddy)) (s : Search)
        → is_leaf (t c) ≡ is_used b
        → (is_used b ≡ true → a ≡ none)
        → (is_used b ≡ false → Agrees h c t a s)
        → Agrees h c t a (enter i c t s)
    unfolding enter
    enter-Agrees c free a s leaf full go = rw leaf (revisit-Agrees c a s (go refl))
    enter-Agrees c used a s leaf full go = rw (leaf, full refl)
    enter-Agrees c (split l r) a s leaf full go = rw leaf (revisit-Agrees c a s (go refl))

    module _ (l r : Buddy) (rep_l : Rep base l h (2 * i + 1) t)
        (rep_r : Rep base r h (2 * i + 2) t) where
      Hit-left :
          (o : ℕ) (b : Buddy) (j : ℕ) (t' : Tree)
          → Hit h (2 * i + 1) t o b j t'
          → Hit (suc h) i t o (split b r) j t'
      Hit-left o b j t' q = record {
        under = inr (inl q.under);
        outside = λ k n. q.outside k (λ u. n (inr (inl u)));
        address = q.address;
        rep = (
          Hit-outer h (2 * i + 1) t o b j t' q i (not-Under-left h i) ∙ branch,
          q.rep,
          Rep-frame base r h (2 * i + 2) t _
              (λ k u. Hit-outer h (2 * i + 1) t o b j t' q k (λ v. children_apart h h i k v u))
              rep_r,
        );
      }

      Hit-right :
          (o : ℕ) (b : Buddy) (j : ℕ) (t' : Tree)
          → Hit h (2 * i + 2) t o b j t'
          → Hit (suc h) i t o (split l b) j t'
      Hit-right o b j t' q = record {
        under = inr (inr q.under);
        outside = λ k n. q.outside k (λ u. n (inr (inr u)));
        address = q.address;
        rep = (
          Hit-outer h (2 * i + 2) t o b j t' q i (not-Under-right h i) ∙ branch,
          Rep-frame base l h (2 * i + 1) t _
              (λ k u. Hit-outer h (2 * i + 2) t o b j t' q k (λ v. children_apart h h i k u v))
              rep_l,
          q.rep,
        );
      }

      combine_right :
          (a : Option (ℕ × Buddy)) (s : Search)
          → Agrees h (2 * i + 2) t a s
          → Agrees (suc h) i t (either l r none a) s
      unfolding either
      combine_right (some (o, b)) (hit j t') q = Hit-right o b j t' q
      combine_right (some a) (miss t') q = absurd q
      combine_right none (hit j t') q = absurd q
      combine_right none (miss t') q = q

      combine :
          (a c : Option (ℕ × Buddy)) (s : Search) (f : Tree → Search)
          → Agrees h (2 * i + 1) t a s
          → Agrees h (2 * i + 2) t c (f t)
          → Agrees (suc h) i t (either l r a c) (or_else s f)
      unfolding either or_else
      combine (some (o, b)) c (hit j t') f q p = Hit-left o b j t' q
      combine (some a) c (miss t') f q p = absurd q
      combine none c (hit j t') f q p = absurd q
      combine none c (miss t') f q p = rw q (combine_right c (f t) p)

  -- The search below an inner node whose root is marked agrees with first fit.
  pub split-Agrees :
      (h i off : ℕ) (l r : Buddy) (t : Tree)
      → IsBase base
      → Rep base (split l r) (suc (raise e h)) i t
      → (is_used l ≡ false
          → Agrees (raise e h) (2 * i + 1) t (alloc e h off l) (descend h (2 * i + 1) t))
      → (is_used r ≡ false
          → Agrees
              (raise e h)
              (2 * i + 2)
              t
              (alloc e h (off + blk heap_size_min (raise e h)) r)
              (descend h (2 * i + 2) t))
      → Agrees (suc (raise e h)) i t (alloc e (suc h) off (split l r)) (descend (suc h) i t)
  unfolding alloc descend
  split-Agrees h i off l r t ok rep go_l go_r = rw (mark_same t i rep.0) (
      combine (raise e h) i t rep.0 l r rep.1 rep.2 _ _ _ _
        (enter-Agrees (raise e h) i t rep.0 (2 * i + 1) l _ _
          (is_leaf-is_used base l (raise e h) (2 * i + 1) t ok rep.1) (no_room e h off l) go_l)
        (enter-Agrees (raise e h) i t rep.0 (2 * i + 2) r _ _
          (is_leaf-is_used base r (raise e h) (2 * i + 2) t ok rep.2)
          (no_room e h (off + blk heap_size_min (raise e h)) r) go_r))
