-- ===== src/Heap/Release/Climb.antt =====
-- `free` of os/heap.c, from the node that find_ptr returns: the block and the parents without an
-- allocated child become free, which is `release` on the abstract heap.
use multicore_rtos.Base.{
  ℕ, zero, suc, ◌+◌, ◌*◌, ◌≤◌, ◌≡◌, refl, sym, subst, ◌∙◌, ◌≢◌, inl, inr, Option, none, some, Bool,
  true, false, ◌&&◌, ◌||◌, not, arith, ◌==◌, ==_of_ne, Bool-cases, if◌then◌else◌, update,
  update_self, update_ne,
}
use multicore_rtos.Heap.{Ptr, Tree, null, heap_size_min, parent}
use multicore_rtos.Heap.Release.{free_parents}
use multicore_rtos.Heap.Descend.{blk}
use multicore_rtos.Heap.Under.{Under, Under-self, children_apart, not-Under-left, not-Under-right}
use multicore_rtos.Heap.Buddy.{
  Buddy, free, used, split, is_free, root_null, IsBase, Empty, Hollow, Hollow-frame, Empty-frame,
  update-Same-left, update-Same-right, Rep, Rep-frame,
}
use multicore_rtos.Heap.Alloc.{Placed, Placed-left, Placed-right, node_address-Placed}
use multicore_rtos.Heap.Release.Seek.{first, seek}

-- two free halves are one free block
abbrev pub join : Buddy → Buddy → Buddy
join l r = if is_free l && is_free r then free else split l r

unfoldable pub rejoin : Buddy → Buddy → Option Buddy → Option Buddy → Option Buddy
rejoin l r (some l') _ = some (join l' r)
rejoin l r none (some r') = some (join l r')
rejoin l r none none = none

-- The tree of height `h` at address `a`, without the block at `p`.
unfoldable pub release : Ptr → ℕ → Ptr → Buddy → Option Buddy
release p h a free = none
release p h a used = if a == p then some free else none
release p zero a (split l r) = none
release p (suc h) a (split l r) =
    rejoin l r (release p h a l) (release p h (a + blk heap_size_min h) r)

-- From node `j` the loop over the parents comes to node `i`, if that is free, or ends below it.
abbrev pub Climbed : Bool → ℕ → ℕ → Tree → ℕ → Tree → Type 0
Climbed true f j t i t' = (f' : ℕ) × (i ≤ f') × (free_parents f j t ≡ free_parents f' i t')
Climbed false f j t i t' = free_parents f j t ≡ t'

Empty-of_Hollow : (h i : ℕ) (t : Tree) → t i ≡ null → Hollow h i t → Empty h i t
Empty-of_Hollow zero i t e q = e
Empty-of_Hollow (suc h) i t e q = (e, q.0, q.1)

-- a round of the loop at the child `c` of `i`
parents_round :
    (f c i : ℕ) (t : Tree)
    → c ≢ 0
    → parent c ≡ i
    → free_parents (suc f) c t ≡ (
        if not (t (2 * i + 1) == null) || not (t (2 * i + 2) == null)
        then t
        else free_parents f i (update t i null))
unfolding free_parents
parents_round f c i t ne e = rw (e, ==_of_ne c 0 ne) refl

both_true : (a b : Bool) → (a && b) ≡ true → (a ≡ true) × (b ≡ true)
both_true true true e = (refl, refl)
both_true true false e = cc
both_true false b e = cc

module _ (base : Ptr) where
  Empty-of_Rep :
      (b : Buddy) (h i : ℕ) (t : Tree) → is_free b ≡ true → Rep base b h i t → Empty h i t
  Empty-of_Rep free h i t e rep = rep
  Empty-of_Rep used h i t e rep = cc
  Empty-of_Rep (split l r) h i t e rep = cc

  -- A subtree after the loop has dealt with it: it stands for `b`, and nothing else has changed.
  pub record Risen (h i j f : ℕ) (t : Tree) (b : Buddy) : Type 0 where
    pub tree : Tree
    pub rep : Rep base b h i tree
    pub outside : (k : ℕ) → (Under h i k → ⊥) → tree k ≡ t k
    pub climbed : Climbed (is_free b) f j (update t j null) i tree

  module _ (ok : IsBase base) where
    module _ (h i c f j : ℕ) (t t' : Tree) (l r : Buddy) (ne : c ≢ 0) (up : parent c ≡ i)
        (rep : Rep base (split l r) (suc h) i t')
        (outside : (k : ℕ) → (Under (suc h) i k → ⊥) → t' k ≡ t k) where
      test :
          not (t' (2 * i + 1) == null) || not (t' (2 * i + 2) == null)
          ≡ not (is_free l && is_free r)
      test =
          rw
            (root_null base l h (2 * i + 1) t' ok rep.1, root_null base r h (2 * i + 2) t' ok rep.2)
            (ground arith)

      -- the loop goes on to `i`: both its children are free
      merged :
          (is_free l && is_free r) ≡ true
          → Climbed true f j (update t j null) c t'
          → Risen (suc h) i j f t free
      merged both (zero, le, e) = absurd (omega arith)
      merged both (suc g, le, e) = record {
        tree = update t' i null;
        rep = (
          update_self t' i null,
          Empty-frame h (2 * i + 1) t' _ (update-Same-left h i null t')
              (Empty-of_Rep l h (2 * i + 1) t' (both_true _ _ both).0 rep.1),
          Empty-frame h (2 * i + 2) t' _ (update-Same-right h i null t')
              (Empty-of_Rep r h (2 * i + 2) t' (both_true _ _ both).1 rep.2),
        );
        outside = λ k n.
            update_ne t' i null (λ q. n (subst (Under (suc h) i) (sym q) (Under-self (suc h) i)))
            ∙ outside k n;
        climbed = (g, omega arith, e ∙ parents_round g c i t' ne up ∙ rw (test, both) refl);
      }

      -- the loop ends: a block below `i` is allocated
      stopped :
          (is_free l && is_free r) ≡ false
          → (b : Bool) → Climbed b f j (update t j null) c t'
          → Risen (suc h) i j f t (split l r)
      stopped shut true (zero, le, e) = absurd (omega arith)
      stopped shut true (suc g, le, e) = record {
        tree = t';
        rep = rep;
        outside = outside;
        climbed = e ∙ parents_round g c i t' ne up ∙ rw (test, shut) refl;
      }
      stopped shut false e = record { tree = t'; rep = rep; outside = outside; climbed = e }

      Risen-join :
          (b : Bool)
          → (b ≡ false → (is_free l && is_free r) ≡ false)
          → Climbed b f j (update t j null) c t'
          → Risen (suc h) i j f t (join l r)
      Risen-join true shut e = elim (Bool-cases (is_free l && is_free r)) [
        | inl both ↦ rw both (merged both e)
        | inr none_free ↦ rw none_free (stopped none_free true e)
      ]
      Risen-join false shut e = rw (shut refl) (stopped (shut refl) false e)

    module _ (h i j f : ℕ) (t : Tree) (l r : Buddy) (rep : Rep base (split l r) (suc h) i t) where
      Risen-left : (b : Buddy) → Risen h (2 * i + 1) j f t b → Risen (suc h) i j f t (join b r)
      Risen-left b q =
          Risen-join h i (2 * i + 1) f j t q.tree b r (omega arith) (omega arith)
            (
              q.outside i (not-Under-left h i) ∙ rep.0,
              q.rep,
              Rep-frame base r h (2 * i + 2) t q.tree
                  (λ k u. q.outside k (λ v. children_apart h h i k v u)) rep.2,
            )
            (λ k n. q.outside k (λ u. n (inr (inl u)))) (is_free b) (λ e. rw e refl) q.climbed

      Risen-right : (b : Buddy) → Risen h (2 * i + 2) j f t b → Risen (suc h) i j f t (join l b)
      Risen-right b q =
          Risen-join h i (2 * i + 2) f j t q.tree l b (omega arith) (omega arith)
            (
              q.outside i (not-Under-right h i) ∙ rep.0,
              Rep-frame base l h (2 * i + 1) t q.tree
                  (λ k u. q.outside k (λ v. children_apart h h i k u v)) rep.1,
              q.rep,
            )
            (λ k n. q.outside k (λ u. n (inr (inr u)))) (is_free b) (λ e. rw e (ground arith))
            q.climbed

    -- the node that is found, next to the abstract heap without its block
    abbrev pub Frees : ℕ → ℕ → Tree → Option ℕ → Option Buddy → Type 0
    Frees h i t (some j) (some b) = (i ≤ j) × ((f : ℕ) → j ≤ f → Risen h i j f t b)
    Frees h i t none none = Unit
    Frees h i t (some j) none = ⊥
    Frees h i t none (some b) = ⊥

    Frees-split :
        (h i : ℕ) (t : Tree) (l r : Buddy)
        → Rep base (split l r) (suc h) i t
        → (o o' : Option ℕ) (a a' : Option Buddy) → Frees h (2 * i + 1) t o a
        → Frees h (2 * i + 2) t o' a'
        → Frees (suc h) i t (first o o') (rejoin l r a a')
    unfolding rejoin
    Frees-split h i t l r rep (some j) o' (some b) a' p q =
        (omega (arith, p.0), λ f le. Risen-left h i j f t l r rep b (p.1 f le))
    Frees-split h i t l r rep (some j) o' none a' p q = absurd p
    Frees-split h i t l r rep none o' (some b) a' p q = absurd p
    Frees-split h i t l r rep none (some j) none (some b) p q =
        (omega (arith, q.0), λ f le. Risen-right h i j f t l r rep b (q.1 f le))
    Frees-split h i t l r rep none (some j) none none p q = absurd q
    Frees-split h i t l r rep none none none (some b) p q = absurd q
    Frees-split h i t l r rep none none none none p q = tt

    block-Risen : (h i f : ℕ) (t : Tree) → Rep base used h i t → i ≤ f → Risen h i i f t free
    block-Risen h i f t rep le = record {
      tree = update t i null;
      rep =
          Empty-of_Hollow h i _ (update_self t i null)
            (Hollow-frame h i t _ (λ k ne u. update_ne t i null ne) rep.1);
      outside = λ k n. update_ne t i null (λ q. n (subst (Under h i) (sym q) (Under-self h i)));
      climbed = (f, le, refl);
    }

    -- The node found and the loop over its parents do what `release` does.
    pub seek-release :
        (p : Ptr) (b : Buddy) (h i off : ℕ) (t : Tree)
        → Placed h i off
        → Rep base b h i t
        → Frees h i t (seek base p h i b) (release p h (base + off) b)
    unfolding seek release
    seek-release p free h i off t place rep = tt
    seek-release p used h i off t place rep =
        rw (node_address-Placed base h i off place) (elim (Bool-cases ((base + off) == p)) [
          | inl same ↦ rw same (omega arith, λ f le. block-Risen h i f t rep le)
          | inr other ↦ rw other tt
        ])
    seek-release p (split l r) zero i off t place rep = absurd rep
    seek-release p (split l r) (suc h) i off t place rep =
        let shifted : base + off + blk heap_size_min h ≡ base + (off + blk heap_size_min h) =
          omega arith in
        Frees-split h i t l r rep _ _ _ _
          (seek-release p l h (2 * i + 1) off t (Placed-left place) rep.1)
          (rw shifted (
            seek-release p r h (2 * i + 2) (off + blk heap_size_min h) t (Placed-right place)
              rep.2))
