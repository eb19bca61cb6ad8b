-- ===== src/Heap/Release/Given.antt =====
-- What `release` does to the blocks of the abstract heap.
use multicore_rtos.Base.{
  ℕ, zero, suc, ◌+◌, ◌≤◌, ◌≡◌, refl, ◌≢◌, inl, inr, Option, none, some, true, false, ◌&&◌, List, [],
  ◌∷◌, ◌++◌, arith, ◌==◌, Bool-cases, ==_of_ne,
}
use native.Mathlib.Decide.{ℕ_discrete}
use multicore_rtos.Heap.{Ptr, heap_size_min}
use multicore_rtos.Heap.Descend.{blk}
use multicore_rtos.Heap.Buddy.{Buddy, free, used, split, is_free}
use multicore_rtos.Heap.Blocks.{blocks, Inserted, Inserted-left, Inserted-right}
use multicore_rtos.Heap.Alloc.{blk_pos}
use multicore_rtos.Heap.Release.Climb.{join, rejoin, release}

blocks-join :
    (off h : ℕ) (l r : Buddy) → blocks off (suc h) (join l r) ≡ blocks off (suc h) (split l r)
unfolding blocks
blocks-join off h free free = refl
blocks-join off h free used = refl
blocks-join off h free (split a b) = refl
blocks-join off h used r = refl
blocks-join off h (split a b) r = refl

module _ (base p : Ptr) where
  -- no block is at `p`
  abbrev pub Absent : List (ℕ × ℕ) → Type 0
  Absent [] = Unit
  Absent ((o, s) ∷ xs) = (base + o ≢ p) × Absent xs

  Absent-append : (xs ys : List (ℕ × ℕ)) → Absent xs → Absent ys → Absent (xs ++ ys)
  Absent-append [] ys q s = s
  Absent-append (x ∷ xs) ys q s = (q.0, Absent-append xs ys q.1 s)

  abbrev pub Gives : ℕ → ℕ → Buddy → Option Buddy → Type 0
  Gives off h b (some b') =
      (o : ℕ) × (n : ℕ) × (base + o ≡ p) × Inserted (o, n) (blocks off h b') (blocks off h b)
  Gives off h b none = Absent (blocks off h b)

  rejoin-Gives :
      (off h : ℕ) (l r : Buddy) (a c : Option Buddy)
      → Gives off h l a
      → Gives (off + blk heap_size_min h) h r c
      → Gives off (suc h) (split l r) (rejoin l r a c)
  unfolding rejoin blocks
  rejoin-Gives off h l r (some b) c (o, n, at, i) q = (
    o,
    n,
    at,
    rw (blocks-join off h b r) (Inserted-left (blocks (off + blk heap_size_min h) h r) i),
  )
  rejoin-Gives off h l r none (some b) q (o, n, at, i) =
      (o, n, at, rw (blocks-join off h l b) (Inserted-right (blocks off h l) i))
  rejoin-Gives off h l r none none q s = Absent-append _ _ q s

  -- The one block that goes is the one at `p`; without such a block there is no result.
  pub release-Gives : (b : Buddy) (h off : ℕ) → Gives off h b (release p h (base + off) b)
  unfolding release blocks
  release-Gives free h off = tt
  release-Gives used h off = elim (ℕ_discrete (base + off) p) [
    | yes at ↦
        let e : ((base + off) == p) ≡ true = ground arith in
        rw e
          (off, blk heap_size_min h, at, record { before = []; after = []; old = refl; new = refl })
    | no ne ↦ rw (==_of_ne (base + off) p ne) (ne, tt)
  ]
  release-Gives (split l r) zero off = tt
  release-Gives (split l r) (suc h) off =
      let shifted : base + off + blk heap_size_min h ≡ base + (off + blk heap_size_min h) =
        omega arith in
      rejoin-Gives off h l r _ _ (release-Gives l h off) (rw shifted (release-Gives r h _))

-- no node has two free children
abbrev pub IsMerged : Buddy → Type 0
IsMerged free = Unit
IsMerged used = Unit
IsMerged (split l r) = ((is_free l && is_free r) ≡ false) × IsMerged l × IsMerged r

join-IsMerged : (l r : Buddy) → IsMerged l → IsMerged r → IsMerged (join l r)
join-IsMerged free free p q = tt
join-IsMerged free used p q = (refl, p, q)
join-IsMerged free (split a b) p q = (refl, p, q)
join-IsMerged used r p q = (refl, p, q)
join-IsMerged (split a b) r p q = (refl, p, q)

abbrev pub Leaves : Option Buddy → Type 0
Leaves none = Unit
Leaves (some b) = IsMerged b

rejoin-Leaves :
    (l r : Buddy) (a c : Option Buddy)
    → IsMerged l
    → IsMerged r
    → Leaves a
    → Leaves c
    → Leaves (rejoin l r a c)
unfolding rejoin
rejoin-Leaves l r (some b) c ml mr p q = join-IsMerged b r p mr
rejoin-Leaves l r none (some b) ml mr p q = join-IsMerged l b ml q
rejoin-Leaves l r none none ml mr p q = tt

pub release-Leaves : (p : Ptr) (h : ℕ) (a : Ptr) (b : Buddy) → IsMerged b → Leaves (release p h a b)
unfolding release
release-Leaves p h a free m = tt
release-Leaves p h a used m = elim (Bool-cases (a == p)) [ inl e ↦ rw e tt | inr e ↦ rw e tt ]
release-Leaves p zero a (split l r) m = tt
release-Leaves p (suc h) a (split l r) m =
    rejoin-Leaves l r _ _ m.1 m.2 (release-Leaves p h a l m.1) (release-Leaves p h _ r m.2)

-- A block at `p` is in no tree that ends before `p` or starts after it.
module _ (p : Ptr) where
  pub release_beyond : (b : Buddy) (h a : ℕ) → a + blk heap_size_min h ≤ p → release p h a b ≡ none
  unfolding release rejoin
  release_beyond free h a le = refl
  release_beyond used h a le = rw (==_of_ne a p (λ e. absurd (omega (arith, blk_pos h)))) refl
  release_beyond (split l r) zero a le = refl
  release_beyond (split l r) (suc h) a le =
      rw
        (
          release_beyond l h a (omega arith),
          release_beyond r h (a + blk heap_size_min h) (omega arith),
        )
        refl
