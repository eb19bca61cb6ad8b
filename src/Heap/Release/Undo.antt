-- ===== src/Heap/Release/Undo.antt =====
-- `release` undoes first fit, and both keep an abstract heap merged.
use multicore_rtos.Base.{
  ℕ, zero, suc, ◌+◌, ◌≤◌, ◌<◌, ◌≡◌, refl, Option, none, some, true, false, arith, ◌==◌,
}
use multicore_rtos.Heap.{Ptr, heap_size_min}
use multicore_rtos.Heap.Descend.{blk}
use multicore_rtos.Heap.Buddy.{Buddy, free, used, split, is_free, raise, either, alloc}
use multicore_rtos.Heap.Alloc.{blk_pos}
use multicore_rtos.Heap.Release.Climb.{join, rejoin, release}
use multicore_rtos.Heap.Release.Given.{IsMerged, release_beyond}

module _ (base : Ptr) where
  -- the offset found lies in the tree, and the release of the block there gives `b` back
  pub record Undoes (h off : ℕ) (b : Buddy) (o : ℕ) (b' : Buddy) : Type 0 where
    pub low : off ≤ o
    pub high : o < off + blk heap_size_min h
    pub taken : is_free b' ≡ false
    pub merged : IsMerged b'
    pub undone : release (base + o) h (base + off) b' ≡ some b

  abbrev Undone : ℕ → ℕ → Buddy → Option (ℕ × Buddy) → Type 0
  Undone h off b none = Unit
  Undone h off b (some (o, b')) = Undoes h off b o b'

  either-Undone :
      (h off : ℕ) (l r : Buddy) (a c : Option (ℕ × Buddy))
      → IsMerged l
      → IsMerged r
      → Undone h off l a
      → Undone h (off + blk heap_size_min h) r c
      → Undone (suc h) off (join l r) (either l r a c)
  unfolding either release rejoin
  either-Undone h off l r (some (o, b)) c ml mr p q = record {
    low = p.low;
    high = omega (arith, p.high);
    taken = refl;
    merged = (rw p.taken refl, p.merged, mr);
    undone = rw p.undone refl;
  }
  either-Undone h off l r none (some (o, b)) ml mr p q =
      let before = release_beyond (base + o) l h (base + off) (omega (arith, q.low)) in
      let shifted : base + off + blk heap_size_min h ≡ base + (off + blk heap_size_min h) =
        omega arith in
      record {
        low = omega (arith, q.low);
        high = omega (arith, q.high);
        taken = refl;
        merged = (rw q.taken (ground arith), ml, q.merged);
        undone = rw (before, shifted, q.undone) refl;
      }
  either-Undone h off l r none none ml mr p q = tt

  alloc-Undone : (e h off : ℕ) (b : Buddy) → IsMerged b → Undone (raise e h) off b (alloc e h off b)
  unfolding alloc release
  alloc-Undone e zero off free m =
      let same : ((base + off) == (base + off)) ≡ true = ground arith in
      record {
        low = omega arith;
        high = omega (arith, blk_pos e);
        taken = refl;
        merged = tt;
        undone = rw same refl;
      }
  alloc-Undone e zero off used m = tt
  alloc-Undone e zero off (split l r) m = tt
  alloc-Undone e (suc h) off used m = tt
  alloc-Undone e (suc h) off free m =
      either-Undone (raise e h) off free free _ _ tt tt (alloc-Undone e h off free tt)
        (alloc-Undone e h _ free tt)
  alloc-Undone e (suc h) off (split l r) m =
      let whole : join l r ≡ split l r = rw m.0 refl in
      rw whole at (
        either-Undone (raise e h) off l r _ _ m.1 m.2 (alloc-Undone e h off l m.1)
          (alloc-Undone e h _ r m.2))

  -- What first fit takes from a merged heap, `release` gives back.
  pub alloc-Undoes :
      (e h off : ℕ) (b : Buddy) {o : ℕ} {b' : Buddy}
      → IsMerged b
      → alloc e h off b ≡ some (o, b')
      → Undoes (raise e h) off b o b'
  alloc-Undoes e h off b m q = rw q at (alloc-Undone e h off b m)
