-- ===== src/Heap/Release/Outcome.antt =====
-- `free` of os/heap.c as a whole, next to `release` on the abstract heap.
use multicore_rtos.Base.{
  ℕ, zero, suc, ◌+◌, ◌-◌, ◌*◌, ◌≤◌, ◌<◌, ◌≡◌, refl, sym, ap, ◌∙◌, ◌⊎◌, inl, inr, Option, none, some,
  Bool, true, false, arith, ◌==◌, ==_of_ne,
}
use native.Mathlib.Decide.{ℕ_discrete}
use multicore_rtos.Heap.{Heap, Ptr, Tree, branch_node, malloc_fuel, b_wait, b_signal}
use multicore_rtos.Heap.Release.{FindRound, index, free_found, free_parents, find_ptr, find_loop}
use multicore_rtos.Heap.Release as Code
use multicore_rtos.Heap.Descend.{cost}
use multicore_rtos.Heap.Buddy.{Buddy, free, used, split, is_free, IsBase, Rep}
use multicore_rtos.Heap.Refine.{Represents, root_Placed, cost-pow2}
use multicore_rtos.Heap.Release.Rounds.{Finds, visit, Finds-round, Finds-weaken, hit_round, go_on}
use multicore_rtos.Heap.Release.Seek.{found, first, seek, seek-Finds}
use multicore_rtos.Heap.Release.Given.{release_beyond}
use multicore_rtos.Heap.Release.Climb.{release, Climbed, Frees, seek-release}

-- What a call of `free` returns, by what `release` finds: 0 and a tree for the abstract heap
-- without the block, or 1 and the state as it was. The lock is free again.
pub data Freed (h : Heap) : Option Buddy → Option (ℕ × Heap) → Type 0 where
  freed :
      {b : Buddy} {t : Tree}
      → Rep h.heap_ptr b 10 0 t
      → Freed h (some b) (some (0, record h { heap_tree = t; heap_lock = 0 }))
  unknown : {h' : Heap} → h' ≡ record h { heap_lock = 0 } → Freed h none (some (1, h'))

go_on-found : (m : ℕ) (t : Tree) (p : Ptr) (o : Option ℕ) → go_on m t p (found 0 o) ≡ found 0 o
unfolding go_on
go_on-found m t p (some j) = refl
go_on-found m t p none = refl

-- The fuel is enough.
find_ptr-found :
    (t : Tree) (p : Ptr) (o : Option ℕ)
    → Finds t p (cost 10) (visit 0 0) (found 0 o)
    → find_ptr t p ≡ found 0 o
unfolding find_ptr
find_ptr-found t p o f =
    let fuel : f.rounds + (malloc_fuel - f.rounds) ≡ malloc_fuel =
      omega (arith, f.within, cost-pow2 10) in
    ap (λ n. find_loop n t p (visit 0 0)) (sym fuel)
    ∙ f.finds (malloc_fuel - f.rounds)
    ∙ go_on-found (malloc_fuel - f.rounds) t p o

free_parents-zero : (f : ℕ) (t : Tree) → free_parents f 0 t ≡ t
unfolding free_parents
free_parents-zero zero t = refl
free_parents-zero (suc f) t = refl

Climbed-root : (b : Bool) (f j : ℕ) (t t' : Tree) → Climbed b f j t 0 t' → free_parents f j t ≡ t'
Climbed-root true f j t t' (f', le, e) = e ∙ free_parents-zero f' t'
Climbed-root false f j t t' e = e

Freed-of :
    (h : Heap) (ok : IsBase h.heap_ptr) (o : Option ℕ) (a : Option Buddy)
    → ((j : ℕ) → o ≡ some j → 0 < j)
    → Frees h.heap_ptr ok 10 0 h.heap_tree o a
    → Freed h a (free_found (b_wait h) (found 0 o))
unfolding free_found b_wait b_signal
Freed-of h ok (some j) (some b) pos q =
    let s = q.1 j (omega arith) in
    let e = Climbed-root (is_free b) j j _ s.tree s.climbed in
    let ne : (j == 0) ≡ false = ==_of_ne j 0 (λ z. absurd (omega (arith, pos j refl))) in
    rw (ne, e) (freed s.rep)
Freed-of h ok (some j) none pos q = absurd q
Freed-of h ok none (some b) pos q = absurd q
Freed-of h ok none none pos q = unknown refl

module _ (base : Ptr) (p : Ptr) where
  first-cases : (o o' : Option ℕ) (j : ℕ) → first o o' ≡ some j → (o ≡ some j) ⊎ (o' ≡ some j)
  first-cases (some k) o' j e = inl e
  first-cases none o' j e = inr e

  seek-ge : (b : Buddy) (h i j : ℕ) → seek base p h i b ≡ some j → i ≤ j
  unfolding seek
  seek-ge free h i j e = cc
  seek-ge used h i j e = ground arith
  seek-ge (split l r) zero i j e = cc
  seek-ge (split l r) (suc h) i j e =
      elim (first-cases (seek base p h (2 * i + 1) l) (seek base p h (2 * i + 2) r) j e) [
        | inl q ↦ omega (arith, seek-ge l h (2 * i + 1) j q)
        | inr q ↦ omega (arith, seek-ge r h (2 * i + 2) j q)
      ]

  seek-pos : (h j : ℕ) (l r : Buddy) → seek base p (suc h) 0 (split l r) ≡ some j → 0 < j
  unfolding seek
  seek-pos h j l r e = elim (first-cases (seek base p h 1 l) (seek base p h 2 r) j e) [
    | inl q ↦ omega (arith, seek-ge l h 1 j q)
    | inr q ↦ omega (arith, seek-ge r h 2 j q)
  ]

-- a call for a heap with an allocated block
free-split :
    (p : Ptr) (h : Heap) (l r : Buddy)
    → IsBase h.heap_ptr
    → Rep h.heap_ptr (split l r) 10 0 h.heap_tree
    → Freed h (release p 10 h.heap_ptr (split l r)) (free_found (b_wait h) (find_ptr h.heap_tree p))
free-split p h l r ok rep = elim (ℕ_discrete p branch_node) [
  | yes e ↦
      let at_root = hit_round h.heap_tree p 0 0 (rep.0 ∙ sym e) in
      let none_there = release_beyond p (split l r) 10 h.heap_ptr (omega (arith, ok.1)) in
      rw
        (
          find_ptr-found h.heap_tree p none
              (Finds-weaken _ _ (Finds-round h.heap_tree p at_root) (omega arith)),
          none_there,
        )
        (Freed-of h ok none none (λ j. cc) tt)
  | no ne ↦
      let whole : h.heap_ptr + 0 ≡ h.heap_ptr = omega arith in
      rw
        (find_ptr-found h.heap_tree p _ (
          seek-Finds h.heap_ptr h.heap_tree p ok ne (split l r) 10 0 0 (omega arith) (omega arith)
            (omega arith) rep refl))
        (Freed-of h ok _ _ (λ j. seek-pos h.heap_ptr p 9 j l r)
          (rw whole at
            (seek-release h.heap_ptr ok p (split l r) 10 0 0 h.heap_tree root_Placed rep)))
]

-- Where the state represents an abstract heap which is not one single allocated block and the lock is
-- free, a call of `free` for any pointer ends and does what `release` does on that heap.
pub free-release :
    (p : Ptr) (h : Heap) (b : Buddy)
    → h.heap_lock ≡ 0
    → Represents h b
    → Freed h (release p 10 h.heap_ptr b) (Code.free p h)
unfolding Code.free release
free-release p h free unlocked v =
    rw (v.rep.0, release) (unknown (ap (λ n. record h { heap_lock = n }) unlocked))
free-release p h used unlocked v = absurd (not_open v.open_root)
  where
    not_open : true ≡ false → ⊥
    not_open e = cc
free-release p h (split l r) unlocked v = rw v.rep.0 (free-split p h l r v.base v.rep)
