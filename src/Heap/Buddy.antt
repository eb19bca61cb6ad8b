-- ===== src/Heap/Buddy.antt =====
-- The abstract heap: a binary tree of blocks, and how heap_tree represents one.
use multicore_rtos.Base.{
  ℕ, zero, suc, ◌+◌, ◌*◌, ◌≤◌, ◌<◌, ◌≡◌, refl, ◌≢◌, ◌∙◌, subst, inl, inr, Option, none, some, Bool,
  true, false, arith, ◌==◌, update, update_ne,
}
use multicore_rtos.Heap.{
  Ptr, Tree, null, branch_node, heap_size, heap_size_min, is_leaf, block_address,
}
use multicore_rtos.Heap.Descend.{blk}
use multicore_rtos.Heap.Under.{Under, Under-self, not-Under-left, not-Under-right}

pub data Buddy : Type 0 where
  free : Buddy
  used : Buddy
  split : Buddy → Buddy → Buddy

abbrev pub is_used : Buddy → Bool
is_used used = true
is_used _ = false

abbrev pub is_free : Buddy → Bool
is_free free = true
is_free _ = false

-- `h` levels above a height
abbrev pub raise : ℕ → ℕ → ℕ
raise e zero = e
raise e (suc h) = suc (raise e h)

-- the first of two children that has room
unfoldable pub either : Buddy → Buddy → Option (ℕ × Buddy) → Option (ℕ × Buddy) → Option (ℕ × Buddy)
either l r (some (o, l')) _ = some (o, split l' r)
either l r none (some (o, r')) = some (o, split l r')
either l r none none = none

-- First fit: the offset of a block of height `e`, in a tree of height `raise e h` at `off`.
unfoldable pub alloc : ℕ → ℕ → ℕ → Buddy → Option (ℕ × Buddy)
unfolding either
alloc e zero off free = some (off, used)
alloc e zero off _ = none
alloc e (suc h) off used = none
alloc e (suc h) off free =
    either free free (alloc e h off free) (alloc e h (off + blk heap_size_min (raise e h)) free)
alloc e (suc h) off (split l r) =
    either l r (alloc e h off l) (alloc e h (off + blk heap_size_min (raise e h)) r)

-- All nodes of the subtree are null.
abbrev pub Empty : ℕ → ℕ → Tree → Type 0
Empty zero i t = t i ≡ null
Empty (suc h) i t = (t i ≡ null) × Empty h (2 * i + 1) t × Empty h (2 * i + 2) t

-- All nodes below the root of the subtree are null.
abbrev pub Hollow : ℕ → ℕ → Tree → Type 0
Hollow zero i t = Unit
Hollow (suc h) i t = Empty h (2 * i + 1) t × Empty h (2 * i + 2) t

-- The bytes of heap[] lie between the null pointer and 0xFFFFFFFF.
abbrev pub IsBase : Ptr → Type 0
IsBase base = (0 < base) × (base + heap_size ≤ branch_node)

-- the address of node `i`, whose subtree has height `h`
abbrev pub node_address : Ptr → ℕ → ℕ → Ptr
node_address base h i = block_address base i (blk heap_size_min h)

module _ (base : Ptr) where
  abbrev pub Rep : Buddy → ℕ → ℕ → Tree → Type 0
  Rep free h i t = Empty h i t
  Rep used h i t = (t i ≡ node_address base h i) × Hollow h i t
  Rep (split l r) zero i t = ⊥
  Rep (split l r) (suc h) i t = (t i ≡ branch_node) × Rep l h (2 * i + 1) t × Rep r h (2 * i + 2) t

-- two trees that agree on a subtree
abbrev pub Same : ℕ → ℕ → Tree → Tree → Type 0
Same h i t t' = (j : ℕ) → Under h i j → t' j ≡ t j

pub Same-left : (h i : ℕ) {t t' : Tree} → Same (suc h) i t t' → Same h (2 * i + 1) t t'
Same-left h i s j u = s j (inr (inl u))

pub Same-right : (h i : ℕ) {t t' : Tree} → Same (suc h) i t t' → Same h (2 * i + 2) t t'
Same-right h i s j u = s j (inr (inr u))

-- A write to a node leaves the subtrees below it.
pub update-Same-left : (h i v : ℕ) (t : Tree) → Same h (2 * i + 1) t (update t i v)
update-Same-left h i v t j u =
    update_ne t i v (λ q. not-Under-left h i (subst (Under h (2 * i + 1)) q u))

pub update-Same-right : (h i v : ℕ) (t : Tree) → Same h (2 * i + 2) t (update t i v)
update-Same-right h i v t j u =
    update_ne t i v (λ q. not-Under-right h i (subst (Under h (2 * i + 2)) q u))

pub Empty-frame : (h i : ℕ) (t t' : Tree) → Same h i t t' → Empty h i t → Empty h i t'
Empty-frame zero i t t' s e = s i (Under-self zero i) ∙ e
Empty-frame (suc h) i t t' s e = (
  s i (Under-self (suc h) i) ∙ e.0,
  Empty-frame h (2 * i + 1) t t' (λ j u. s j (inr (inl u))) e.1,
  Empty-frame h (2 * i + 2) t t' (λ j u. s j (inr (inr u))) e.2,
)

pub Hollow-frame :
    (h i : ℕ) (t t' : Tree)
    → ((j : ℕ) → j ≢ i → Under h i j → t' j ≡ t j)
    → Hollow h i t
    → Hollow h i t'
Hollow-frame zero i t t' s e = tt
Hollow-frame (suc h) i t t' s e = (
  Empty-frame h (2 * i + 1) t t'
      (λ j u. s j (λ q. not-Under-left h i (subst (Under h (2 * i + 1)) q u)) (inr (inl u))) e.0,
  Empty-frame h (2 * i + 2) t t'
      (λ j u. s j (λ q. not-Under-right h i (subst (Under h (2 * i + 2)) q u)) (inr (inr u))) e.1,
)

-- What a subtree stands for depends on its own nodes only.
pub Rep-frame :
    (base : Ptr) (b : Buddy) (h i : ℕ) (t t' : Tree)
    → Same h i t t'
    → Rep base b h i t
    → Rep base b h i t'
Rep-frame base free h i t t' s e = Empty-frame h i t t' s e
Rep-frame base used h i t t' s e =
    (s i (Under-self h i) ∙ e.0, Hollow-frame h i t t' (λ j ne u. s j u) e.1)
Rep-frame base (split l r) zero i t t' s e = absurd e
Rep-frame base (split l r) (suc h) i t t' s e = (
  s i (Under-self (suc h) i) ∙ e.0,
  Rep-frame base l h (2 * i + 1) t t' (λ j u. s j (inr (inl u))) e.1,
  Rep-frame base r h (2 * i + 2) t t' (λ j u. s j (inr (inr u))) e.2,
)

pub node_address_bounds :
    (base h i : ℕ) → (base ≤ node_address base h i) × (node_address base h i < base + heap_size)
unfolding block_address
node_address_bounds base h i = omega arith

-- A node is an allocated block exactly when its subtree stands for one.
pub is_leaf-is_used :
    (base : Ptr) (b : Buddy) (h i : ℕ) (t : Tree)
    → IsBase base
    → Rep base b h i t
    → is_leaf (t i) ≡ is_used b
is_leaf-is_used base free zero i t ok rep = rw rep
is_leaf-is_used base free (suc h) i t ok rep = rw rep.0
is_leaf-is_used base used h i t ok rep = rw rep.0 (ground (arith, node_address_bounds base h i))
is_leaf-is_used base (split l r) zero i t ok rep = absurd rep
is_leaf-is_used base (split l r) (suc h) i t ok rep = rw rep.0

pub Empty-root : (h i : ℕ) (t : Tree) → Empty h i t → t i ≡ null
Empty-root zero i t e = e
Empty-root (suc h) i t e = e.0

pub Hollow-of_Empty : (h i : ℕ) (t : Tree) → Empty h i t → Hollow h i t
Hollow-of_Empty zero i t e = tt
Hollow-of_Empty (suc h) i t e = (e.1, e.2)

pub alloc-used : (e h off : ℕ) → alloc e h off used ≡ none
unfolding alloc
alloc-used e zero off = refl
alloc-used e (suc h) off = refl

pub alloc-free : (e h off : ℕ) → (o : ℕ) × (b : Buddy) × (alloc e h off free ≡ some (o, b))
unfolding alloc
alloc-free e zero off = (off, used, refl)
alloc-free e (suc h) off = let (o, b, q) = alloc-free e h off in (o, split b free, rw (q, either))

-- A node is null exactly when its subtree is free.
module _ (base : Ptr) where
  pub root_null :
      (b : Buddy) (h i : ℕ) (t : Tree) → IsBase base → Rep base b h i t → (t i == null) ≡ is_free b
  root_null free h i t ok rep = rw (Empty-root h i t rep) refl
  root_null used h i t ok rep = ground (arith, node_address_bounds base h i)
  root_null (split l r) zero i t ok rep = absurd rep
  root_null (split l r) (suc h) i t ok rep = rw rep.0 refl
