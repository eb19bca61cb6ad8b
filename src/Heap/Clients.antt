-- ===== src/Heap/Clients.antt =====
-- `malloc` of os/heap.c, as its caller sees it: in terms of the blocks that are allocated.
use multicore_rtos.Base.{ℕ, suc, ◌+◌, ◌^◌, ◌≤◌, ◌≡◌, refl, subst, Option, some, false}
use multicore_rtos.Heap.{Heap, Ptr, null, heap_size, heap_size_min, malloc}
use multicore_rtos.Heap.Descend.{blk}
use multicore_rtos.Heap.Size.{Level}
use multicore_rtos.Heap.Buddy.{Buddy, alloc, Rep}
use multicore_rtos.Heap.Refine.{Represents, Served, granted, refused, malloc-alloc}
use multicore_rtos.Heap.Blocks.{
  blocks, Ordered, blocks-Ordered, Inserted, Adds, alloc-Adds, alloc-open, has_room, alloc-has_room,
}

-- A new block of `n` bytes at `p`: the state stands for the abstract heap with it, all blocks lie in
-- the heap without an overlap, and the others are those from before.
pub record Fresh (h : Heap) (b : Buddy) (size : ℕ) (p : Ptr) (h' : Heap) : Type 0 where
  pub offset : ℕ
  pub bytes : ℕ
  pub at : p ≡ h.heap_ptr + offset
  pub enough : size ≤ bytes
  pub heap : Buddy
  pub valid : Represents h' heap
  pub added : Inserted (offset, bytes) (blocks 0 10 b) (blocks 0 10 heap)
  pub apart : Ordered 0 heap_size (blocks 0 10 heap)
  pub unlocked : h'.heap_lock ≡ 0

-- a refusal: no block of the height is free, and nothing has changed
pub record Full (h : Heap) (b : Buddy) (l : ℕ) (p : Ptr) (h' : Heap) : Type 0 where
  pub null_returned : p ≡ null
  pub no_room : has_room l b ≡ false
  pub unchanged : h' ≡ record h { heap_lock = 0 }

pub data Answer (h : Heap) (b : Buddy) (size : ℕ) : Option (Ptr × Heap) → Type 0 where
  fresh : {p : Ptr} {h' : Heap} → Fresh h b size p h' → Answer h b size (some (p, h'))
  full :
      {p : Ptr} {h' : Heap} (l : Level size)
      → Full h b (suc l.above) p h'
      → Answer h b size (some (p, h'))

Fresh-of :
    (size : ℕ) (h : Heap) (b : Buddy) (l : Level size) (o : ℕ) (b' : Buddy) (t : ℕ → ℕ)
    → Represents h b
    → alloc l.height (suc l.above) 0 b ≡ some (o, b')
    → Rep h.heap_ptr b' 10 0 t
    → Fresh h b size (h.heap_ptr + o) (record h { heap_tree = t; heap_lock = 0 })
Fresh-of size h b l o b' t r found rep = record {
  offset = o;
  bytes = blk heap_size_min l.height;
  at = refl;
  enough = l.enough;
  heap = b';
  valid = record {
    base = r.base;
    open_root = alloc-open l.height l.above 0 b o b' found;
    rep = rep;
  };
  added =
      subst (λ H. Adds l.height 0 H b (some (o, b'))) l.top
        (rw found at (alloc-Adds l.height (suc l.above) 0 b));
  apart = blocks-Ordered 0 10 b';
  unlocked = refl;
}

answer_of :
    (size : ℕ) (h : Heap) (b : Buddy) (l : Level size) {a : Option (ℕ × Buddy)}
    {r : Option (Ptr × Heap)}
    → Represents h b
    → alloc l.height (suc l.above) 0 b ≡ a
    → Served h a r
    → Answer h b size r
answer_of size h b l r found (granted {o} {b = b'} {t} rep) =
    fresh (Fresh-of size h b l o b' t r found rep)
answer_of size h b l r found refused = full l (record {
  null_returned = refl;
  no_room = alloc-has_room l.height (suc l.above) 0 b found;
  unchanged = refl;
})

-- From a state that represents an abstract heap, a call of `malloc` for at most half the heap
-- returns either a block of at least the wanted size such that the blocks allocated now are those
-- from before and this one, all inside the heap and without an overlap, with the new state again
-- representing an abstract heap; or NULL, when no free block is large enough, with the state
-- unchanged but for the lock, which is free.
pub malloc-Answer :
    (size : ℕ) (h : Heap) (b : Buddy)
    → size ≤ 2 ^ 16
    → Represents h b
    → Answer h b size (malloc size h)
malloc-Answer size h b le r =
    let (l, s) = malloc-alloc size h b le r in answer_of size h b l r refl s
