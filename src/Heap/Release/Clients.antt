-- ===== src/Heap/Release/Clients.antt =====
-- `free` of os/heap.c, as its caller sees it, and after `malloc`.
use multicore_rtos.Base.{
  ℕ, zero, suc, arith, ◌+◌, ◌^◌, ◌≤◌, ◌≡◌, refl, sym, ap, subst, Option, none, some, false,
  Bool-cases, inl, inr, ◌&&◌,
}
use multicore_rtos.Heap.{Heap, Ptr, null, malloc}
use multicore_rtos.Heap.Release as Code
use multicore_rtos.Heap.Buddy.{Buddy, free, used, split, is_free, is_used, raise, alloc, IsBase}
use multicore_rtos.Heap.Blocks.{blocks, Inserted, alloc-open}
use multicore_rtos.Heap.Refine.{Represents, Served, granted, refused, malloc-alloc}
use multicore_rtos.Heap.Release.Climb.{join, rejoin, release}
use multicore_rtos.Heap.Release.Given.{
  Absent, Gives, release-Gives, IsMerged, Leaves, release-Leaves,
}
use multicore_rtos.Heap.Release.Undo.{alloc-Undoes}
use multicore_rtos.Heap.Release.Outcome.{Freed, freed, unknown, free-release}

-- Between the calls: the lock is free, and no two free halves are left apart.
pub record Valid (h : Heap) (b : Buddy) : Type 0 where
  pub represents : Represents h b
  pub merged : IsMerged b
  pub unlocked : h.heap_lock ≡ 0

-- The block at `p` is given back, and the others stay.
pub record GivenBack (h : Heap) (b : Buddy) (p : Ptr) (h' : Heap) : Type 0 where
  pub offset : ℕ
  pub bytes : ℕ
  pub at : h.heap_ptr + offset ≡ p
  pub heap : Buddy
  pub valid : Valid h' heap
  pub removed : Inserted (offset, bytes) (blocks 0 10 heap) (blocks 0 10 b)

pub data Answer (h : Heap) (b : Buddy) (p : Ptr) : Option (ℕ × Heap) → Type 0 where
  given_back : {h' : Heap} → GivenBack h b p h' → Answer h b p (some (0, h'))
  not_found : Absent h.heap_ptr p (blocks 0 10 b) → Answer h b p (some (1, h))

join-open : (l r : Buddy) → is_used (join l r) ≡ false
join-open l r = elim (Bool-cases (is_free l && is_free r)) [ inl e ↦ rw e refl | inr e ↦ rw e refl ]

abbrev Opens : Option Buddy → Type 0
Opens none = Unit
Opens (some b) = is_used b ≡ false

rejoin-Opens : (l r : Buddy) (a c : Option Buddy) → Opens (rejoin l r a c)
unfolding rejoin
rejoin-Opens l r (some b) c = join-open b r
rejoin-Opens l r none (some b) = join-open l b
rejoin-Opens l r none none = tt

release-Opens :
    (p : Ptr) (h : ℕ) (a : Ptr) (b : Buddy) → is_used b ≡ false → Opens (release p h a b)
unfolding release
release-Opens p h a free q = tt
release-Opens p h a used q = cc
release-Opens p zero a (split l r) q = tt
release-Opens p (suc h) a (split l r) q = rejoin-Opens l r _ _

base_whole : (h : Heap) → h.heap_ptr + 0 ≡ h.heap_ptr
base_whole h = omega arith

unlock : (h : Heap) → h.heap_lock ≡ 0 → record h { heap_lock = 0 } ≡ h
unlock h e = ap (λ n. record h { heap_lock = n }) (sym e)

answer_of :
    (p : Ptr) (h : Heap) (b : Buddy) (a : Option Buddy) (r : Option (ℕ × Heap))
    → Valid h b
    → Gives h.heap_ptr p 0 10 b a
    → Leaves a
    → Opens a
    → Freed h a r
    → Answer h b p r
answer_of p h b (some b') r v (o, n, at, i) m q (freed rep) = given_back (record {
  offset = o;
  bytes = n;
  at = at;
  heap = b';
  valid = record {
    represents = record { base = v.represents.base; open_root = q; rep = rep };
    merged = m;
    unlocked = refl;
  };
  removed = i;
})
answer_of p h b none r v g m q (unknown e) = rw (e, unlock h v.unlocked) (not_found g)

-- From a state that represents an abstract heap which is not one single allocated block, whose free
-- halves are merged and whose lock is free, a call of `free` for any pointer ends. If a block is at
-- the pointer, it returns 0, and the blocks that are left are the others: the state again represents
-- an abstract heap of that kind, with the lock free. If not, it returns 1 and changes nothing.
pub free-Answer : (p : Ptr) (h : Heap) (b : Buddy) → Valid h b → Answer h b p (Code.free p h)
free-Answer p h b v =
    answer_of p h b (release p 10 h.heap_ptr b) _ v
      (rw (base_whole h) at (release-Gives h.heap_ptr p b 10 0))
      (release-Leaves p 10 h.heap_ptr b v.merged)
      (release-Opens p 10 h.heap_ptr b v.represents.open_root)
      (free-release p h b v.unlocked v.represents)

-- What follows a call of `malloc` that returned `p`: a call of `free` for `p` succeeds, and the
-- state stands for the abstract heap before both.
pub data Undone (h : Heap) (b : Buddy) : Option (Ptr × Heap) → Type 0 where
  taken :
      {p : Ptr} {h' : Heap} {b' : Buddy}
      → Valid h' b'
      → (h'' : Heap) → Code.free p h' ≡ some (0, h'')
      → Valid h'' b
      → Undone h b (some (p, h'))
  no_room : Undone h b (some (null, h))

Freed-again :
    (h : Heap) (b : Buddy) (r : Option (ℕ × Heap))
    → IsBase h.heap_ptr
    → is_used b ≡ false
    → IsMerged b
    → Freed h (some b) r
    → (h'' : Heap) × (r ≡ some (0, h'')) × Valid h'' b
Freed-again h b r ok open_root m (freed {t} rep) = (
  record h { heap_tree = t; heap_lock = 0 },
  refl,
  record {
    represents = record { base = ok; open_root = open_root; rep = rep };
    merged = m;
    unlocked = refl;
  },
)

Undone-of :
    (h : Heap) (b : Buddy) (e m : ℕ) {a : Option (ℕ × Buddy)} {r : Option (Ptr × Heap)}
    → raise e (suc m) ≡ 10
    → Valid h b
    → alloc e (suc m) 0 b ≡ a
    → Served h a r
    → Undone h b r
Undone-of h b e m top v found (granted {o} {b = b'} {t} rep) =
    let u = alloc-Undoes h.heap_ptr e (suc m) 0 b v.merged found in
    let h' : Heap = record h { heap_tree = t; heap_lock = 0 } in
    let v' : Valid h' b' = record {
      represents = record {
        base = v.represents.base;
        open_root = alloc-open e m 0 b o b' found;
        rep = rep;
      };
      merged = u.merged;
      unlocked = refl;
    } in
    let back : release (h.heap_ptr + o) 10 h.heap_ptr b' ≡ some b =
      rw (top, base_whole h) at u.undone in
    let again =
      subst (λ a. Freed h' a (Code.free (h.heap_ptr + o) h')) back
        (free-release (h.heap_ptr + o) h' b' refl v'.represents) in
    let (h'', e, w) = Freed-again h' b _ v.represents.base v.represents.open_root v.merged again in
    taken v' h'' e w
Undone-of h b e m top v found refused = rw (unlock h v.unlocked) no_room

-- From such a state, a call of `malloc` for at most half the heap that returns a block leaves a state
-- from which a call of `free` for that block returns 0 and leads back to a state that represents the
-- abstract heap from before both; a call that returns NULL changes nothing.
pub free-malloc :
    (size : ℕ) (h : Heap) (b : Buddy) → size ≤ 2 ^ 16 → Valid h b → Undone h b (malloc size h)
free-malloc size h b le v =
    let (l, s) = malloc-alloc size h b le v.represents in
    Undone-of h b l.height l.above l.top v refl s
