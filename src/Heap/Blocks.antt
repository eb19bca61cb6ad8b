-- ===== src/Heap/Blocks.antt =====
-- The allocated blocks of the abstract heap, in the order of their addresses.
use multicore_rtos.Base.{
  ℕ, zero, suc, ◌+◌, ◌≤◌, ◌<◌, ◌≡◌, refl, sym, Option, none, some, Bool, true, false, ◌||◌, List,
  [], ◌∷◌, ◌++◌, arith,
}
use mathlib.Core.List.{append_assoc}
use multicore_rtos.Heap.{heap_size_min}
use multicore_rtos.Heap.Descend.{blk}
use multicore_rtos.Heap.Alloc.{blk_pos}
use multicore_rtos.Heap.Buddy.{Buddy, free, used, split, is_used, raise, either, alloc}

-- Offset and size of each allocated block of a tree of height `h` at `off`.
unfoldable pub blocks : ℕ → ℕ → Buddy → List (ℕ × ℕ)
blocks off h free = []
blocks off h used = (off, blk heap_size_min h) ∷ []
blocks off zero (split l r) = []
blocks off (suc h) (split l r) = blocks off h l ++ blocks (off + blk heap_size_min h) h r

-- Blocks between `lo` and `hi` that do not overlap, in the order of their addresses.
abbrev pub Ordered : ℕ → ℕ → List (ℕ × ℕ) → Type 0
Ordered lo hi [] = lo ≤ hi
Ordered lo hi ((o, s) ∷ xs) = (lo ≤ o) × (0 < s) × Ordered (o + s) hi xs

Ordered-le : (lo hi : ℕ) (xs : List (ℕ × ℕ)) → Ordered lo hi xs → lo ≤ hi
Ordered-le lo hi [] h = h
Ordered-le lo hi ((o, s) ∷ xs) h = omega (arith, h.0, Ordered-le (o + s) hi xs h.2)

Ordered-weaken :
    (lo lo' hi : ℕ) (xs : List (ℕ × ℕ)) → lo ≤ lo' → Ordered lo' hi xs → Ordered lo hi xs
Ordered-weaken lo lo' hi [] le h = omega arith
Ordered-weaken lo lo' hi ((o, s) ∷ xs) le h = (omega (arith, h.0), h.1, h.2)

Ordered-append :
    (lo mid hi : ℕ) (xs ys : List (ℕ × ℕ))
    → Ordered lo mid xs
    → Ordered mid hi ys
    → Ordered lo hi (xs ++ ys)
Ordered-append lo mid hi [] ys h k = Ordered-weaken lo mid hi ys h k
Ordered-append lo mid hi ((o, s) ∷ xs) ys h k =
    (h.0, h.1, Ordered-append (o + s) mid hi xs ys h.2 k)

-- The blocks of every abstract heap lie inside it and do not overlap.
pub blocks-Ordered :
    (off h : ℕ) (b : Buddy) → Ordered off (off + blk heap_size_min h) (blocks off h b)
unfolding blocks
blocks-Ordered off h free = omega arith
blocks-Ordered off h used = (omega arith, blk_pos h, omega arith)
blocks-Ordered off zero (split l r) = omega arith
blocks-Ordered off (suc h) (split l r) =
    let e : off + blk heap_size_min h + blk heap_size_min h ≡ off + blk heap_size_min (suc h) =
      omega arith in
    Ordered-append off (off + blk heap_size_min h) _ (blocks off h l) _ (blocks-Ordered off h l)
      (rw e at (blocks-Ordered (off + blk heap_size_min h) h r))

-- `ys` is `xs` with `x` put in somewhere.
pub record Inserted (x : ℕ × ℕ) (xs ys : List (ℕ × ℕ)) : Type 0 where
  pub before : List (ℕ × ℕ)
  pub after : List (ℕ × ℕ)
  pub old : xs ≡ before ++ after
  pub new : ys ≡ before ++ (x ∷ after)

pub Inserted-left :
    {x : ℕ × ℕ} {xs ys : List (ℕ × ℕ)} (zs : List (ℕ × ℕ))
    → Inserted x xs ys
    → Inserted x (xs ++ zs) (ys ++ zs)
Inserted-left zs i = record {
  before = i.before;
  after = i.after ++ zs;
  old = rw i.old (append_assoc i.before i.after zs);
  new = rw i.new (append_assoc i.before _ zs);
}

pub Inserted-right :
    {x : ℕ × ℕ} {xs ys : List (ℕ × ℕ)} (zs : List (ℕ × ℕ))
    → Inserted x xs ys
    → Inserted x (zs ++ xs) (zs ++ ys)
Inserted-right zs i = record {
  before = zs ++ i.before;
  after = i.after;
  old = rw i.old (sym (append_assoc zs i.before i.after));
  new = rw i.new (sym (append_assoc zs i.before _));
}

module _ (e : ℕ) where
  abbrev pub Adds : ℕ → ℕ → Buddy → Option (ℕ × Buddy) → Type 0
  Adds off h b none = Unit
  Adds off h b (some (o, b')) = Inserted (o, blk heap_size_min e) (blocks off h b) (blocks off h b')

  either-Adds :
      (off h : ℕ) (l r : Buddy) (a c : Option (ℕ × Buddy))
      → Adds off h l a
      → Adds (off + blk heap_size_min h) h r c
      → Adds off (suc h) (split l r) (either l r a c)
  unfolding either blocks
  either-Adds off h l r none none p q = tt
  either-Adds off h l r none (some (o, b)) p q = Inserted-right (blocks off h l) q
  either-Adds off h l r (some (o, b)) c p q =
      Inserted-left (blocks (off + blk heap_size_min h) h r) p

  Adds-start :
      (off h : ℕ) (a : Option (ℕ × Buddy))
      → Adds off (suc h) (split free free) a
      → Adds off (suc h) free a
  unfolding blocks
  Adds-start off h none p = tt
  Adds-start off h (some (o, b)) p = p

  -- First fit adds one block of the wanted height and leaves all others.
  pub alloc-Adds : (h off : ℕ) (b : Buddy) → Adds off (raise e h) b (alloc e h off b)
  unfolding alloc blocks
  alloc-Adds zero off free = record { before = []; after = []; old = refl; new = refl }
  alloc-Adds zero off used = tt
  alloc-Adds zero off (split l r) = tt
  alloc-Adds (suc h) off used = tt
  alloc-Adds (suc h) off free =
      Adds-start off (raise e h) _
        (either-Adds off (raise e h) free free _ _ (alloc-Adds h off free) (alloc-Adds h _ free))
  alloc-Adds (suc h) off (split l r) =
      either-Adds off (raise e h) l r _ _ (alloc-Adds h off l) (alloc-Adds h _ r)

-- Some block of at least the wanted height is free: the tree is of height `raise e h`.
pub has_room : ℕ → Buddy → Bool
has_room h free = true
has_room h used = false
has_room zero (split l r) = false
has_room (suc h) (split l r) = has_room h l || has_room h r

either-none :
    (l r : Buddy) (a c : Option (ℕ × Buddy)) → either l r a c ≡ none → (a ≡ none) × (c ≡ none)
unfolding either
either-none l r none none h = (refl, refl)
either-none l r none (some c) h = cc
either-none l r (some a) c h = cc

-- First fit fails only where no free block is large enough.
pub alloc-has_room : (e h off : ℕ) (b : Buddy) → alloc e h off b ≡ none → has_room h b ≡ false
unfolding alloc has_room
alloc-has_room e zero off free q = cc
alloc-has_room e zero off used q = refl
alloc-has_room e zero off (split l r) q = refl
alloc-has_room e (suc h) off used q = refl
alloc-has_room e (suc h) off free q =
    absurd (not_free (alloc-has_room e h off free (either-none free free _ _ q).0))
  where
    not_free : true ≡ false → ⊥
    not_free p = cc
alloc-has_room e (suc h) off (split l r) q =
    let both = either-none l r _ _ q in
    rw (alloc-has_room e h off l both.0, alloc-has_room e h _ r both.1)

either-is_split :
    (l r : Buddy) (a c : Option (ℕ × Buddy)) (o : ℕ) (b : Buddy)
    → either l r a c ≡ some (o, b)
    → is_used b ≡ false
unfolding either
either-is_split l r none none o b h = cc
either-is_split l r none (some (p, x)) o b h = ground arith
either-is_split l r (some (p, x)) c o b h = ground arith

pub alloc-open :
    (e h off : ℕ) (b : Buddy) (o : ℕ) (b' : Buddy)
    → alloc e (suc h) off b ≡ some (o, b')
    → is_used b' ≡ false
unfolding alloc
alloc-open e h off free o b' q = either-is_split _ _ _ _ o b' q
alloc-open e h off used o b' q = cc
alloc-open e h off (split l r) o b' q = either-is_split _ _ _ _ o b' q
