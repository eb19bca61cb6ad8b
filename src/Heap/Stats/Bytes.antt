-- ===== src/Heap/Stats/Bytes.antt =====
-- The sum of the allocated blocks of an abstract heap.
use multicore_rtos.Base.{ℕ, zero, suc, ◌+◌, ◌≤◌, ◌≡◌, refl, ◌∙◌, true, arith, List, [], ◌∷◌, ◌++◌}
use multicore_rtos.Heap.{heap_size_min}
use multicore_rtos.Heap.Descend.{blk}
use multicore_rtos.Heap.Buddy.{Buddy, free, used, split, is_free}
use multicore_rtos.Heap.Blocks.{blocks}

-- the bytes of the allocated blocks
unfoldable pub bytes : List (ℕ × ℕ) → ℕ
bytes [] = 0
bytes ((o, n) ∷ xs) = n + bytes xs

unfoldable pub allocated : ℕ → Buddy → ℕ
allocated h free = 0
allocated h used = blk 128 h
allocated zero (split l r) = 0
allocated (suc h) (split l r) = allocated h l + allocated h r

bytes-append : (xs ys : List (ℕ × ℕ)) → bytes (xs ++ ys) ≡ bytes xs + bytes ys
unfolding bytes
bytes-append [] ys = omega arith
bytes-append ((o, n) ∷ xs) ys = omega (arith, bytes-append xs ys)

pub bytes-blocks : (b : Buddy) (h off : ℕ) → bytes (blocks off h b) ≡ allocated h b
unfolding bytes blocks allocated
bytes-blocks free h off = refl
bytes-blocks used h off = omega arith
bytes-blocks (split l r) zero off = refl
bytes-blocks (split l r) (suc h) off =
    bytes-append (blocks off h l) _
    ∙ omega (arith, bytes-blocks l h off, bytes-blocks r h (off + blk heap_size_min h))

pub allocated-free : (b : Buddy) (h : ℕ) → is_free b ≡ true → allocated h b ≡ 0
unfolding allocated
allocated-free free h e = refl
allocated-free used h e = cc
allocated-free (split l r) h e = cc

pub allocated-le : (b : Buddy) (h : ℕ) → allocated h b ≤ blk 128 h
unfolding allocated
allocated-le free h = omega arith
allocated-le used h = omega arith
allocated-le (split l r) zero = omega arith
allocated-le (split l r) (suc h) = omega (arith, allocated-le l h, allocated-le r h)
