-- ===== src/Heap/Under.antt =====
-- The nodes of a subtree of heap_tree: the two children of a node share no node, and do not reach
-- the node itself.
use multicore_rtos.Base.{ℕ, zero, suc, ◌+◌, ◌*◌, ◌≤◌, ◌<◌, ◌≡◌, ◌⊎◌, inl, inr, arith}
use native.Mathlib.Decide.{dec_lt}
use multicore_rtos.Heap.Descend.{pow2, pow2_pos}

-- `j` lies in the tree of height `h` whose root is `i`.
abbrev pub Under : ℕ → ℕ → ℕ → Type 0
Under zero i j = j ≡ i
Under (suc h) i j = (j ≡ i) ⊎ (Under h (2 * i + 1) j ⊎ Under h (2 * i + 2) j)

-- `j` lies `depth` levels below `i`.
record Below (i j : ℕ) : Type 0 where
  depth : ℕ
  low : (i + 1) * pow2 depth ≤ j + 1
  high : j + 1 < (i + 2) * pow2 depth

Below-left : {i j : ℕ} → Below (2 * i + 1) j → Below i j
Below-left b = record {
  depth = suc b.depth;
  low = omega (arith, b.low);
  high = omega (arith, b.high, pow2_pos b.depth);
}

Below-right : {i j : ℕ} → Below (2 * i + 2) j → Below i j
Below-right b = record {
  depth = suc b.depth;
  low = omega (arith, b.low, pow2_pos b.depth);
  high = omega (arith, b.high);
}

Under-Below : (h : ℕ) {i j : ℕ} → Under h i j → Below i j
Under-Below zero e = record { depth = 0; low = omega arith; high = omega arith }
Under-Below (suc h) (inl e) = record { depth = 0; low = omega arith; high = omega arith }
Under-Below (suc h) (inr (inl u)) = Below-left (Under-Below h u)
Under-Below (suc h) (inr (inr u)) = Below-right (Under-Below h u)

pow2_lt : (m k : ℕ) → m < k → 2 * pow2 m ≤ pow2 k
pow2_lt m zero h = absurd (omega arith)
pow2_lt zero (suc k) h = omega (arith, pow2_pos k)
pow2_lt (suc m) (suc k) h = omega (arith, pow2_lt m k (omega arith))

pub pow2_le : (k m : ℕ) → k ≤ m → pow2 k ≤ pow2 m
pow2_le zero m h = omega (arith, pow2_pos m)
pow2_le (suc k) zero h = absurd (omega arith)
pow2_le (suc k) (suc m) h = omega (arith, pow2_le k m (omega arith))

mul_mono : (a p q : ℕ) → p ≤ q → a * p ≤ a * q
mul_mono a p q h = grind arith

apart_deep : (a p q x : ℕ) → 2 ≤ a → 2 * q ≤ p → a * p ≤ x → x < (a + 2) * q → ⊥
apart_deep a p q x two le low high = omega (arith, mul_mono a (2 * q) p le, mul_mono q 2 a two)

apart_flat : (a p q x : ℕ) → p ≤ q → x < (a + 1) * p → (a + 1) * q ≤ x → ⊥
apart_flat a p q x le high low = grind arith

pub children_apart : (h k i j : ℕ) → Under h (2 * i + 1) j → Under k (2 * i + 2) j → ⊥
children_apart h k i j l r = go (Under-Below h l) (Under-Below k r)
  where
    go : Below (2 * i + 1) j → Below (2 * i + 2) j → ⊥
    go b c = elim (dec_lt c.depth b.depth) [
      | yes lt ↦
          apart_deep (2 * i + 2) (pow2 b.depth) (pow2 c.depth) (j + 1) (omega arith)
            (pow2_lt c.depth b.depth lt) (omega (arith, b.low)) (omega (arith, c.high))
      | no ge ↦
          apart_flat (2 * i + 2) (pow2 b.depth) (pow2 c.depth) (j + 1)
            (pow2_le b.depth c.depth (omega arith)) (omega (arith, b.high)) (omega (arith, c.low))
    ]

above_left : (i p : ℕ) → 0 < p → (2 * i + 2) * p ≤ i + 1 → ⊥
above_left i p pos low = grind arith

pub not-Under-left : (h i : ℕ) → Under h (2 * i + 1) i → ⊥
not-Under-left h i u = go (Under-Below h u)
  where
    go : Below (2 * i + 1) i → ⊥
    go b = above_left i (pow2 b.depth) (pow2_pos b.depth) (omega (arith, b.low))

pub not-Under-right : (h i : ℕ) → Under h (2 * i + 2) i → ⊥
not-Under-right h i u = go (Under-Below h u)
  where
    go : Below (2 * i + 2) i → ⊥
    go b = above_left i (pow2 b.depth) (pow2_pos b.depth) (omega (arith, b.low, pow2_pos b.depth))

pub Under-self : (h i : ℕ) → Under h i i
Under-self zero i = omega arith
Under-self (suc h) i = inl (omega arith)

-- The subtree of height `h` at `i` ends before the last node.
pub Under-lt : (h i j : ℕ) → Under h i j → j + 2 ≤ (i + 2) * pow2 h
Under-lt zero i j e = omega arith
Under-lt (suc h) i j (inl e) = rw e (grind (arith, pow2_pos h))
Under-lt (suc h) i j (inr (inl u)) = omega (arith, Under-lt h (2 * i + 1) j u, pow2_pos h)
Under-lt (suc h) i j (inr (inr u)) = omega (arith, Under-lt h (2 * i + 2) j u)
