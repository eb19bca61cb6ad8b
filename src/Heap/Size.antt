-- ===== src/Heap/Size.antt =====
-- The size that `malloc` rounds a request up to.
use native.Mathlib.Decide.{dec_lt}
use native.Mathlib.Nat.{div-eq_of_eq-mul_right, pow-suc}
use multicore_rtos.Base.{
  ℕ, zero, suc, ◌+◌, ◌-◌, ◌*◌, ◌/◌, ◌^◌, ◌≤◌, ◌<◌, ◌≡◌, refl, ◌⊎◌, inl, inr, false, arith, leb, ◌∙◌,
  sym, ap, Bool-cases,
}
use multicore_rtos.Heap.{leading_zeros, next_pow2, block_size_for, heap_size_min}
use multicore_rtos.Heap.Descend.{pow2, pow2_pos, blk}
use multicore_rtos.Heap.Under.{pow2_le}
use multicore_rtos.Heap.Alloc.{blk-pow2}
use multicore_rtos.Heap.Buddy.{raise}

pub pow2_lem : (n : ℕ) → 2 ^ n ≡ pow2 n
pow2_lem zero = refl
pow2_lem (suc n) = rw (pow-suc, pow2_lem n) (omega arith)

pow2-add : (a b : ℕ) → pow2 (a + b) ≡ pow2 a * pow2 b
pow2-add zero b = let e : 0 + b ≡ b = omega arith in rw e (omega arith)
pow2-add (suc a) b =
    let e : suc a + b ≡ suc (a + b) = omega arith in rw e (omega (arith, pow2-add a b))

-- the position of the highest one bit
record TopBit (w x : ℕ) : Type 0 where
  bit : ℕ
  place : leading_zeros w x + suc bit ≡ w
  low : pow2 bit ≤ x
  high : x < pow2 (suc bit)

leading_zeros-TopBit : (w x : ℕ) → 0 < x → x < pow2 w → TopBit w x
unfolding leading_zeros
leading_zeros-TopBit zero x pos lt = absurd (omega arith)
leading_zeros-TopBit (suc w) x pos lt = elim (Bool-cases (leb (2 ^ w) x)) [
  | inl top ↦ record {
    bit = w;
    place = rw top (omega arith);
    low = ground (arith, pow2_lem w);
    high = lt;
  }
  | inr below ↦
      let b : TopBit w x = leading_zeros-TopBit w x pos (ground (arith, pow2_lem w)) in
      record { bit = b.bit; place = rw below (omega (arith, b.place)); low = b.low; high = b.high }
]

one : next_pow2 1 ≡ 1
unfolding next_pow2
one = refl

two : next_pow2 2 ≡ 2
unfolding next_pow2
two = refl

-- the power of two at or above `x`, and below `2 * x`
pub record RoundsUp (x y : ℕ) : Type 0 where
  pub log : ℕ
  pub power : y ≡ pow2 log
  pub enough : x ≤ y
  pub tight : y < 2 * x

shift_power : (l k : ℕ) → l + k ≡ 31 → 2 ^ 31 / 2 ^ l ≡ pow2 k
shift_power l k e =
    rw (pow2_lem l)
      (div-eq_of_eq-mul_right (pow2_pos l) (pow2_lem 31 ∙ ap pow2 (sym e) ∙ pow2-add l k))

bit-lt : (k n x : ℕ) → pow2 k ≤ x → x < pow2 n → k < n
bit-lt k n x low high = elim (dec_lt k n) [
  | yes lt ↦ lt
  | no ge ↦ absurd (omega (arith, pow2_le n k (omega arith)))
]

next_pow2_large :
    (x : ℕ) → 2 < x → x ≤ 2 ^ 31 → (b : TopBit 32 (x - 1)) → next_pow2 x ≡ pow2 (suc b.bit)
unfolding next_pow2
next_pow2_large x big le b =
    let small : leb x 2 ≡ false = ground arith in
    let lt : b.bit < 31 = bit-lt b.bit 31 (x - 1) b.low (omega arith) in
    rw small (shift_power (leading_zeros 32 (x - 1) - 1) (suc b.bit) (omega (arith, b.place)))

-- `next_pow2` of a positive number up to `2 ^ 31` is the least power of two that is not below it.
pub next_pow2-RoundsUp : (x : ℕ) → 0 < x → x ≤ 2 ^ 31 → RoundsUp x (next_pow2 x)
next_pow2-RoundsUp x pos le = elim (dec_lt 2 x) [
  | yes big ↦
      let b : TopBit 32 (x - 1) = leading_zeros-TopBit 32 (x - 1) (omega arith) (omega arith) in
      let e : next_pow2 x ≡ pow2 (suc b.bit) = next_pow2_large x big le b in
      rw e (record {
        log = suc b.bit;
        power = refl;
        enough = omega (arith, b.high);
        tight = omega (arith, b.low);
      })
  | no small ↦ tiny x pos (omega arith)
]
  where
    tiny : (y : ℕ) → 0 < y → y ≤ 2 → RoundsUp y (next_pow2 y)
    tiny zero p q = absurd (omega arith)
    tiny (suc zero) p q =
        rw one (record { log = 0; power = refl; enough = omega arith; tight = omega arith })
    tiny (suc (suc zero)) p q =
        rw two (record { log = 1; power = refl; enough = omega arith; tight = omega arith })
    tiny (suc (suc (suc y))) p q = absurd (omega arith)

-- The height of the blocks that `malloc` takes for a request, and the levels above it.
pub record Level (size : ℕ) : Type 0 where
  pub height : ℕ
  pub above : ℕ
  pub top : raise height (suc above) ≡ 10
  pub rounded : block_size_for size ≡ blk heap_size_min height
  pub enough : size ≤ blk heap_size_min height
  pub tight : (height ≡ 0) ⊎ (blk heap_size_min height < 2 * size)

raise-add : (e h : ℕ) → raise e h ≡ e + h
raise-add e zero = omega arith
raise-add e (suc h) = omega (arith, raise-add e h)

height_of :
    (size y log : ℕ)
    → y ≡ pow2 log
    → size ≤ y
    → y < 2 * size
    → 7 ≤ log
    → log < 17
    → block_size_for size ≡ y
    → Level size
height_of size y log power enough tight low high rounded =
    let e : y ≡ blk heap_size_min (log - 7) =
      power ∙ ap pow2 (omega arith) ∙ pow2-add 7 (log - 7) ∙ sym (blk-pow2 (log - 7)) in
    record {
      height = log - 7;
      above = 16 - log;
      top = omega (arith, raise-add (log - 7) (suc (16 - log)));
      rounded = rounded ∙ e;
      enough = omega (arith, e);
      tight = inr (omega (arith, e));
    }

smallest : (size : ℕ) → size ≤ 128 → block_size_for size ≡ 128 → Level size
smallest size le rounded = record {
  height = 0;
  above = 9;
  top = refl;
  rounded = rounded;
  enough = le;
  tight = inl refl;
}

rounded_small : (size : ℕ) → next_pow2 size < 128 → block_size_for size ≡ 128
unfolding block_size_for
rounded_small size h = ground arith

rounded_large : (size : ℕ) → 128 ≤ next_pow2 size → block_size_for size ≡ next_pow2 size
unfolding block_size_for
rounded_large size h = ground arith

Level-by_power : (size : ℕ) → size ≤ 2 ^ 16 → RoundsUp size (next_pow2 size) → Level size
Level-by_power size le r = elim (dec_lt r.log 7) [
  | yes low ↦
      let bound = pow2_le r.log 6 (omega arith) in
      smallest size (omega (arith, r.enough, r.power, bound))
        (rounded_small size (omega (arith, r.power, bound)))
  | no high ↦
      let large : 128 ≤ next_pow2 size = omega (arith, r.power, pow2_le 7 r.log (omega arith)) in
      height_of size (next_pow2 size) r.log r.power r.enough r.tight (omega arith)
        (bit-lt r.log 17 (next_pow2 size) (omega (arith, r.power)) (omega (arith, r.tight)))
        (rounded_large size large)
]

none_asked : next_pow2 0 < 128
unfolding next_pow2
none_asked = omega arith

-- A request of at most half the heap is served by blocks below the root.
pub block_size_for-Level : (size : ℕ) → size ≤ 2 ^ 16 → Level size
block_size_for-Level zero le = smallest zero (omega arith) (rounded_small 0 none_asked)
block_size_for-Level (suc n) le =
    Level-by_power (suc n) le (next_pow2-RoundsUp (suc n) (omega arith) (omega arith))
