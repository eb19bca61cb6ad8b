-- ===== src/Mpmc/Overrun.antt =====
-- The size that `fifo_init` stores, and the indices that it lets the calls use.
use native.Mathlib.Nat.{mod-eq_of_lt, le-mul_of_pos_right}
use multicore_rtos.Base.{
  ℕ, ◌+◌, ◌-◌, ◌*◌, ◌%◌, ◌^◌, ◌≤◌, ◌<◌, ◌≡◌, refl, ◌≢◌, some, arith, ==_of_ne,
}
use multicore_rtos.Heap.{Ptr, null, Heap}
use multicore_rtos.Mpmc.{Fifo, Made, made, next, position, header_size, object_size}

-- After the last of its `n` elements the index goes on to `n`, whose byte is just behind the object.
pub record Overrun (n element_size : ℕ) (m : Made) : Type 0 where
  pub fifo : Fifo
  pub made_fifo : m.fifo ≡ some fifo
  pub goes_on : next fifo (n - 1) ≡ n
  pub behind : header_size + position fifo n ≡ object_size n element_size

-- Where `malloc` gives memory to `fifo_init`, for elements of at least one byte whose object is
-- smaller than 2^32 bytes, the index behind the last of the `n` elements that were asked for is not
-- 0 but `n`, at the byte just behind the object.
pub made-Overrun :
    (n element_size : ℕ) (contents : ℕ → ℕ) (p : Ptr) (h : Heap)
    → 0 < n
    → 0 < element_size
    → header_size + n * element_size < 2 ^ 32
    → p ≢ null
    → Overrun n element_size (made n element_size contents (p, h))
unfolding made
made-Overrun n e contents p h pos wide small ne = rw (==_of_ne p null ne) (record {
  fifo = _;
  made_fifo = refl;
  goes_on = wraps n (n * e) pos (le-mul_of_pos_right n wide) small;
  behind = omega (arith, small);
})
  where
    wraps :
        (n a : ℕ)
        → 0 < n
        → n ≤ a
        → header_size + a < 2 ^ 32
        → (n - 1 + 1) % 2 ^ 32 % ((header_size + a) % 2 ^ 32) ≡ n
    wraps n a pos le small =
        let e1 : (n - 1 + 1) % 2 ^ 32 ≡ n = omega arith in
        let e2 : (header_size + a) % 2 ^ 32 ≡ header_size + a = omega arith in
        rw (e1, e2) (mod-eq_of_lt (omega (arith, le)))
