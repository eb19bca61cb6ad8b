-- ===== src/Mpmc/Bytes.antt =====
-- A FIFO_t of bytes beside the FIFO32 of the same indices: their rings are the same code.
use multicore_rtos.Base.{
  ℕ, ◌*◌, ◌%◌, ◌^◌, ◌<◌, ◌≡◌, refl, ap, inl, inr, Bool, Option, none, some, arith, update, fun_ext,
  ◌==◌, if◌then◌else◌, Bool-cases,
}
use multicore_rtos.Mpmc.{
  Fifo, write_tail, read_head, store_element, load_element, fifo_put_nonblock, fifo_get_nonblocking,
  fifo_size_nonblocking,
}
use multicore_rtos.Spsc.{fifo32_put, fifo32_get, fifo32_size}
use multicore_rtos.Spsc.Window.{IsValid}
use multicore_rtos.Spsc.Queue.{appended, advanced}
use multicore_rtos.Spsc as Spsc

-- the FIFO32 with the indices and the bytes of a FIFO
abbrev pub ring : Fifo → Spsc.Fifo
ring f = record { head = f.head; tail = f.tail; size = f.size; items = f.bytes }

-- A FIFO of bytes with its indices in range.
pub record IsBytes (f : Fifo) : Type 0 where
  pub width : f.element_size ≡ 1
  pub valid : IsValid (ring f)

store-update :
    (at : ℕ) (value bytes : ℕ → ℕ) → store_element 1 at value bytes ≡ update bytes at (value 0)
unfolding store_element
store-update at value bytes = fun_ext (λ a. ground arith)

module _ (f : Fifo) (b : IsBytes f) where
  in_words : (i : ℕ) → i < f.size → i * 1 % 2 ^ 32 ≡ i
  in_words i lt = omega (arith, b.valid.small)

  pub written : (value : ℕ → ℕ) → (write_tail f value).bytes ≡ update f.bytes f.tail (value 0)
  written value = rw (b.width, in_words f.tail b.valid.tail_in) (store-update f.tail value f.bytes)

  pub write-appended : (value : ℕ → ℕ) → ring (write_tail f value) ≡ appended (ring f) (value 0)
  write-appended value =
      ap
        (λ w.
          let r : Spsc.Fifo = record {
            head = f.head;
            tail = Spsc.next f.size f.tail;
            size = f.size;
            items = w;
          } in
          r)
        (written value)

  pub read-byte : (old : ℕ → ℕ) → read_head f old 0 ≡ f.bytes f.head
  unfolding load_element
  read-byte old = rw b.width (ap f.bytes (omega (arith, in_words f.head b.valid.head_in)))

  -- The element of `fifo_get` and `fifo_get_nonblocking`, and what they leave.
  pub put_nonblock-fifo32 :
      (value : ℕ → ℕ)
      → ((fifo32_put (ring f) (value 0)).0 ≡ (if (fifo_put_nonblock f value).0 then 1 else 0))
        × (ring (fifo_put_nonblock f value).1 ≡ (fifo32_put (ring f) (value 0)).1)
  unfolding fifo_put_nonblock fifo32_put
  put_nonblock-fifo32 value = elim (Bool-cases (Spsc.next f.size f.tail == f.head)) [
    | inl full ↦ rw full (refl, refl)
    | inr room ↦ rw room (refl, write-appended value)
  ]

-- What a call of `fifo_get_nonblocking` tells, as `fifo32_get` tells it.
abbrev pub taken : Bool × (ℕ → ℕ) × Fifo → Option (ℕ × Spsc.Fifo)
taken (empty, value, f) = if empty then none else some (value 0, ring f)

pub get_nonblocking-fifo32 :
    (f : Fifo) (old : ℕ → ℕ) → IsBytes f → taken (fifo_get_nonblocking f old) ≡ fifo32_get (ring f)
unfolding fifo_get_nonblocking fifo32_get
get_nonblocking-fifo32 f old b = elim (Bool-cases (f.head == f.tail)) [
  | inl empty ↦ rw empty refl
  | inr filled ↦ rw filled (ap (λ x. some (x, advanced (ring f))) (read-byte f b old))
]

-- For elements of one byte and indices in range, the calls of FIFO_t that do not wait do what those of
-- FIFO32 do on a ring of the same indices and bytes: the same status, the same element, the same ring
-- afterwards and the same size; they tell an empty FIFO where `fifo32_get` waits.
pub nonblocking-fifo32 :
    (f : Fifo) (value old : ℕ → ℕ)
    → IsBytes f
    → ((fifo32_put (ring f) (value 0)).0 ≡ (if (fifo_put_nonblock f value).0 then 1 else 0))
      × (ring (fifo_put_nonblock f value).1 ≡ (fifo32_put (ring f) (value 0)).1)
      × (taken (fifo_get_nonblocking f old) ≡ fifo32_get (ring f))
      × (fifo_size_nonblocking f ≡ fifo32_size (ring f))
unfolding fifo_size_nonblocking fifo32_size
nonblocking-fifo32 f value old b = (
  (put_nonblock-fifo32 f b value).0,
  (put_nonblock-fifo32 f b value).1,
  get_nonblocking-fifo32 f old b,
  refl,
)
