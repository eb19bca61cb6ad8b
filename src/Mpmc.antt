-- ===== src/Mpmc.antt =====
-- os/ipc.c and os/ipc.h, the blocking FIFO_t. A call runs while no other call on the FIFO does; a
-- semaphore is its value. data[] holds bytes; an element is its bytes by position.
pub mod Deliver
pub mod Overrun
pub mod Bytes
mod Tests
use multicore_rtos.Base.{
  ℕ, ◌+◌, ◌-◌, ◌*◌, ◌%◌, ◌^◌, Bool, true, false, ◌&&◌, ◌||◌, Option, none, some, ltb, leb, ◌==◌,
  if◌then◌else◌,
}
use multicore_rtos.Heap.{Ptr, null, Heap, malloc}

-- FIFO_t
pub record Fifo : Type 0 where
  pub mutex : ℕ
  pub full : ℕ
  pub empty : ℕ
  pub size : ℕ
  pub element_size : ℕ
  pub head : ℕ
  pub tail : ℕ
  pub bytes : ℕ → ℕ

-- sizeof(FIFO_t): three semaphores of 8 bytes, and four words.
abbrev pub header_size : ℕ
header_size = 40

-- `fifo_size * element_size` and the sum on uint32_t
abbrev pub object_size : ℕ → ℕ → ℕ
object_size fifo_size element_size = (header_size + fifo_size * element_size) % 2 ^ 32

pub record Made : Type 0 where
  pub address : Ptr
  pub fifo : Option Fifo
  pub heap : Heap

-- `fifo->size = size`: the number of bytes of the object.
pub made : ℕ → ℕ → (ℕ → ℕ) → Ptr × Heap → Made
made fifo_size element_size contents (p, h) =
    if p == null then record { address = null; fifo = none; heap = h } else record {
      address = p;
      fifo = some (record {
        mutex = 0;
        full = fifo_size;
        empty = 0;
        size = object_size fifo_size element_size;
        element_size = element_size;
        head = 0;
        tail = 0;
        bytes = contents;
      });
      heap = h;
    }

pub fifo_init : ℕ → ℕ → (ℕ → ℕ) → Heap → Option Made
unfolding made
fifo_init fifo_size element_size contents h = elim (malloc (object_size fifo_size element_size) h) [
  | none ↦ none
  | some r ↦ some (made fifo_size element_size contents r)
]

-- the widths that the `switch` copies; it does nothing for others
abbrev pub has_case : ℕ → Bool
has_case n = (n == 1) || (n == 2) || (n == 4) || (n == 8)

-- The switch of the put functions: a store of one element at byte `at`.
unfoldable pub store_element : ℕ → ℕ → (ℕ → ℕ) → (ℕ → ℕ) → ℕ → ℕ
store_element n at value bytes a =
    if has_case n && (leb at a && ltb a (at + n)) then value (a - at) else bytes a

-- The switch of the get functions; `old` is what `*value` holds before.
unfoldable pub load_element : ℕ → ℕ → (ℕ → ℕ) → (ℕ → ℕ) → ℕ → ℕ
load_element n at bytes old i = if has_case n && ltb i n then bytes (at + i) else old i

abbrev pub next : Fifo → ℕ → ℕ
next f i = (i + 1) % 2 ^ 32 % f.size

-- the byte of data[] at which an index points
abbrev pub position : Fifo → ℕ → ℕ
position f i = i * f.element_size % 2 ^ 32

abbrev pub write_tail : Fifo → (ℕ → ℕ) → Fifo
write_tail f value = record f {
  bytes = store_element f.element_size (position f f.tail) value f.bytes;
  tail = next f f.tail;
}

abbrev pub read_head : Fifo → (ℕ → ℕ) → ℕ → ℕ
read_head f old = load_element f.element_size (position f f.head) f.bytes old

-- A call returns, or it waits on a semaphore, with what it has done so far.
pub data Call (A : Type 0) : Type 0 where
  done : A → Fifo → Call A
  waits : Fifo → Call A

unfoldable pub fifo_put : Fifo → (ℕ → ℕ) → Call (Unit {0})
unfolding store_element
fifo_put f value =
    if f.full == 0
    then waits f
    else (let g = record f { full = f.full - 1 } in
        if g.mutex == 0
        then (let w = write_tail g value in done tt (record w { mutex = 0; empty = w.empty + 1 }))
        else waits g)

unfoldable pub fifo_put_nonblock : Fifo → (ℕ → ℕ) → Bool × Fifo
unfolding store_element
fifo_put_nonblock f value =
    if next f f.tail == f.head then (true, f) else (false, write_tail f value)

unfoldable pub fifo_get : Fifo → (ℕ → ℕ) → Call (ℕ → ℕ)
unfolding load_element
fifo_get f old =
    if f.empty == 0
    then waits f
    else (let g = record f { empty = f.empty - 1 } in
        if g.mutex == 0
        then done (read_head g old)
            (record g { head = next g g.head; mutex = 0; full = g.full + 1 })
        else waits g)

unfoldable pub fifo_get_nonblocking : Fifo → (ℕ → ℕ) → Bool × (ℕ → ℕ) × Fifo
unfolding load_element
fifo_get_nonblocking f old =
    if f.head == f.tail
    then (true, old, f)
    else (false, read_head f old, record f { head = next f f.head })

-- `fifo_get_spinlock` has the body of `fifo_get`.
pub fifo_get_spinlock : Fifo → (ℕ → ℕ) → Call (ℕ → ℕ)
unfolding load_element
fifo_get_spinlock f old =
    if f.empty == 0
    then waits f
    else (let g = record f { empty = f.empty - 1 } in
        if g.mutex == 0
        then done (read_head g old)
            (record g { head = next g g.head; mutex = 0; full = g.full + 1 })
        else waits g)

pub fifo_size : Fifo → ℕ
fifo_size f = f.empty

unfoldable pub fifo_size_nonblocking : Fifo → ℕ
fifo_size_nonblocking f =
    if leb f.head f.tail
    then (f.tail + 2 ^ 32 - f.head) % 2 ^ 32
    else (f.size + 2 ^ 32 - (f.head + 2 ^ 32 - f.tail) % 2 ^ 32) % 2 ^ 32
