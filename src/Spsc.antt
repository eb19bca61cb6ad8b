-- ===== src/Spsc.antt =====
-- os/ipc.c and os/ipc.h, the lock-free FIFOs FIFO32 and FIFO8 for one producer and one consumer.
-- The two have the same code but for the width of an element and of the size that is returned.
-- data[] is a function of its index. `fifo32_get` and `fifo8_get` run `suspend` until the FIFO is not
-- empty: the model answers `none` there, for a call that waits.
pub mod Window
pub mod Queue
pub mod Interleave
mod Tests
use multicore_rtos.Base.{
  ℕ, ◌+◌, ◌-◌, ◌*◌, ◌%◌, ◌^◌, Option, none, some, ◌==◌, leb, if◌then◌else◌, update,
}
use multicore_rtos.Heap.{Ptr, Heap, null, malloc}

-- FIFO32_t and FIFO8_t
pub record Fifo : Type 0 where
  pub head : ℕ
  pub tail : ℕ
  pub size : ℕ
  pub items : ℕ → ℕ

-- the index after `i`, on uint32_t
abbrev pub next : ℕ → ℕ → ℕ
next size i = (i + 1) % 2 ^ 32 % size

unfoldable pub fifo32_put : Fifo → ℕ → ℕ × Fifo
fifo32_put f d =
    if next f.size f.tail == f.head
    then (1, f)
    else (0, record f { items = update f.items f.tail d; tail = next f.size f.tail })

unfoldable pub fifo32_get : Fifo → Option (ℕ × Fifo)
fifo32_get f =
    if f.head == f.tail then none else some (f.items f.head, record f { head = next f.size f.head })

-- uint32_t subtraction wraps.
abbrev pub sub32 : ℕ → ℕ → ℕ
sub32 a b = (a + 2 ^ 32 - b) % 2 ^ 32

unfoldable pub fifo32_size : Fifo → ℕ
fifo32_size f =
    if leb f.head f.tail then sub32 f.tail f.head else sub32 f.size (sub32 f.head f.tail)

pub fifo8_put : Fifo → ℕ → ℕ × Fifo
fifo8_put f d =
    if next f.size f.tail == f.head
    then (1, f)
    else (0, record f { items = update f.items f.tail d; tail = next f.size f.tail })

pub fifo8_get : Fifo → Option (ℕ × Fifo)
fifo8_get f =
    if f.head == f.tail then none else some (f.items f.head, record f { head = next f.size f.head })

-- The result is a uint8_t.
pub fifo8_size : Fifo → ℕ
fifo8_size f =
    (if leb f.head f.tail then sub32 f.tail f.head else sub32 f.size (sub32 f.head f.tail)) % 2 ^ 8

-- What `fifo32_init` and `fifo8_init` return: NULL, or the address and the object there.
pub record Made : Type 0 where
  pub address : Ptr
  pub fifo : Option Fifo
  pub heap : Heap

-- `contents` is what the memory of a new block happens to hold.
pub made : ℕ → (ℕ → ℕ) → Ptr × Heap → Made
made size contents (p, h) =
    if p == null then record { address = null; fifo = none; heap = h } else record {
      address = p;
      fifo = some (record { head = 0; tail = 0; size = size; items = contents });
      heap = h;
    }

-- sizeof(FIFO32_t) and sizeof(FIFO8_t) are 12.
pub fifo32_init : ℕ → (ℕ → ℕ) → Heap → Option Made
unfolding made
fifo32_init size contents h = elim (malloc ((12 + size * 4) % 2 ^ 32) h) [
  | none ↦ none
  | some r ↦ some (made size contents r)
]

pub fifo8_init : ℕ → (ℕ → ℕ) → Heap → Option Made
unfolding made
fifo8_init size contents h = elim (malloc ((12 + size * 1) % 2 ^ 32) h) [
  | none ↦ none
  | some r ↦ some (made size contents r)
]
