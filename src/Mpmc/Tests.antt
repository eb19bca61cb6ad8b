-- ===== src/Mpmc/Tests.antt =====
-- An element of four bytes through a FIFO_t.
use multicore_rtos.Base.{ℕ, ◌+◌, refl, arith}
use multicore_rtos.Heap.{Heap, null}
use multicore_rtos.Mpmc.{Fifo, fifo_put, made}
use multicore_rtos.Mpmc.Overrun.{Overrun, made-Overrun}
use multicore_rtos.Mpmc.Deliver.{Delivered, then_get, fifo_get-fifo_put}

abbrev empty_fifo : Fifo
empty_fifo = record {
  mutex = 0;
  full = 4;
  empty = 0;
  size = 56;
  element_size = 4;
  head = 3;
  tail = 3;
  bytes = λ _. 0;
}

abbrev value : ℕ → ℕ
value i = i + 65

abbrev before : ℕ → ℕ
before _ = 0

fifo_get-fifo_put_example : Delivered empty_fifo value (then_get before (fifo_put empty_fifo value))
fifo_get-fifo_put_example =
    fifo_get-fifo_put empty_fifo value before refl refl (omega arith) refl refl

abbrev heap_left : Heap
heap_left = record { heap_ptr = 0x2000_0000; heap_tree = λ _. null; heap_lock = 0 }

made-Overrun_example : Overrun 4 1 (made 4 1 before (0x2000_0000, heap_left))
made-Overrun_example =
    made-Overrun 4 1 before 0x2000_0000 heap_left (omega arith) (omega arith) (omega arith)
      (omega arith)
