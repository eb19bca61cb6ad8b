-- ===== src/Heap/Cases.antt =====
-- An empty heap and its first block, for the tests of the modules that call `malloc`.
use multicore_rtos.Base.{◌≡◌, refl, some}
use multicore_rtos.Heap.{
  Heap, null, malloc, malloc_loop, malloc_round, block_size_for, next_pow2, leading_zeros,
}

abbrev pub empty_heap : Heap
empty_heap = record { heap_ptr = 0x2000_0000; heap_tree = λ _. null; heap_lock = 0 }

pub empty_heap-malloc : (h : Heap) × (malloc 20 empty_heap ≡ some (0x2000_0000, h))
unfolding malloc malloc_loop malloc_round block_size_for next_pow2 leading_zeros
empty_heap-malloc = (_, refl)
