-- ===== src/Heap/Tests.antt =====
-- Runs of the allocator.
use multicore_rtos.Base.{
  ℕ, zero, suc, ◌+◌, ◌-◌, ◌*◌, ◌≤◌, ◌≡◌, refl, Option, none, some, ◌^◌, ◌==◌, if◌then◌else◌, List,
  [], ◌∷◌, arith,
}
use multicore_rtos.Heap.{
  Heap, Ptr, null, malloc, next_pow2, malloc_loop, malloc_round, block_size_for, leading_zeros,
}
use multicore_rtos.Heap.Buddy.{free, Empty, alloc}
use multicore_rtos.Heap.Size.{Level, RoundsUp, next_pow2-RoundsUp}
use multicore_rtos.Heap.Refine.{Represents, Served, malloc-alloc}
use multicore_rtos.Heap.Clients.{Answer, malloc-Answer}
use multicore_rtos.Heap.{block_address, branch_node, heap_init, heap_size}
use multicore_rtos.Heap.Release as Code
use multicore_rtos.Heap.Buddy.{used, split}
use multicore_rtos.Heap.Blocks.{blocks}
use multicore_rtos.Heap.Stats.{heap_stats}
use multicore_rtos.Heap.Stats.Bytes.{bytes}
use multicore_rtos.Heap.Stats.Sum.{heap_stats-bytes}
use multicore_rtos.Heap.Release.Clients as Back
use multicore_rtos.Heap.Release.Clients.{Valid, Undone, free-Answer, free-malloc}
use multicore_rtos.Heap.Requests.{
  Request, allocate, give_back, serve_all, Sound, requests-Sound, Empty-null,
}

abbrev fresh : Heap
fresh = record { heap_ptr = 0x2000_0000; heap_tree = λ _. null; heap_lock = 0 }

abbrev result : Option (Ptr × Heap) → Option Ptr
result none = none
result (some (p, h)) = some p

abbrev then_malloc : ℕ → Option (Ptr × Heap) → Option (Ptr × Heap)
then_malloc n none = none
then_malloc n (some (p, h)) = malloc n h

runs :
    (result (malloc 100 fresh) ≡ some 0x2000_0000)
    × (result (then_malloc 200 (malloc 100 fresh)) ≡ some 0x2000_0100)
    × (result (then_malloc 100 (then_malloc 200 (malloc 100 fresh))) ≡ some 0x2000_0080)
unfolding malloc malloc_loop malloc_round block_size_for next_pow2 leading_zeros
runs = (refl, refl, refl)

-- A request for more than half the heap takes the root, which the next one takes again.
root_twice :
    (result (malloc (2 ^ 17) fresh) ≡ some 0x2000_0000)
    × (result (then_malloc (2 ^ 17) (malloc (2 ^ 17) fresh)) ≡ some 0x2000_0000)
unfolding malloc malloc_loop malloc_round block_size_for next_pow2 leading_zeros
root_twice = (refl, refl)

fresh-Represents : Represents fresh free
fresh-Represents = record {
  base = (omega arith, omega arith);
  open_root = refl;
  rep = Empty-null 10 0;
}

next_pow2-RoundsUp_example : RoundsUp 1025 (next_pow2 1025)
next_pow2-RoundsUp_example = next_pow2-RoundsUp 1025 (omega arith) (omega arith)

malloc-alloc_example :
    (l : Level 200) × Served fresh (alloc l.height (suc l.above) 0 free) (malloc 200 fresh)
malloc-alloc_example = malloc-alloc 200 fresh free (omega arith) fresh-Represents

malloc-Answer_example : Answer fresh free 200 (malloc 200 fresh)
malloc-Answer_example = malloc-Answer 200 fresh free (omega arith) fresh-Represents

-- The lower half of the heap is one allocated block.
abbrev half_taken : Heap
half_taken = record fresh {
  heap_tree = λ i. if i == 0 then branch_node else if i == 1 then 0x2000_0000 else null;
}

Empty-half : (h i : ℕ) → 2 ≤ i → Empty h i half_taken.heap_tree
Empty-half zero i le = ground arith
Empty-half (suc h) i le =
    (ground arith, Empty-half h (2 * i + 1) (omega arith), Empty-half h (2 * i + 2) (omega arith))

half_taken-Valid : Valid half_taken (split used free)
unfolding block_address
half_taken-Valid = record {
  represents = record {
    base = (omega arith, omega arith);
    open_root = refl;
    rep = (
      refl,
      (refl, (Empty-half 8 3 (omega arith), Empty-half 8 4 (omega arith))),
      Empty-half 9 2 (omega arith),
    );
  };
  merged = (refl, tt, tt);
  unlocked = refl;
}

fresh-Valid : Valid fresh free
fresh-Valid = record { represents = fresh-Represents; merged = tt; unlocked = refl }

free-Answer_example :
    Back.Answer half_taken (split used free) 0x2000_0000 (Code.free 0x2000_0000 half_taken)
free-Answer_example = free-Answer 0x2000_0000 half_taken (split used free) half_taken-Valid

free-malloc_example : Undone half_taken (split used free) (malloc 200 half_taken)
free-malloc_example = free-malloc 200 half_taken (split used free) (omega arith) half_taken-Valid

-- The calls, one of them for a pointer that no call has returned.
abbrev calls : List Request
calls = allocate 100 ∷ allocate 2000 ∷ give_back 0x2000_0000 ∷ give_back 5 ∷ []

requests-Sound_example : Sound (serve_all calls (heap_init fresh))
requests-Sound_example =
    requests-Sound calls fresh (omega arith, (omega arith, tt)) fresh-Represents.base

heap_stats-bytes_example :
    (bytes (blocks 0 10 (split used free)) ≤ heap_size)
    × (heap_stats half_taken
        ≡ some (
          record {
            size = heap_size;
            used = bytes (blocks 0 10 (split used free));
            free = heap_size - bytes (blocks 0 10 (split used free));
          },
          record half_taken { heap_lock = 0 },
        ))
heap_stats-bytes_example =
    heap_stats-bytes half_taken (split used free) half_taken-Valid.represents.base
      half_taken-Valid.represents.rep
