-- ===== src/Heap/Calloc.antt =====
-- `calloc` of os/heap.c.
use multicore_rtos.Base.{ℕ, ◌+◌, ◌&&◌, Option, none, some, ltb, leb, ◌==◌, if◌then◌else◌}
use multicore_rtos.Heap.{Ptr, null, Heap, malloc}

-- The bytes of the address space.
abbrev pub Memory : Type 0
Memory = ℕ → ℕ

pub memset : Memory → Ptr → ℕ → ℕ → Memory
memset m p value size a = if leb p a && ltb a (p + size) then value else m a

pub calloc : ℕ → Memory → Heap → Option (Ptr × Memory × Heap)
unfolding malloc memset
calloc size m h = elim (malloc size h) [
  | none ↦ none
  | some (mem_ptr, h') ↦ some (mem_ptr, if mem_ptr == null then m else memset m mem_ptr 0 size, h')
]
