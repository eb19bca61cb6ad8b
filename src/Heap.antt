-- ===== src/Heap.antt =====
-- os/heap.c and os/heap.h: the buddy allocator, and next_pow2 of lib/utils.h.
-- The array heap_tree is a function of its index. heap_lock is a binary semaphore that no other
-- thread holds while a call runs, so b_wait sets its value to 1 and b_signal sets it to 0.
pub mod Cases
pub mod Calloc
pub mod Release
pub mod Stats
pub mod Runs
pub mod Descend
pub mod Under
pub mod Buddy
pub mod Alloc
pub mod Refine
pub mod Blocks
pub mod Clients
pub mod Size
pub mod Requests
mod Tests
use multicore_rtos.Base.{
  ℕ, zero, suc, ◌+◌, ◌-◌, ◌*◌, ◌/◌, ◌%◌, ◌^◌, Bool, true, false, ◌&&◌, ◌||◌, not, Option, none,
  some, ltb, leb, ◌==◌, if◌then◌else◌, update,
}

-- A pointer is its 32-bit address.
abbrev pub Ptr : Type 0
Ptr = ℕ

abbrev pub null : Ptr
null = 0

abbrev pub heap_size : ℕ
heap_size = 2 ^ 17

abbrev pub heap_size_min : ℕ
heap_size_min = 2 ^ 7

abbrev pub heap_addr_max : ℕ
heap_addr_max = heap_size - 1

abbrev pub heap_tree_node_cnt : ℕ
heap_tree_node_cnt = 2 * 2 ^ 10 - 1

abbrev pub branch_node : Ptr
branch_node = 0xFFFF_FFFF

abbrev pub Tree : Type 0
Tree = ℕ → Ptr

-- The static variables of heap.c; heap_lock by its value.
pub record Heap : Type 0 where
  pub heap_ptr : Ptr
  pub heap_tree : Tree
  pub heap_lock : ℕ

pub heap_init : Heap → Heap
heap_init h = record h { heap_tree = λ _. null; heap_lock = 0 }

pub b_wait : Heap → Heap
b_wait h = record h { heap_lock = 1 }

pub b_signal : Heap → Heap
b_signal h = record h { heap_lock = 0 }

-- __builtin_clz: the zero bits above the highest one bit of a word of `w` bits.
pub leading_zeros : ℕ → ℕ → ℕ
leading_zeros zero x = 0
leading_zeros (suc w) x = if leb (2 ^ w) x then 0 else suc (leading_zeros w x)

pub next_pow2 : ℕ → ℕ
next_pow2 x = if leb x 2 then x else 2 ^ 31 / 2 ^ (leading_zeros 32 (x - 1) - 1)

-- The size of the block that `malloc` looks for.
pub block_size_for : ℕ → ℕ
block_size_for size =
    let size' = next_pow2 size in if ltb size' heap_size_min then heap_size_min else size'

-- The local variables of the loop in `malloc`, and the array that it writes.
pub record Walk : Type 0 where
  pub i : ℕ
  pub block_size : ℕ
  pub skip : ℕ
  pub tree : Tree

-- What one round of the loop does: go round again, allocate node `i`, or break.
pub data Round : Type 0 where
  again : Walk → Round
  allocate : ℕ → ℕ → Tree → Round
  exhausted : Tree → Round

abbrev pub left : ℕ → ℕ
left i = (2 * i + 1) % 2 ^ 16

abbrev pub right : ℕ → ℕ
right i = (2 * i + 2) % 2 ^ 16

-- `(i-1) / 2` on int: at 0 it is `-1 / 2`, which C rounds to 0.
abbrev pub parent : ℕ → ℕ
parent i = (i - 1) / 2

abbrev pub is_leaf : Ptr → Bool
is_leaf p = not (p == null) && not (p == branch_node)

pub traverse_up : Walk → Walk
traverse_up s = record s { skip = s.i; block_size = s.block_size * 2 % 2 ^ 32; i = parent s.i }

pub traverse_down : ℕ → Walk → Walk
traverse_down child s = record s { block_size = s.block_size / 2; i = child }

-- `if (i == 0) break;` and the way up otherwise.
pub up_or_break : Walk → Round
unfolding traverse_up
up_or_break s = if s.i == 0 then exhausted s.tree else again (traverse_up s)

pub choose_child : Walk → Round
unfolding up_or_break traverse_down
choose_child s =
    if right s.i == s.skip
    then up_or_break s
    else if is_leaf (s.tree (left s.i)) || (left s.i == s.skip)
    then (if is_leaf (s.tree (right s.i))
        then up_or_break s
        else again (traverse_down (right s.i) s))
    else again (traverse_down (left s.i) s)

pub malloc_round : ℕ → Walk → Round
unfolding choose_child traverse_up
malloc_round size s =
    if s.block_size == size
    then (if not (s.tree s.i == null)
        then again (traverse_up s)
        else allocate s.i s.block_size s.tree)
    else choose_child (record s { tree = update s.tree s.i branch_node })

-- `while (1)`, on fuel: `again` as a result means that the fuel ran out.
pub malloc_loop : ℕ → ℕ → Walk → Round
malloc_loop zero size s = again s
malloc_loop (suc fuel) size s = elim (malloc_round size s) [
  | again s' ↦ malloc_loop fuel size s'
  | allocate i b t ↦ allocate i b t
  | exhausted t ↦ exhausted t
]

abbrev pub malloc_fuel : ℕ
malloc_fuel = 2 ^ 13

abbrev pub walk_start : Tree → Walk
walk_start t = record { i = 0; block_size = heap_size; skip = 0; tree = t }

-- `heap_ptr + (((i+1) * block_size) & HEAP_ADDR_MAX)`: the mask keeps the low 17 bits.
pub block_address : Ptr → ℕ → ℕ → Ptr
block_address base i block = base + (i + 1) * block % 2 ^ 32 % heap_size

-- What follows the loop. The first `none` would be a loop that never ends.
pub malloc_finish : Heap → Round → Option (Ptr × Heap)
unfolding block_address b_signal
malloc_finish h (again s) = none
malloc_finish h (allocate i block t) =
    let mem_addr = block_address h.heap_ptr i block in
    some (mem_addr, b_signal (record h { heap_tree = update t i mem_addr }))
malloc_finish h (exhausted t) = some (null, b_signal (record h { heap_tree = t }))

pub malloc : ℕ → Heap → Option (Ptr × Heap)
unfolding malloc_finish b_wait
malloc size h =
    if ltb heap_size size
    then some (null, h)
    else malloc_finish (b_wait h)
        (malloc_loop malloc_fuel (block_size_for size) (walk_start h.heap_tree))
