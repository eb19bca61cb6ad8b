-- ===== src/Heap/Release.antt =====
-- `free` and `find_ptr` of os/heap.c.
pub mod Rounds
pub mod Seek
pub mod Climb
pub mod Given
pub mod Undo
pub mod Outcome
pub mod Clients
use multicore_rtos.Base.{
  ℕ, zero, suc, ◌+◌, ◌*◌, ◌||◌, not, Option, none, some, ltb, leb, ◌==◌, if◌then◌else◌, update,
}
use multicore_rtos.Heap.{
  Ptr, null, Tree, Heap, b_wait, b_signal, left, right, parent, malloc_fuel, heap_tree_node_cnt,
}

-- The local variables of `find_ptr`. Its loop ends by `break` with the node, or by `return 0`.
pub record Visit : Type 0 where
  pub i : ℕ
  pub skip : ℕ

pub data FindRound : Type 0 where
  again : Visit → FindRound
  index : ℕ → FindRound

abbrev pub visit_up : Visit → FindRound
visit_up s =
    if s.i == 0 then FindRound.index 0 else FindRound.again (record { i = parent s.i; skip = s.i })

pub find_round : Tree → Ptr → Visit → FindRound
find_round t ptr s =
    if t s.i == ptr
    then FindRound.index s.i
    else if right s.i == s.skip
    then visit_up s
    else if leb heap_tree_node_cnt (left s.i) || (t (left s.i) == null) || (left s.i == s.skip)
    then (if ltb heap_tree_node_cnt (right s.i) || (t (right s.i) == null)
        then visit_up s
        else FindRound.again (record { i = right s.i; skip = s.skip }))
    else FindRound.again (record { i = left s.i; skip = s.skip })

-- `again` as a result means that the fuel ran out.
pub find_loop : ℕ → Tree → Ptr → Visit → FindRound
find_loop zero t ptr s = FindRound.again s
find_loop (suc fuel) t ptr s = elim (find_round t ptr s) [
  | FindRound.again s' ↦ find_loop fuel t ptr s'
  | FindRound.index i ↦ FindRound.index i
]

pub find_ptr : Tree → Ptr → FindRound
unfolding find_loop find_round
find_ptr t ptr = find_loop malloc_fuel t ptr (record { i = 0; skip = 0 })

-- `while (i > 0)`: the number of rounds is at most the depth of the node, and `i` itself is enough.
pub free_parents : ℕ → ℕ → Tree → Tree
free_parents zero i t = t
free_parents (suc fuel) i t =
    if i == 0
    then t
    else if not (t (2 * parent i + 1) == null) || not (t (2 * parent i + 2) == null)
    then t
    else free_parents fuel (parent i) (update t (parent i) null)

-- `free` after the lock is taken, by what `find_ptr` returns.
pub free_found : Heap → FindRound → Option (ℕ × Heap)
unfolding free_parents b_signal
free_found h (FindRound.again s) = none
free_found h (FindRound.index i) =
    if i == 0
    then some (1, b_signal h)
    else some (0, b_signal (record h { heap_tree = free_parents i i (update h.heap_tree i null) }))

pub free : Ptr → Heap → Option (ℕ × Heap)
unfolding free_found find_ptr b_wait
free ptr h =
    if h.heap_tree 0 == null then some (1, h) else free_found (b_wait h) (find_ptr h.heap_tree ptr)
