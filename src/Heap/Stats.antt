-- ===== src/Heap/Stats.antt =====
-- `heap_stats` of os/heap.c.
pub mod Totals
pub mod Bytes
pub mod Count
pub mod Sum
use multicore_rtos.Base.{
  ℕ, zero, suc, ◌+◌, ◌-◌, ◌*◌, ◌/◌, ◌%◌, ◌^◌, ◌||◌, Option, none, some, ◌==◌, if◌then◌else◌,
}
use multicore_rtos.Heap.{
  null, Tree, Heap, b_wait, b_signal, is_leaf, left, right, parent, malloc_fuel, heap_size,
}

pub record HeapStats : Type 0 where
  pub size : ℕ
  pub used : ℕ
  pub free : ℕ

-- The local variables of `heap_stats`.
pub record Tally : Type 0 where
  pub used : ℕ
  pub i : ℕ
  pub block_size : ℕ
  pub skip : ℕ

pub data TallyRound : Type 0 where
  again : Tally → TallyRound
  total : ℕ → TallyRound

abbrev pub tally_up : Tally → Tally
tally_up s = record s { skip = s.i; block_size = s.block_size * 2 % 2 ^ 32; i = parent s.i }

-- The second half of a round, below the test for a leaf.
pub tally_children : Tree → Tally → TallyRound
tally_children t s =
    if right s.i == s.skip
    then (if s.i == 0 then TallyRound.total s.used else TallyRound.again (tally_up s))
    else if (t (left s.i) == null) || (left s.i == s.skip)
    then (if t (right s.i) == null
        then (if s.i == 0 then TallyRound.total s.used else TallyRound.again (tally_up s))
        else TallyRound.again (record s { block_size = s.block_size / 2; i = right s.i }))
    else TallyRound.again (record s { block_size = s.block_size / 2; i = left s.i })

pub tally_round : Tree → Tally → TallyRound
unfolding tally_children
tally_round t s =
    if is_leaf (t s.i)
    then (let s' = record s { used = (s.used + s.block_size) % 2 ^ 32 } in
        if s.i == 0 then TallyRound.total s'.used else tally_children t (tally_up s'))
    else tally_children t s

-- `again` as a result means that the fuel ran out.
pub tally_loop : ℕ → Tree → Tally → TallyRound
tally_loop zero t s = TallyRound.again s
tally_loop (suc fuel) t s = elim (tally_round t s) [
  | TallyRound.again s' ↦ tally_loop fuel t s'
  | TallyRound.total n ↦ TallyRound.total n
]

pub stats_of : Heap → TallyRound → Option (HeapStats × Heap)
unfolding b_signal
stats_of h (TallyRound.again s) = none
stats_of h (TallyRound.total used) = some (
  record { size = heap_size; used = used; free = (2 ^ 32 + heap_size - used) % 2 ^ 32 },
  b_signal h,
)

pub heap_stats : Heap → Option (HeapStats × Heap)
unfolding stats_of tally_loop tally_round b_wait
heap_stats h = stats_of (b_wait h) (
    tally_loop malloc_fuel h.heap_tree
      (record { used = 0; i = 0; block_size = heap_size; skip = 0 }))
