-- ===== src/Heap/Stats/Sum.antt =====
-- `heap_stats` of os/heap.c on the abstract heap: the sum of the allocated blocks.
use multicore_rtos.Base.{
  ℕ, suc, ◌+◌, ◌-◌, ◌*◌, ◌%◌, ◌^◌, ◌≤◌, ◌≡◌, refl, sym, ap, ◌∙◌, some, true, arith,
}
use multicore_rtos.Heap.{Heap, Ptr, Tree, null, heap_size, is_leaf, malloc_fuel, b_wait, b_signal}
use multicore_rtos.Heap.Stats.{
  Tally, total, tally_children, tally_round, tally_loop, stats_of, heap_stats,
}
use multicore_rtos.Heap.Descend.{cost}
use multicore_rtos.Heap.Buddy.{Buddy, free, used, split, IsBase, Rep, is_leaf-is_used, Empty-root}
use multicore_rtos.Heap.Blocks.{blocks}
use multicore_rtos.Heap.Refine.{cost-pow2}
use multicore_rtos.Heap.Stats.Totals.{Totals, tally, Totals-end, Totals-weaken}
use multicore_rtos.Heap.Stats.Bytes.{bytes, allocated, bytes-blocks, allocated-le}
use multicore_rtos.Heap.Stats.Count.{split_part, count}

module _ (t : Tree) where
  free_round :
      t 0 ≡ null → t 1 ≡ null → t 2 ≡ null → tally_round t (tally 0 0 heap_size 0) ≡ total 0
  unfolding tally_round tally_children
  free_round e l r = rw (e, l, r) refl

  used_round : is_leaf (t 0) ≡ true → tally_round t (tally 0 0 heap_size 0) ≡ total heap_size
  unfolding tally_round
  used_round e = rw e refl

-- The whole loop, from the root.
tally_loop-allocated :
    (base : Ptr) (b : Buddy) (t : Tree)
    → IsBase base
    → Rep base b 10 0 t
    → Totals t (2 * cost 9 + 2) (tally 0 0 heap_size 0) (allocated 10 b)
unfolding allocated
tally_loop-allocated base free t ok rep =
    Totals-weaken t
      (Totals-end t (free_round t rep.0 (Empty-root 9 1 t rep.1) (Empty-root 9 2 t rep.2)))
      (omega arith)
tally_loop-allocated base used t ok rep =
    Totals-weaken t (Totals-end t (used_round t (is_leaf-is_used base used 10 0 t ok rep)))
      (omega arith)
tally_loop-allocated base (split l r) t ok rep =
    let sum : 0 + allocated 9 l + allocated 9 r ≡ allocated 9 l + allocated 9 r = omega arith in
    Totals-weaken t
      (split_part base ok t (allocated 10 (split l r)) 9 0 l r (omega arith) rep 0 0 0 (omega arith)
        (λ s skip e. Totals-end t (e ∙ ap total sum))
        (λ q b.
          count base ok t _ l 9 1 0 0 0 (cost 9 + 1) (omega arith) (omega arith) rep.0 (omega arith)
            (omega arith) (omega arith) rep.1 q b)
        (λ u' skip' bound below q b.
          count base ok t _ r 9 2 0 u' skip' 0 (omega arith) (omega arith) rep.0 (omega arith)
            (omega (arith, allocated-le l 9)) below rep.2 q b))
      (omega arith)

enough_fuel :
    (t : Tree) (s : Tally) (n : ℕ)
    → Totals t (2 * cost 9 + 2) s n
    → tally_loop malloc_fuel t s ≡ total n
enough_fuel t s n f =
    let fuel : suc (f.rounds + (malloc_fuel - 1 - f.rounds)) ≡ malloc_fuel =
      omega (arith, f.within, cost-pow2 9) in
    ap (λ k. tally_loop k t s) (sym fuel) ∙ f.ends (malloc_fuel - 1 - f.rounds)

-- Where the state represents an abstract heap, one single allocated block included, a call of
-- `heap_stats` ends and reports the size of the heap, the sum of the sizes of the allocated blocks,
-- and the difference of the two. It changes nothing but the lock, which is free.
pub heap_stats-bytes :
    (h : Heap) (b : Buddy)
    → IsBase h.heap_ptr
    → Rep h.heap_ptr b 10 0 h.heap_tree
    → (bytes (blocks 0 10 b) ≤ heap_size)
      × (heap_stats h
          ≡ some (
            record {
              size = heap_size;
              used = bytes (blocks 0 10 b);
              free = heap_size - bytes (blocks 0 10 b);
            },
            record h { heap_lock = 0 },
          ))
unfolding heap_stats stats_of b_wait b_signal
heap_stats-bytes h b ok rep =
    let le = allocated-le b 10 in
    let whole = bytes-blocks b 10 0 in
    let e = enough_fuel h.heap_tree _ _ (tally_loop-allocated h.heap_ptr b h.heap_tree ok rep) in
    let rest : (2 ^ 32 + heap_size - allocated 10 b) % 2 ^ 32 ≡ heap_size - allocated 10 b =
      omega arith in
    rw whole (le, rw e (rw rest refl))
