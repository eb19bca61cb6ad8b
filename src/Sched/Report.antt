-- ===== src/Sched/Report.antt =====
-- What `scheduler_stats` reports.
use multicore_rtos.Base.{ℕ, zero, suc, ◌+◌, ◌%◌, ◌^◌, ◌<◌, ◌≡◌, refl, Bool, List, arith}
use multicore_rtos.Heap.{Ptr}
use multicore_rtos.Sched.{Kernel, ThreadState, is_running, is_active}
use multicore_rtos.Sched.Ready.{state_of, tally}
use multicore_rtos.Sched.PutBack.{Levels}
use multicore_rtos.Sched.Create.{scheduler_stats, sum_levels}

-- the threads of the first `n` levels in a state that passes the test
abbrev pub total : (ThreadState → Bool) → (Ptr → ThreadState) → (ℕ → List Ptr) → ℕ → ℕ
total f st q zero = 0
total f st q (suc n) = total f st q n + tally f st (q n)

sum_levels-total :
    (n : ℕ) (counts : ℕ → ℕ) (f : ThreadState → Bool) (st : Ptr → ThreadState) (q : ℕ → List Ptr)
    → ((p : ℕ) → p < n → counts p ≡ tally f st (q p))
    → sum_levels n counts ≡ total f st q n % 2 ^ 16
unfolding sum_levels
sum_levels-total zero counts f st q h = refl
sum_levels-total (suc n) counts f st q h =
    let ih = sum_levels-total n counts f st q (λ p lt. h p (omega (arith, lt))) in
    omega (arith, ih, h n (omega arith))

-- Where every level satisfies its invariant, `scheduler_stats` reports the number of RUNNING and the
-- number of ACTIVE threads in the lists of all five levels, and the number of threads ever created,
-- each modulo 2^16.
pub scheduler_stats-total :
    (k : Kernel) (q : ℕ → List Ptr)
    → Levels k q
    → ((scheduler_stats k).running_thread_cnt ≡ total is_running (state_of k) q 5 % 2 ^ 16)
      × ((scheduler_stats k).active_thread_cnt ≡ total is_active (state_of k) q 5 % 2 ^ 16)
      × ((scheduler_stats k).lifetime_thread_cnt ≡ k.lifetime_thread_count % 2 ^ 16)
unfolding scheduler_stats
scheduler_stats-total k q l = (
  sum_levels-total 5 k.running_priority_count is_running (state_of k) q
      (λ p lt. (l.ready p lt).runnings),
  sum_levels-total 5 k.active_priority_count is_active (state_of k) q
      (λ p lt. (l.ready p lt).actives),
  refl,
)
