-- ===== src/Timer/Uptime.antt =====
-- The uptime: what `get_mstime` returns after `clear_mstime`.
use multicore_rtos.Base.{ℕ, ◌+◌, ◌-◌, ◌/◌, ◌%◌, ◌^◌, ◌≤◌, ◌≡◌, arith}
use multicore_rtos.Timer.{Timer, get_raw_time, get_raw_time_ms, get_mstime, clear_mstime}

sub_wrapped : (a b : ℕ) → a ≤ b → (b % 2 ^ 32 + 2 ^ 32 - a % 2 ^ 32) % 2 ^ 32 ≡ (b - a) % 2 ^ 32
sub_wrapped a b le = omega arith

-- Where `get_mstime` reads the clock no earlier than the last `clear_mstime` did, the uptime is the
-- difference of the two readings in whole milliseconds, modulo 2^32: also where the milliseconds of
-- the clock pass 2^32 in between.
pub get_mstime-clear_mstime :
    (low0 high0 low1 high1 : ℕ) (t : Timer)
    → get_raw_time low0 high0 ≤ get_raw_time low1 high1
    → get_mstime low1 high1 (clear_mstime low0 high0 t)
      ≡ (get_raw_time low1 high1 / 1000 - get_raw_time low0 high0 / 1000) % 2 ^ 32
unfolding get_mstime clear_mstime get_raw_time_ms
get_mstime-clear_mstime low0 high0 low1 high1 t le =
    sub_wrapped (get_raw_time low0 high0 / 1000) (get_raw_time low1 high1 / 1000) (omega arith)
