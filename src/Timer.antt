-- ===== src/Timer.antt =====
-- hw/timer.c and hw/timer.h: the alarms, the 64-bit clock and the uptime in milliseconds.
-- A timer register is a field of the state; the two halves of the clock are arguments.
pub mod Uptime
mod Tests
use multicore_rtos.Base.{ℕ, ◌+◌, ◌-◌, ◌*◌, ◌/◌, ◌%◌, ◌^◌, update}

-- timer_e
pub data TimerId : Type 0 where
  sleep periodic timer2 timer3 : TimerId

-- TIMER_ALARM0 to TIMER_ALARM3, by number, and `systime_start`.
pub record Timer : Type 0 where
  pub alarm : ℕ → ℕ
  pub systime_start : ℕ

unfoldable pub arm_timer : TimerId → ℕ → Timer → Timer
arm_timer TimerId.sleep v t = record t { alarm = update t.alarm 0 (v % 2 ^ 32) }
arm_timer TimerId.periodic v t = record t { alarm = update t.alarm 1 (v % 2 ^ 32) }
arm_timer TimerId.timer2 v t = record t { alarm = update t.alarm 2 (v % 2 ^ 32) }
arm_timer TimerId.timer3 v t = record t { alarm = update t.alarm 3 (v % 2 ^ 32) }

-- `(high << 32) | low`: the low half of the shifted word is zero.
pub get_raw_time : ℕ → ℕ → ℕ
get_raw_time low high = high * 2 ^ 32 + low

pub get_raw_time_ms : ℕ → ℕ → ℕ
unfolding get_raw_time
get_raw_time_ms low high = get_raw_time low high / 1000 % 2 ^ 32

pub get_mstime : ℕ → ℕ → Timer → ℕ
get_mstime low high t = (get_raw_time_ms low high + 2 ^ 32 - t.systime_start) % 2 ^ 32

pub clear_mstime : ℕ → ℕ → Timer → Timer
clear_mstime low high t = record t { systime_start = get_raw_time_ms low high }
