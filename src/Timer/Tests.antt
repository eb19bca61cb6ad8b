-- ===== src/Timer/Tests.antt =====
-- The uptime over the end of the clock's low word.
use multicore_rtos.Base.{◌-◌, ◌/◌, ◌%◌, ◌^◌, ◌≡◌, arith}
use multicore_rtos.Timer.{Timer, get_raw_time, get_mstime, clear_mstime}
use multicore_rtos.Timer.Uptime.{get_mstime-clear_mstime}

abbrev started : Timer
started = record { alarm = λ _. 0; systime_start = 0 }

get_mstime-clear_mstime_example :
    get_mstime 5000 1 (clear_mstime 0xFFFF_F000 0 started)
    ≡ (get_raw_time 5000 1 / 1000 - get_raw_time 0xFFFF_F000 0 / 1000) % 2 ^ 32
unfolding get_raw_time
get_mstime-clear_mstime_example = get_mstime-clear_mstime 0xFFFF_F000 0 5000 1 started (omega arith)
