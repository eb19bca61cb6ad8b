-- ===== src/Interp/Session.antt =====
-- `interpreter` of os/interpreter.c: a round of its loop. The C library's functions are parameters, and
-- what is given to `uart_out_string` is a list of outputs.
use multicore_rtos.Base.{
  ℕ, zero, suc, ◌+◌, ◌/◌, ◌%◌, ◌^◌, Bool, ◌||◌, Option, none, some, List, [], ◌∷◌, ◌==◌,
  if◌then◌else◌, leb, length,
}
use multicore_rtos.Heap.{Ptr}
use multicore_rtos.Heap.Calloc.{Memory, memset}
use multicore_rtos.Heap.Stats.{HeapStats, heap_stats}
use multicore_rtos.Timer.{get_mstime, clear_mstime}
use multicore_rtos.Sched.{Kernel}
use multicore_rtos.Sched.Wait
use multicore_rtos.Sched.Create.{SchedulerStats, get_idle_percentage, scheduler_stats}
use multicore_rtos.Uart.Input.{uart_in_string}
use multicore_rtos.Interp.{Command, hash, command_of}

-- The formats given to `snprintf`, with their arguments.
pub data Format : Type 0 where
  uptime : ℕ → Format
  idle : ℕ → ℕ → ℕ → ℕ → Format
  threads : ℕ → ℕ → ℕ → Format
  heap_use : ℕ → ℕ → ℕ → Format
  sleeping_for : ℕ → Format

-- The C library: `strtok(s, " ")` with the memory that it leaves, where `none` is NULL, `sscanf` with
-- "%s" and with "%d", whose first result is the int32_t that it returns, and the bytes of `snprintf`.
pub record Libc : Type 0 where
  pub strtok : Memory → Ptr → Option (Ptr × Memory)
  pub scan_word : Memory → Ptr → ℕ × List ℕ
  pub scan_int : Memory → Ptr → ℕ × ℕ
  pub snprintf : ℕ → Format → List ℕ

-- A string literal by what it says, the bytes that `uart_in_string` sends, or those of `snprintf`.
pub data Output : Type 0 where
  prompt system_time_reset invalid_argument invalid_count help_message unknown_command : Output
  echo : List ℕ → Output
  printed : List ℕ → Output

-- What a round reads from the clock, in the order of the calls of its branch.
pub record Clocks : Type 0 where
  pub low : ℕ
  pub high : ℕ
  pub raw0 : ℕ
  pub raw1 : ℕ
  pub now : ℕ
  pub now' : ℕ
  pub now'' : ℕ

abbrev pub buffsize : ℕ
buffsize = 256

-- `int32_t` below or at zero
abbrev pub no_argument : ℕ → Bool
no_argument n = (n == 0) || leb (2 ^ 31) n

module _ (libc : Libc) (cpu : ℕ) (clocks : Clocks) where
  -- `snprintf` into the buffer, and the buffer to `uart_out_string`.
  abbrev pub print : Format → Output
  print f = Output.printed (libc.snprintf buffsize f)

  unfoldable pub run_time : Memory → Ptr → Kernel → List Output × Kernel
  run_time memory args k =
      let (argcount, s) = libc.scan_word memory args in
      if no_argument argcount
      then (print (Format.uptime (get_mstime clocks.low clocks.high k.timer)) ∷ [], k)
      else if argcount == 1
      then (if hash s == 1_695_364_032
          then (
            Output.system_time_reset ∷ [],
            record k { timer = clear_mstime clocks.low clocks.high k.timer },
          )
          else (Output.invalid_argument ∷ [], k))
      else (Output.invalid_count ∷ [], k)

  unfoldable pub print_stats : SchedulerStats → HeapStats → Kernel → List Output
  print_stats s h k =
      let cpu0_idle = get_idle_percentage 0 clocks.raw0 k in
      let cpu1_idle = get_idle_percentage 1 clocks.raw1 k in
      print (Format.idle (cpu0_idle / 10) (cpu0_idle % 10) (cpu1_idle / 10) (cpu1_idle % 10))
      ∷ print (Format.threads s.running_thread_cnt s.active_thread_cnt s.lifetime_thread_cnt)
      ∷ print (Format.heap_use h.size h.used h.free)
      ∷ []

  unfoldable pub run_stats : Kernel → Option (List Output × Kernel)
  unfolding print_stats
  run_stats k = elim (heap_stats k.heap) [
    | none ↦ none
    | some (h, heap) ↦ some (print_stats (scheduler_stats k) h k, record k { heap = heap })
  ]

  unfoldable pub run_sleep : Memory → Ptr → Kernel → Option (List Output × Kernel)
  run_sleep memory args k =
      let (count, sleep_time) = libc.scan_int memory args in
      if count == 1
      then elim (Wait.sleep cpu clocks.now clocks.now' clocks.now'' sleep_time k) [
        | none ↦ none
        | some k' ↦ some (print (Format.sleeping_for sleep_time) ∷ [], k')
      ]
      else some (Output.invalid_count ∷ [], k)

  -- The `switch`.
  unfoldable pub execute : Command → Memory → Ptr → Kernel → Option (List Output × Kernel)
  unfolding run_time run_stats run_sleep
  execute Command.time memory args k = some (run_time memory args k)
  execute Command.stats memory args k = run_stats k
  execute Command.sleep memory args k = run_sleep memory args k
  execute Command.help memory args k = some (Output.help_message ∷ [], k)
  execute Command.unknown memory args k = some (Output.unknown_command ∷ [], k)

-- The bytes at a pointer up to the NUL, which `hash` and `strlen` walk; `none` is fuel that ran out.
unfoldable pub c_string : ℕ → Memory → Ptr → Option (List ℕ)
c_string zero memory p = none
c_string (suc fuel) memory p =
    let rest = c_string fuel memory (p + 1) in
    if memory p == 0 then some [] else elim rest [ none ↦ none | some cs ↦ some (memory p ∷ cs) ]

-- How a round ends: `uart_in_string` does not return, NULL is read as a string, a loop goes on for ever,
-- or the next round begins, after these outputs and with these bytes to come.
pub data Round : Type 0 where
  waiting null_read endless : Round
  done : List Output → Kernel → List ℕ → Round

module _ (libc : Libc) (cpu : ℕ) (clocks : Clocks) (buffer : Ptr) where
  -- A round's outputs stand behind the prompt and the echo.
  abbrev pub finish : List ℕ → List ℕ → Option (List Output × Kernel) → Round
  finish sent rest none = Round.endless
  finish sent rest (some (out, k)) = Round.done (Output.prompt ∷ Output.echo sent ∷ out) k rest

  -- The first word of the line is the command. `args` is counted from the start of the buffer.
  unfoldable pub dispatch : Memory → Kernel → List ℕ → List ℕ → Round
  unfolding c_string
  dispatch memory k sent rest = elim (libc.strtok memory buffer) [
    | none ↦ Round.null_read
    | some (cmd, memory') ↦ elim (c_string (buffsize + 1) memory' cmd) [
      | none ↦ Round.endless
      | some word ↦
          finish sent rest
            (execute libc cpu clocks (command_of word) memory' (buffer + length word + 1) k)
    ]
  ]

  -- A round of `while (1)`, on the bytes that `fifo_get` will return.
  unfoldable pub round : List ℕ → Memory → Kernel → Round
  unfolding dispatch
  round input memory k =
      elim (uart_in_string buffsize input buffer (memset memory buffer 0 buffsize)) [
        | none ↦ Round.waiting
        | some (memory', sent, rest) ↦
            if memory' buffer == 0
            then finish sent rest (some ([], k))
            else dispatch memory' k sent rest
      ]
