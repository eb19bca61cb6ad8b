-- ===== src/Interp/Answers.antt =====
-- What a round of `interpreter` of os/interpreter.c answers.
use multicore_rtos.Base.{
  ℕ, ◌+◌, ◌-◌, ◌/◌, ◌%◌, ◌^◌, ◌≤◌, ◌<◌, ◌≡◌, ◌⊎◌, ◌≢◌, Option, none, some, List, [], ◌∷◌, length,
}
use multicore_rtos.Heap.{Ptr, heap_size}
use multicore_rtos.Heap.Calloc.{Memory}
use multicore_rtos.Heap.Buddy.{Buddy}
use multicore_rtos.Heap.Blocks.{blocks}
use multicore_rtos.Heap.Refine.{Represents}
use multicore_rtos.Heap.Stats.Bytes.{bytes}
use multicore_rtos.Timer.{get_mstime, clear_mstime}
use multicore_rtos.Sched.{Kernel, is_running, is_active}
use multicore_rtos.Sched.Wait
use multicore_rtos.Sched.Ready.{state_of}
use multicore_rtos.Sched.PutBack.{Levels}
use multicore_rtos.Sched.Create.{get_idle_percentage}
use multicore_rtos.Sched.Report.{total}
use multicore_rtos.Uart.Editor.{Shows}
use multicore_rtos.Uart.Entered.{Entered}
use multicore_rtos.Interp.{Command, command_of, hash}
use multicore_rtos.Interp.Session.{Format, Libc, Output, Clocks, Round, buffsize, print, c_string}

-- What `strtok` documents of its result: the word lies in the string, and ends in it or at its NUL.
abbrev pub InString : Libc → Type 0
InString libc =
    (memory : Memory) (s n : ℕ)
    → memory (s + n) ≡ 0
    → (p : Ptr) (memory' : Memory) → libc.strtok memory s ≡ some (p, memory')
    → (j : ℕ) × (j ≤ n) × (memory' (p + j) ≡ 0)

module _ (libc : Libc) (cpu : ℕ) (clocks : Clocks) (k : Kernel) (q : ℕ → List Ptr) (b : Buddy) where
  -- The arguments, as the C library reads them: `n` is the int32_t that `sscanf` returns.
  module _ (memory : Memory) (args : Ptr) where
    -- A description of the answers: on what arguments, what is printed, and the kernel afterwards.
    pub data Answer : Command → List Output → Kernel → Type 0 where
      helped : Answer Command.help (Output.help_message ∷ []) k
      not_known : Answer Command.unknown (Output.unknown_command ∷ []) k
      time_told :
          (n : ℕ) (s : List ℕ)
          → libc.scan_word memory args ≡ (n, s)
          → (n ≡ 0) ⊎ (2 ^ 31 ≤ n)
          → Answer Command.time
              (print libc cpu clocks (Format.uptime (get_mstime clocks.low clocks.high k.timer))
                ∷ [])
              k
      time_reset :
          (s : List ℕ)
          → libc.scan_word memory args ≡ (1, s)
          → hash s ≡ 1_695_364_032
          → Answer Command.time
              (Output.system_time_reset ∷ [])
              (record k { timer = clear_mstime clocks.low clocks.high k.timer })
      wrong_argument :
          (s : List ℕ)
          → libc.scan_word memory args ≡ (1, s)
          → hash s ≢ 1_695_364_032
          → Answer Command.time (Output.invalid_argument ∷ []) k
      wrong_count :
          (n : ℕ) (s : List ℕ)
          → libc.scan_word memory args ≡ (n, s)
          → 1 < n
          → n < 2 ^ 31
          → Answer Command.time (Output.invalid_count ∷ []) k
      reported :
          Answer Command.stats
            (print libc cpu clocks (
                Format.idle
                  (get_idle_percentage 0 clocks.raw0 k / 10)
                  (get_idle_percentage 0 clocks.raw0 k % 10)
                  (get_idle_percentage 1 clocks.raw1 k / 10)
                  (get_idle_percentage 1 clocks.raw1 k % 10))
              ∷ print libc cpu clocks (
                  Format.threads
                    (total is_running (state_of k) q 5 % 2 ^ 16)
                    (total is_active (state_of k) q 5 % 2 ^ 16)
                    (k.lifetime_thread_count % 2 ^ 16))
              ∷ print libc cpu clocks (
                  Format.heap_use heap_size
                    (bytes (blocks 0 10 b))
                    (heap_size - bytes (blocks 0 10 b)))
              ∷ [])
            k
      no_time :
          (n t : ℕ)
          → libc.scan_int memory args ≡ (n, t)
          → n ≢ 1
          → Answer Command.sleep (Output.invalid_count ∷ []) k
      slept :
          (t : ℕ) (k' : Kernel)
          → libc.scan_int memory args ≡ (1, t)
          → Wait.sleep cpu clocks.now clocks.now' clocks.now'' t k ≡ some k'
          → Answer Command.sleep (print libc cpu clocks (Format.sleeping_for t) ∷ []) k'

    -- A command is answered, unless `sleep` goes on for ever.
    pub data Executed : Command → Option (List Output × Kernel) → Type 0 where
      answered :
          (c : Command) (out : List Output) (k' : Kernel)
          → Answer c out k'
          → Executed c (some (out, k'))
      asleep :
          (t : ℕ)
          → libc.scan_int memory args ≡ (1, t)
          → Wait.sleep cpu clocks.now clocks.now' clocks.now'' t k ≡ none
          → Executed Command.sleep none

  module _ (ok : Represents k.heap b) (open_lock : k.heap.heap_lock ≡ 0) (levels : Levels k q) where
    -- How a round ends with the memory that `uart_in_string` left.
    pub data Ends (buffer : Ptr) (memory : Memory) : Round → Type 0 where
      blank :
          (sent rest : List ℕ)
          → memory buffer ≡ 0
          → Ends buffer memory (Round.done (Output.prompt ∷ Output.echo sent ∷ []) k rest)
      no_word : libc.strtok memory buffer ≡ none → Ends buffer memory Round.null_read
      obeyed :
          (sent rest : List ℕ) (cmd : Ptr) (memory' : Memory) (word : List ℕ) (out : List Output)
          (k' : Kernel)
          → libc.strtok memory buffer ≡ some (cmd, memory')
          → c_string (buffsize + 1) memory' cmd ≡ some word
          → Answer memory' (buffer + length word + 1) (command_of word) out k'
          → Ends buffer memory (Round.done (Output.prompt ∷ Output.echo sent ∷ out) k' rest)
      endless_sleep :
          (cmd : Ptr) (memory' : Memory) (word : List ℕ) (t : ℕ)
          → libc.strtok memory buffer ≡ some (cmd, memory')
          → c_string (buffsize + 1) memory' cmd ≡ some word
          → command_of word ≡ Command.sleep
          → libc.scan_int memory' (buffer + length word + 1) ≡ (1, t)
          → Wait.sleep cpu clocks.now clocks.now' clocks.now'' t k ≡ none
          → Ends buffer memory Round.endless

    module _ (in_string : InString libc) (buffer : Ptr) where
      -- A round waits as long as no line is entered; then it ends on the memory that has the line.
      abbrev pub Outcome : Option (List ℕ) → Round → Type 0
      Outcome none r = r ≡ Round.waiting
      Outcome (some line) r =
          (memory : Memory) × Shows memory buffer line
          × (memory (buffer + length line) ≡ 0)
          × Ends buffer memory r
