-- ===== src/Launch.antt =====
-- The mailbox between the cores in os/ipc.c, and the way in which init_scheduler of os/schedule.c
-- wakes core 1 with it. What core 1 does until it runs core1_entry is code of the chip, and a
-- parameter: a function that takes the state of core 1 and a word to the words that it answers with
-- and its new state.
pub mod Wake
mod Tests
use multicore_rtos.Base.{
  ℕ, zero, suc, ◌+◌, ◌*◌, ◌/◌, ◌%◌, ◌^◌, ◌&&◌, false, List, [], ◌∷◌, ◌++◌, Option, none, some, Bool,
  true, ◌==◌, ltb, if◌then◌else◌,
}
use multicore_rtos.Sched.{Kernel}
use multicore_rtos.Sched.Create.{start_core}

-- The mailbox as core 0 sees it: the words it has written and those that `multicore_fifo_pop_blocking`
-- has returned to it, both with the latest one first, and those that it has not read yet.
pub record Mailbox : Type 0 where
  pub written : List ℕ
  pub returned : List ℕ
  pub unread : List ℕ

-- `while (!(FIFO_ST & 0b10))`: `ready` is that bit. `none`: the call waits.
unfoldable pub multicore_fifo_push_blocking : Bool → ℕ → Mailbox → Option Mailbox
multicore_fifo_push_blocking ready data_word m =
    if ready then some (record m { written = data_word ∷ m.written }) else none

-- `while (!(FIFO_ST & 0b1))`: the bit tells that there is a word to read.
unfoldable pub pop_unread : List ℕ → List ℕ → List ℕ → Option (ℕ × Mailbox)
pop_unread w r [] = none
pop_unread w r (x ∷ xs) = some (x, record { written = w; returned = x ∷ r; unread = xs })

unfoldable pub multicore_fifo_pop_blocking : Mailbox → Option (ℕ × Mailbox)
unfolding pop_unread
multicore_fifo_pop_blocking m = pop_unread m.written m.returned m.unread

-- `while (FIFO_ST & 0b1) (void)FIFO_RD;`
unfoldable pub drain_unread : List ℕ → List ℕ
drain_unread [] = []
drain_unread (x ∷ xs) = drain_unread xs

unfoldable pub multicore_fifo_drain : Mailbox → Mailbox
unfolding drain_unread
multicore_fifo_drain m = record m { unread = drain_unread m.unread }

-- `wake_seq`, by index: the addresses of the vector table, of the stack's top and of core1_entry.
pub record Image : Type 0 where
  pub vector_table : ℕ
  pub stack_top : ℕ
  pub entry : ℕ

unfoldable pub wake_seq : Image → ℕ → ℕ
wake_seq im idx =
    if idx == 2
    then 1
    else if idx == 3
    then im.vector_table
    else if idx == 4
    then im.stack_top
    else if idx == 5
    then im.entry
    else 0

-- `if (!cmd) multicore_fifo_drain();`
abbrev pub before_cmd : ℕ → Mailbox → Mailbox
before_cmd cmd m = if cmd == 0 then multicore_fifo_drain m else m

-- words from core 1
abbrev pub receive : List ℕ → Mailbox → Mailbox
receive words m = record m { unread = m.unread ++ words }

-- What a round leaves: the next index, or a wait that nobody ends.
pub data Round (S : Type 0) : Type 0 where
  next : ℕ → Mailbox → S → Round S
  waits : Round S

module _ {S : Type 0} (answer : S → ℕ → List ℕ × S) (im : Image) where
  -- `idx = cmd == response ? idx + 1 : 0`
  unfoldable pub compare_response : ℕ → ℕ → S → Option (ℕ × Mailbox) → Round S
  compare_response idx cmd s none = waits
  compare_response idx cmd s (some (response, m)) =
      next (if cmd == response then idx + 1 else 0) m s

  -- Core 1 reads each word as soon as it is written, so that there is room for the next one.
  unfoldable pub wake_round : ℕ → Mailbox → S → Round S
  unfolding compare_response
  wake_round idx m s =
      let cmd = wake_seq im idx in
      elim (multicore_fifo_push_blocking true cmd (before_cmd cmd m)) [
        | none ↦ waits
        | some m' ↦
            let (words, s') = answer s cmd in
            compare_response idx cmd s' (multicore_fifo_pop_blocking (receive words m'))
      ]

  -- `do ... while (idx < 6)`, on fuel.
  unfoldable pub wake_loop : ℕ → ℕ → Mailbox → S → Round S
  unfolding wake_round
  wake_loop zero idx m s = next idx m s
  wake_loop (suc fuel) idx m s = elim (wake_round idx m s) [
    | waits ↦ waits
    | next idx' m' s' ↦
        (let rest = wake_loop fuel idx' m' s' in if ltb idx' 6 then rest else next idx' m' s')
  ]

-- SYST_RVR, SYST_CVR and SYST_CSR
pub record Systick : Type 0 where
  pub reload : ℕ
  pub current : ℕ
  pub control : ℕ

abbrev pub clk_rate : ℕ
clk_rate = 133_000_000

abbrev pub init_systick : ℕ → Systick
init_systick timeslice = record {
  reload = clk_rate / 1000 * timeslice % 2 ^ 32;
  current = 0;
  control = 7;
}

-- What `init_scheduler` leaves at its jump to the first thread, or at its early return. `kernel` is
-- `none` where a call of `malloc` would not end.
pub record Started (S : Type 0) : Type 0 where
  pub mailbox : Mailbox
  pub other : S
  pub systick : Systick
  pub kernel : Option Kernel

module _ {S : Type 0} (answer : S → ℕ → List ℕ × S) (im : Image) where
  -- the rest of `init_scheduler`, from its `lock` on
  abbrev pub started : ℕ → ℕ → ℕ → Kernel → Mailbox → S → Option (Started S)
  started cpu timeslice entry k m s = some (record {
    mailbox = m;
    other = s;
    systick = init_systick timeslice;
    kernel = start_core cpu entry k;
  })

  -- `none`: core 0 waits for core 1, or the fuel ran out.
  unfoldable pub init_scheduler : ℕ → ℕ → Bool → ℕ → ℕ → Kernel → Mailbox → S → Option (Started S)
  unfolding wake_loop multicore_fifo_push_blocking
  init_scheduler fuel timeslice multicore cpu entry k m s =
      if (cpu == 0) && multicore
      then elim (wake_loop answer im fuel 0 m s) [
        | waits ↦ none
        | next idx m' s' ↦
            if ltb idx 6 then none else elim (multicore_fifo_push_blocking true timeslice m') [
              | none ↦ none
              | some m2 ↦ started cpu timeslice entry k m2 s'
            ]
      ]
      else started cpu timeslice entry k m s

  -- On core 1, whose mailbox holds the words from core 0.
  unfoldable pub core1_entry : ℕ → Kernel → Mailbox → S → Option (Started S)
  unfolding init_scheduler multicore_fifo_pop_blocking
  core1_entry entry k m s = elim (multicore_fifo_pop_blocking m) [
    | none ↦ none
    | some (timeslice, m') ↦ init_scheduler 0 timeslice false 1 entry k m' s
  ]
