-- ===== src/Uart/Input.antt =====
-- `uart_in_string` of hw/uart.c. The bytes that `fifo_get` returns one after the other are a list; where
-- it ends, the call goes on waiting. `echo` has the bytes that were given to `uart_out_byte`, in order.
use multicore_rtos.Base.{
  ℕ, ◌+◌, ◌-◌, ◌%◌, ◌^◌, Bool, ◌||◌, Option, none, some, List, [], ◌∷◌, ◌++◌, ltb, ◌==◌,
  if◌then◌else◌, update,
}
use multicore_rtos.Heap.{Ptr}

pub record Editing : Type 0 where
  pub memory : Ptr → ℕ
  pub buff : Ptr
  pub length : ℕ
  pub echo : List ℕ

-- the tests for '\r', and for backspace and delete
abbrev pub is_return : ℕ → Bool
is_return c = c == 13

abbrev pub is_erase : ℕ → Bool
is_erase c = (c == 8) || (c == 127)

-- A round of the loop for a byte that is not '\r'.
unfoldable pub edit : ℕ → ℕ → Editing → Editing
edit buff_size c s =
    if is_erase c
    then (if s.length == 0 then s else record s {
      buff = (s.buff + 2 ^ 32 - 1) % 2 ^ 32;
      length = (s.length + 2 ^ 32 - 1) % 2 ^ 32;
      echo = s.echo ++ (8 ∷ 32 ∷ 8 ∷ []);
    })
    else if ltb s.length buff_size
    then record s {
      memory = update s.memory s.buff c;
      buff = (s.buff + 1) % 2 ^ 32;
      length = (s.length + 1) % 2 ^ 32;
      echo = s.echo ++ (c ∷ []);
    }
    else s

-- The state behind the loop, and the bytes that are left.
unfoldable pub edit_loop : ℕ → List ℕ → Editing → Option (Editing × List ℕ)
unfolding edit
edit_loop buff_size [] s = none
edit_loop buff_size (c ∷ cs) s =
    let s' = edit buff_size c s in
    let rest = edit_loop buff_size cs s' in
    if is_return c
    then some (record s { echo = s.echo ++ (13 ∷ 10 ∷ []) }, cs)
    else if ltb s'.length buff_size
    then rest
    else some (s', cs)

-- The memory and the echo when the call returns, and the bytes that are left.
unfoldable pub uart_in_string : ℕ → List ℕ → Ptr → (Ptr → ℕ) → Option ((Ptr → ℕ) × List ℕ × List ℕ)
uart_in_string buff_size input buff memory =
    elim (edit_loop buff_size input
      (record { memory = memory; buff = buff; length = 0; echo = [] })) [
        | none ↦ none
        | some (s, rest) ↦ some (update s.memory s.buff 0, s.echo, rest)
      ]
