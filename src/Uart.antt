-- ===== src/Uart.antt =====
-- hw/uart.c. The two software FIFOs are FIFO_t of bytes; `line` has the bytes that were stored to the
-- data register UART0_UARTDR, in order. Whether the hardware's own FIFOs are full or empty is what the
-- flag register UART0_UARTFR says when it is read: an argument of the calls that test it.
pub mod Order
pub mod Sends
pub mod Receive
pub mod Input
pub mod Editor
pub mod Entered
mod Tests
use multicore_rtos.Base.{
  ℕ, zero, suc, ◌+◌, ◌-◌, ◌%◌, ◌^◌, Bool, true, false, not, ◌&&◌, ◌||◌, Option, none, some, List,
  [], ◌∷◌, ◌++◌, ltb, ◌==◌, if◌then◌else◌, update,
}
use multicore_rtos.Heap.{Ptr}
use multicore_rtos.Mpmc.{
  Fifo, Call, fifo_put, fifo_put_nonblock, fifo_get_nonblocking, fifo_size_nonblocking,
}

pub record Uart : Type 0 where
  pub tx : Fifo
  pub rx : Fifo
  pub line : List ℕ

-- `UART0_UARTDR = data`
abbrev pub send : ℕ → Uart → Uart
send d u = record u { line = u.line ++ (d ∷ []) }

-- A byte in memory, as the FIFO calls take it.
abbrev pub byte : ℕ → ℕ → ℕ
byte d _ = d

-- The loop finds room in the hardware's FIFO as often as the first argument says; `old` is what the
-- local variable `data` holds before.
unfoldable pub uart_tx_interrupt : ℕ → (ℕ → ℕ) → Uart → Uart
uart_tx_interrupt zero old u = u
uart_tx_interrupt (suc room) old u =
    let (empty, value, tx) = fifo_get_nonblocking u.tx old in
    let u' = record u { tx = tx } in
    let rest = uart_tx_interrupt room value (send (value 0) u') in if empty then u' else rest

-- The receive interrupt ends, or it waits in `fifo_put` with its byte; the others are still in the
-- hardware's FIFO.
pub data Received : Type 0 where
  finished : Uart → Received
  waits : Uart → ℕ → List ℕ → Received

-- The loop, for the bytes that the hardware's FIFO has until it is empty.
unfoldable pub uart_rx_interrupt : List ℕ → Uart → Received
uart_rx_interrupt [] u = finished u
uart_rx_interrupt (d ∷ ds) u = elim (fifo_put u.rx (byte d)) [
  | Call.waits f ↦ waits (record u { rx = f }) d ds
  | Call.done _ f ↦ uart_rx_interrupt ds (record u { rx = f })
]

-- `full` is the test of the hardware's FIFO. `none`: the software FIFO is full too, and the loop goes
-- on until the transmit interrupt has made room.
unfoldable pub uart_out_byte : Bool → ℕ → Uart → Option Uart
uart_out_byte full d u =
    if (fifo_size_nonblocking u.tx == 0) && not full
    then some (send d u)
    else (let (status, tx) = fifo_put_nonblock u.tx (byte d) in
        if status then none else some (record u { tx = tx }))

-- The string, with what `full` is for each of its bytes; it ends at its first NUL, or where the list
-- ends.
unfoldable pub uart_out_string : (ℕ → Bool) → List ℕ → Uart → Option Uart
uart_out_string full [] u = some u
uart_out_string full (c ∷ cs) u = if c == 0 then some u else elim (uart_out_byte (full 0) c u) [
  | none ↦ none
  | some u' ↦ uart_out_string (λ n. full (suc n)) cs u'
]
