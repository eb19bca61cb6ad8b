-- ===== src/Uart/Tests.antt =====
-- Bytes through the port, and lines from a terminal.
use multicore_rtos.Base.{
  ℕ, ◌≡◌, refl, Bool, true, some, List, [], ◌∷◌, ◌++◌, arith, ltb, if◌then◌else◌,
}
use multicore_rtos.Heap.{Ptr}
use multicore_rtos.Mpmc.{Fifo, fifo_put_nonblock, fifo_get_nonblocking, fifo_size_nonblocking}
use multicore_rtos.Mpmc.Bytes.{IsBytes, ring, taken, nonblocking-fifo32}
use multicore_rtos.Spsc.{fifo32_put, fifo32_get, fifo32_size}
use multicore_rtos.Spsc.Window.{contents}
use multicore_rtos.Uart.{
  Uart, uart_tx_interrupt, uart_rx_interrupt, uart_out_byte, uart_out_string, byte,
}
use multicore_rtos.Uart.Sends.{Returns, Sends, uart_out_string-Returns, Sends-order}
use multicore_rtos.Uart.Receive.{IsCounted, Got, uart_rx_interrupt-Got}
use multicore_rtos.Uart.Input.{uart_in_string}
use multicore_rtos.Uart.Editor.{typed, keyed}
use multicore_rtos.Uart.Entered.{Entered, uart_in_string-Entered, uart_in_string-overrun}

-- room for two more elements
abbrev small : Fifo
small = record {
  mutex = 0;
  full = 2;
  empty = 0;
  size = 8;
  element_size = 1;
  head = 0;
  tail = 0;
  bytes = λ _. 0;
}

abbrev port : Uart
port = record { tx = small; rx = small; line = [] }

small-IsBytes : IsBytes small
small-IsBytes = record {
  width = refl;
  valid = record { small = omega arith; head_in = omega arith; tail_in = omega arith };
}

small-IsCounted : IsCounted small
small-IsCounted = record {
  bytes_only = small-IsBytes;
  unlocked = refl;
  held = refl;
  room = omega arith;
}

nonblocking-fifo32_example :
    ((fifo32_put (ring small) 65).0 ≡ (if (fifo_put_nonblock small (byte 65)).0 then 1 else 0))
    × (ring (fifo_put_nonblock small (byte 65)).1 ≡ (fifo32_put (ring small) 65).1)
    × (taken (fifo_get_nonblocking small (byte 0)) ≡ fifo32_get (ring small))
    × (fifo_size_nonblocking small ≡ fifo32_size (ring small))
nonblocking-fifo32_example = nonblocking-fifo32 small (byte 65) (byte 0) small-IsBytes

-- The hardware has room for the first of two bytes.
abbrev busy : ℕ → Bool
busy n = ltb 0 n

uart_out_string-Returns_example :
    Returns (72 ∷ 105 ∷ []) port (uart_out_string busy (72 ∷ 105 ∷ 0 ∷ 33 ∷ []) port)
uart_out_string-Returns_example =
    uart_out_string-Returns busy (72 ∷ 105 ∷ 0 ∷ 33 ∷ []) port small-IsBytes (omega arith)

abbrev queued : Uart
queued = record port { tx = (fifo_put_nonblock small (byte 72)).1 }

queued_run : uart_out_byte true 72 port ≡ some queued
unfolding uart_out_byte fifo_size_nonblocking fifo_put_nonblock
queued_run = refl

-- A byte that the hardware has no room for, and the interrupt that sends it.
Sends-order_example :
    (uart_tx_interrupt 3 (byte 0) queued).line
      ++ contents (ring (uart_tx_interrupt 3 (byte 0) queued).tx)
    ≡ 72 ∷ []
Sends-order_example =
    Sends-order small-IsBytes
      (Sends.tx_interrupt 3 (byte 0) (Sends.out true 72 Sends.start queued_run))

uart_rx_interrupt-Got_example :
    Got (65 ∷ 66 ∷ 67 ∷ []) port (uart_rx_interrupt (65 ∷ 66 ∷ 67 ∷ []) port)
uart_rx_interrupt-Got_example = uart_rx_interrupt-Got (65 ∷ 66 ∷ 67 ∷ []) port small-IsCounted

-- "ab", an erase, "c" and '\r'
abbrev keys : List ℕ
keys = 97 ∷ 98 ∷ 127 ∷ 99 ∷ 13 ∷ 100 ∷ []

uart_in_string-Entered_example :
    Entered 8 1000 (λ _. 7) (omega arith) (typed 8 keys []) (uart_in_string 8 keys 1000 (λ _. 7))
uart_in_string-Entered_example = uart_in_string-Entered 8 1000 (λ _. 7) (omega arith) keys

typed_run : typed 8 keys [] ≡ some (99 ∷ 97 ∷ [])
unfolding typed keyed
typed_run = refl

uart_in_string-overrun_example :
    (memory' : Ptr → ℕ) × (echo rest : List ℕ) × (uart_in_string 2 (97 ∷ 98 ∷ []) 1000 (λ _. 7)
      ≡ some (memory', echo, rest))
    × (memory' 1002 ≡ 0)
uart_in_string-overrun_example =
    uart_in_string-overrun 2 1000 (λ _. 7) 97 (98 ∷ []) (omega arith) (refl, refl, (refl, refl, tt))
      refl
