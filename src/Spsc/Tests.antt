-- ===== src/Spsc/Tests.antt =====
-- Runs of the FIFOs.
use multicore_rtos.Base.{ℕ, ◌+◌, ◌≡◌, refl, ◌≢◌, [], ◌∷◌, ◌++◌, arith, update}
use multicore_rtos.Spsc.{Fifo, next, fifo32_put, fifo32_get, fifo32_size}
use multicore_rtos.Spsc.Window.{IsValid, contents}
use multicore_rtos.Spsc.Queue.{push, pop, seen, fifo32_put-push, fifo32_get-pop}
use multicore_rtos.Spsc.Interleave.{
  System, Producer, Consumer, put_check, put_write, put_tail, Reach, here, later, start,
  Reach-order,
}

abbrev wrapped : Fifo
wrapped = record { head = 3; tail = 1; size = 4; items = λ i. i + 10 }

runs :
    (fifo32_size wrapped ≡ 2)
    × ((fifo32_put wrapped 7).0 ≡ 0)
    × ((fifo32_put (fifo32_put wrapped 7).1 8).0 ≡ 1)
unfolding fifo32_size fifo32_put
runs = (refl, refl, refl)

wrapped-IsValid : IsValid wrapped
wrapped-IsValid = record { small = omega arith; head_in = omega arith; tail_in = omega arith }

fifo32_put-push_example :
    let (s, f') = fifo32_put wrapped 7 in
    IsValid f' × (f'.size ≡ 4) × ((s, contents f') ≡ push 4 (contents wrapped) 7)
fifo32_put-push_example = fifo32_put-push wrapped 7 wrapped-IsValid

fifo32_get-pop_example : seen (fifo32_get wrapped) ≡ pop (contents wrapped)
fifo32_get-pop_example = fifo32_get-pop wrapped wrapped-IsValid

abbrev empty_items : ℕ → ℕ
empty_items _ = 0

-- a producer that has put one element
abbrev put_once : System
put_once = record {
  fifo = record { head = 0; tail = 1; size = 4; items = update empty_items 0 9 };
  producer = Producer.outside;
  consumer = Consumer.outside;
  sent = 9 ∷ [];
  received = [];
}

put_once-Reach : Reach (start 4 empty_items) put_once
put_once-Reach = later (later (later here (put_check 9 refl ne)) (put_write refl)) (put_tail refl)
  where
    ne : next 4 0 ≢ 0
    ne e = absurd (omega (arith, e))

Reach-order_example : put_once.sent ≡ put_once.received ++ contents put_once.fifo
Reach-order_example = Reach-order 4 empty_items (omega arith) (omega arith) put_once-Reach
