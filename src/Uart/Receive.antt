-- ===== src/Uart/Receive.antt =====
-- `uart_rx_interrupt` of hw/uart.c, which puts what arrives into a FIFO that can be full.
use mathlib.Core.List.{append_assoc, append-nil}
use multicore_rtos.Base.{
  ℕ, suc, ◌+◌, ◌-◌, ◌≤◌, ◌<◌, ◌≡◌, refl, ◌≢◌, ◌∙◌, ap, sym, subst, true, false, List, [], ◌∷◌, ◌++◌,
  arith, length, ◌==◌,
}
use native.Mathlib.Decide.{ℕ_discrete}
use multicore_rtos.Mpmc.{Fifo, Call, fifo_put, write_tail}
use multicore_rtos.Mpmc.Bytes.{IsBytes, ring, write-appended}
use multicore_rtos.Spsc.Window.{IsValid, contents, count}
use multicore_rtos.Spsc.Queue.{contents-appended, appended-IsValid, count-appended}
use multicore_rtos.Uart.{Uart, Received, uart_rx_interrupt, byte, finished, waits}

-- The receive FIFO between two calls: no call is in it, and its semaphores count the elements and the
-- room for more.
pub record IsCounted (f : Fifo) : Type 0 where
  pub bytes_only : IsBytes f
  pub unlocked : f.mutex ≡ 0
  pub held : count (ring f) ≡ f.empty
  pub room : f.empty + f.full < f.size

-- the FIFO when `fifo_put` has returned
abbrev pub stored : ℕ → Fifo → Fifo
stored d f =
    let w = write_tail (record f { full = f.full - 1 }) (byte d) in
    record w { mutex = 0; empty = w.empty + 1 }

module _ (d : ℕ) (f : Fifo) (c : IsCounted f) where
  put-full : f.full ≡ 0 → fifo_put f (byte d) ≡ Call.waits f
  unfolding fifo_put
  put-full e = rw e refl

  put-stored : f.full ≢ 0 → fifo_put f (byte d) ≡ Call.done tt (stored d f)
  unfolding fifo_put
  put-stored ne =
      let a : (f.full == 0) ≡ false = ground arith in
      let b : (f.mutex == 0) ≡ true = ground (arith, c.unlocked) in rw (a, b) refl

  module _ (ne : f.full ≢ 0) where
    not_full : count (ring f) + 1 ≢ f.size
    not_full e = omega (arith, c.held, c.room, ne, e)

    pub stored-contents : contents (ring (stored d f)) ≡ contents (ring f) ++ (d ∷ [])
    stored-contents =
        ap contents (write-appended f c.bytes_only (byte d))
        ∙ contents-appended (ring f) c.bytes_only.valid not_full d

    pub stored-IsCounted : IsCounted (stored d f)
    stored-IsCounted =
        let e = write-appended f c.bytes_only (byte d) in
        record {
          bytes_only = record {
            width = c.bytes_only.width;
            valid = subst IsValid (sym e) (appended-IsValid (ring f) c.bytes_only.valid not_full d);
          };
          unlocked = refl;
          held =
              ap count e
              ∙ count-appended (ring f) c.bytes_only.valid not_full d
              ∙ omega (arith, c.held);
          room = omega (arith, c.room, ne);
        }

-- What the interrupt leaves, of the bytes that had arrived: all are stored and there was room, or it
-- waits, with the FIFO full, and the byte and those behind it are not stored.
abbrev pub Got : List ℕ → Uart → Received → Type 0
Got ds u (finished u') =
    IsCounted u'.rx
    × (length ds ≤ u.rx.full)
    × (contents (ring u'.rx) ≡ contents (ring u.rx) ++ ds)
    × (u'.tx ≡ u.tx)
    × (u'.line ≡ u.line)
Got ds u (waits u' d rest) =
    IsCounted u'.rx
    × (u'.rx.full ≡ 0)
    × ((kept : List ℕ) × (length kept ≡ u.rx.full)
        × (kept ++ (d ∷ rest) ≡ ds)
        × (contents (ring u'.rx) ≡ contents (ring u.rx) ++ kept))

Got-cons :
    (d : ℕ) (ds : List ℕ) (u u1 : Uart) (r : Received)
    → suc u1.rx.full ≡ u.rx.full
    → contents (ring u1.rx) ≡ contents (ring u.rx) ++ (d ∷ [])
    → u1.tx ≡ u.tx
    → u1.line ≡ u.line
    → Got ds u1 r
    → Got (d ∷ ds) u r
Got-cons d ds u u1 (finished u') less more tx line (c, few, order, tx', line') = (
  c,
  omega (arith, few, less),
  order ∙ ap (λ xs. xs ++ ds) more ∙ append_assoc (contents (ring u.rx)) (d ∷ []) ds,
  tx' ∙ tx,
  line' ∙ line,
)
Got-cons d ds u u1 (waits u' e rest) less more tx line (c, full, (kept, all, split, order)) = (
  c,
  full,
  (
    d ∷ kept,
    omega (arith, all, less),
    ap (λ xs. d ∷ xs) split,
    order ∙ ap (λ xs. xs ++ kept) more ∙ append_assoc (contents (ring u.rx)) (d ∷ []) kept,
  ),
)

-- Where no call is in the receive FIFO and its semaphores count its elements and its room: if all that
-- has arrived fits, the receive interrupt ends with it in the FIFO, behind what was there and in
-- order; if not, the interrupt waits on a semaphore, and the FIFO holds as much as fits.
pub uart_rx_interrupt-Got :
    (ds : List ℕ) (u : Uart) → IsCounted u.rx → Got ds u (uart_rx_interrupt ds u)
unfolding uart_rx_interrupt
uart_rx_interrupt-Got [] u c = (c, omega arith, sym (append-nil (contents (ring u.rx))), refl, refl)
uart_rx_interrupt-Got (d ∷ ds) u c = elim (ℕ_discrete u.rx.full 0) [
  | yes full ↦
      rw (Got, put-full d u.rx c full)
        (c, full, ([], sym full, refl, sym (append-nil (contents (ring u.rx)))))
  | no ne ↦
      rw (Got, put-stored d u.rx c ne)
        (Got-cons d ds u (record u { rx = stored d u.rx }) _ (omega (arith, ne))
          (stored-contents d u.rx c ne) refl refl
          (uart_rx_interrupt-Got ds (record u { rx = stored d u.rx })
            (stored-IsCounted d u.rx c ne)))
]
