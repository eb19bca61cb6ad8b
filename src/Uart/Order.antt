-- ===== src/Uart/Order.antt =====
-- The bytes that go out: through the software FIFO or past it, by the calls of threads and by the
-- transmit interrupt.
use mathlib.Core.List.{append_assoc, append-nil}
use multicore_rtos.Base.{
  ℕ, zero, suc, ◌+◌, ◌≤◌, ◌≡◌, refl, ◌≢◌, ◌∙◌, ap, sym, subst, length-append, inl, inr, Bool, false,
  not, ◌&&◌, Option, none, some, List, [], ◌∷◌, ◌++◌, arith, ◌==◌, Bool-cases, length,
}
use multicore_rtos.Mpmc.{
  fifo_put_nonblock, fifo_get_nonblocking, fifo_size_nonblocking, write_tail, read_head,
}
use multicore_rtos.Mpmc.Bytes.{IsBytes, ring, write-appended, read-byte, nonblocking-fifo32}
use multicore_rtos.Spsc as Spsc
use multicore_rtos.Spsc.Window.{IsValid, contents, count, full_iff}
use multicore_rtos.Spsc.Queue.{
  advanced, contents-appended, appended-IsValid, contents-advanced, advanced-IsValid,
  fifo32_size-length, length-contents, count-appended, count-advanced,
}
use multicore_rtos.Uart.{Uart, byte, send, uart_tx_interrupt, uart_out_byte}

-- what has been sent and what waits to be
abbrev pub stream : Uart → List ℕ
stream u = u.line ++ contents (ring u.tx)

empty_of : (xs : List ℕ) → length xs ≡ 0 → xs ≡ []
empty_of [] e = refl
empty_of (x ∷ xs) e = absurd (omega (arith, e))

-- `l` comes out behind what the port had, and the FIFO stays valid.
pub record Adds (l : List ℕ) (u u' : Uart) : Type 0 where
  pub valid : IsBytes u'.tx
  pub order : stream u' ≡ stream u ++ l
  pub same_size : u'.tx.size ≡ u.tx.size
  pub few : count (ring u'.tx) ≤ count (ring u.tx) + length l

pub Adds-trans :
    {l m : List ℕ} {u u' u'' : Uart} → Adds l u u' → Adds m u' u'' → Adds (l ++ m) u u''
Adds-trans {l} {m} {u} a b = record {
  valid = b.valid;
  order = b.order ∙ ap (λ xs. xs ++ m) a.order ∙ append_assoc (stream u) l m;
  same_size = b.same_size ∙ a.same_size;
  few = omega (arith, b.few, a.few, length-append l m);
}

module _ (u : Uart) (b : IsBytes u.tx) where
  size-contents : fifo_size_nonblocking u.tx ≡ length (contents (ring u.tx))
  size-contents =
      (nonblocking-fifo32 u.tx (byte 0) (byte 0) b).3 ∙ fifo32_size-length (ring u.tx) b.valid

  direct : (d : ℕ) → fifo_size_nonblocking u.tx ≡ 0 → Adds (d ∷ []) u (send d u)
  direct d e =
      let none_left : contents (ring u.tx) ≡ [] =
        empty_of (contents (ring u.tx)) (sym size-contents ∙ e) in
      record {
        valid = b;
        order =
            ap (λ xs. (u.line ++ (d ∷ [])) ++ xs) none_left
            ∙ append-nil (u.line ++ (d ∷ []))
            ∙ ap (λ xs. xs ++ (d ∷ [])) (sym (append-nil u.line))
            ∙ ap (λ xs. (u.line ++ xs) ++ (d ∷ [])) (sym none_left);
        same_size = refl;
        few = omega arith;
      }

  queued :
      (d : ℕ)
      → (Spsc.next u.tx.size u.tx.tail == u.tx.head) ≡ false
      → Adds (d ∷ []) u (record u { tx = write_tail u.tx (byte d) })
  queued d room =
      let ne : count (ring u.tx) + 1 ≢ u.tx.size =
        λ q. ground (arith, (full_iff (ring u.tx) b.valid).1 q) in
      let e = write-appended u.tx b (byte d) in
      record {
        valid = record {
          width = b.width;
          valid = subst IsValid (sym e) (appended-IsValid (ring u.tx) b.valid ne d);
        };
        order =
            ap (λ r. u.line ++ contents r) e
            ∙ ap (λ xs. u.line ++ xs) (contents-appended (ring u.tx) b.valid ne d)
            ∙ sym (append_assoc u.line (contents (ring u.tx)) (d ∷ []));
        same_size = refl;
        few = omega (arith, ap count e, count-appended (ring u.tx) b.valid ne d);
      }

  -- what a call leaves, if it returns, and when it does not
  abbrev pub OutAdds : ℕ → Option Uart → Type 0
  OutAdds d none = length (contents (ring u.tx)) + 1 ≡ u.tx.size
  OutAdds d (some u') = Adds (d ∷ []) u u'

  -- `uart_out_byte` puts its byte behind all others, or the software FIFO is full.
  pub out-OutAdds : (full : Bool) (d : ℕ) → OutAdds d (uart_out_byte full d u)
  unfolding uart_out_byte fifo_put_nonblock
  out-OutAdds full d = elim (Bool-cases ((fifo_size_nonblocking u.tx == 0) && not full)) [
    | inl past ↦ rw past (direct d (ground arith))
    | inr through ↦ rw through (elim (Bool-cases (Spsc.next u.tx.size u.tx.tail == u.tx.head)) [
      | inl filled ↦ rw filled (
          rw (length-contents (ring u.tx) b.valid)
            ((full_iff (ring u.tx) b.valid).0 (ground arith)))
      | inr room ↦ rw room (queued d room)
    ])
  ]

-- The transmit interrupt takes from the FIFO in order.
pub tx-Adds :
    (room : ℕ) (old : ℕ → ℕ) (u : Uart) → IsBytes u.tx → Adds [] u (uart_tx_interrupt room old u)
unfolding uart_tx_interrupt fifo_get_nonblocking
tx-Adds zero old u b = record {
  valid = b;
  order = sym (append-nil (stream u));
  same_size = refl;
  few = omega arith;
}
tx-Adds (suc room) old u b = elim (Bool-cases (u.tx.head == u.tx.tail)) [
  | inl empty ↦ rw empty (record {
    valid = b;
    order = sym (append-nil (stream u));
    same_size = refl;
    few = omega arith;
  })
  | inr filled ↦
      let ne : u.tx.head ≢ u.tx.tail = λ q. ground arith in
      let d = read_head u.tx old in
      let u' : Uart =
        send (d 0) (record u { tx = record u.tx { head = Spsc.next u.tx.size u.tx.head } }) in
      let b' : IsBytes u'.tx = record {
        width = b.width;
        valid = advanced-IsValid (ring u.tx) b.valid ne;
      } in
      let one : Adds [] u u' = record {
        valid = b';
        order =
            append_assoc u.line (d 0 ∷ []) (contents (advanced (ring u.tx)))
            ∙ ap (λ x. u.line ++ (x ∷ contents (advanced (ring u.tx)))) (read-byte u.tx b old)
            ∙ ap (λ xs. u.line ++ xs) (sym (contents-advanced (ring u.tx) b.valid ne))
            ∙ sym (append-nil (stream u));
        same_size = refl;
        few = omega (arith, count-advanced (ring u.tx) b.valid ne);
      } in
      rw filled (Adds-trans one (tx-Adds room d u' b'))
]
