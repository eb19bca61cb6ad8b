-- ===== src/Uart/Sends.antt =====
-- Strings, and the calls and interrupts that use the transmit side one after the other.
use mathlib.Core.List.{append-nil}
use multicore_rtos.Base.{
  ℕ, suc, ◌+◌, ◌<◌, ◌≡◌, refl, sym, subst, inl, inr, Bool, Option, none, some, List, [], ◌∷◌, ◌++◌,
  arith, ◌==◌, if◌then◌else◌, Bool-cases, length,
}
use multicore_rtos.Mpmc.Bytes.{IsBytes, ring}
use multicore_rtos.Spsc.Window.{contents, count}
use multicore_rtos.Spsc.Queue.{length-contents}
use multicore_rtos.Uart.{Uart, uart_tx_interrupt, uart_out_byte, uart_out_string}
use multicore_rtos.Uart.Order.{Adds, Adds-trans, OutAdds, out-OutAdds, tx-Adds, stream}

-- the bytes of a string: those before its NUL
abbrev pub text : List ℕ → List ℕ
text [] = []
text (c ∷ cs) = if c == 0 then [] else c ∷ text cs

-- A call that returns, and what it adds.
pub record Returns (l : List ℕ) (u : Uart) (r : Option Uart) : Type 0 where
  pub after : Uart
  pub returned : r ≡ some after
  pub adds : Adds l u after

byte-Returns :
    (full : Bool) (d : ℕ) (u : Uart)
    → IsBytes u.tx
    → count (ring u.tx) + 1 < u.tx.size
    → Returns (d ∷ []) u (uart_out_byte full d u)
byte-Returns full d u b room = go (uart_out_byte full d u) refl (out-OutAdds u b full d)
  where
    go : (r : Option Uart) → uart_out_byte full d u ≡ r → OutAdds u b d r → Returns (d ∷ []) u r
    go none e h = absurd (omega (arith, h, room, length-contents (ring u.tx) b.valid))
    go (some u') e h = record { after = u'; returned = refl; adds = h }

-- On a valid FIFO of bytes with room for the whole string, `uart_out_string` returns and puts the bytes
-- before its NUL behind all others, in order, whatever the hardware's FIFO says in between.
pub uart_out_string-Returns :
    (full : ℕ → Bool) (cs : List ℕ) (u : Uart)
    → IsBytes u.tx
    → count (ring u.tx) + length (text cs) < u.tx.size
    → Returns (text cs) u (uart_out_string full cs u)
unfolding uart_out_string
uart_out_string-Returns full [] u b room = record {
  after = u;
  returned = refl;
  adds = record {
    valid = b;
    order = sym (append-nil (stream u));
    same_size = refl;
    few = omega arith;
  };
}
uart_out_string-Returns full (c ∷ cs) u b room = elim (Bool-cases (c == 0)) [
  | inl end ↦ rw end (record {
    after = u;
    returned = refl;
    adds = record {
      valid = b;
      order = sym (append-nil (stream u));
      same_size = refl;
      few = omega arith;
    };
  })
  | inr more ↦
      let room' : count (ring u.tx) + suc (length (text cs)) < u.tx.size = rw more at room in
      let first = byte-Returns (full 0) c u b (omega (arith, room')) in
      let rest =
        uart_out_string-Returns (λ n. full (suc n)) cs first.after first.adds.valid
          (omega (arith, room', first.adds.few, first.adds.same_size)) in
      rw (more, first.returned)
        (record {
          after = rest.after;
          returned = rest.returned;
          adds = Adds-trans first.adds rest.adds;
        })
]

-- Calls of `uart_out_byte` that return, and transmit interrupts, in any order; the list has the bytes
-- of the calls.
pub data Sends (u : Uart) : List ℕ → Uart → Type 0 where
  start : Sends u [] u
  out :
      {l : List ℕ} {v w : Uart} (full : Bool) (d : ℕ)
      → Sends u l v
      → uart_out_byte full d v ≡ some w
      → Sends u (l ++ (d ∷ [])) w
  tx_interrupt :
      {l : List ℕ} {v : Uart} (room : ℕ) (old : ℕ → ℕ)
      → Sends u l v
      → Sends u l (uart_tx_interrupt room old v)

Sends-Adds : {u v : Uart} {l : List ℕ} → IsBytes u.tx → Sends u l v → Adds l u v
Sends-Adds {u} b start = record {
  valid = b;
  order = sym (append-nil (stream u));
  same_size = refl;
  few = omega arith;
}
Sends-Adds {u} b (out {l} {v} {w} full d s e) =
    let a = Sends-Adds b s in
    Adds-trans a (subst (λ r. OutAdds v a.valid d r) e (out-OutAdds v a.valid full d))
Sends-Adds {u} b (tx_interrupt {l} {v} room old s) =
    let a = Sends-Adds b s in
    subst (λ m. Adds m u (uart_tx_interrupt room old v)) (append-nil l)
      (Adds-trans a (tx-Adds room old v a.valid))

-- Whatever the order of the calls and the interrupts, on a valid FIFO of bytes: what has gone to the
-- hardware and then what the FIFO holds is what there was at the start and then the bytes of the
-- calls, each once and in the order of the calls.
pub Sends-order :
    {u v : Uart} {l : List ℕ}
    → IsBytes u.tx
    → Sends u l v
    → v.line ++ contents (ring v.tx) ≡ u.line ++ contents (ring u.tx) ++ l
Sends-order b s = (Sends-Adds b s).order
