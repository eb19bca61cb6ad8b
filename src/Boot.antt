-- ===== src/Boot.antt =====
-- os/interrupts.c: the loops of reset_handler that set up .data and .bss, and the handlers of the timer
-- and of the port. The addresses of the sections are the linker's; memory is its bytes.
pub mod Vectors
mod Tests
use native.Mathlib.Decide.{ℕ_discrete}
use multicore_rtos.Base.{
  ℕ, zero, suc, ◌+◌, ◌≤◌, ◌<◌, ◌≡◌, refl, ◌≢◌, ◌∙◌, ap, sym, ◌⊎◌, inl, inr, Bool, true, false,
  Option, none, some, List, arith, ltb, if◌then◌else◌, update, update_self, update_ne,
}
use multicore_rtos.Heap.{Ptr}
use multicore_rtos.Sched.{Kernel}
use multicore_rtos.Sched.Wait.{unsleep}
use multicore_rtos.Uart.{Uart, Received, finished, uart_tx_interrupt, uart_rx_interrupt}

abbrev pub Bytes : Type 0
Bytes = Ptr → ℕ

-- `while (dst < &_edata)`; `none`: the fuel ran out.
unfoldable pub copy_data : ℕ → Ptr → Ptr → Ptr → Bytes → Option Bytes
copy_data zero src dst edata m = none
copy_data (suc fuel) src dst edata m =
    let rest = copy_data fuel (src + 1) (dst + 1) edata (update m dst (m src)) in
    if ltb dst edata then rest else some m

-- `while (bss < &_ebss)`
unfoldable pub zero_bss : ℕ → Ptr → Ptr → Bytes → Option Bytes
zero_bss zero bss ebss m = none
zero_bss (suc fuel) bss ebss m =
    let rest = zero_bss fuel (bss + 1) ebss (update m bss 0) in
    if ltb bss ebss then rest else some m

-- timer0_interrupt, past its stores to the hardware
pub timer0_interrupt : ℕ → ℕ → ℕ → Kernel → Kernel
timer0_interrupt cpu now now' k = unsleep cpu now now' k

-- uart0_handler: `transmit` is bit 5 of the status, `receive` is bit 4 or bit 6. The other arguments are
-- those of the two calls.
unfoldable pub uart0_handler : Bool → Bool → ℕ → (ℕ → ℕ) → List ℕ → Uart → Received
uart0_handler transmit receive room old arrived u =
    if transmit
    then finished (uart_tx_interrupt room old u)
    else if receive
    then uart_rx_interrupt arrived u
    else finished u

-- Of two ranges of `n` bytes, no byte is in both.
abbrev pub Clear : ℕ → Ptr → Ptr → Type 0
Clear n a b = (a + n ≤ b) ⊎ (b + n ≤ a)

-- The bytes from `dst` on are those that were at `src`, and no others have changed.
pub record Copied (n : ℕ) (src dst : Ptr) (m : Bytes) (r : Option Bytes) : Type 0 where
  pub after : Bytes
  pub returned : r ≡ some after
  pub copied : (i : ℕ) → i < n → after (dst + i) ≡ m (src + i)
  pub outside : (a : Ptr) → (a < dst) ⊎ (dst + n ≤ a) → after a ≡ m a

-- Where the two ranges have no byte in common, the loop copies the section in one round for each of
-- its bytes and one more, and changes no other byte.
pub copy_data-Copied :
    (n fuel : ℕ) (src dst edata : Ptr) (m : Bytes)
    → n < fuel
    → Clear n src dst
    → edata ≡ dst + n
    → Copied n src dst m (copy_data fuel src dst edata m)
unfolding copy_data
copy_data-Copied n zero src dst edata m lt c e = absurd (omega arith)
copy_data-Copied zero (suc fuel) src dst edata m lt c e =
    let stop : ltb dst edata ≡ false = ground arith in
    rw stop (record {
      after = m;
      returned = refl;
      copied = λ i l. absurd (omega arith);
      outside = λ a o. refl;
    })
copy_data-Copied (suc n) (suc fuel) src dst edata m lt c e =
    let go_on : ltb dst edata ≡ true = ground arith in
    let m' = update m dst (m src) in
    let h =
      copy_data-Copied n fuel (src + 1) (dst + 1) edata m' (omega arith) (closer c)
        (omega (arith, e)) in
    rw go_on (record {
      after = h.after;
      returned = h.returned;
      copied = byte h.after h.copied h.outside;
      outside = λ a o. h.outside a (out a o) ∙ update_ne m dst (m src) (out_ne a o);
    })
  where
    closer : Clear (suc n) src dst → Clear n (src + 1) (dst + 1)
    closer (inl below) = inl (omega arith)
    closer (inr above) = inr (omega arith)

    out : (a : Ptr) → (a < dst) ⊎ (dst + suc n ≤ a) → (a < dst + 1) ⊎ (dst + 1 + n ≤ a)
    out a (inl below) = inl (omega arith)
    out a (inr above) = inr (omega arith)

    out_ne : (a : Ptr) → (a < dst) ⊎ (dst + suc n ≤ a) → a ≢ dst
    out_ne a (inl below) = omega arith
    out_ne a (inr above) = omega arith

    source_ne : (i : ℕ) → i < n → Clear (suc n) src dst → src + 1 + i ≢ dst
    source_ne i l (inl below) = omega arith
    source_ne i l (inr above) = omega arith

    byte :
        (after : Bytes)
        → ((i : ℕ) → i < n → after (dst + 1 + i) ≡ update m dst (m src) (src + 1 + i))
        → ((a : Ptr) → (a < dst + 1) ⊎ (dst + 1 + n ≤ a) → after a ≡ update m dst (m src) a)
        → (i : ℕ) → i < suc n
        → after (dst + i) ≡ m (src + i)
    byte after copied outside zero l =
        ap after (omega arith)
        ∙ outside dst (inl (omega arith))
        ∙ update_self m dst (m src)
        ∙ ap m (omega arith)
    byte after copied outside (suc i) l =
        ap after (omega arith)
        ∙ copied i (omega arith)
        ∙ update_ne m dst (m src) (source_ne i (omega arith) c)
        ∙ ap m (omega arith)

-- The bytes from `bss` on are 0, and no others have changed.
pub record Zeroed (n : ℕ) (bss : Ptr) (m : Bytes) (r : Option Bytes) : Type 0 where
  pub after : Bytes
  pub returned : r ≡ some after
  pub zeroed : (a : Ptr) → bss ≤ a → a < bss + n → after a ≡ 0
  pub outside : (a : Ptr) → (a < bss) ⊎ (bss + n ≤ a) → after a ≡ m a

-- The loop makes every byte of the section 0 in one round for each and one more, and changes no other.
pub zero_bss-Zeroed :
    (n fuel : ℕ) (bss ebss : Ptr) (m : Bytes)
    → n < fuel
    → ebss ≡ bss + n
    → Zeroed n bss m (zero_bss fuel bss ebss m)
unfolding zero_bss
zero_bss-Zeroed n zero bss ebss m lt e = absurd (omega arith)
zero_bss-Zeroed zero (suc fuel) bss ebss m lt e =
    let stop : ltb bss ebss ≡ false = ground arith in
    rw stop (record {
      after = m;
      returned = refl;
      zeroed = λ a l u. absurd (omega arith);
      outside = λ a o. refl;
    })
zero_bss-Zeroed (suc n) (suc fuel) bss ebss m lt e =
    let go_on : ltb bss ebss ≡ true = ground arith in
    let h =
      zero_bss-Zeroed n fuel (bss + 1) ebss (update m bss 0) (omega arith) (omega (arith, e)) in
    rw go_on (record {
      after = h.after;
      returned = h.returned;
      zeroed = λ a l u. elim (ℕ_discrete a bss) [
        | yes first ↦
            h.outside a (inl (omega (arith, first)))
            ∙ ap (update m bss 0) first
            ∙ update_self m bss 0
        | no later ↦ h.zeroed a (omega (arith, later)) (omega arith)
      ];
      outside = λ a o. h.outside a (out a o) ∙ update_ne m bss 0 (out_ne a o);
    })
  where
    out : (a : Ptr) → (a < bss) ⊎ (bss + suc n ≤ a) → (a < bss + 1) ⊎ (bss + 1 + n ≤ a)
    out a (inl below) = inl (omega arith)
    out a (inr above) = inr (omega arith)

    out_ne : (a : Ptr) → (a < bss) ⊎ (bss + suc n ≤ a) → a ≢ bss
    out_ne a (inl below) = omega arith
    out_ne a (inr above) = omega arith
