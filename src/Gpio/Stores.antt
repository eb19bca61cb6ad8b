-- ===== src/Gpio/Stores.antt =====
-- Stores of one bit to the aliases of a register, for hw/gpio.c.
use multicore_rtos.Base.{ℕ, ◌+◌, ◌*◌, ◌<◌, ◌≡◌, refl, ap, Bool, true, false, arith, update, fun_ext}
use multicore_rtos.Heap.{Ptr}
use multicore_rtos.Gpio.{
  Bits, Registers, Access, plain, sets, clears, combine, reach, alias_of, store, shifted,
  pads_bank0_base, io_bank0_base, reset, reset_clr, gpio_oe, gpio_oe_set, gpio_oe_clr,
}

abbrev pub write_bit : Ptr → ℕ → Bool → Registers → Registers
write_bit p n v r = update r p (update (r p) n v)

sets-bit : (old : Bits) (n bit : ℕ) → combine sets old (shifted n) bit ≡ update old n true bit
sets-bit old n bit = ground arith

clears-bit : (old : Bits) (n bit : ℕ) → combine clears old (shifted n) bit ≡ update old n false bit
clears-bit old n bit = ground arith

module _ (a p : Ptr) (n : ℕ) (r : Registers) where
  store-sets : reach a ≡ (p, sets) → store a (shifted n) r ≡ write_bit p n true r
  unfolding store
  store-sets e = rw (store, e) (ap (update r p) (fun_ext (sets-bit (r p) n)))

  pub store-clears : reach a ≡ (p, clears) → store a (shifted n) r ≡ write_bit p n false r
  unfolding store
  store-clears e = rw (store, e) (ap (update r p) (fun_ext (clears-bit (r p) n)))

-- the alias that gives a bit its value
abbrev pub access : Bool → Access
access true = sets
access false = clears

pub store-bit :
    (a p : Ptr) (n : ℕ) (v : Bool) (r : Registers)
    → reach a ≡ (p, access v)
    → store a (shifted n) r ≡ write_bit p n v r
store-bit a p n true r e = store-sets a p n r e
store-bit a p n false r e = store-clears a p n r e

pub store-plain :
    (a : Ptr) (word : Bits) (r : Registers)
    → reach a ≡ (a, plain)
    → store a word r ≡ update r a word
unfolding store
store-plain a word r e = rw (store, e) refl

pub reach-reset : reach reset_clr ≡ (reset, clears)
unfolding reach alias_of
reach-reset = refl

pub reach-enable : (reach gpio_oe_set ≡ (gpio_oe, sets)) × (reach gpio_oe_clr ≡ (gpio_oe, clears))
unfolding reach alias_of
reach-enable = (refl, refl)

-- the chip's pins
module _ (pin : ℕ) (few : pin < 30) where
  pub reach-io : reach (io_bank0_base + 0x004 + pin * 8) ≡ (io_bank0_base + 0x004 + pin * 8, plain)
  unfolding reach alias_of
  reach-io = ground (arith, few)

  pub reach-pad_set :
      reach (pads_bank0_base + 0x2004 + pin * 4) ≡ (pads_bank0_base + 0x004 + pin * 4, sets)
  unfolding reach alias_of
  reach-pad_set = ground (arith, few)

  pub reach-pad_clr :
      reach (pads_bank0_base + 0x3004 + pin * 4) ≡ (pads_bank0_base + 0x004 + pin * 4, clears)
  unfolding reach alias_of
  reach-pad_clr = ground (arith, few)
