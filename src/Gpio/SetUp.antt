-- ===== src/Gpio/SetUp.antt =====
-- What `init_gpio` of hw/gpio.c makes of the registers.
use multicore_rtos.Base.{
  ℕ, zero, suc, ◌+◌, ◌*◌, ◌<◌, ◌≡◌, refl, ◌≢◌, ◌∙◌, sym, ap, subst, Bool, true, false, List, [],
  ◌∷◌, arith, ==_of_ne, if◌then◌else◌, ◌==◌, ◌&&◌, update,
}
use multicore_rtos.Heap.{Ptr}
use multicore_rtos.Gpio.{
  GpioMode, gpio_input, gpio_input_pullup, gpio_input_pulldown, gpio_output, Registers, bits_of,
  reach, io_bank0_base, pads_bank0_base, reset, reset_clr, gpio_oe, gpio_oe_set, gpio_oe_clr,
  io_bank0, pads_bank0, store, shifted, init_subsystem, set_mode, init_gpio,
}
use multicore_rtos.Gpio.Stores.{
  write_bit, access, store-bit, store-clears, store-plain, reach-reset, reach-enable, reach-io,
  reach-pad_set, reach-pad_clr,
}

-- Whether a mode drives the pin, and which of its pulls it wants.
abbrev pub drives : GpioMode → Bool
drives gpio_output = true
drives _ = false

abbrev pub pulls_up : GpioMode → Bool
pulls_up gpio_input_pullup = true
pulls_up _ = false

abbrev pub pulls_down : GpioMode → Bool
pulls_down gpio_input_pulldown = true
pulls_down _ = false

-- IO_GPIO0_CTRL to IO_GPIO29_CTRL of inc/rp2040.h, from IO_BANK0_BASE on
abbrev pub ctrl_offsets : List ℕ
ctrl_offsets =
    0x004 ∷ 0x00c ∷ 0x014 ∷ 0x01c ∷ 0x024 ∷ 0x02c ∷ 0x034 ∷ 0x03c ∷ 0x044 ∷ 0x04c ∷ 0x054 ∷ 0x05c
    ∷ 0x064 ∷ 0x06c ∷ 0x074 ∷ 0x07c ∷ 0x084 ∷ 0x08c ∷ 0x094 ∷ 0x09c ∷ 0x0a4 ∷ 0x0ac ∷ 0x0b4 ∷ 0x0bc
    ∷ 0x0c4 ∷ 0x0cc ∷ 0x0d4 ∷ 0x0dc ∷ 0x0e4 ∷ 0x0ec ∷ []

abbrev pub offset_at : ℕ → List ℕ → ℕ
offset_at n [] = 0
offset_at zero (x ∷ xs) = x
offset_at (suc n) (x ∷ xs) = offset_at n xs

abbrev pub io_gpio_ctrl : ℕ → Ptr
io_gpio_ctrl pin = io_bank0_base + offset_at pin ctrl_offsets

-- The pads' registers stand one behind the other, behind the one for the voltage.
abbrev pub pad_ctrl : ℕ → Ptr
pad_ctrl zero = pads_bank0_base + 4
pad_ctrl (suc pin) = pad_ctrl pin + 4

pad_ctrl-address : (pin : ℕ) → pads_bank0_base + 0x004 + pin * 4 ≡ pad_ctrl pin
pad_ctrl-address zero = refl
pad_ctrl-address (suc pin) = omega (arith, pad_ctrl-address pin)

-- the first `n` entries of the table are where `init_gpio` looks for them
agrees : ℕ → Bool
agrees zero = true
agrees (suc n) = (offset_at n ctrl_offsets == 0x004 + n * 8) && agrees n

agrees-below :
    (n pin : ℕ) → agrees n ≡ true → pin < n → offset_at pin ctrl_offsets ≡ 0x004 + pin * 8
unfolding agrees
agrees-below zero pin h lt = absurd (omega (arith, lt))
agrees-below (suc n) pin h lt = ground (arith, agrees-below n pin)

ctrl-address : (pin : ℕ) → pin < 30 → io_bank0_base + 0x004 + pin * 8 ≡ io_gpio_ctrl pin
unfolding agrees
ctrl-address pin few = omega (arith, agrees-below 30 pin refl few)

-- The pin has the function of the program's own output, the mode, and its two blocks are out of reset;
-- every other bit of the four registers, and every other register, is as before.
pub record IsSetUpAt (res ctrl pad oe : Ptr) (pin : ℕ) (mode : GpioMode) (r r' : Registers)
    : Type 0 where
  pub selected : r' ctrl ≡ bits_of 5
  pub driven : r' oe pin ≡ drives mode
  pub up : r' pad 3 ≡ pulls_up mode
  pub down : r' pad 2 ≡ pulls_down mode
  pub io_ready : r' res 5 ≡ false
  pub pads_ready : r' res 8 ≡ false
  pub same_enable : (p : ℕ) → p ≢ pin → r' oe p ≡ r oe p
  pub same_pad : (bit : ℕ) → bit ≢ 2 → bit ≢ 3 → r' pad bit ≡ r pad bit
  pub same_reset : (bit : ℕ) → bit ≢ 5 → bit ≢ 8 → r' res bit ≡ r res bit
  pub same_others : (a : Ptr) → a ≢ ctrl → a ≢ pad → a ≢ oe → a ≢ res → r' a ≡ r a

-- the four registers of a pin
abbrev pub IsSetUp : ℕ → GpioMode → Registers → Registers → Type 0
IsSetUp pin mode r r' = IsSetUpAt reset (io_gpio_ctrl pin) (pad_ctrl pin) gpio_oe pin mode r r'

-- what the stores of a mode do, on any four registers
abbrev moded : Ptr → Ptr → Ptr → Ptr → ℕ → Bool → Bool → Bool → Registers → Registers
moded res ctrl pad oe pin drive up down r = write_bit oe pin drive (
    write_bit pad 2 down (
      write_bit pad 3 up
        (update (write_bit res 8 false (write_bit res 5 false r)) ctrl (bits_of 5))))

module _ (res ctrl pad oe : Ptr) (rc : res ≢ ctrl) (rp : res ≢ pad) (ro : res ≢ oe)
    (cp : ctrl ≢ pad) (co : ctrl ≢ oe) (po : pad ≢ oe) (pin : ℕ) (r : Registers) where
  reset_apart :
      (mode : GpioMode) (s : Registers) (bit : ℕ)
      → write_bit oe pin
          (drives mode)
          (write_bit pad 2
            (pulls_down mode)
            (write_bit pad 3 (pulls_up mode) (update s ctrl (bits_of 5))))
          res
          bit
        ≡ s res bit
  reset_apart mode s bit = ground arith

  reset_word :
      (bit : ℕ)
      → write_bit res 8 false (write_bit res 5 false r) res bit
        ≡ (if bit == 5 then false else if bit == 8 then false else r res bit)
  reset_word bit = ground arith

  -- the bits of the two blocks are cleared, and no other
  reset-moded :
      (mode : GpioMode) (bit : ℕ)
      → moded res ctrl pad oe pin (drives mode) (pulls_up mode) (pulls_down mode) r res bit
        ≡ (if bit == 5 then false else if bit == 8 then false else r res bit)
  reset-moded mode bit =
      reset_apart mode (write_bit res 8 false (write_bit res 5 false r)) bit ∙ reset_word bit

  moded-IsSetUpAt :
      (mode : GpioMode)
      → IsSetUpAt res ctrl pad oe pin mode r
          (moded res ctrl pad oe pin (drives mode) (pulls_up mode) (pulls_down mode) r)
  moded-IsSetUpAt mode = record {
    selected = ground arith;
    driven = ground arith;
    up = ground arith;
    down = ground arith;
    io_ready = reset-moded mode 5;
    pads_ready = reset-moded mode 8;
    same_enable = λ p ne. ground arith;
    same_pad = λ bit n2 n3. ground arith;
    same_reset = λ bit n5 n8. reset-moded mode bit ∙ rw (==_of_ne bit 5 n5, ==_of_ne bit 8 n8) refl;
    same_others = λ a nc np no nr. ground arith;
  }

module _ (pin : ℕ) (few : pin < 30) (r : Registers) where
  abbrev ctrl : Ptr
  ctrl = io_bank0_base + 0x004 + pin * 8

  abbrev pad : Ptr
  pad = pads_bank0_base + 0x004 + pin * 4

  -- before the switch
  opened : Registers
  opened = store ctrl (bits_of 5) (init_subsystem pads_bank0 (init_subsystem io_bank0 r))

  opened-stores :
      opened ≡ update (write_bit reset 8 false (write_bit reset 5 false r)) ctrl (bits_of 5)
  unfolding opened init_subsystem
  opened-stores =
      let r5 = init_subsystem io_bank0 r in
      store-plain ctrl (bits_of 5) (init_subsystem pads_bank0 r5) (reach-io pin few)
      ∙ ap (λ s. update s ctrl (bits_of 5))
          (store-clears reset_clr reset 8 r5 reach-reset
            ∙ ap (write_bit reset 8 false) (store-clears reset_clr reset 5 r reach-reset))

  abbrev pad_set : Ptr
  pad_set = pads_bank0_base + 0x2004 + pin * 4

  abbrev pad_clr : Ptr
  pad_clr = pads_bank0_base + 0x3004 + pin * 4

  -- the three stores of a mode, by the aliases that they go to
  mode-stores :
      (a b c : Ptr) (drive down up : Bool) (s : Registers)
      → reach a ≡ (gpio_oe, access drive)
      → reach b ≡ (pad, access down)
      → reach c ≡ (pad, access up)
      → store a (shifted pin) (store b (shifted 2) (store c (shifted 3) s))
        ≡ write_bit gpio_oe pin drive (write_bit pad 2 down (write_bit pad 3 up s))
  mode-stores a b c drive down up s ea eb ec =
      let s3 = store c (shifted 3) s in
      let s2 = store b (shifted 2) s3 in
      store-bit a gpio_oe pin drive s2 ea
      ∙ ap (write_bit gpio_oe pin drive)
          (store-bit b pad 2 down s3 eb ∙ ap (write_bit pad 2 down) (store-bit c pad 3 up s ec))

  set_mode-moded :
      (mode : GpioMode) (s : Registers)
      → set_mode pin pad_set pad_clr mode s
        ≡ write_bit gpio_oe pin
            (drives mode)
            (write_bit pad 2 (pulls_down mode) (write_bit pad 3 (pulls_up mode) s))
  unfolding set_mode
  set_mode-moded gpio_input s =
      mode-stores gpio_oe_clr pad_clr pad_clr false false false s reach-enable.1
        (reach-pad_clr pin few) (reach-pad_clr pin few)
  set_mode-moded gpio_input_pullup s =
      mode-stores gpio_oe_clr pad_clr pad_set false false true s reach-enable.1
        (reach-pad_clr pin few) (reach-pad_set pin few)
  set_mode-moded gpio_input_pulldown s =
      mode-stores gpio_oe_clr pad_set pad_clr false true false s reach-enable.1
        (reach-pad_set pin few) (reach-pad_clr pin few)
  set_mode-moded gpio_output s =
      mode-stores gpio_oe_set pad_clr pad_clr true false false s reach-enable.0
        (reach-pad_clr pin few) (reach-pad_clr pin few)

  init_gpio-moded :
      (mode : GpioMode)
      → init_gpio pin mode r
        ≡ moded reset ctrl pad gpio_oe pin (drives mode) (pulls_up mode) (pulls_down mode) r
  unfolding init_gpio opened
  init_gpio-moded mode =
      set_mode-moded mode opened
      ∙ ap
          (λ s.
            write_bit gpio_oe pin (drives mode)
              (write_bit pad 2 (pulls_down mode) (write_bit pad 3 (pulls_up mode) s)))
          opened-stores

-- For a pin of the chip, 0 to 29: `init_gpio` takes the two blocks out of reset, gives the control register
-- that inc/rp2040.h names for the pin the function of the program's own output, drives the pin for the
-- mode OUTPUT only, and sets the pull-up and the pull-down of its pad, the word of PADS_BANK0 behind the
-- one for the voltage and one for each lower pin, as the mode says. It changes no other bit of these
-- registers but the rest of the control register, and no other register.
pub init_gpio-IsSetUp :
    (pin : ℕ) (mode : GpioMode) (r : Registers)
    → pin < 30
    → IsSetUp pin mode r (init_gpio pin mode r)
init_gpio-IsSetUp pin mode r few =
    let c = io_bank0_base + 0x004 + pin * 8 in
    let p = pads_bank0_base + 0x004 + pin * 4 in
    subst (λ a. IsSetUpAt reset a (pad_ctrl pin) gpio_oe pin mode r (init_gpio pin mode r))
      (ctrl-address pin few)
      (subst (λ a. IsSetUpAt reset c a gpio_oe pin mode r (init_gpio pin mode r))
        (pad_ctrl-address pin)
        (subst (λ g. IsSetUpAt reset c p gpio_oe pin mode r g)
          (sym (init_gpio-moded pin few r mode))
          (moded-IsSetUpAt reset c p gpio_oe (omega arith) (omega arith) (omega arith) (omega arith)
            (omega arith) (omega arith) pin r mode)))
