-- ===== src/Gpio.antt =====
-- hw/gpio.c and hw/gpio.h, with `init_subsystem` of hw/sys.c and the addresses of inc/rp2040.h. The
-- registers are words of 32 bits by address. A store to the address of a register's XOR, SET or CLR alias
-- flips, sets or clears the bits that are 1 in the stored word: in the blocks at 0x4000_0000 these aliases
-- lie 0x1000, 0x2000 and 0x3000 above the register, in the SIO block at 0xd000_0000 behind it.
pub mod Stores
pub mod SetUp
mod Tests
use multicore_rtos.Base.{
  ℕ, ◌+◌, ◌-◌, ◌*◌, ◌/◌, ◌%◌, ◌^◌, Bool, true, false, ◌&&◌, ◌||◌, not, leb, ◌==◌, if◌then◌else◌,
  update,
}
use multicore_rtos.Heap.{Ptr}

-- gpio_mode_e
pub data GpioMode : Type 0 where
  gpio_input gpio_input_pullup gpio_input_pulldown gpio_output : GpioMode

-- a word by its bits
abbrev pub Bits : Type 0
Bits = ℕ → Bool

abbrev pub Registers : Type 0
Registers = Ptr → Bits

abbrev pub bits_of : ℕ → Bits
bits_of n bit = n / 2 ^ bit % 2 == 1

-- `1 << n`, for `n` below 32
abbrev pub shifted : ℕ → Bits
shifted n bit = n == bit

abbrev pub resets_base : Ptr
resets_base = 0x4000_c000

abbrev pub io_bank0_base : Ptr
io_bank0_base = 0x4001_4000

abbrev pub pads_bank0_base : Ptr
pads_bank0_base = 0x4001_c000

abbrev pub sio_base : Ptr
sio_base = 0xd000_0000

abbrev pub reset : Ptr
reset = resets_base

abbrev pub reset_clr : Ptr
reset_clr = resets_base + 0x3000

abbrev pub gpio_out : Ptr
gpio_out = sio_base + 0x010

abbrev pub gpio_out_set : Ptr
gpio_out_set = sio_base + 0x014

abbrev pub gpio_out_clr : Ptr
gpio_out_clr = sio_base + 0x018

abbrev pub gpio_out_xor : Ptr
gpio_out_xor = sio_base + 0x01c

abbrev pub gpio_oe : Ptr
gpio_oe = sio_base + 0x020

abbrev pub gpio_oe_set : Ptr
gpio_oe_set = sio_base + 0x024

abbrev pub gpio_oe_clr : Ptr
gpio_oe_clr = sio_base + 0x028

-- What a store does to a register.
pub data Access : Type 0 where
  plain flips sets clears : Access

abbrev pub combine : Access → Bits → Bits → Bits
combine plain old word bit = word bit
combine flips old word bit = if word bit then not (old bit) else old bit
combine sets old word bit = if word bit then true else old bit
combine clears old word bit = if word bit then false else old bit

-- The alias by the place of 0x1000 in the address.
pub alias_of : ℕ → Access
alias_of n = if n == 0 then plain else if n == 1 then flips else if n == 2 then sets else clears

-- The register that a store to an address reaches, and how.
pub reach : Ptr → Ptr × Access
unfolding alias_of
reach a =
    if leb sio_base a
    then (if a == gpio_out_set
        then (gpio_out, sets)
        else if a == gpio_out_clr
        then (gpio_out, clears)
        else if a == gpio_out_xor
        then (gpio_out, flips)
        else if a == gpio_oe_set
        then (gpio_oe, sets)
        else if a == gpio_oe_clr
        then (gpio_oe, clears)
        else (a, plain))
    else (a - 0x1000 * (a / 0x1000 % 4), alias_of (a / 0x1000 % 4))

pub store : Ptr → Bits → Registers → Registers
unfolding reach
store a word r = let (p, how) = reach a in update r p (combine how (r p) word)

-- IO_BANK0 and PADS_BANK0 of subsystem_e
abbrev pub io_bank0 : ℕ
io_bank0 = 5

abbrev pub pads_bank0 : ℕ
pads_bank0 = 8

-- What follows when the chip has shown in RESET_DONE that the subsystem is ready.
pub init_subsystem : ℕ → Registers → Registers
unfolding store
init_subsystem sys r = store reset_clr (shifted sys) r

-- The switch, with the addresses of the pad's SET and CLR aliases.
pub set_mode : ℕ → Ptr → Ptr → GpioMode → Registers → Registers
unfolding store
set_mode pin pad_ctrl_set pad_ctrl_clr gpio_input r =
    store gpio_oe_clr (shifted pin)
      (store pad_ctrl_clr (shifted 2) (store pad_ctrl_clr (shifted 3) r))
set_mode pin pad_ctrl_set pad_ctrl_clr gpio_input_pullup r =
    store gpio_oe_clr (shifted pin)
      (store pad_ctrl_clr (shifted 2) (store pad_ctrl_set (shifted 3) r))
set_mode pin pad_ctrl_set pad_ctrl_clr gpio_input_pulldown r =
    store gpio_oe_clr (shifted pin)
      (store pad_ctrl_set (shifted 2) (store pad_ctrl_clr (shifted 3) r))
set_mode pin pad_ctrl_set pad_ctrl_clr gpio_output r =
    store gpio_oe_set (shifted pin)
      (store pad_ctrl_clr (shifted 2) (store pad_ctrl_clr (shifted 3) r))

pub init_gpio : ℕ → GpioMode → Registers → Registers
unfolding init_subsystem set_mode
init_gpio pin mode r =
    set_mode pin (pads_bank0_base + 0x2004 + pin * 4) (pads_bank0_base + 0x3004 + pin * 4) mode (
      store (io_bank0_base + 0x004 + pin * 8) (bits_of 5)
        (init_subsystem pads_bank0 (init_subsystem io_bank0 r)))

pub gpio_set : ℕ → Registers → Registers
unfolding store
gpio_set pin r = store gpio_out_set (shifted pin) r

pub gpio_clear : ℕ → Registers → Registers
unfolding store
gpio_clear pin r = store gpio_out_clr (shifted pin) r

pub gpio_toggle : ℕ → Registers → Registers
unfolding store
gpio_toggle pin r = store gpio_out_xor (shifted pin) r
