-- ===== src/Gpio/Tests.antt =====
-- A pin with a pull-up.
use multicore_rtos.Base.{◌≡◌, refl, true, false, arith}
use multicore_rtos.Gpio.{
  Registers, init_gpio, gpio_input_pullup, gpio_out, gpio_set, gpio_clear, gpio_toggle, store,
  reach, alias_of,
}
use multicore_rtos.Gpio.SetUp.{IsSetUp, init_gpio-IsSetUp, io_gpio_ctrl, pad_ctrl}

abbrev fresh : Registers
fresh _ _ = true

-- IO_GPIO14_CTRL, and the pad of the same pin
registers_of_14 : (io_gpio_ctrl 14 ≡ 0x4001_4074) × (pad_ctrl 14 ≡ 0x4001_c03c)
registers_of_14 = (refl, refl)

outputs_run :
    (gpio_set 14 (λ _ _. false) gpio_out 14 ≡ true)
    × (gpio_clear 14 fresh gpio_out 14 ≡ false)
    × (gpio_toggle 14 fresh gpio_out 14 ≡ false)
    × (gpio_toggle 14 fresh gpio_out 15 ≡ true)
unfolding gpio_set gpio_clear gpio_toggle store reach alias_of
outputs_run = (refl, refl, refl, refl)

init_gpio-IsSetUp_example :
    IsSetUp 14 gpio_input_pullup fresh (init_gpio 14 gpio_input_pullup fresh)
init_gpio-IsSetUp_example = init_gpio-IsSetUp 14 gpio_input_pullup fresh (omega arith)
