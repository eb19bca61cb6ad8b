-- ===== src/Boot/Vectors.antt =====
-- The vector table of os/interrupts.c, with the numbers of the interrupts in inc/rp2040.h.
use multicore_rtos.Base.{ℕ, zero, suc, ◌+◌, ◌≡◌, refl, Option, none, some, List, [], ◌∷◌}

-- A word of the table: the stack pointer, a handler by its name, or 0.
pub data Vector : Type 0 where
  stack_top : ℕ → Vector
  reset_handler default_isr hardfault_handler pend_sv_handler systick_handler : Vector
  timer0_interrupt timer1_interrupt uart0_handler : Vector
  reserved : Vector

abbrev pub cpu0_stack_top : ℕ
cpu0_stack_top = 0x2004_0FFC

pub vector_table : List Vector
vector_table =
    stack_top cpu0_stack_top
    ∷ reset_handler
    ∷ default_isr
    ∷ hardfault_handler
    ∷ reserved
    ∷ reserved
    ∷ reserved
    ∷ reserved
    ∷ reserved
    ∷ reserved
    ∷ reserved
    ∷ default_isr
    ∷ reserved
    ∷ reserved
    ∷ pend_sv_handler
    ∷ systick_handler
    ∷ timer0_interrupt
    ∷ timer1_interrupt
    ∷ default_isr
    ∷ default_isr
    ∷ default_isr
    ∷ default_isr
    ∷ default_isr
    ∷ default_isr
    ∷ default_isr
    ∷ default_isr
    ∷ default_isr
    ∷ default_isr
    ∷ default_isr
    ∷ default_isr
    ∷ default_isr
    ∷ default_isr
    ∷ default_isr
    ∷ default_isr
    ∷ default_isr
    ∷ default_isr
    ∷ uart0_handler
    ∷ default_isr
    ∷ default_isr
    ∷ default_isr
    ∷ default_isr
    ∷ default_isr
    ∷ []

-- The vector of an exception, by its number.
pub vector_of : ℕ → List Vector → Option Vector
vector_of n [] = none
vector_of zero (v ∷ vs) = some v
vector_of (suc n) (v ∷ vs) = vector_of n vs

-- The interrupts, by the names of inc/rp2040.h.
pub data Irq : Type 0 where
  timer_irq_0 timer_irq_1 timer_irq_2 timer_irq_3 pwm_irq_wrap usbctrl_irq : Irq
  xip_irq pio0_irq_0 pio0_irq_1 pio1_irq_0 pio1_irq_1 : Irq
  dma_irq_0 dma_irq_1 io_irq_bank0 io_irq_qspi sio_irq_proc0 sio_irq_proc1 : Irq
  clocks_irq spi0_irq spi1_irq uart0_irq uart1_irq : Irq
  adc_irq_fifo i2c0_irq i2c1_irq rtc_irq : Irq

pub irq_number : Irq → ℕ
irq_number timer_irq_0 = 0
irq_number timer_irq_1 = 1
irq_number timer_irq_2 = 2
irq_number timer_irq_3 = 3
irq_number pwm_irq_wrap = 4
irq_number usbctrl_irq = 5
irq_number xip_irq = 6
irq_number pio0_irq_0 = 7
irq_number pio0_irq_1 = 8
irq_number pio1_irq_0 = 9
irq_number pio1_irq_1 = 10
irq_number dma_irq_0 = 11
irq_number dma_irq_1 = 12
irq_number io_irq_bank0 = 13
irq_number io_irq_qspi = 14
irq_number sio_irq_proc0 = 15
irq_number sio_irq_proc1 = 16
irq_number clocks_irq = 17
irq_number spi0_irq = 18
irq_number spi1_irq = 19
irq_number uart0_irq = 20
irq_number uart1_irq = 21
irq_number adc_irq_fifo = 22
irq_number i2c0_irq = 23
irq_number i2c1_irq = 24
irq_number rtc_irq = 25

-- They come behind the 16 exceptions of the core.
abbrev pub irq_vector : Irq → Option Vector
irq_vector irq = vector_of (16 + irq_number irq) vector_table

-- Which handler serves an interrupt.
pub handler_of : Irq → Vector
handler_of timer_irq_0 = timer0_interrupt
handler_of timer_irq_1 = timer1_interrupt
handler_of timer_irq_2 = default_isr
handler_of timer_irq_3 = default_isr
handler_of pwm_irq_wrap = default_isr
handler_of usbctrl_irq = default_isr
handler_of xip_irq = default_isr
handler_of pio0_irq_0 = default_isr
handler_of pio0_irq_1 = default_isr
handler_of pio1_irq_0 = default_isr
handler_of pio1_irq_1 = default_isr
handler_of dma_irq_0 = default_isr
handler_of dma_irq_1 = default_isr
handler_of io_irq_bank0 = default_isr
handler_of io_irq_qspi = default_isr
handler_of sio_irq_proc0 = default_isr
handler_of sio_irq_proc1 = default_isr
handler_of clocks_irq = default_isr
handler_of spi0_irq = default_isr
handler_of spi1_irq = default_isr
handler_of uart0_irq = uart0_handler
handler_of uart1_irq = default_isr
handler_of adc_irq_fifo = default_isr
handler_of i2c0_irq = default_isr
handler_of i2c1_irq = default_isr
handler_of rtc_irq = default_isr

-- Each of the 26 interrupts has its handler at its number: three have their own, and the others
-- `default_isr`.
vector_table-handler_of : (irq : Irq) → irq_vector irq ≡ some (handler_of irq)
unfolding vector_of vector_table irq_number handler_of
vector_table-handler_of timer_irq_0 = refl
vector_table-handler_of timer_irq_1 = refl
vector_table-handler_of timer_irq_2 = refl
vector_table-handler_of timer_irq_3 = refl
vector_table-handler_of pwm_irq_wrap = refl
vector_table-handler_of usbctrl_irq = refl
vector_table-handler_of xip_irq = refl
vector_table-handler_of pio0_irq_0 = refl
vector_table-handler_of pio0_irq_1 = refl
vector_table-handler_of pio1_irq_0 = refl
vector_table-handler_of pio1_irq_1 = refl
vector_table-handler_of dma_irq_0 = refl
vector_table-handler_of dma_irq_1 = refl
vector_table-handler_of io_irq_bank0 = refl
vector_table-handler_of io_irq_qspi = refl
vector_table-handler_of sio_irq_proc0 = refl
vector_table-handler_of sio_irq_proc1 = refl
vector_table-handler_of clocks_irq = refl
vector_table-handler_of spi0_irq = refl
vector_table-handler_of spi1_irq = refl
vector_table-handler_of uart0_irq = refl
vector_table-handler_of uart1_irq = refl
vector_table-handler_of adc_irq_fifo = refl
vector_table-handler_of i2c0_irq = refl
vector_table-handler_of i2c1_irq = refl
vector_table-handler_of rtc_irq = refl

-- pendSV and sysTick
switching_exceptions :
    (vector_of 14 vector_table ≡ some pend_sv_handler)
    × (vector_of 15 vector_table ≡ some systick_handler)
unfolding vector_of vector_table
switching_exceptions = (refl, refl)
