-- ===== src/Context/Frame.antt =====
-- The 32 bytes that a context takes on a stack, and what restoring it gives.
use multicore_rtos.Base.{◌+◌, ◌-◌, ◌%◌, ◌^◌, ◌≤◌, ◌<◌, ◌≡◌, ◌∙◌, ap, arith, ◌⊎◌}
use multicore_rtos.Heap.{Ptr}
use multicore_rtos.Context.{
  Core, Words, push_low, pop_low, low_from_high, high_from_low, save_context, restore_context,
}

-- The words of a saved context with its end at `b`: R8 to R11, and R4 to R7 above them.
pub record Frame (c : Core) (b : Ptr) (w : Words) : Type 0 where
  pub at8 : w b ≡ c.r 8
  pub at9 : w (b + 4) ≡ c.r 9
  pub at10 : w (b + 8) ≡ c.r 10
  pub at11 : w (b + 12) ≡ c.r 11
  pub at4 : w (b + 16) ≡ c.r 4
  pub at5 : w (b + 20) ≡ c.r 5
  pub at6 : w (b + 24) ≡ c.r 6
  pub at7 : w (b + 28) ≡ c.r 7

-- The registers that a context has.
pub record SameRegisters (c d : Core) : Type 0 where
  pub r4 : d.r 4 ≡ c.r 4
  pub r5 : d.r 5 ≡ c.r 5
  pub r6 : d.r 6 ≡ c.r 6
  pub r7 : d.r 7 ≡ c.r 7
  pub r8 : d.r 8 ≡ c.r 8
  pub r9 : d.r 9 ≡ c.r 9
  pub r10 : d.r 10 ≡ c.r 10
  pub r11 : d.r 11 ≡ c.r 11
  pub stack : d.sp ≡ c.sp

module _ (b : Ptr) (fits : b + 32 < 2 ^ 32) where
  pub save-sp : (c : Core) (w : Words) → c.sp ≡ b + 32 → (save_context c w).0.sp ≡ b
  unfolding save_context push_low low_from_high
  save-sp c w e = rw e (omega arith)

  pub save-Frame : (c : Core) (w : Words) → c.sp ≡ b + 32 → Frame c b (save_context c w).1
  unfolding save_context push_low low_from_high
  save-Frame c w e =
      let e1 : (b + 32 + 2 ^ 32 - 16) % 2 ^ 32 ≡ b + 16 = omega arith in
      let e2 : (b + 16 + 2 ^ 32 - 16) % 2 ^ 32 ≡ b = omega arith in
      rw (e, e1, e2)
        (record {
          at8 = ground arith;
          at9 = ground arith;
          at10 = ground arith;
          at11 = ground arith;
          at4 = ground arith;
          at5 = ground arith;
          at6 = ground arith;
          at7 = ground arith;
        })

  -- Words below and above the frame stay.
  pub save-other :
      (c : Core) (w : Words) (a : Ptr)
      → c.sp ≡ b + 32
      → (a < b) ⊎ (b + 32 ≤ a)
      → (save_context c w).1 a ≡ w a
  unfolding save_context push_low low_from_high
  save-other c w a e out =
      let e1 : (b + 32 + 2 ^ 32 - 16) % 2 ^ 32 ≡ b + 16 = omega arith in
      let e2 : (b + 16 + 2 ^ 32 - 16) % 2 ^ 32 ≡ b = omega arith in rw (e, e1, e2) (ground arith)

  pub restore-Frame :
      (c d : Core) (w : Words)
      → c.sp ≡ b + 32
      → d.sp ≡ b
      → Frame c b w
      → SameRegisters c (restore_context d w)
  unfolding restore_context pop_low high_from_low
  restore-Frame c d w e e' f = record {
    r4 = ap w (omega (arith, e')) ∙ f.at4;
    r5 = ap w (omega (arith, e')) ∙ f.at5;
    r6 = ap w (omega (arith, e')) ∙ f.at6;
    r7 = ap w (omega (arith, e')) ∙ f.at7;
    r8 = ap w e' ∙ f.at8;
    r9 = ap w (omega (arith, e')) ∙ f.at9;
    r10 = ap w (omega (arith, e')) ∙ f.at10;
    r11 = ap w (omega (arith, e')) ∙ f.at11;
    stack = omega (arith, e, e');
  }
