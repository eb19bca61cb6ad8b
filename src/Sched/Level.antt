-- ===== src/Sched/Level.antt =====
-- The loop of `schedule` and `init_scheduler` that looks for a level with an active thread.
use multicore_rtos.Base.{
  ℕ, zero, suc, ◌+◌, ◌-◌, ◌≤◌, ◌<◌, ◌≡◌, ◌≢◌, ◌∙◌, ap, ==_iff, true, arith, ◌==◌, Bool-cases, inl,
  inr,
}
use native.Mathlib.Decide.{ℕ_discrete}
use multicore_rtos.Sched.{find_level}

-- `r` is the first level from `from` on whose counter is not 0.
pub record FirstLevel (counts : ℕ → ℕ) (from r : ℕ) : Type 0 where
  pub start : from ≤ r
  pub nonzero : counts r ≢ 0
  pub below : (j : ℕ) → from ≤ j → j < r → counts j ≡ 0

-- Where one of the next `fuel` levels has a nonzero counter, the loop stops at the first such level.
pub find_level-FirstLevel :
    (fuel from n : ℕ) (counts : ℕ → ℕ)
    → counts (from + n) ≢ 0
    → n < fuel
    → FirstLevel counts from (find_level fuel from counts)
      × (find_level fuel from counts ≤ from + n)
unfolding find_level
find_level-FirstLevel zero from n counts hit lt = absurd (omega arith)
find_level-FirstLevel (suc fuel) from n counts hit lt = elim (Bool-cases (counts from == 0)) [
  | inl empty ↦ rw empty (later (λ m. find_level-FirstLevel fuel (from + 1) m counts) empty)
  | inr found ↦ rw found (
    record { start = omega arith; nonzero = ground arith; below = λ j a b. absurd (omega arith) },
    omega arith,
  )
]
  where
    later :
        ((m : ℕ)
          → counts (from + 1 + m) ≢ 0
          → m < fuel
          → FirstLevel counts (from + 1) (find_level fuel (from + 1) counts)
            × (find_level fuel (from + 1) counts ≤ from + 1 + m))
        → (counts from == 0) ≡ true
        → FirstLevel counts from (find_level fuel (from + 1) counts)
          × (find_level fuel (from + 1) counts ≤ from + n)
    later ih empty =
        let zero_here : counts from ≡ 0 = (==_iff _ _).0 empty in
        let back : n ≡ 0 → from + n ≡ from = λ q. omega arith in
        let ne : n ≢ 0 = λ q. hit (ap counts (back q) ∙ zero_here) in
        let e : from + 1 + (n - 1) ≡ from + n = omega arith in
        let (first, le) = ih (n - 1) (rw e hit) (omega arith) in
        (
          record {
            start = omega (arith, first.start);
            nonzero = first.nonzero;
            below = λ j a b. elim (ℕ_discrete j from) [
              | yes same ↦ ap counts same ∙ zero_here
              | no other ↦ first.below j (omega arith) b
            ];
          },
          omega (arith, le),
        )
