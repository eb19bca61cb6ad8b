-- ===== src/Spsc/Window.antt =====
-- The elements that a FIFO holds, and its invariant.
use native.Mathlib.Decide.{dec_lt}
use native.Mathlib.Nat.{mod-add-mod, mod-eq_of_lt, mod-eq-sub-mod, add-zero}
use multicore_rtos.Base.{
  ℕ, zero, suc, ◌+◌, ◌-◌, ◌%◌, ◌^◌, ◌<◌, ◌≡◌, refl, ◌≢◌, ◌↔◌, ◌∙◌, ap, sym, ◌⊎◌, inl, inr, leb,
  List, [], ◌∷◌, ◌++◌, arith, update, update_ne, length, if◌then◌else◌,
}
use multicore_rtos.Spsc.{Fifo, next}

module _ (items : ℕ → ℕ) (size : ℕ) where
  -- the `n` elements from index `i` on, oldest first
  abbrev pub window : ℕ → ℕ → List ℕ
  window i zero = []
  window i (suc n) = items i ∷ window ((i + 1) % size) n

  pub length-window : (i n : ℕ) → length (window i n) ≡ n
  length-window i zero = refl
  length-window i (suc n) = ap suc (length-window ((i + 1) % size) n)

-- the number of elements between head and tail
abbrev pub count : Fifo → ℕ
count f = if leb f.head f.tail then f.tail - f.head else f.tail + f.size - f.head

abbrev pub contents : Fifo → List ℕ
contents f = window f.items f.size f.head (count f)

pub record IsValid (f : Fifo) : Type 0 where
  pub small : f.size < 2 ^ 32
  pub head_in : f.head < f.size
  pub tail_in : f.tail < f.size

step_ne : {size i k : ℕ} → i < size → suc k < size → (i + suc k) % size ≢ i
step_ne {size} {i} {k} hi hk = elim (dec_lt (i + suc k) size) [
  | yes p ↦ omega (arith, mod-eq_of_lt p)
  | no p ↦ omega (
    arith,
    mod-eq-sub-mod {n = i + suc k} {m = size} (omega arith),
    mod-eq_of_lt {n = i + suc k - size} {m = size} (omega arith),
  )
]

pub next_shift : (size i n : ℕ) → ((i + 1) % size + n) % size ≡ (i + suc n) % size
next_shift size i n = rw mod-add-mod (ap (λ k. k % size) (omega arith))

-- A write at the index behind the window leaves the window alone.
pub window-update :
    (items : ℕ → ℕ) (size x n i j : ℕ)
    → i < size
    → n < size
    → j ≡ (i + n) % size
    → window (update items j x) size i n ≡ window items size i n
window-update items size x zero i j hi hn e = refl
window-update items size x (suc n) i j hi hn e = rw (
  update_ne items j x (ne),
  window-update items size x n ((i + 1) % size) j (omega arith) (omega arith)
      (e ∙ sym (next_shift size i n)),
)
  where
    ne : i ≢ j
    ne q = step_ne hi hn (sym e ∙ sym q)

-- The element behind the window extends it.
pub window-suc :
    (items : ℕ → ℕ) (size n i : ℕ)
    → i < size
    → window items size i (suc n) ≡ window items size i n ++ (items ((i + n) % size) ∷ [])
window-suc items size zero i hi = rw (add-zero, mod-eq_of_lt hi)
window-suc items size (suc n) i hi =
    rw (window-suc items size n ((i + 1) % size) (omega arith), next_shift size i n)

pub next_cases :
    (size i : ℕ)
    → size < 2 ^ 32
    → i < size
    → ((i + 1 ≡ size) × (next size i ≡ 0)) ⊎ ((i + 1 < size) × (next size i ≡ i + 1))
next_cases size i small h = elim (dec_lt (i + 1) size) [
  | yes p ↦ inr (p, let e : (i + 1) % 2 ^ 32 ≡ i + 1 = omega arith in rw e (mod-eq_of_lt p))
  | no p ↦ inl (omega arith, let e : (i + 1) % 2 ^ 32 ≡ size = omega arith in rw e (grind arith))
]

mod_wrap : (x n : ℕ) → x < n → (x + n) % n ≡ x
mod_wrap x n h = grind arith

module _ (f : Fifo) (v : IsValid f) where
  pub tail_at : (f.head + count f) % f.size ≡ f.tail
  tail_at = elim (dec_lt f.tail f.head) [
    | yes wrapped ↦
        let e : f.head + count f ≡ f.tail + f.size = ground arith in
        rw e (mod_wrap f.tail f.size v.tail_in)
    | no straight ↦
        let e : f.head + count f ≡ f.tail = ground arith in rw e (mod-eq_of_lt v.tail_in)
  ]

  pub count-lt : count f < f.size
  count-lt = ground arith

  -- The test of `put` fails exactly where one more element would make the FIFO look empty.
  pub full_iff : (next f.size f.tail ≡ f.head) ↔ (count f + 1 ≡ f.size)
  full_iff = ground (arith, next_cases f.size f.tail v.small v.tail_in)

  pub empty_iff : (f.head ≡ f.tail) ↔ (count f ≡ 0)
  empty_iff = ground arith
