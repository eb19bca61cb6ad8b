-- ===== src/Interp/Xor.antt =====
-- The exclusive or of two numbers, digit by digit.
use Prim.Native.Nat.{bit_xor, bit_xor-bitwise, digits, differ}
use multicore_rtos.Base.{
  ℕ, zero, suc, ◌+◌, ◌*◌, ◌/◌, ◌%◌, ◌^◌, ◌≤◌, ◌<◌, ◌≡◌, refl, ◌∙◌, ap, sym, arith,
}

-- the digits of `a`, of which there are no more than `n`, against those of `b`
abbrev xor : ℕ → ℕ → ℕ → ℕ
xor n a b = digits (λ b. b) differ n a b

differ-parity : (x y : ℕ) → x < 2 → y < 2 → differ x y ≡ (x + y) % 2
differ-parity zero y hx hy = omega arith
differ-parity (suc zero) zero hx hy = refl
differ-parity (suc zero) (suc zero) hx hy = refl
differ-parity (suc zero) (suc (suc y)) hx hy = absurd (omega arith)
differ-parity (suc (suc x)) y hx hy = absurd (omega arith)

xor-step : (n a b : ℕ) → xor (suc n) (suc a) b ≡ xor n (suc a / 2) (b / 2) * 2 + (suc a + b) % 2
xor-step n a b =
    let d = differ-parity (suc a % 2) (b % 2) (omega arith) (omega arith) in omega (arith, d)

xor-zero : (n b : ℕ) → xor n 0 b ≡ b
xor-zero zero b = refl
xor-zero (suc n) b = refl

xor-fuel : (n m a b : ℕ) → a ≤ n → a ≤ m → xor n a b ≡ xor m a b
xor-fuel n m zero b hn hm = xor-zero n b ∙ sym (xor-zero m b)
xor-fuel zero m (suc a) b hn hm = absurd (omega arith)
xor-fuel (suc n) zero (suc a) b hn hm = absurd (omega arith)
xor-fuel (suc n) (suc m) (suc a) b hn hm =
    xor-step n a b
    ∙ ap (λ x. x * 2 + (suc a + b) % 2)
        (xor-fuel n m (suc a / 2) (b / 2) (omega arith) (omega arith))
    ∙ sym (xor-step m a b)

xor_of : (a b : ℕ) → bit_xor a b ≡ xor a a b
xor_of a b = λ i. bit_xor-bitwise a b i

-- The lowest digits, and the others.
pub bit_xor-halves : (a b : ℕ) → bit_xor a b ≡ bit_xor (a / 2) (b / 2) * 2 + (a + b) % 2
bit_xor-halves zero b =
    xor_of 0 b ∙ omega arith ∙ ap (λ x. x * 2 + (0 + b) % 2) (sym (xor_of 0 (b / 2)))
bit_xor-halves (suc a) b =
    xor_of (suc a) b
    ∙ xor-step a a b
    ∙ ap (λ x. x * 2 + (suc a + b) % 2)
        (xor-fuel a (suc a / 2) (suc a / 2) (b / 2) (omega arith) (omega arith)
          ∙ sym (xor_of (suc a / 2) (b / 2)))

zero_xor : (b : ℕ) → bit_xor 0 b ≡ b
zero_xor b = xor_of 0 b

left_go : (k a c b : ℕ) → a ≤ k → c ≤ k → bit_xor a b ≡ bit_xor c b → a ≡ c
left_go zero a c b ha hc e = omega arith
left_go (suc k) a c b ha hc e =
    let ea = bit_xor-halves a b in
    let ec = bit_xor-halves c b in
    let h =
      left_go k (a / 2) (c / 2) (b / 2) (omega arith) (omega arith) (omega (arith, ea, ec, e)) in
    omega (arith, h, ea, ec, e)

right_go : (k a b c : ℕ) → a ≤ k → bit_xor a b ≡ bit_xor a c → b ≡ c
right_go zero a b c ha e =
    let z : a ≡ 0 = omega arith in
    let zb : bit_xor a b ≡ b = ap (λ x. bit_xor x b) z ∙ zero_xor b in
    let zc : bit_xor a c ≡ c = ap (λ x. bit_xor x c) z ∙ zero_xor c in sym zb ∙ e ∙ zc
right_go (suc k) a b c ha e =
    let eb = bit_xor-halves a b in
    let ec = bit_xor-halves a c in
    let h = right_go k (a / 2) (b / 2) (c / 2) (omega arith) (omega (arith, eb, ec, e)) in
    omega (arith, h, eb, ec, e)

pub bit_xor-left : (a c b : ℕ) → bit_xor a b ≡ bit_xor c b → a ≡ c
bit_xor-left a c b e = left_go (a + c) a c b (omega arith) (omega arith) e

pub bit_xor-right : (a b c : ℕ) → bit_xor a b ≡ bit_xor a c → b ≡ c
bit_xor-right a b c e = right_go a a b c (omega arith) e

pub bit_xor-lt : (w a b : ℕ) → a < 2 ^ w → b < 2 ^ w → bit_xor a b < 2 ^ w
bit_xor-lt zero a b ha hb =
    let z : a ≡ 0 = omega arith in
    let zb : bit_xor a b ≡ b = ap (λ x. bit_xor x b) z ∙ zero_xor b in omega (arith, zb)
bit_xor-lt (suc w) a b ha hb =
    let e = bit_xor-halves a b in
    let h = bit_xor-lt w (a / 2) (b / 2) (omega arith) (omega arith) in omega (arith, e, h)
