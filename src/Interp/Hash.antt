-- ===== src/Interp/Hash.antt =====
-- `hash` of os/interpreter.c on commands that differ.
use Prim.Native.Nat.{bit_xor}
use multicore_rtos.Base.{
  ℕ, ◌*◌, ◌%◌, ◌^◌, ◌<◌, ◌≡◌, refl, ◌∙◌, ap, sym, List, [], ◌∷◌, ◌++◌, arith, ◌≢◌, inl, inr,
  Bool-cases, ◌==◌,
}
use multicore_rtos.Interp.{
  Command, hash_step, hash_from, hash, command_of, time, stats, sleep, help, unknown,
}
use multicore_rtos.Interp.Xor.{bit_xor-left, bit_xor-right, bit_xor-lt}

-- The prime is odd, so its product with 0x359c449b is 1 modulo 2^32.
undone : (x : ℕ) → x < 2 ^ 32 → (x * 0x0100_0193 % 2 ^ 32) * 0x359c_449b % 2 ^ 32 ≡ x
undone x lt = omega (arith, lt)

mul-left :
    (x y : ℕ)
    → x < 2 ^ 32
    → y < 2 ^ 32
    → x * 0x0100_0193 % 2 ^ 32 ≡ y * 0x0100_0193 % 2 ^ 32
    → x ≡ y
mul-left x y hx hy e = sym (undone x hx) ∙ ap (λ z. z * 0x359c_449b % 2 ^ 32) e ∙ undone y hy

hash_step-lt : (h c : ℕ) → hash_step h c < 2 ^ 32
hash_step-lt h c = omega arith

mixed-lt : (h c : ℕ) → h < 2 ^ 32 → bit_xor h (c % 2 ^ 8) < 2 ^ 32
mixed-lt h c lt = bit_xor-lt 32 h (c % 2 ^ 8) lt (omega arith)

step-left : (h h' c : ℕ) → h < 2 ^ 32 → h' < 2 ^ 32 → hash_step h c ≡ hash_step h' c → h ≡ h'
step-left h h' c lt lt' e = bit_xor-left h h' (c % 2 ^ 8) (
    mul-left (bit_xor h (c % 2 ^ 8)) (bit_xor h' (c % 2 ^ 8)) (mixed-lt h c lt) (mixed-lt h' c lt')
      e)

step-right : (h a b : ℕ) → h < 2 ^ 32 → hash_step h a ≡ hash_step h b → a % 2 ^ 8 ≡ b % 2 ^ 8
step-right h a b lt e =
    bit_xor-right h (a % 2 ^ 8) (b % 2 ^ 8) (
      mul-left (bit_xor h (a % 2 ^ 8)) (bit_xor h (b % 2 ^ 8)) (mixed-lt h a lt) (mixed-lt h b lt)
        e)

-- Different states stay different whatever follows.
from-left :
    (h h' : ℕ) (cs : List ℕ) → h < 2 ^ 32 → h' < 2 ^ 32 → hash_from h cs ≡ hash_from h' cs → h ≡ h'
from-left h h' [] lt lt' e = e
from-left h h' (c ∷ cs) lt lt' e =
    step-left h h' c lt lt'
      (from-left (hash_step h c) (hash_step h' c) cs (hash_step-lt h c) (hash_step-lt h' c) e)

from-append : (h : ℕ) (xs ys : List ℕ) → hash_from h (xs ++ ys) ≡ hash_from (hash_from h xs) ys
from-append h [] ys = refl
from-append h (x ∷ xs) ys = from-append (hash_step h x) xs ys

from-lt : (h : ℕ) (cs : List ℕ) → h < 2 ^ 32 → hash_from h cs < 2 ^ 32
from-lt h [] lt = lt
from-lt h (c ∷ cs) lt = from-lt (hash_step h c) cs (hash_step-lt h c)

-- Two strings of bytes that differ in one place have different hashes.
hash-one_byte :
    (before after : List ℕ) (a b : ℕ)
    → a < 2 ^ 8
    → b < 2 ^ 8
    → hash (before ++ (a ∷ after)) ≡ hash (before ++ (b ∷ after))
    → a ≡ b
unfolding hash
hash-one_byte before after a b ha hb e =
    let h = hash_from 0x811c_9dc5 before in
    let lt = from-lt 0x811c_9dc5 before (omega arith) in
    let same =
      sym (from-append 0x811c_9dc5 before (a ∷ after))
      ∙ e
      ∙ from-append 0x811c_9dc5 before (b ∷ after) in
    let step =
      from-left (hash_step h a) (hash_step h b) after (hash_step-lt h a) (hash_step-lt h b) same in
    omega (arith, step-right h a b lt step)

-- the hash that a label has
abbrev label : Command → ℕ
label time = 1_564_253_156
label stats = 1_781_603_564
label sleep = 2_313_861_896
label help = 946_971_642
label unknown = 0

command_of-label : (cmd : List ℕ) → command_of cmd ≢ unknown → hash cmd ≡ label (command_of cmd)
unfolding command_of
command_of-label cmd n = elim (Bool-cases (hash cmd == 1_564_253_156)) [
  | inl t ↦ rw t (ground arith)
  | inr t ↦ elim (Bool-cases (hash cmd == 1_781_603_564)) [
    | inl u ↦ rw (t, u) (ground arith)
    | inr u ↦ elim (Bool-cases (hash cmd == 2_313_861_896)) [
      | inl v ↦ rw (t, u, v) (ground arith)
      | inr v ↦ elim (Bool-cases (hash cmd == 946_971_642)) [
        | inl w ↦ rw (t, u, v, w) (ground arith)
        | inr w ↦ absurd (n (rw (t, u, v, w) refl))
      ]
    ]
  ]
]

-- A string that is taken for a command is no longer taken for the same one once one of its bytes is
-- another byte.
pub command_of-one_byte :
    (before after : List ℕ) (a b : ℕ)
    → a < 2 ^ 8
    → b < 2 ^ 8
    → a ≢ b
    → command_of (before ++ (a ∷ after)) ≢ unknown
    → command_of (before ++ (b ∷ after)) ≢ command_of (before ++ (a ∷ after))
command_of-one_byte before after a b ha hb ne known same =
    let la = command_of-label (before ++ (a ∷ after)) known in
    let lb = command_of-label (before ++ (b ∷ after)) (λ u. known (sym same ∙ u)) in
    ne (hash-one_byte before after a b ha hb (la ∙ ap label (sym same) ∙ sym lb))
