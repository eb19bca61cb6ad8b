-- ===== src/Interp.antt =====
-- os/interpreter.c: the hash of a command's name and the choice of the command by it. A name is its
-- bytes up to the NUL.
pub mod Xor
pub mod Hash
pub mod Session
pub mod Answers
mod Tests
use Prim.Native.Nat.{bit_xor}
use multicore_rtos.Base.{ℕ, ◌*◌, ◌%◌, ◌^◌, List, [], ◌∷◌, ◌==◌, if◌then◌else◌}

-- A round of the loop, on uint32_t.
abbrev pub hash_step : ℕ → ℕ → ℕ
hash_step h c = bit_xor h (c % 2 ^ 8) * 0x0100_0193 % 2 ^ 32

-- the loop, from a state of the hash
abbrev pub hash_from : ℕ → List ℕ → ℕ
hash_from h [] = h
hash_from h (c ∷ cs) = hash_from (hash_step h c) cs

unfoldable pub hash : List ℕ → ℕ
hash cs = hash_from 0x811c_9dc5 cs

-- The labels of the `switch`, by their #define.
pub data Command : Type 0 where
  time : Command
  stats : Command
  sleep : Command
  help : Command
  unknown : Command

unfoldable pub command_of : List ℕ → Command
unfolding hash
command_of cmd =
    let h = hash cmd in
    if h == 1_564_253_156
    then time
    else if h == 1_781_603_564
    then stats
    else if h == 2_313_861_896
    then sleep
    else if h == 946_971_642
    then help
    else unknown
