-- ===== src/Interp/Tests.antt =====
-- The names of the commands, and a line.
use multicore_rtos.Base.{ℕ, ◌≡◌, refl, none, some, List, [], ◌∷◌, ◌==◌, if◌then◌else◌}
use multicore_rtos.Interp.{hash, command_of, time, stats, sleep, help, unknown}
use multicore_rtos.Interp.Session.{Libc, Clocks}

-- the bytes of "time", "stats", "sleep" and "help"
names_run :
    (command_of (116 ∷ 105 ∷ 109 ∷ 101 ∷ []) ≡ time)
    × (command_of (115 ∷ 116 ∷ 97 ∷ 116 ∷ 115 ∷ []) ≡ stats)
    × (command_of (115 ∷ 108 ∷ 101 ∷ 101 ∷ 112 ∷ []) ≡ sleep)
    × (command_of (104 ∷ 101 ∷ 108 ∷ 112 ∷ []) ≡ help)
    × (command_of [] ≡ unknown)
unfolding command_of hash
names_run = (refl, refl, refl, refl, refl)

-- the argument of `time` that the source knows by its hash alone: "reset"
reset_hash : hash (114 ∷ 101 ∷ 115 ∷ 101 ∷ 116 ∷ []) ≡ 1_695_364_032
unfolding hash
reset_hash = refl

-- A C library for lines of one word: `strtok` finds no word where a space begins the line, `sscanf` finds
-- no argument.
abbrev plain_libc : Libc
plain_libc = record {
  strtok = λ memory s. if memory s == 32 then none else some (s, memory);
  scan_word = λ memory p. (0, []);
  scan_int = λ memory p. (0, 0);
  snprintf = λ size f. [];
}

abbrev noon : Clocks
noon = record { low = 5; high = 1; raw0 = 9; raw1 = 11; now = 13; now' = 15; now'' = 17 }

-- "stats"
abbrev stats_line : List ℕ
stats_line = 115 ∷ 116 ∷ 97 ∷ 116 ∷ 115 ∷ 13 ∷ []
