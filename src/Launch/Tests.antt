-- ===== src/Launch/Tests.antt =====
-- A start with a core 1 that is busy at first.
use multicore_rtos.Base.{ℕ, zero, suc, ◌≡◌, refl, List, [], ◌∷◌, some, true}
use multicore_rtos.Sched.Cases.{two_cores}
use multicore_rtos.Sched.Create.{start_core}
use multicore_rtos.Launch.{Image, Mailbox, Started, init_scheduler, init_systick}
use multicore_rtos.Launch.Wake.{init_scheduler-Awake}

-- To its first `n` words core 1 answers 99, and to the others with the same word.
abbrev answer : ℕ → ℕ → List ℕ × ℕ
answer zero c = (c ∷ [], 0)
answer (suc n) c = (99 ∷ [], n)

abbrev image : Image
image = record { vector_table = 0x1000_0100; stack_top = 0x2004_2000; entry = 0x1000_0201 }

abbrev stale : Mailbox
stale = record { written = []; returned = []; unread = 7 ∷ 0 ∷ [] }

IsSettled : ℕ → Type 0
IsSettled n = n ≡ 0

echo : (n : ℕ) → IsSettled n → (c : ℕ) → ((answer n c).0 ≡ c ∷ []) × IsSettled (answer n c).1
unfolding IsSettled
echo n e c = rw e (refl, refl)

init_scheduler-Awake_example :
    (r : Started ℕ) × (init_scheduler answer image 14 1 true 0 5000 two_cores stale 2 ≡ some r)
    × ((older : List ℕ) × (r.mailbox.written
          ≡ 1 ∷ 0x1000_0201 ∷ 0x2004_2000 ∷ 0x1000_0100 ∷ 1 ∷ 0 ∷ 0 ∷ older))
    × ((before : List ℕ) × (r.mailbox.returned
          ≡ 0x1000_0201 ∷ 0x2004_2000 ∷ 0x1000_0100 ∷ 1 ∷ 0 ∷ 0 ∷ before))
    × (r.systick ≡ init_systick 1)
    × (r.kernel ≡ start_core 0 5000 two_cores)
unfolding IsSettled
init_scheduler-Awake_example =
    init_scheduler-Awake answer image IsSettled echo 2 1 5000 two_cores stale 2
      (λ c. ((99, [], refl), λ d. ((99, [], refl), refl)))
