-- ===== src/Uart/Editor.antt =====
-- `uart_in_string` as a line editor: the line is a list with its last byte first.
use multicore_rtos.Base.{
  ℕ, ◌+◌, ◌-◌, ◌%◌, ◌^◌, ◌≤◌, ◌<◌, ◌≡◌, refl, ◌≢◌, ◌∙◌, ap, sym, ◌⊎◌, inl, inr, true, false, Option,
  none, some, List, [], ◌∷◌, ◌++◌, arith, ltb, ◌==◌, if◌then◌else◌, update, update_self, update_ne,
  length, Bool-cases,
}
use multicore_rtos.Heap.{Ptr}
use multicore_rtos.Uart.Input.{Editing, edit, is_return, is_erase}

-- A key: erase takes the last byte away, another byte is added if there is room.
unfoldable pub keyed : ℕ → ℕ → List ℕ → List ℕ
keyed size c [] = if is_erase c then [] else if ltb 0 size then c ∷ [] else []
keyed size c (x ∷ xs) =
    if is_erase c then xs else if ltb (length (x ∷ xs)) size then c ∷ x ∷ xs else x ∷ xs

-- The line that is entered: up to '\r', or when it is full.
unfoldable pub typed : ℕ → List ℕ → List ℕ → Option (List ℕ)
unfolding keyed
typed size [] line = none
typed size (c ∷ cs) line =
    let line' = keyed size c line in
    let rest = typed size cs line' in
    if is_return c then some line else if ltb (length line') size then rest else some line'

-- the states of a round that adds a byte and of one that takes one away
abbrev with_byte : ℕ → Editing → Editing
with_byte c s = record s {
  memory = update s.memory s.buff c;
  buff = (s.buff + 1) % 2 ^ 32;
  length = (s.length + 1) % 2 ^ 32;
  echo = s.echo ++ (c ∷ []);
}

abbrev without_byte : Editing → Editing
without_byte s = record s {
  buff = (s.buff + 2 ^ 32 - 1) % 2 ^ 32;
  length = (s.length + 2 ^ 32 - 1) % 2 ^ 32;
  echo = s.echo ++ (8 ∷ 32 ∷ 8 ∷ []);
}

module _ (size c : ℕ) (s : Editing) where
  edit-nothing : is_erase c ≡ true → s.length ≡ 0 → edit size c s ≡ s
  unfolding edit
  edit-nothing e l = let z : (s.length == 0) ≡ true = ground arith in rw (e, z) refl

  edit-without : is_erase c ≡ true → s.length ≢ 0 → edit size c s ≡ without_byte s
  unfolding edit
  edit-without e l = let z : (s.length == 0) ≡ false = ground arith in rw (e, z) refl

  edit-with : is_erase c ≡ false → s.length < size → edit size c s ≡ with_byte c s
  unfolding edit
  edit-with e l = let z : ltb s.length size ≡ true = ground arith in rw (e, z) refl

  edit-full : is_erase c ≡ false → size ≤ s.length → edit size c s ≡ s
  unfolding edit
  edit-full e l = let z : ltb s.length size ≡ false = ground arith in rw (e, z) refl

-- The line is in memory from `start` on.
abbrev pub Shows : (Ptr → ℕ) → Ptr → List ℕ → Type 0
Shows memory start [] = Unit
Shows memory start (c ∷ line) = (memory (start + length line) ≡ c) × Shows memory start line

pub Shows-update :
    (memory : Ptr → ℕ) (start p d : ℕ) (line : List ℕ)
    → start + length line ≤ p
    → Shows memory start line
    → Shows (update memory p d) start line
Shows-update memory start p d [] le s = tt
Shows-update memory start p d (c ∷ line) le s = (
  update_ne memory p d (omega (arith, le)) ∙ s.0,
  Shows-update memory start p d line (omega (arith, le)) s.1,
)

-- The state of the loop for a line, with the memory outside the buffer as it was.
pub record Holds (size start : ℕ) (memory : Ptr → ℕ) (line : List ℕ) (s : Editing) : Type 0 where
  pub at : s.buff ≡ start + length line
  pub count : s.length ≡ length line
  pub fits : length line ≤ size
  pub shows : Shows s.memory start line
  pub outside : (a : Ptr) → (a < start) ⊎ (start + size ≤ a) → s.memory a ≡ memory a

module _ (size start : ℕ) (memory : Ptr → ℕ) (in_memory : start + size < 2 ^ 32) where
  added :
      (c : ℕ) (line : List ℕ) (s : Editing)
      → length line < size
      → Holds size start memory line s
      → Holds size start memory (c ∷ line) (with_byte c s)
  added c line s lt h = record {
    at = omega (arith, h.at, in_memory, lt);
    count = omega (arith, h.count, in_memory, lt);
    fits = omega (arith, lt);
    shows = (
      ap (update s.memory s.buff c) (sym h.at) ∙ update_self s.memory s.buff c,
      Shows-update s.memory start s.buff c line (omega (arith, h.at)) h.shows,
    );
    outside = λ a o. update_ne s.memory s.buff c (ne a o) ∙ h.outside a o;
  }
    where
      ne : (a : Ptr) → (a < start) ⊎ (start + size ≤ a) → a ≢ s.buff
      ne a (inl below) = omega (arith, h.at)
      ne a (inr above) = omega (arith, h.at, lt)

  erased :
      (x : ℕ) (line : List ℕ) (s : Editing)
      → Holds size start memory (x ∷ line) s
      → Holds size start memory line (without_byte s)
  erased x line s h = record {
    at = omega (arith, h.at, in_memory, h.fits);
    count = omega (arith, h.count, in_memory, h.fits);
    fits = omega (arith, h.fits);
    shows = h.shows.1;
    outside = h.outside;
  }

  pub edit-keyed :
      (c : ℕ) (line : List ℕ) (s : Editing)
      → Holds size start memory line s
      → Holds size start memory (keyed size c line) (edit size c s)
  unfolding keyed
  edit-keyed c [] s h = elim (Bool-cases (is_erase c)) [
    | inl e ↦ rw (e, edit-nothing size c s e h.count) h
    | inr n ↦ elim (Bool-cases (ltb 0 size)) [
      | inl room ↦
          rw (n, room, edit-with size c s n (ground (arith, h.count)))
            (added c [] s (ground arith) h)
      | inr full ↦ rw (n, full, edit-full size c s n (ground (arith, h.count))) h
    ]
  ]
  edit-keyed c (x ∷ line) s h = elim (Bool-cases (is_erase c)) [
    | inl e ↦ rw (e, edit-without size c s e (omega (arith, h.count))) (erased x line s h)
    | inr n ↦ elim (Bool-cases (ltb (length (x ∷ line)) size)) [
      | inl room ↦
          rw (n, room, edit-with size c s n (ground (arith, h.count)))
            (added c (x ∷ line) s (ground arith) h)
      | inr full ↦ rw (n, full, edit-full size c s n (ground (arith, h.count))) h
    ]
  ]
