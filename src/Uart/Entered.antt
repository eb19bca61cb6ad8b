-- ===== src/Uart/Entered.antt =====
-- What `uart_in_string` leaves in memory.
use multicore_rtos.Base.{
  ℕ, suc, ◌+◌, ◌^◌, ◌≤◌, ◌<◌, ◌≡◌, refl, ◌≢◌, ◌∙◌, ap, sym, subst, ◌⊎◌, inl, inr, true, false,
  Option, none, some, List, [], ◌∷◌, arith, ltb, update, update_self, update_ne, length, Bool-cases,
}
use multicore_rtos.Heap.{Ptr}
use multicore_rtos.Uart.Input.{Editing, edit, edit_loop, uart_in_string, is_return, is_erase}
use multicore_rtos.Uart.Editor.{typed, keyed, Shows, Shows-update, Holds, edit-keyed}

module _ (size start : ℕ) (memory : Ptr → ℕ) (in_memory : start + size < 2 ^ 32) where
  -- The loop ends where the line is entered, with the line.
  LoopEnds : Option (List ℕ) → Option (Editing × List ℕ) → Type 0
  LoopEnds none none = Unit
  LoopEnds none (some r) = ⊥
  LoopEnds (some line) none = ⊥
  LoopEnds (some line) (some (s, rest)) = Holds size start memory line s

  loop-LoopEnds :
      (cs line : List ℕ) (s : Editing)
      → Holds size start memory line s
      → LoopEnds (typed size cs line) (edit_loop size cs s)
  unfolding edit_loop typed LoopEnds
  loop-LoopEnds [] line s h = tt
  loop-LoopEnds (c ∷ cs) line s h =
      let h' = edit-keyed size start memory in_memory c line s h in
      elim (Bool-cases (is_return c)) [
        | inl end ↦ rw (end) (record {
          at = h.at;
          count = h.count;
          fits = h.fits;
          shows = h.shows;
          outside = h.outside;
        })
        | inr more ↦ elim (Bool-cases (ltb (length (keyed size c line)) size)) [
          | inl room ↦
              let room' : ltb (edit size c s).length size ≡ true = ground (arith, h'.count) in
              rw (more, room, room') (loop-LoopEnds cs (keyed size c line) (edit size c s) h')
          | inr full ↦
              let full' : ltb (edit size c s).length size ≡ false = ground (arith, h'.count) in
              rw (more, full, full') h'
        ]
      ]

  -- The call returns exactly when a line is entered; the buffer then has the line and a NUL behind it,
  -- and only the bytes from the start of the buffer to the one behind its last can have changed.
  abbrev pub Entered : Option (List ℕ) → Option ((Ptr → ℕ) × List ℕ × List ℕ) → Type 0
  Entered none none = Unit
  Entered none (some r) = ⊥
  Entered (some line) none = ⊥
  Entered (some line) (some (memory', echo, rest)) =
      Shows memory' start line
      × (memory' (start + length line) ≡ 0)
      × (length line ≤ size)
      × ((a : Ptr) → (a < start) ⊎ (start + size < a) → memory' a ≡ memory a)

  Entered-Holds :
      (line : List ℕ) (s : Editing) (rest : List ℕ)
      → Holds size start memory line s
      → Entered (some line) (some (update s.memory s.buff 0, s.echo, rest))
  Entered-Holds line s rest h = (
    Shows-update s.memory start s.buff 0 line (omega (arith, h.at)) h.shows,
    ap (update s.memory s.buff 0) (sym h.at) ∙ update_self s.memory s.buff 0,
    h.fits,
    (λ a o. update_ne s.memory s.buff 0 (ne a o) ∙ h.outside a (out a o)),
  )
    where
      ne : (a : Ptr) → (a < start) ⊎ (start + size < a) → a ≢ s.buff
      ne a (inl below) = omega (arith, h.at)
      ne a (inr above) = omega (arith, h.at, h.fits)

      out : (a : Ptr) → (a < start) ⊎ (start + size < a) → (a < start) ⊎ (start + size ≤ a)
      out a (inl below) = inl below
      out a (inr above) = inr (omega arith)

  -- For a buffer below 2^32: on the bytes that `fifo_get` returns, `uart_in_string` returns exactly when
  -- a line editor has its line, which '\r' or the last of `buff_size` bytes ends, and goes on waiting
  -- otherwise. It leaves the line at the buffer with a NUL behind it, and changes no byte but those of
  -- the buffer and the one behind it.
  pub uart_in_string-Entered :
      (input : List ℕ) → Entered (typed size input []) (uart_in_string size input start memory)
  unfolding uart_in_string LoopEnds
  uart_in_string-Entered input = go (typed size input []) (edit_loop size input begin) refl (
      loop-LoopEnds input [] begin (record {
        at = omega arith;
        count = refl;
        fits = omega arith;
        shows = tt;
        outside = λ a o. refl;
      }))
    where
      begin : Editing
      begin = record { memory = memory; buff = start; length = 0; echo = [] }

      go :
          (l : Option (List ℕ)) (r : Option (Editing × List ℕ))
          → edit_loop size input begin ≡ r
          → LoopEnds l r
          → Entered l (uart_in_string size input start memory)
      go none none e h = rw (Entered, e) tt
      go none (some r) e h = absurd h
      go (some line) none e h = absurd h
      go (some line) (some (s, rest)) e h = rw (Entered, e) (Entered-Holds line s rest h)

-- Bytes that are neither '\r' nor erase.
abbrev pub AllPlain : List ℕ → Type 0
AllPlain [] = Unit
AllPlain (c ∷ cs) = (is_return c ≡ false) × (is_erase c ≡ false) × AllPlain cs

keyed-plain :
    (size c : ℕ) (line : List ℕ)
    → is_erase c ≡ false
    → length line < size
    → keyed size c line ≡ c ∷ line
unfolding keyed
keyed-plain size c [] e lt = let r : ltb 0 size ≡ true = ground arith in rw (e, r) refl
keyed-plain size c (x ∷ line) e lt =
    let r : ltb (length (x ∷ line)) size ≡ true = ground arith in rw (e, r) refl

typed-more :
    (size c : ℕ) (cs line line' : List ℕ)
    → is_return c ≡ false
    → keyed size c line ≡ line'
    → ltb (length line') size ≡ true
    → typed size (c ∷ cs) line ≡ typed size cs line'
unfolding typed
typed-more size c cs line line' e k room =
    let r : ltb (length (keyed size c line)) size ≡ true = ap (λ l. ltb (length l) size) k ∙ room in
    rw (e, r) (ap (typed size cs) k)

typed-last :
    (size c : ℕ) (cs line line' : List ℕ)
    → is_return c ≡ false
    → keyed size c line ≡ line'
    → ltb (length line') size ≡ false
    → typed size (c ∷ cs) line ≡ some line'
unfolding typed
typed-last size c cs line line' e k full =
    let r : ltb (length (keyed size c line)) size ≡ false =
      ap (λ l. ltb (length l) size) k ∙ full in
    rw (e, r) (ap (λ l. some l) k)

-- Plain bytes, as many as there is room for, are a line as long as the buffer.
typed-full :
    (size c : ℕ) (cs line : List ℕ)
    → AllPlain (c ∷ cs)
    → suc (length cs) + length line ≡ size
    → (l : List ℕ) × (typed size (c ∷ cs) line ≡ some l) × (length l ≡ size)
typed-full size c [] line p e =
    let k = keyed-plain size c line p.1 (omega (arith, e)) in
    (c ∷ line, typed-last size c [] line (c ∷ line) p.0 k (ground arith), omega (arith, e))
typed-full size c (d ∷ cs) line p e =
    let k = keyed-plain size c line p.1 (omega (arith, e)) in
    let (l, r, same) = typed-full size d cs (c ∷ line) p.2 (omega (arith, e)) in
    (l, typed-more size c (d ∷ cs) line (c ∷ line) p.0 k (ground arith) ∙ r, same)

-- Where as many bytes that are neither '\r' nor erase arrive as a buffer below 2^32 has, the call
-- returns and has written a NUL to the byte behind the buffer.
pub uart_in_string-overrun :
    (size start : ℕ) (memory : Ptr → ℕ) (c : ℕ) (cs : List ℕ)
    → start + size < 2 ^ 32
    → AllPlain (c ∷ cs)
    → suc (length cs) ≡ size
    → (memory' : Ptr → ℕ) × (echo rest : List ℕ) × (uart_in_string size (c ∷ cs) start memory
        ≡ some (memory', echo, rest))
      × (memory' (start + size) ≡ 0)
uart_in_string-overrun size start memory c cs in_memory p e =
    let (l, r, same) = typed-full size c cs [] p (omega (arith, e)) in
    go l (uart_in_string size (c ∷ cs) start memory) refl same (
      subst (λ o. Entered size start memory in_memory o (uart_in_string size (c ∷ cs) start memory))
        r (uart_in_string-Entered size start memory in_memory (c ∷ cs)))
  where
    go :
        (l : List ℕ) (r : Option ((Ptr → ℕ) × List ℕ × List ℕ))
        → uart_in_string size (c ∷ cs) start memory ≡ r
        → length l ≡ size
        → Entered size start memory in_memory (some l) r
        → (memory' : Ptr → ℕ) × (echo rest : List ℕ) × (uart_in_string size (c ∷ cs) start memory
            ≡ some (memory', echo, rest))
          × (memory' (start + size) ≡ 0)
    go l none q same h = absurd h
    go l (some (memory', echo, rest)) q same h =
        (memory', echo, rest, q, ap (λ n. memory' (start + n)) (sym same) ∙ h.1)
