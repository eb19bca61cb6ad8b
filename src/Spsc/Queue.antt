-- ===== src/Spsc/Queue.antt =====
-- FIFO32 and FIFO8 as bounded queues: a call of `put` or `get` that runs by itself.
use multicore_rtos.Base.{
  ℕ, suc, ◌+◌, ◌%◌, ◌^◌, ◌≡◌, refl, ◌≢◌, ◌∙◌, ap, sym, subst, inl, inr, true, false, Option, none,
  some, List, [], ◌∷◌, ◌++◌, arith, update, update_self, length, ◌==◌, if◌then◌else◌, Bool-cases,
  ==_iff,
}
use multicore_rtos.Spsc.{
  Fifo, next, fifo32_put, fifo32_get, fifo32_size, fifo8_put, fifo8_get, fifo8_size,
}
use multicore_rtos.Spsc.Window.{
  window, window-suc, window-update, length-window, count, contents, IsValid, tail_at, count-lt,
  full_iff, empty_iff, next_cases,
}

-- A queue in an array of `size` elements holds `size - 1` of them at most.
pub push : ℕ → List ℕ → ℕ → ℕ × List ℕ
push size q x = if length q + 1 == size then (1, q) else (0, q ++ (x ∷ []))

pub pop : List ℕ → Option (ℕ × List ℕ)
pop [] = none
pop (x ∷ q) = some (x, q)

abbrev pub seen : Option (ℕ × Fifo) → Option (ℕ × List ℕ)
seen none = none
seen (some (x, f)) = some (x, contents f)

-- the state after a write at tail and a step of tail
abbrev pub appended : Fifo → ℕ → Fifo
appended f d = record f { items = update f.items f.tail d; tail = next f.size f.tail }

abbrev pub advanced : Fifo → Fifo
advanced f = record f { head = next f.size f.head }

module _ (f : Fifo) (v : IsValid f) where
  pub length-contents : length (contents f) ≡ count f
  length-contents = length-window f.items f.size f.head (count f)

  module _ (room : count f + 1 ≢ f.size) where
    pub count-appended : (d : ℕ) → count (appended f d) ≡ suc (count f)
    count-appended d = ground (arith, next_cases f.size f.tail v.small v.tail_in)

    pub contents-appended : (d : ℕ) → contents (appended f d) ≡ contents f ++ (d ∷ [])
    contents-appended d = rw (
      count-appended d,
      window-suc (update f.items f.tail d) f.size (count f) f.head v.head_in,
      tail_at f v,
      update_self f.items f.tail d,
      window-update f.items f.size d (count f) f.head f.tail v.head_in (count-lt f v)
          (sym (tail_at f v)),
    )

    pub appended-IsValid : (d : ℕ) → IsValid (appended f d)
    appended-IsValid d = ground (arith, next_cases f.size f.tail v.small v.tail_in)

  module _ (filled : f.head ≢ f.tail) where
    pub count-advanced : suc (count (advanced f)) ≡ count f
    count-advanced = ground (arith, next_cases f.size f.head v.small v.head_in)

    pub contents-advanced : contents f ≡ f.items f.head ∷ contents (advanced f)
    contents-advanced =
        let step : next f.size f.head ≡ (f.head + 1) % f.size =
          ap (λ k. k % f.size) (omega (arith, v.head_in, v.small)) in
        ap (window f.items f.size f.head) (sym count-advanced)
        ∙ ap (λ i. f.items f.head ∷ window f.items f.size i (count (advanced f))) (sym step)

    pub advanced-IsValid : IsValid (advanced f)
    advanced-IsValid = ground (arith, next_cases f.size f.head v.small v.head_in)

-- `fifo32_put` on a valid FIFO keeps it valid, returns the status of the bounded queue's push, and
-- leaves the FIFO with the elements of that queue.
pub fifo32_put-push :
    (f : Fifo) (d : ℕ)
    → IsValid f
    → let (s, f') = fifo32_put f d in
      IsValid f' × (f'.size ≡ f.size) × ((s, contents f') ≡ push f.size (contents f) d)
unfolding fifo32_put push
fifo32_put-push f d v = elim (Bool-cases (next f.size f.tail == f.head)) [
  | inl full ↦
      let at : (length (contents f) + 1 == f.size) ≡ true =
        rw (length-contents f v) ((==_iff _ _).1 ((full_iff f v).0 ((==_iff _ _).0 full))) in
      rw (full, at) (v, refl, refl)
  | inr room ↦
      let ne : count f + 1 ≢ f.size = λ q. ground (arith, (full_iff f v).1 q) in
      let at : (length (contents f) + 1 == f.size) ≡ false =
        rw (length-contents f v) (ground arith) in
      rw (room, at) (appended-IsValid f v ne d, refl, ap (λ q. (0, q)) (contents-appended f v ne d))
]

-- `fifo32_get` on a valid FIFO waits exactly when the queue is empty; otherwise it returns the
-- oldest element, keeps the FIFO valid and leaves the others.
pub fifo32_get-pop : (f : Fifo) → IsValid f → seen (fifo32_get f) ≡ pop (contents f)
unfolding fifo32_get pop
fifo32_get-pop f v = elim (Bool-cases (f.head == f.tail)) [
  | inl empty ↦ let e : count f ≡ 0 = (empty_iff f v).0 ((==_iff _ _).0 empty) in rw (empty, e)
  | inr filled ↦
      let ne : f.head ≢ f.tail = λ q. ground arith in rw (filled, contents-advanced f v ne)
]

pub fifo32_get-IsValid :
    (f : Fifo) (x : ℕ) (f' : Fifo)
    → IsValid f
    → fifo32_get f ≡ some (x, f')
    → IsValid f' × (f'.size ≡ f.size)
unfolding fifo32_get
fifo32_get-IsValid f x f' v h = elim (Bool-cases (f.head == f.tail)) [
  | inl empty ↦ cc (rw empty at h)
  | inr filled ↦
      let ne : f.head ≢ f.tail = λ q. ground arith in
      let e : some (f.items f.head, advanced f) ≡ some (x, f') = rw filled at h in
      subst (λ o. valid_after o) e (advanced-IsValid f v ne, refl)
]
  where
    valid_after : Option (ℕ × Fifo) → Type 0
    valid_after none = Unit
    valid_after (some (y, g)) = IsValid g × (g.size ≡ f.size)

-- `fifo32_size` is the number of elements that a valid FIFO holds; no subtraction in it wraps.
pub fifo32_size-length : (f : Fifo) → IsValid f → fifo32_size f ≡ length (contents f)
unfolding fifo32_size
fifo32_size-length f v = rw (length-contents f v) (ground arith)

-- The two widths share their code, and `fifo8_size` returns the size modulo 256.
pub fifo8-fifo32 :
    (f : Fifo) (d : ℕ)
    → (fifo8_put f d ≡ fifo32_put f d)
      × (fifo8_get f ≡ fifo32_get f)
      × (fifo8_size f ≡ fifo32_size f % 2 ^ 8)
unfolding fifo8_put fifo32_put fifo8_get fifo32_get fifo8_size fifo32_size
fifo8-fifo32 f d = (refl, refl, refl)
