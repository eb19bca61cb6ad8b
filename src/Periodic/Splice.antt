-- ===== src/Periodic/Splice.antt =====
-- The place of a background task in the circular list of os/periodic.c, and the list with it.
use multicore_rtos.Base.{
  ℕ, ◌≤◌, ◌≡◌, ◌≢◌, ◌∙◌, sym, inl, inr, List, [], ◌∷◌, arith, ltb, if◌then◌else◌, Bool-cases, Bool,
  subst,
}
use multicore_rtos.Heap.{Ptr}
use multicore_rtos.Sched.Links.{Neighbours, NotIn, Distinct, Chain}
use multicore_rtos.Sched.Line.{AtLeast, Sorted, AtLeast-weaken}

module _ (key : Ptr → ℕ) (time : ℕ) where
  -- Behind `a`: the first node of the list that is not before the time, or `z`.
  abbrev pub place : Ptr → List Ptr → Ptr → Ptr
  place a [] z = z
  place a (b ∷ xs) z = if ltb (key b) time then place b xs z else b

  -- the node before that
  abbrev pub place_before : Ptr → List Ptr → Ptr
  place_before a [] = a
  place_before a (b ∷ xs) = if ltb (key b) time then place_before b xs else a

  abbrev pub put : Ptr → List Ptr → List Ptr
  put t [] = t ∷ []
  put t (b ∷ xs) = if ltb (key b) time then b ∷ put t xs else t ∷ b ∷ xs

  pub place_ne : (x a : Ptr) (xs : List Ptr) (z : Ptr) → NotIn x xs → x ≢ z → x ≢ place a xs z
  place_ne x a [] z out ne = ne
  place_ne x a (b ∷ xs) z out ne = elim (Bool-cases (ltb (key b) time)) [
    | inl before ↦ rw before (place_ne x b xs z out.1 ne)
    | inr here ↦ rw here out.0
  ]

  pub place_before_ne : (x a : Ptr) (xs : List Ptr) → NotIn x (a ∷ xs) → x ≢ place_before a xs
  place_before_ne x a [] out = out.0
  place_before_ne x a (b ∷ xs) out = elim (Bool-cases (ltb (key b) time)) [
    | inl before ↦ rw before (place_before_ne x b xs out.1)
    | inr here ↦ rw here out.0
  ]

  pub prev-place :
      (n p : Neighbours) (a : Ptr) (xs : List Ptr) (z : Ptr)
      → Chain n p a xs z
      → p (place a xs z) ≡ place_before a xs
  prev-place n p a [] z c = c.1
  prev-place n p a (b ∷ xs) z c = elim (Bool-cases (ltb (key b) time)) [
    | inl before ↦ rw before (prev-place n p b xs z c.2)
    | inr here ↦ rw here c.1
  ]

  pub put-AtLeast :
      (t : Ptr) (m : ℕ) (xs : List Ptr) → m ≤ key t → AtLeast key m xs → AtLeast key m (put t xs)
  put-AtLeast t m [] le s = (le, tt)
  put-AtLeast t m (b ∷ xs) le s = elim (Bool-cases (ltb (key b) time)) [
    | inl before ↦ rw before (s.0, put-AtLeast t m xs le s.1)
    | inr here ↦ rw here (le, s)
  ]

  pub put-Sorted : (t : Ptr) (xs : List Ptr) → key t ≡ time → Sorted key xs → Sorted key (put t xs)
  put-Sorted t [] e s = (tt, tt)
  put-Sorted t (b ∷ xs) e s = elim (Bool-cases (ltb (key b) time)) [
    | inl before ↦
        let le : key b ≤ key t = ground (arith, e) in
        rw before (put-AtLeast t (key b) xs le s.0, put-Sorted t xs e s.1)
    | inr here ↦
        let le : key t ≤ key b = ground (arith, e) in
        rw here ((le, AtLeast-weaken key (key t) (key b) xs le s.0), s)
  ]

-- `t` comes between `l` and `node`; the other links stay.
pub record Spliced (t l node : Ptr) (n p n' p' : Neighbours) : Type 0 where
  pub next_new : n' t ≡ node
  pub next_before : n' l ≡ t
  pub prev_new : p' t ≡ l
  pub prev_after : p' node ≡ t
  pub next_same : (x : Ptr) → x ≢ l → x ≢ t → n' x ≡ n x
  pub prev_same : (x : Ptr) → x ≢ node → x ≢ t → p' x ≡ p x

module _ (t : Ptr) (n p n' p' : Neighbours) where
  -- A part of the chain that the splice does not touch.
  Chain-behind :
      (l node a : Ptr) (xs : List Ptr) (z : Ptr)
      → Spliced t l node n p n' p'
      → NotIn l (a ∷ xs)
      → NotIn t (a ∷ xs)
      → NotIn node xs
      → node ≢ z
      → t ≢ z
      → Chain n p a xs z
      → Chain n' p' a xs z
  Chain-behind l node a [] z s nl nt nn ne te c = (
    s.next_same a (λ e. nl.0 (sym e)) (λ e. nt.0 (sym e)) ∙ c.0,
    s.prev_same z (λ e. ne (sym e)) (λ e. te (sym e)) ∙ c.1,
  )
  Chain-behind l node a (b ∷ xs) z s nl nt nn ne te c = (
    s.next_same a (λ e. nl.0 (sym e)) (λ e. nt.0 (sym e)) ∙ c.0,
    s.prev_same b (λ e. nn.0 (sym e)) (λ e. nt.1.0 (sym e)) ∙ c.1,
    Chain-behind l node b xs z s nl.1 nt.1 nn.1 ne te c.2,
  )

  pub put-Chain :
      (key : Ptr → ℕ) (time : ℕ) (a : Ptr) (xs : List Ptr) (z : Ptr)
      → Chain n p a xs z
      → Distinct (a ∷ xs)
      → NotIn z xs
      → NotIn t (a ∷ xs)
      → t ≢ z
      → Spliced t (place_before key time a xs) (place key time a xs z) n p n' p'
      → Chain n' p' a (put key time t xs) z
  put-Chain key time a [] z c d nz nt te s = (s.next_before, s.prev_new, (s.next_new, s.prev_after))
  put-Chain key time a (b ∷ xs) z c d nz nt te s = elim (Bool-cases (ltb (key b) time)) [
    | inl before ↦
        let s' = subst choice before s in
        rw before (
          s'.next_same a (place_before_ne key time a b xs d.0) (λ e. nt.0 (sym e)) ∙ c.0,
          s'.prev_same b (place_ne key time b b xs z d.1.0 (λ e. nz.0 (sym e)))
                (λ e. nt.1.0 (sym e))
              ∙ c.1,
          put-Chain key time b xs z c.2 d.1 nz.1 nt.1 te s',
        )
    | inr here ↦
        let s' = subst choice here s in
        rw here (
          s'.next_before,
          s'.prev_new,
          (
            s'.next_new,
            s'.prev_after,
            Chain-behind a b b xs z s' d.0 nt.1 d.1.0 (λ e. nz.0 (sym e)) te c.2,
          ),
        )
  ]
    where
      choice : Bool → Type 0
      choice v =
          Spliced t (if v then place_before key time b xs else a)
            (if v then place key time b xs z else b) n p n' p'
