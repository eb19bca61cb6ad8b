-- ===== src/Sched/Links.antt =====
-- Doubly linked circular lists, as two functions from a node to its neighbours.
use multicore_rtos.Base.{◌≡◌, ◌≢◌, ◌∙◌, sym, List, [], ◌∷◌, ◌++◌}
use multicore_rtos.Heap.{Ptr}

abbrev pub Neighbours : Type 0
Neighbours = Ptr → Ptr

-- `x` is no member of the list.
abbrev pub NotIn : Ptr → List Ptr → Type 0
NotIn x [] = Unit
NotIn x (y ∷ ys) = (x ≢ y) × NotIn x ys

abbrev pub Distinct : List Ptr → Type 0
Distinct [] = Unit
Distinct (x ∷ xs) = NotIn x xs × Distinct xs

module _ (n p : Neighbours) where
  -- From `a` through `xs` to `z`, each linked to the next in both directions.
  abbrev pub Chain : Ptr → List Ptr → Ptr → Type 0
  Chain a [] z = (n a ≡ z) × (p z ≡ a)
  Chain a (b ∷ xs) z = (n a ≡ b) × (p b ≡ a) × Chain b xs z

  -- The list closes behind its last node.
  abbrev pub Cycle : List Ptr → Type 0
  Cycle [] = Unit
  Cycle (x ∷ xs) = Chain x xs x

-- the last node before the end
abbrev pub last : Ptr → List Ptr → Ptr
last a [] = a
last a (b ∷ xs) = last b xs

pub NotIn-append : (x : Ptr) (xs ys : List Ptr) → NotIn x xs → NotIn x ys → NotIn x (xs ++ ys)
NotIn-append x [] ys h k = k
NotIn-append x (y ∷ xs) ys h k = (h.0, NotIn-append x xs ys h.1 k)

pub NotIn-last : (x a : Ptr) (xs : List Ptr) → NotIn x (a ∷ xs) → x ≢ last a xs
NotIn-last x a [] h = h.0
NotIn-last x a (b ∷ xs) h = NotIn-last x b xs h.1

module _ (n p : Neighbours) where
  pub prev-last : (a : Ptr) (xs : List Ptr) (z : Ptr) → Chain n p a xs z → p z ≡ last a xs
  prev-last a [] z c = c.1
  prev-last a (b ∷ xs) z c = prev-last b xs z c.2

  -- The end of a chain is moved from `z` to `w`. The node `t` is not in it, and may change too.
  pub Chain-retarget :
      (n' p' : Neighbours) (a : Ptr) (xs : List Ptr) (z w t : Ptr)
      → Chain n p a xs z
      → Distinct (a ∷ xs)
      → NotIn z xs
      → NotIn w xs
      → NotIn t (a ∷ xs)
      → ((x : Ptr) → x ≢ last a xs → x ≢ t → n' x ≡ n x)
      → ((x : Ptr) → x ≢ z → x ≢ w → p' x ≡ p x)
      → n' (last a xs) ≡ w
      → p' w ≡ last a xs
      → Chain n' p' a xs w
  Chain-retarget n' p' a [] z w t c d nz nw nt sn sp en ep = (en, ep)
  Chain-retarget n' p' a (b ∷ xs) z w t c d nz nw nt sn sp en ep = (
    sn a (NotIn-last a b xs d.0) (λ e. nt.0 (sym e)) ∙ c.0,
    sp b (λ e. nz.0 (sym e)) (λ e. nw.0 (sym e)) ∙ c.1,
    Chain-retarget n' p' b xs z w t c.2 d.1 nz.1 nw.1 nt.1 sn sp en ep,
  )

  pub Chain-frame :
      (n' p' : Neighbours) (a : Ptr) (xs : List Ptr) (z : Ptr)
      → ((x : Ptr) → n' x ≡ n x)
      → ((x : Ptr) → p' x ≡ p x)
      → Chain n p a xs z
      → Chain n' p' a xs z
  Chain-frame n' p' a [] z sn sp c = (sn a ∙ c.0, sp z ∙ c.1)
  Chain-frame n' p' a (b ∷ xs) z sn sp c =
      (sn a ∙ c.0, sp b ∙ c.1, Chain-frame n' p' b xs z sn sp c.2)

  pub Chain-snoc :
      (a : Ptr) (xs : List Ptr) (t z : Ptr)
      → Chain n p a xs t
      → n t ≡ z
      → p z ≡ t
      → Chain n p a (xs ++ (t ∷ [])) z
  Chain-snoc a [] t z c e f = (c.0, c.1, (e, f))
  Chain-snoc a (b ∷ xs) t z c e f = (c.0, c.1, Chain-snoc b xs t z c.2 e f)

  pub Chain-unsnoc :
      (a : Ptr) (xs : List Ptr) (t z : Ptr)
      → Chain n p a (xs ++ (t ∷ [])) z
      → Chain n p a xs t × ((n t ≡ z) × (p z ≡ t))
  Chain-unsnoc a [] t z c = ((c.0, c.1), c.2)
  Chain-unsnoc a (b ∷ xs) t z c = let (d, e) = Chain-unsnoc b xs t z c.2 in ((c.0, c.1, d), e)

  -- A circular list may be read from its second node on.
  pub Cycle-rotate : (x : Ptr) (xs : List Ptr) → Cycle n p (x ∷ xs) → Cycle n p (xs ++ (x ∷ []))
  Cycle-rotate x [] c = c
  Cycle-rotate x (y ∷ xs) c = Chain-snoc y xs x y c.2 c.0 c.1
