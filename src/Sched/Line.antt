-- ===== src/Sched/Line.antt =====
-- Lists that end at NULL through next_tcb, and the insertion of a thread by a key: the loops of
-- `sched_block` and `sleep`.
use multicore_rtos.Base.{
  ℕ, zero, suc, ◌≤◌, ◌<◌, ◌≡◌, refl, ◌≢◌, ◌∙◌, ap, sym, inl, inr, true, false, Option, none, some,
  List, [], ◌∷◌, arith, ◌==◌, ==_of_ne, ltb, if◌then◌else◌, length, Bool-cases,
}
use multicore_rtos.Heap.{Ptr, null}
use multicore_rtos.Sched.{Kernel, set_next}
use multicore_rtos.Sched.Links.{Distinct, NotIn}
use multicore_rtos.Sched.Ring.{next_of}
use multicore_rtos.Sched.Rethread.{
  Rethreaded, Rethreaded-set_next, Rethreaded-trans, Rethreaded-grow,
}

abbrev pub tick_of : Kernel → Ptr → ℕ
tick_of k p = (k.tcb p).resume_tick

-- From `p` on, next_tcb leads through the threads of the list and then to NULL.
abbrev pub Line : Kernel → Ptr → List Ptr → Type 0
Line k p [] = p ≡ null
Line k p (x ∷ xs) = (p ≡ x) × Line k (next_of k x) xs

abbrev pub AtLeast : (Ptr → ℕ) → ℕ → List Ptr → Type 0
AtLeast key n [] = Unit
AtLeast key n (x ∷ xs) = (n ≤ key x) × AtLeast key n xs

abbrev pub Sorted : (Ptr → ℕ) → List Ptr → Type 0
Sorted key [] = Unit
Sorted key (x ∷ xs) = AtLeast key (key x) xs × Sorted key xs

-- before the first thread with a larger key
abbrev pub insert_by : (Ptr → ℕ) → Ptr → List Ptr → List Ptr
insert_by key t [] = t ∷ []
insert_by key t (x ∷ xs) = if ltb (key t) (key x) then t ∷ x ∷ xs else x ∷ insert_by key t xs

pub AtLeast-weaken :
    (key : Ptr → ℕ) (m n : ℕ) (xs : List Ptr) → m ≤ n → AtLeast key n xs → AtLeast key m xs
AtLeast-weaken key m n [] le a = tt
AtLeast-weaken key m n (x ∷ xs) le a = (omega (arith, le, a.0), AtLeast-weaken key m n xs le a.1)

insert_by-AtLeast :
    (key : Ptr → ℕ) (t : Ptr) (n : ℕ) (xs : List Ptr)
    → n ≤ key t
    → AtLeast key n xs
    → AtLeast key n (insert_by key t xs)
insert_by-AtLeast key t n [] le a = (le, tt)
insert_by-AtLeast key t n (x ∷ xs) le a = elim (Bool-cases (ltb (key t) (key x))) [
  | inl before ↦ rw before (le, a)
  | inr behind ↦ rw behind (a.0, insert_by-AtLeast key t n xs le a.1)
]

pub insert_by-Sorted :
    (key : Ptr → ℕ) (t : Ptr) (xs : List Ptr) → Sorted key xs → Sorted key (insert_by key t xs)
insert_by-Sorted key t [] s = (tt, tt)
insert_by-Sorted key t (x ∷ xs) s = elim (Bool-cases (ltb (key t) (key x))) [
  | inl before ↦
      let le : key t ≤ key x = ground arith in
      rw before ((le, AtLeast-weaken key (key t) (key x) xs le s.0), s)
  | inr behind ↦
      let le : key x ≤ key t = ground arith in
      rw behind (insert_by-AtLeast key t (key x) xs le s.0, insert_by-Sorted key t xs s.1)
]

-- The two loops have this shape.
unfoldable pub walk : (Ptr → ℕ) → ℕ → Ptr → Ptr → Kernel → Option Kernel
walk key zero thread node k = none
walk key (suc fuel) thread node k =
    let follower = next_of k node in
    let rest = walk key fuel thread follower k in
    if follower == null
    then some (set_next node thread k)
    else if ltb (key thread) (key follower)
    then some (set_next node thread (set_next thread follower k))
    else rest

-- What it makes of the list `x ∷ xs`: the thread is in it, at its place, and nothing else changes.
pub record Joined (key : Ptr → ℕ) (t : Ptr) (k : Kernel) (p : Ptr) (out : List Ptr) (xs : List Ptr)
    (r : Option Kernel) : Type 0 where
  pub after : Kernel
  pub returned : r ≡ some after
  pub line : Line after p out
  pub rest : Rethreaded t xs k after
  pub tick_same : (z : Ptr) → tick_of after z ≡ tick_of k z
  pub sema_same : after.sema ≡ k.sema
  pub root_same : after.sleep_schedule_root ≡ k.sleep_schedule_root

-- A store to the link of a thread outside the list.
pub Line-set :
    (n q : Ptr) (k : Kernel) (p : Ptr) (xs : List Ptr)
    → NotIn n xs
    → Line k p xs
    → Line (set_next n q k) p xs
Line-set n q k p [] out l = l
Line-set n q k p (x ∷ xs) out l =
    let same : next_of (set_next n q k) x ≡ next_of k x =
      let ne : x ≢ n = λ e. out.0 (sym e) in ground arith in
    (l.0, rw same (Line-set n q k (next_of k x) xs out.1 l.1))

module _ (key : Ptr → ℕ) (t : Ptr) (k : Kernel) (some_t : t ≢ null)
    (loose : next_of k t ≡ null) where
  walk-end :
      (x : Ptr)
      → next_of k x ≡ null
      → t ≢ x
      → Joined key t k x (x ∷ t ∷ []) (x ∷ []) (some (set_next x t k))
  walk-end x end ne = record {
    after = set_next x t k;
    returned = refl;
    line = (refl, (ground arith, ground arith));
    rest = Rethreaded-set_next t (x ∷ []) x t k (λ z n zt. n.0);
    tick_same = λ z. ground arith;
    sema_same = refl;
    root_same = refl;
  }

  walk-middle :
      (x y : Ptr) (ys : List Ptr)
      → Line k y (y ∷ ys)
      → NotIn x (y ∷ ys)
      → NotIn t (x ∷ y ∷ ys)
      → Joined key t k x (x ∷ t ∷ y ∷ ys) (x ∷ y ∷ ys) (some (set_next x t (set_next t y k)))
  walk-middle x y ys l out fresh =
      let tx : t ≢ x = fresh.0 in
      let l' = Line-set x t (set_next t y k) y (y ∷ ys) out (Line-set t y k y (y ∷ ys) fresh.1 l) in
      record {
        after = set_next x t (set_next t y k);
        returned = refl;
        line = (refl, (ground arith, (ground arith, l'.1)));
        rest =
            Rethreaded-trans (Rethreaded-set_next t (x ∷ y ∷ ys) t y k (λ z n zt. zt))
              (Rethreaded-set_next t (x ∷ y ∷ ys) x t (set_next t y k) (λ z n zt. n.0));
        tick_same = λ z. ground arith;
        sema_same = refl;
        root_same = refl;
      }

  walk-front :
      (fuel : ℕ) (x y : Ptr)
      → next_of k x ≡ y
      → (y == null) ≡ false
      → ltb (key t) (key y) ≡ true
      → walk key (suc fuel) t x k ≡ some (set_next x t (set_next t y k))
  unfolding walk
  walk-front fuel x y e yn before =
      let yn' : (next_of k x == null) ≡ false = ap (λ p. p == null) e ∙ yn in
      let b' : ltb (key t) (key (next_of k x)) ≡ true = ap (λ p. ltb (key t) (key p)) e ∙ before in
      let w : walk key (suc fuel) t x k ≡ some (set_next x t (set_next t (next_of k x) k)) =
        rw (yn', b') refl in
      w ∙ ap (λ p. some (set_next x t (set_next t p k))) e

  walk-on :
      (fuel : ℕ) (x y : Ptr)
      → next_of k x ≡ y
      → (y == null) ≡ false
      → ltb (key t) (key y) ≡ false
      → walk key (suc fuel) t x k ≡ walk key fuel t y k
  unfolding walk
  walk-on fuel x y e yn behind =
      let yn' : (next_of k x == null) ≡ false = ap (λ p. p == null) e ∙ yn in
      let b' : ltb (key t) (key (next_of k x)) ≡ false = ap (λ p. ltb (key t) (key p)) e ∙ behind in
      let w : walk key (suc fuel) t x k ≡ walk key fuel t (next_of k x) k = rw (yn', b') refl in
      w ∙ ap (λ p. walk key fuel t p k) e

  walk-last :
      (fuel : ℕ) (x : Ptr) → next_of k x ≡ null → walk key (suc fuel) t x k ≡ some (set_next x t k)
  unfolding walk
  walk-last fuel x e = let n : (next_of k x == null) ≡ true = ap (λ p. p == null) e in rw n refl

  -- The loop joins the thread to the list behind `x`, and one round for each thread is enough.
  pub walk-Joined :
      (fuel : ℕ) (x : Ptr) (xs : List Ptr)
      → Line k (next_of k x) xs
      → Distinct (x ∷ xs)
      → NotIn null xs
      → NotIn t (x ∷ xs)
      → length xs < fuel
      → Joined key t k x (x ∷ insert_by key t xs) (x ∷ xs) (walk key fuel t x k)
  walk-Joined zero x xs l d n fresh lt = absurd (omega arith)
  walk-Joined (suc fuel) x [] l d n fresh lt = rw (walk-last fuel x l) (walk-end x l fresh.0)
  walk-Joined (suc fuel) x (y ∷ ys) l d n fresh lt =
      let go = walk-Joined fuel y ys l.1 d.1 n.1 fresh.1 (omega arith) in
      let yn : (y == null) ≡ false = ==_of_ne y null (λ e. n.0 (sym e)) in
      elim (Bool-cases (ltb (key t) (key y))) [
        | inl before ↦
            rw (walk-front fuel x y l.0 yn before, before)
              (walk-middle x y ys (refl, l.1) d.0 fresh)
        | inr behind ↦
            rw (walk-on fuel x y l.0 yn behind, behind)
              (record {
                after = go.after;
                returned = go.returned;
                line = (refl, (go.rest.next x d.0 (λ e. fresh.0 (sym e)) ∙ l.0, go.line.1));
                rest = Rethreaded-grow x go.rest;
                tick_same = go.tick_same;
                sema_same = go.sema_same;
                root_same = go.root_same;
              })
      ]
