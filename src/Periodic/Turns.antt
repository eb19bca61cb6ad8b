-- ===== src/Periodic/Turns.antt =====
-- `schedule_background` of os/periodic.c on a circular list of tasks.
use multicore_rtos.Base.{
  ℕ, zero, suc, ◌≤◌, ◌<◌, ◌≡◌, refl, ◌≢◌, ◌∙◌, sym, ap, subst, inl, inr, true, false, Option, some,
  List, [], ◌∷◌, arith, ltb, ◌==◌, if◌then◌else◌, length, Bool-cases, ==_of_ne, fun_ext,
}
use multicore_rtos.Heap.{Ptr, null}
use multicore_rtos.Periodic.{Background, find_place, insert_before, remove_root, resort}
use multicore_rtos.Periodic.Splice.{
  place, place_before, put, prev-place, place_ne, place_before_ne, Spliced, put-Chain,
}
use multicore_rtos.Sched.Links.{
  NotIn, Distinct, Chain, Cycle, last, NotIn-last, prev-last, Chain-retarget,
}

abbrev pub next_in : Background → Ptr → Ptr
next_in s p = (s.bgt p).next

abbrev pub prev_in : Background → Ptr → Ptr
prev_in s p = (s.bgt p).prev

abbrev pub due : Background → Ptr → ℕ
due s p = (s.bgt p).sched_time

-- The walk ends at the place, with one round more than there are nodes to pass.
pub find_place-place :
    (time z : ℕ) (s : Background)
    → s.periodic_schedule_root ≡ z
    → (xs : List Ptr) (fuel a : ℕ) → Chain (next_in s) (prev_in s) a xs z
    → NotIn z xs
    → length xs < fuel
    → find_place fuel time (next_in s a) s ≡ some (place (due s) time a xs z)
unfolding find_place
find_place-place time z s root [] zero a c nz lt = absurd (omega (arith, lt))
find_place-place time z s root [] (suc fuel) a c nz lt =
    let stop : (next_in s a == s.periodic_schedule_root) ≡ true = ground (arith, c.0, root) in
    rw stop (ap (λ p. some p) c.0)
find_place-place time z s root (b ∷ xs) zero a c nz lt = absurd (omega (arith, lt))
find_place-place time z s root (b ∷ xs) (suc fuel) a c nz lt =
    let go : (b == s.periodic_schedule_root) ≡ false =
      ap (λ r. b == r) root ∙ ==_of_ne b z (λ e. nz.0 (sym e)) in
    elim (Bool-cases (ltb (due s b) time)) [
      | inl before ↦
          rw (c.0, go, before)
            (find_place-place time z s root xs fuel b c.2 nz.1 (omega (arith, lt)))
      | inr here ↦ rw (c.0, go, here) refl
    ]

module _ (t node l : Ptr) (s : Background) (back : prev_in s node ≡ l) (ne : t ≢ node)
    (nl : t ≢ l) where
  pub insert_before-Spliced :
      Spliced t l node
        (next_in s)
        (prev_in s)
        (next_in (insert_before t node s))
        (prev_in (insert_before t node s))
  unfolding insert_before
  insert_before-Spliced = record {
    next_new = ground arith;
    next_before = ground arith;
    prev_new = ground arith;
    prev_after = ground arith;
    next_same = λ x xl xt. ground arith;
    prev_same = λ x xn xt. ground arith;
  }

  insert_before-due : (x : Ptr) → due (insert_before t node s) x ≡ due s x
  unfolding insert_before
  insert_before-due x = ground arith

pub insert_before-root :
    (t node : Ptr) (s : Background)
    → (insert_before t node s).periodic_schedule_root ≡ s.periodic_schedule_root
unfolding insert_before
insert_before-root t node s = refl

module _ (t r l : Ptr) (s : Background) (front : next_in s t ≡ r) (back : prev_in s t ≡ l)
    (tr : t ≢ r) (tl : t ≢ l) where
  removed-next_ne : (x : Ptr) → x ≢ l → next_in (remove_root t s) x ≡ next_in s x
  unfolding remove_root
  removed-next_ne x xl = ground arith

  removed-next : next_in (remove_root t s) l ≡ r
  unfolding remove_root
  removed-next = ground arith

  removed-prev_ne : (x : Ptr) → x ≢ r → prev_in (remove_root t s) x ≡ prev_in s x
  unfolding remove_root
  removed-prev_ne x xr = ground arith

  removed-prev : prev_in (remove_root t s) r ≡ l
  unfolding remove_root
  removed-prev = ground arith

  removed-root : (remove_root t s).periodic_schedule_root ≡ r
  unfolding remove_root
  removed-root = ground arith

  removed-due : (x : Ptr) → due (remove_root t s) x ≡ due s x
  unfolding remove_root
  removed-due x = ground arith

-- The list with its first task at its place: behind those that are due before it.
abbrev pub requeue : (Ptr → ℕ) → Ptr → List Ptr → List Ptr
requeue key t [] = t ∷ []
requeue key t (r ∷ ys) = if ltb (key r) (key t) then r ∷ put key (key t) t ys else t ∷ r ∷ ys

-- The circular list from the root on.
abbrev pub Listed : Background → List Ptr → Type 0
Listed s [] = s.periodic_schedule_root ≡ null
Listed s (x ∷ xs) = (s.periodic_schedule_root ≡ x) × Cycle (next_in s) (prev_in s) (x ∷ xs)

-- What the links' stores leave alone.
pub record Relinked (s s' : Background) : Type 0 where
  pub due_same : (x : Ptr) → due s' x ≡ due s x
  pub func_same : (x : Ptr) → (s'.bgt x).func ≡ (s.bgt x).func
  pub period_same : (x : Ptr) → (s'.bgt x).period ≡ (s.bgt x).period
  pub timer_same : s'.timer ≡ s.timer
  pub ran_same : s'.ran ≡ s.ran

pub insert_before-Relinked : (t node : Ptr) (s : Background) → Relinked s (insert_before t node s)
unfolding insert_before
insert_before-Relinked t node s = record {
  due_same = λ x. ground arith;
  func_same = λ x. ground arith;
  period_same = λ x. ground arith;
  timer_same = refl;
  ran_same = refl;
}

remove_root-Relinked : (t : Ptr) (s : Background) → Relinked s (remove_root t s)
unfolding remove_root
remove_root-Relinked t s = record {
  due_same = λ x. ground arith;
  func_same = λ x. ground arith;
  period_same = λ x. ground arith;
  timer_same = refl;
  ran_same = refl;
}

Relinked-trans : (a b c : Background) → Relinked a b → Relinked b c → Relinked a c
Relinked-trans a b c f g = record {
  due_same = λ x. g.due_same x ∙ f.due_same x;
  func_same = λ x. g.func_same x ∙ f.func_same x;
  period_same = λ x. g.period_same x ∙ f.period_same x;
  timer_same = g.timer_same ∙ f.timer_same;
  ran_same = g.ran_same ∙ f.ran_same;
}

pub record Requeued (s : Background) (out : List Ptr) (r : Option Background) : Type 0 where
  pub after : Background
  pub returned : r ≡ some after
  pub listed : Listed after out
  pub relinked : Relinked s after

resort-later :
    (fuel : ℕ) (t n : Ptr) (s : Background)
    → ltb (due s (next_in s t)) (due s t) ≡ true
    → find_place fuel
        (due s t)
        (next_in (remove_root t s) (remove_root t s).periodic_schedule_root)
        (remove_root t s)
      ≡ some n
    → resort fuel t s ≡ some (insert_before t n (remove_root t s))
unfolding resort
resort-later fuel t n s later found = rw (later, found) refl

resort-first :
    (fuel : ℕ) (t : Ptr) (s : Background)
    → ltb (due s (next_in s t)) (due s t) ≡ false
    → resort fuel t s ≡ some s
unfolding resort
resort-first fuel t s first = rw first refl

module _ (t r : Ptr) (ys : List Ptr) (s : Background)
    (c : Cycle (next_in s) (prev_in s) (t ∷ r ∷ ys)) (d : Distinct (t ∷ r ∷ ys)) where
  -- without the task
  abbrev s1 : Background
  s1 = remove_root t s

  last_ne : t ≢ last r ys
  last_ne = NotIn-last t r ys d.0

  back : prev_in s t ≡ last r ys
  back = prev-last (next_in s) (prev_in s) r ys t c.2

  without-Cycle : Cycle (next_in s1) (prev_in s1) (r ∷ ys)
  without-Cycle =
      Chain-retarget (next_in s) (prev_in s) (next_in s1) (prev_in s1) r ys t r t c.2 d.1 d.0.1
        d.1.0 d.0 (λ x xl xt. removed-next_ne t r (last r ys) s c.0 back d.0.0 last_ne x xl)
        (λ x xt xr. removed-prev_ne t r (last r ys) s c.0 back d.0.0 last_ne x xr)
        (removed-next t r (last r ys) s c.0 back d.0.0 last_ne)
        (removed-prev t r (last r ys) s c.0 back d.0.0 last_ne)

  abbrev node : Ptr
  node = place (due s1) (due s t) r ys r

  abbrev s2 : Background
  s2 = insert_before t node s1

  within-Cycle : Cycle (next_in s2) (prev_in s2) (r ∷ put (due s1) (due s t) t ys)
  within-Cycle =
      let before = prev-place (due s1) (due s t) (next_in s1) (prev_in s1) r ys r without-Cycle in
      put-Chain t (next_in s1) (prev_in s1) (next_in s2) (prev_in s2) (due s1) (due s t) r ys r
        without-Cycle d.1 d.1.0 d.0 d.0.0
        (insert_before-Spliced t node (place_before (due s1) (due s t) r ys) s1 before
          (place_ne (due s1) (due s t) t r ys r d.0.1 d.0.0)
          (place_before_ne (due s1) (due s t) t r ys d.0))

  resort-moved :
      (fuel : ℕ) → length ys < fuel → ltb (due s r) (due s t) ≡ true → resort fuel t s ≡ some s2
  resort-moved fuel lt later =
      let root = removed-root t r (last r ys) s c.0 back d.0.0 last_ne in
      let found = find_place-place (due s t) r s1 root ys fuel r without-Cycle d.1.0 lt in
      resort-later fuel t node s (ap (λ x. ltb (due s x) (due s t)) c.0 ∙ later)
        (ap (λ x. find_place fuel (due s t) (next_in s1 x) s1) root ∙ found)

  resort-MovedBack :
      (fuel : ℕ)
      → length ys < fuel
      → ltb (due s r) (due s t) ≡ true
      → Requeued s (r ∷ put (due s) (due s t) t ys) (resort fuel t s)
  resort-MovedBack fuel lt later = record {
    after = s2;
    returned = resort-moved fuel lt later;
    listed = (
      insert_before-root t node s1 ∙ removed-root t r (last r ys) s c.0 back d.0.0 last_ne,
      subst (λ key. Cycle (next_in s2) (prev_in s2) (r ∷ put key (due s t) t ys))
          (fun_ext (remove_root-Relinked t s).due_same) within-Cycle,
    );
    relinked = Relinked-trans s s1 s2 (remove_root-Relinked t s) (insert_before-Relinked t node s1);
  }

Relinked-refl : (s : Background) → Relinked s s
Relinked-refl s = record {
  due_same = λ x. refl;
  func_same = λ x. refl;
  period_same = λ x. refl;
  timer_same = refl;
  ran_same = refl;
}

pub resort-Requeued :
    (t : Ptr) (xs : List Ptr) (s : Background) (fuel : ℕ)
    → Listed s (t ∷ xs)
    → Distinct (t ∷ xs)
    → length xs ≤ fuel
    → Requeued s (requeue (due s) t xs) (resort fuel t s)
resort-Requeued t [] s fuel (root, c) d le = record {
  after = s;
  returned = resort-first fuel t s (ap (λ x. ltb (due s x) (due s t)) c.0 ∙ ground arith);
  listed = (root, c);
  relinked = Relinked-refl s;
}
resort-Requeued t (r ∷ ys) s fuel (root, c) d le = elim (Bool-cases (ltb (due s r) (due s t))) [
  | inl later ↦ rw later (resort-MovedBack t r ys s c d fuel (omega (arith, le)) later)
  | inr first ↦ rw first (record {
    after = s;
    returned = resort-first fuel t s (ap (λ x. ltb (due s x) (due s t)) c.0 ∙ first);
    listed = (root, c);
    relinked = Relinked-refl s;
  })
]
