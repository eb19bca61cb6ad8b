-- ===== src/Launch/Wake.antt =====
-- The loop in `init_scheduler` of os/schedule.c that wakes core 1.
use native.Mathlib.Decide.{ℕ_discrete}
use multicore_rtos.Base.{
  ℕ, zero, suc, ◌+◌, ◌≤◌, ◌<◌, ◌≡◌, refl, ◌∙◌, sym, subst, ap, ◌-◌, ◌⊎◌, inl, inr, true, List, [],
  ◌∷◌, ◌++◌, arith, ◌==◌, ltb, if◌then◌else◌, Bool-cases, some,
}
use multicore_rtos.Launch.{
  Mailbox, Image, wake_seq, Round, next, waits, wake_round, wake_loop, compare_response, pop_unread,
  multicore_fifo_push_blocking, multicore_fifo_pop_blocking, multicore_fifo_drain, drain_unread,
  before_cmd, Started, init_systick, init_scheduler,
}
use multicore_rtos.Sched.{Kernel}
use multicore_rtos.Sched.Create.{start_core}

-- the first `n` words of the sequence, the latest one first
abbrev sent : Image → ℕ → List ℕ
sent im zero = []
sent im (suc n) = wake_seq im n ∷ sent im n

-- The last `n` words that core 0 has written are the first `n` of the sequence, and core 1 has returned
-- each of them.
pub record Written (im : Image) (n : ℕ) (m : Mailbox) : Type 0 where
  pub older : List ℕ
  pub words : m.written ≡ sent im n ++ older
  pub before : List ℕ
  pub returned : m.returned ≡ sent im n ++ before

module _ {S : Type 0} (answer : S → ℕ → List ℕ × S) (im : Image) where
  -- whatever core 1 does
  abbrev pub Progress : Round S → Type 0
  Progress waits = Unit
  Progress (next n m s) = Written im n m

  popped-Progress :
      (idx : ℕ) (s : S) (w r xs older before : List ℕ)
      → w ≡ wake_seq im idx ∷ (sent im idx ++ older)
      → r ≡ sent im idx ++ before
      → Progress (compare_response answer im idx (wake_seq im idx) s (pop_unread w r xs))
  unfolding compare_response pop_unread
  popped-Progress idx s w r [] older before p q = tt
  popped-Progress idx s w r (x ∷ xs) older before p q = elim (Bool-cases (wake_seq im idx == x)) [
    | inl e ↦
        let up : idx + 1 ≡ suc idx = omega arith in
        let same : x ≡ wake_seq im idx = ground (arith, e) in
        rw (e, up)
          (record {
            older = older;
            words = p;
            before = before;
            returned = ap (λ y. y ∷ r) same ∙ ap (λ ys. wake_seq im idx ∷ ys) q;
          })
    | inr e ↦ rw e (record { older = w; words = refl; before = x ∷ r; returned = refl })
  ]

  before-written : (cmd : ℕ) (m : Mailbox) → (before_cmd cmd m).written ≡ m.written
  unfolding multicore_fifo_drain
  before-written cmd m = ground arith

  before-returned : (cmd : ℕ) (m : Mailbox) → (before_cmd cmd m).returned ≡ m.returned
  unfolding multicore_fifo_drain
  before-returned cmd m = ground arith

  round-Progress :
      (idx : ℕ) (m : Mailbox) (s : S) → Written im idx m → Progress (wake_round answer im idx m s)
  unfolding wake_round multicore_fifo_push_blocking multicore_fifo_pop_blocking
  round-Progress idx m s w =
      let cmd = wake_seq im idx in
      popped-Progress idx _ _ _ _ w.older w.before
        (ap (λ ws. cmd ∷ ws) (before-written cmd m ∙ w.words)) (before-returned cmd m ∙ w.returned)

  loop-Progress :
      (fuel idx : ℕ) (m : Mailbox) (s : S)
      → Written im idx m
      → Progress (wake_loop answer im fuel idx m s)
  unfolding wake_loop
  loop-Progress zero idx m s w = w
  loop-Progress (suc fuel) idx m s w =
      go (loop-Progress fuel) (wake_round answer im idx m s) (round-Progress idx m s w)
    where
      go :
          ((idx' : ℕ) (m' : Mailbox) (s' : S)
            → Written im idx' m'
            → Progress (wake_loop answer im fuel idx' m' s'))
          → (r : Round S) → Progress r
          → Progress (elim r [
            | waits ↦ waits
            | next idx' m' s' ↦
                (let rest = wake_loop answer im fuel idx' m' s' in
                  if ltb idx' 6 then rest else next idx' m' s')
          ])
      go ih waits p = tt
      go ih (next idx' m' s') p = elim (Bool-cases (ltb idx' 6)) [
        | inl e ↦ rw e (ih idx' m' s' p)
        | inr e ↦ rw e p
      ]

  -- Within the fuel the loop ends with core 1 awake.
  pub record Woken (fuel idx : ℕ) (m : Mailbox) (s : S) : Type 0 where
    pub mailbox : Mailbox
    pub other : S
    pub ends : wake_loop answer im fuel idx m s ≡ next 6 mailbox other

  pub record Stepped (idx : ℕ) (m : Mailbox) (s : S) (P : S → Type 0) : Type 0 where
    pub index : ℕ
    pub mailbox : Mailbox
    pub other : S
    pub round : wake_round answer im idx m s ≡ next index mailbox other
    pub moves : (index ≡ suc idx) ⊎ (index ≡ 0)
    pub kept : P other

  Woken-step :
      {P : S → Type 0} (fuel idx : ℕ) (m : Mailbox) (s : S)
      → idx < 6
      → (p : Stepped idx m s P) → (p.index < 6 → Woken fuel p.index p.mailbox p.other)
      → Woken (suc fuel) idx m s
  unfolding wake_loop
  Woken-step fuel idx m s lt p go = elim (ℕ_discrete p.index 6) [
    | yes last ↦ record {
      mailbox = p.mailbox;
      other = p.other;
      ends = rw (wake_loop, p.round, last) refl;
    }
    | no ne ↦
        let below : p.index < 6 = elim p.moves [ inl e ↦ omega arith | inr e ↦ omega arith ] in
        let w = go below in
        let more : ltb p.index 6 ≡ true = ground arith in
        record { mailbox = w.mailbox; other = w.other; ends = rw (wake_loop, p.round, more) w.ends }
  ]

  abbrev pub Some : List ℕ → Type 0
  Some xs = (z : ℕ) × (zs : List ℕ) × (xs ≡ z ∷ zs)

  Some-append : (xs ys : List ℕ) → Some ys → Some (xs ++ ys)
  Some-append [] ys h = h
  Some-append (x ∷ xs) ys h = (x, xs ++ ys, refl)

  -- a round that core 1 answers
  answered :
      (idx : ℕ) (m : Mailbox) (s : S) (P : S → Type 0)
      → Some (answer s (wake_seq im idx)).0
      → P (answer s (wake_seq im idx)).1
      → Stepped idx m s P
  unfolding wake_round multicore_fifo_push_blocking multicore_fifo_pop_blocking compare_response
      pop_unread
  answered idx m s P some_word kept =
      let cmd = wake_seq im idx in
      let (z, zs, e) = Some-append (before_cmd cmd m).unread (answer s cmd).0 some_word in
      record {
        index = if cmd == z then idx + 1 else 0;
        mailbox = record {
          written = cmd ∷ (before_cmd cmd m).written;
          returned = z ∷ (before_cmd cmd m).returned;
          unread = zs;
        };
        other = (answer s cmd).1;
        round =
            ap
              (λ xs.
                compare_response answer im idx cmd (answer s cmd).1
                  (pop_unread (cmd ∷ (before_cmd cmd m).written) (before_cmd cmd m).returned xs))
              e;
        moves = elim (Bool-cases (cmd == z)) [
          | inl same ↦ rw same (inl (omega arith))
          | inr other ↦ rw other (inr refl)
        ];
        kept = kept;
      }

  drained : (xs : List ℕ) → drain_unread xs ≡ []
  unfolding drain_unread
  drained [] = refl
  drained (x ∷ xs) = drained xs

  -- a round from which no word is left unread
  abbrev Clear : ℕ → Mailbox → Type 0
  Clear idx m = (before_cmd (wake_seq im idx) m).unread ≡ []

  Clear-start : (m : Mailbox) → Clear 0 m
  unfolding wake_seq multicore_fifo_drain
  Clear-start m = drained m.unread

  Clear-empty : (idx : ℕ) (m : Mailbox) → m.unread ≡ [] → Clear idx m
  unfolding multicore_fifo_drain
  Clear-empty idx m e = elim (Bool-cases (wake_seq im idx == 0)) [
    | inl zero_word ↦ rw zero_word (drained m.unread)
    | inr other ↦ rw other e
  ]

  -- Core 1, once it is settled, answers each word with that word.
  module _ (Settled : S → Type 0)
      (echo : (s : S)
        → Settled s
        → (c : ℕ) → ((answer s c).0 ≡ c ∷ []) × Settled (answer s c).1) where
    echoed :
        (idx : ℕ) (m : Mailbox) (s : S)
        → Clear idx m
        → Settled s
        → (p : Stepped idx m s Settled) × (p.index ≡ suc idx) × (p.mailbox.unread ≡ [])
    unfolding wake_round multicore_fifo_push_blocking multicore_fifo_pop_blocking compare_response
        pop_unread
    echoed idx m s clear settled =
        let cmd = wake_seq im idx in
        let h = echo s settled cmd in
        let same : (cmd == cmd) ≡ true = ground arith in
        let up : idx + 1 ≡ suc idx = omega arith in
        (
          record {
            index = suc idx;
            mailbox = record {
              written = cmd ∷ (before_cmd cmd m).written;
              returned = cmd ∷ (before_cmd cmd m).returned;
              unread = [];
            };
            other = (answer s cmd).1;
            round = rw (clear, h.0, same) (rw up refl);
            moves = inl refl;
            kept = h.1;
          },
          refl,
          refl,
        )

    -- From a clear mailbox core 1 is awake after the rest of the sequence.
    straight :
        (k idx fuel : ℕ) (m : Mailbox) (s : S)
        → idx + k ≡ 6
        → 0 < k
        → k ≤ fuel
        → Clear idx m
        → Settled s
        → Woken fuel idx m s
    straight zero idx fuel m s e pos le clear settled = absurd (omega arith)
    straight (suc k) idx zero m s e pos le clear settled = absurd (omega arith)
    straight (suc k) idx (suc fuel) m s e pos le clear settled =
        let (p, up, none_left) = echoed idx m s clear settled in
        Woken-step fuel idx m s (omega arith) p (λ lt.
          straight k p.index fuel p.mailbox p.other (omega arith) (omega arith) (omega arith)
            (Clear-empty p.index p.mailbox none_left) p.kept)

    -- From any mailbox it starts over at most once.
    once_more :
        (k idx fuel : ℕ) (m : Mailbox) (s : S)
        → idx + k ≡ 6
        → 0 < k
        → k + 6 ≤ fuel
        → Settled s
        → Woken fuel idx m s
    once_more zero idx fuel m s e pos le settled = absurd (omega arith)
    once_more (suc k) idx zero m s e pos le settled = absurd (omega arith)
    once_more (suc k) idx (suc fuel) m s e pos le settled =
        let h = echo s settled (wake_seq im idx) in
        let p = answered idx m s Settled (wake_seq im idx, [], h.0) h.1 in
        Woken-step fuel idx m s (omega arith) p (λ lt. elim p.moves [
          | inl up ↦
              once_more k p.index fuel p.mailbox p.other (omega arith) (omega arith) (omega arith)
                p.kept
          | inr back ↦
              straight 6 p.index fuel p.mailbox p.other (omega arith) (omega arith) (omega arith)
                (subst (λ n. Clear n p.mailbox) (sym back) (Clear-start p.mailbox)) p.kept
        ])

    -- Core 1 answers with at least one word to each of the next `n`, and is settled then.
    abbrev pub Settles : ℕ → S → Type 0
    Settles zero s = Settled s
    Settles (suc n) s = (c : ℕ) → Some (answer s c).0 × Settles n (answer s c).1

    settling :
        (n idx fuel : ℕ) (m : Mailbox) (s : S)
        → idx < 6
        → n + 12 ≤ fuel
        → Settles n s
        → Woken fuel idx m s
    settling zero idx fuel m s lt le settled =
        once_more (6 - idx) idx fuel m s (omega arith) (omega arith) (omega arith) settled
    settling (suc n) idx zero m s lt le h = absurd (omega arith)
    settling (suc n) idx (suc fuel) m s lt le h =
        let (some_word, later) = h (wake_seq im idx) in
        let p = answered idx m s (Settles n) some_word later in
        Woken-step fuel idx m s lt p
          (λ below. settling n p.index fuel p.mailbox p.other below (omega arith) p.kept)

    -- Whatever is in the mailbox: where core 1 answers with at least one word to each of the next `n`
    -- words, and from then on to each word with just that word, the loop ends within `n + 12` rounds,
    -- the last six words that core 0 has written are the sequence, in order, and the last six that core 1
    -- has returned are the same.
    pub wake_loop-Awake :
        (n : ℕ) (m : Mailbox) (s : S)
        → Settles n s
        → (m' : Mailbox) × (s' : S) × (wake_loop answer im (n + 12) 0 m s ≡ next 6 m' s')
          × Written im 6 m'
    wake_loop-Awake n m s h =
        let w = settling n 0 (n + 12) m s (omega arith) (omega arith) h in
        let start : Written im 0 m = record {
          older = m.written;
          words = refl;
          before = m.returned;
          returned = refl;
        } in
        (w.mailbox, w.other, w.ends, rw w.ends at (loop-Progress (n + 12) 0 m s start))

    -- Whatever is in the mailbox: where core 1 answers with at least one word to each of the next `n`
    -- words, and from then on to each word with just that word, `init_scheduler` on core 0 gets past
    -- the wake-up of core 1 within `n + 12` rounds. The last seven words that core 0 has written are, in
    -- order, 0, 0, 1, the addresses of the vector table, of the stack's top and of core1_entry, and the
    -- time slice; the last six that core 1 has returned to it are those before the time slice, in the
    -- same order. The systick counts the time slice, and the scheduler is started as without the wake-up.
    pub init_scheduler-Awake :
        (n timeslice entry : ℕ) (k : Kernel) (m : Mailbox) (s : S)
        → Settles n s
        → (r : Started S) × (init_scheduler answer im (n + 12) timeslice true 0 entry k m s
            ≡ some r)
          × ((older : List ℕ) × (r.mailbox.written
                ≡ timeslice ∷ im.entry ∷ im.stack_top ∷ im.vector_table ∷ 1 ∷ 0 ∷ 0 ∷ older))
          × ((before : List ℕ) × (r.mailbox.returned
                ≡ im.entry ∷ im.stack_top ∷ im.vector_table ∷ 1 ∷ 0 ∷ 0 ∷ before))
          × (r.systick ≡ init_systick timeslice)
          × (r.kernel ≡ start_core 0 entry k)
    unfolding init_scheduler multicore_fifo_push_blocking wake_seq
    init_scheduler-Awake n timeslice entry k m s h =
        let (m', s', e, w) = wake_loop-Awake n m s h in
        (
          record {
            mailbox = record m' { written = timeslice ∷ m'.written };
            other = s';
            systick = init_systick timeslice;
            kernel = start_core 0 entry k;
          },
          rw e refl,
          (w.older, ap (λ ws. timeslice ∷ ws) w.words),
          (w.before, w.returned),
          refl,
          refl,
        )
