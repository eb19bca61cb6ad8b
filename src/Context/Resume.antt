-- ===== src/Context/Resume.antt =====
-- A thread that pendSV_handler takes off a core, and the call that brings it back.
use multicore_rtos.Base.{
  ℕ, ◌+◌, ◌^◌, ◌≤◌, ◌<◌, ◌≡◌, ◌≢◌, ◌∙◌, ap, sym, arith, update_ne, update_self, ◌⊎◌, inl, inr,
}
use multicore_rtos.Heap.{Ptr}
use multicore_rtos.Sched.{Kernel}
use multicore_rtos.Context.{Core, Words, save_context, switch_threads, pend_sv_handler}
use multicore_rtos.Context.Frame.{
  Frame, SameRegisters, save-sp, save-Frame, save-other, restore-Frame,
}

abbrev pub sp_of : Kernel → Ptr → Ptr
sp_of k t = (k.tcb t).sp

-- the kernel once the handler has run
abbrev pub switched : ℕ → Core → Kernel → Kernel
switched cpu c k = (pend_sv_handler cpu c k).1

-- The thread `t` waits for a core: its stack pointer is `b`, and the frame there holds the registers
-- of `c`.
pub record Suspended (t b : Ptr) (c : Core) (k : Kernel) : Type 0 where
  pub pointer : sp_of k t ≡ b
  pub frame : Frame c b k.words

Frame-same :
    (c : Core) (b : Ptr) (w w' : Words)
    → ((a : Ptr) → b ≤ a → a < b + 32 → w' a ≡ w a)
    → Frame c b w
    → Frame c b w'
Frame-same c b w w' same f = record {
  at8 = same b (omega arith) (omega arith) ∙ f.at8;
  at9 = same (b + 4) (omega arith) (omega arith) ∙ f.at9;
  at10 = same (b + 8) (omega arith) (omega arith) ∙ f.at10;
  at11 = same (b + 12) (omega arith) (omega arith) ∙ f.at11;
  at4 = same (b + 16) (omega arith) (omega arith) ∙ f.at4;
  at5 = same (b + 20) (omega arith) (omega arith) ∙ f.at5;
  at6 = same (b + 24) (omega arith) (omega arith) ∙ f.at6;
  at7 = same (b + 28) (omega arith) (omega arith) ∙ f.at7;
}

-- Where the stack has room for a context, the handler leaves the thread that ran suspended with the
-- registers that it had, and the core's next thread as its thread.
pub pend_sv_handler-Suspended :
    (cpu : ℕ) (c : Core) (k : Kernel) (b : Ptr)
    → b + 32 < 2 ^ 32
    → c.sp ≡ b + 32
    → Suspended (k.run_pt cpu) b c (switched cpu c k)
      × ((switched cpu c k).run_pt cpu ≡ k.next_run_pt cpu)
unfolding pend_sv_handler switch_threads
pend_sv_handler-Suspended cpu c k b fits e = (
  record {
    pointer = ap (λ t. t.sp) (update_self k.tcb (k.run_pt cpu) _) ∙ save-sp b fits c k.words e;
    frame = save-Frame b fits c k.words e;
  },
  update_self k.run_pt cpu _,
)

-- Where the handler takes another thread off the core, whose context lies clear of that of a suspended
-- thread which is the core's next one, the core goes on with the registers and the stack pointer that
-- the suspended thread had.
pub pend_sv_handler-resumes :
    (cpu : ℕ) (c d : Core) (k : Kernel) (t b b' : Ptr)
    → b + 32 < 2 ^ 32
    → c.sp ≡ b + 32
    → b' + 32 < 2 ^ 32
    → d.sp ≡ b' + 32
    → (b' + 32 ≤ b) ⊎ (b + 32 ≤ b')
    → k.run_pt cpu ≢ t
    → k.next_run_pt cpu ≡ t
    → Suspended t b c k
    → SameRegisters c (pend_sv_handler cpu d k).0
unfolding pend_sv_handler switch_threads
pend_sv_handler-resumes cpu c d k t b b' fits e fits' e' apart other next s =
    restore-Frame b fits c _ (save_context d k.words).1 e pointer
      (Frame-same c b k.words (save_context d k.words).1 same s.frame)
  where
    same : (a : Ptr) → b ≤ a → a < b + 32 → (save_context d k.words).1 a ≡ k.words a
    same a lo hi = save-other b' fits' d k.words a e' (clear apart)
      where
        clear : (b' + 32 ≤ b) ⊎ (b + 32 ≤ b') → (a < b') ⊎ (b' + 32 ≤ a)
        clear (inl below) = inr (omega arith)
        clear (inr above) = inl (omega arith)

    pointer : ((pend_sv_handler cpu d k).1.tcb ((pend_sv_handler cpu d k).1.run_pt cpu)).sp ≡ b
    pointer =
        ap (λ p. ((pend_sv_handler cpu d k).1.tcb p).sp) (update_self k.run_pt cpu _ ∙ next)
        ∙ ap (λ x. x.sp) (update_ne k.tcb (k.run_pt cpu) _ (λ q. other (sym q)))
        ∙ s.pointer
