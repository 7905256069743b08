-- ===== src/Multitask/Scheduler/Ticks.antt =====
-- The timer's interrupt of kernel/core/multitask/scheduler.c.
use mathlib.Core.Path.{subst}
use horizon_microkernel.Prelude.{
  ℕ, zero, suc, ◌^◌, ◌<◌, ◌≡◌, ◌∙◌, ap, refl, sym, Bool, true, false, ◌==◌, if◌then◌else◌, arith,
  List, [], ◌∷◌, ◌++◌, write,
}
use horizon_microkernel.Prelude.Words.{sub_word}
use horizon_microkernel.Prelude.Outcome.{done}
use horizon_microkernel.State.{
  Kernel, ThreadUid, uid_pid, K, pure, and_then, ◌>>◌, set_timeslice, scheduler_timeslice,
}
use horizon_microkernel.Multitask.Table.{Live, thread_get-Live}
use horizon_microkernel.Multitask.Scheduler.{scheduler_next, timer_tick}
use horizon_microkernel.Multitask.Scheduler.Ring.{Linked-frame}
use horizon_microkernel.Multitask.Scheduler.Queue.{Schedules}
use horizon_microkernel.Multitask.Scheduler.Switch.{OwnersMatch, Resumes, scheduler_next-Switches}

-- The kernel once the running thread has used a tick.
abbrev pub ticked : Kernel → ThreadUid → Kernel
ticked k a = record k {
  threads = write k.threads a (set_timeslice (sub_word (k.threads a).sched_info.timeslice 1));
}

-- The end of `timer_tick`, by the test of the time slice.
abbrev spend : Bool → K (Unit {0})
spend spent = if spent then scheduler_next else pure tt

spend-if :
    (spent : Bool) (k : Kernel) → spend spent k ≡ (if spent then scheduler_next k else done (tt, k))
spend-if true k = refl
spend-if false k = refl

tick-run :
    (k : Kernel) (a : ThreadUid)
    → k.active_thread ≡ a
    → Live k a
    → timer_tick k ≡ spend (((ticked k a).threads a).sched_info.timeslice == 0) (ticked k a)
unfolding timer_tick
tick-run k a e l =
    subst
      (λ v. timer_tick k ≡ spend (((ticked k v).threads v).sched_info.timeslice == 0) (ticked k v))
      e (rw (thread_get-Live k k.active_thread (subst (λ v. Live k v) (sym e) l), timer_tick) refl)

module _ (k : Kernel) (a : ThreadUid) where
  ticked-Schedules : (xs : List ThreadUid) → Schedules k (a ∷ xs) → Schedules (ticked k a) (a ∷ xs)
  ticked-Schedules xs s = record {
    ring = (
      s.ring.0,
      Linked-frame k.threads (ticked k a).threads a a xs (λ j h. ground arith) (λ j h. ground arith)
          s.ring.1,
    );
    distinct = s.distinct;
    live = s.live;
    states = λ u h. ground (arith, s.states u h);
    complete = λ u l h. s.complete u l (ground (arith, h));
  }

  timer_tick-call :
      (xs : List ThreadUid)
      → Schedules k (a ∷ xs)
      → 0 < (k.threads a).sched_info.timeslice
      → (k.threads a).sched_info.timeslice < 2 ^ 32
      → timer_tick k ≡ (
          if (k.threads a).sched_info.timeslice == 1
          then scheduler_next (ticked k a)
          else done (tt, ticked k a))
  timer_tick-call xs s some_left word =
      let spent : (((ticked k a).threads a).sched_info.timeslice == 0)
          ≡ ((k.threads a).sched_info.timeslice == 1) =
        ground (arith, some_left, word) in
      tick-run k a s.ring.0 (s.live a (ground arith))
      ∙ ap (λ b. spend b (ticked k a)) spent
      ∙ spend-if ((k.threads a).sched_info.timeslice == 1) (ticked k a)

-- `n` interrupts of the timer, one after the other.
unfoldable pub ticks : ℕ → K (Unit {0})
ticks zero = pure tt
ticks (suc n) = timer_tick >> ticks n

-- What `n` ticks do when the time slice of `a` is over with the last of them and `x` comes next.
pub record TimesOut (n : ℕ) (k k' : Kernel) (a x : ThreadUid) (ys : List ThreadUid) : Type 0 where
  pub call : ticks n k ≡ done (tt, k')
  pub queue : Schedules k' (x ∷ ys ++ a ∷ [])
  pub saved : (k'.threads a).task.frame ≡ k.frame
  pub slice : (k'.threads a).sched_info.timeslice ≡ scheduler_timeslice
  pub resumes : Resumes k.frame (k.threads x).task k'.frame
  pub space : k'.loaded ≡ (k'.processes (uid_pid x)).addr_space

one_tick :
    (k l m : Kernel) (n : ℕ)
    → timer_tick k ≡ done (tt, l)
    → ticks n l ≡ done (tt, m)
    → ticks (suc n) k ≡ done (tt, m)
unfolding ticks
one_tick k l m n first rest = ap (λ r. and_then {A = Unit {0}} r (λ _. ticks n)) first ∙ rest

ticks-none : (k : Kernel) → ticks 0 k ≡ done (tt, k)
unfolding ticks
ticks-none k = refl

-- No thread runs for longer than its time slice while another is in the queue: with `n + 1` ticks left, it
-- runs for `n` interrupts of the timer, and with the next one it is at the end of the queue with its
-- registers saved and a fresh time slice. The next thread goes on with its saved registers, or at its
-- entry with its stack if it never ran, in the address space of its process.
pub ticks-TimesOut :
    (n : ℕ) (k : Kernel) (a x : ThreadUid) (ys : List ThreadUid)
    → Schedules k (a ∷ x ∷ ys)
    → OwnersMatch k
    → k.loaded ≡ (k.processes (uid_pid a)).addr_space
    → (k.threads a).sched_info.timeslice ≡ suc n
    → suc n < 2 ^ 32
    → (k' : Kernel) × TimesOut (suc n) k k' a x ys
ticks-TimesOut zero k a x ys s owners space left word =
    let same = ticked-Schedules k a (x ∷ ys) s in
    let (k', w) =
      scheduler_next-Switches (ticked k a) a x ys same (λ v l. ground (arith, owners v l)) space in
    let ne : (a == x) ≡ false = ground (arith, s.distinct.0) in
    let task : ((ticked k a).threads x).task ≡ (k.threads x).task = ground (arith, ne) in
    let last : ((k.threads a).sched_info.timeslice == 1) ≡ true = ground (arith, left) in
    (
      k',
      record {
        call =
            one_tick k k' k' 0
              (timer_tick-call k a (x ∷ ys) s (omega (arith, left)) (omega (arith, left, word))
                ∙ ap (λ b. if b then scheduler_next (ticked k a) else done (tt, ticked k a)) last
                ∙ w.call)
              (ticks-none k');
        queue = w.queue;
        saved = w.saved;
        slice = w.slice;
        resumes = subst (λ t. Resumes k.frame t k'.frame) task w.resumes;
        space = w.space;
      },
    )
ticks-TimesOut (suc n) k a x ys s owners space left word =
    let same = ticked-Schedules k a (x ∷ ys) s in
    let fewer : ((ticked k a).threads a).sched_info.timeslice ≡ suc n =
      ground (arith, left, word) in
    let (k', w) =
      ticks-TimesOut n (ticked k a) a x ys same (λ v l. ground (arith, owners v l)) space fewer
        (omega (arith, word)) in
    let ne : (a == x) ≡ false = ground (arith, s.distinct.0) in
    let task : ((ticked k a).threads x).task ≡ (k.threads x).task = ground (arith, ne) in
    let more : ((k.threads a).sched_info.timeslice == 1) ≡ false = ground (arith, left) in
    (
      k',
      record {
        call =
            one_tick k (ticked k a) k' (suc n)
              (timer_tick-call k a (x ∷ ys) s (omega (arith, left)) (omega (arith, left, word))
                ∙ ap (λ b. if b then scheduler_next (ticked k a) else done (tt, ticked k a)) more)
              w.call;
        queue = w.queue;
        saved = w.saved;
        slice = w.slice;
        resumes = subst (λ t. Resumes k.frame t k'.frame) task w.resumes;
        space = w.space;
      },
    )
