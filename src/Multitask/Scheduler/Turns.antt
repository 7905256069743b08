-- ===== src/Multitask/Scheduler/Turns.antt =====
-- Repeated switches of kernel/core/multitask/scheduler.c.
use mathlib.Core.Path.{subst}
use mathlib.Core.List.{append_assoc}
use horizon_microkernel.Prelude.{
  ℕ, zero, suc, ◌≡◌, ◌≢◌, ◌∙◌, ap, refl, true, arith, List, [], ◌∷◌, ◌++◌, length, has,
}
use horizon_microkernel.Prelude.Outcome.{done}
use horizon_microkernel.State.{Frame, Kernel, ThreadUid, uid_pid, K, pure, and_then, ◌>>◌}
use horizon_microkernel.Multitask.Scheduler.{scheduler_next}
use horizon_microkernel.Multitask.Scheduler.Queue.{Schedules}
use horizon_microkernel.Multitask.Scheduler.Switch.{OwnersMatch, scheduler_next-Switches}

-- `n` calls of `scheduler_next`, one after the other.
unfoldable pub turns : ℕ → K (Unit {0})
turns zero = pure tt
turns (suc n) = scheduler_next >> turns n

-- `n` turns bring the thread `b` to the front.
pub record Reaches (k k' : Kernel) (n : ℕ) (b : ThreadUid) (q : List ThreadUid) : Type 0 where
  pub call : turns n k ≡ done (tt, k')
  pub queue : Schedules k' (b ∷ q)
  pub restored : (k.threads b).task.frame.eip ≢ 0 → k'.frame ≡ (k.threads b).task.frame
  pub started :
      (k.threads b).task.frame.eip ≡ 0
      → (k'.frame.eip ≡ (k.threads b).task.entry) × (k'.frame.user_esp ≡ (k.threads b).task.stack)
  pub space : k'.loaded ≡ (k'.processes (uid_pid b)).addr_space
  pub owners : OwnersMatch k'

one_more :
    (k l m : Kernel) (n : ℕ)
    → scheduler_next k ≡ done (tt, l)
    → turns n l ≡ done (tt, m)
    → turns (suc n) k ≡ done (tt, m)
unfolding turns
one_more k l m n first rest = ap (λ r. and_then {A = Unit {0}} r (λ _. turns n)) first ∙ rest

turns-none : (k : Kernel) → turns 0 k ≡ done (tt, k)
unfolding turns
turns-none k = refl

has-middle : (b : ℕ) (xs ys : List ℕ) → has b (xs ++ b ∷ ys) ≡ true
has-middle b [] ys = ground arith
has-middle b (x ∷ xs) ys = ground (arith, has-middle b xs ys)

-- The scheduler starves no thread: in a queue of two threads or more, the thread at place `n + 1`
-- behind the running one goes on after `n + 1` switches with the registers that it has saved, or at its
-- entry with its stack if it never ran, in the address space of its process, and the
-- threads that came before it are at the end of the queue in their order.
pub turns-Reaches :
    (k : Kernel) (a b : ThreadUid) (xs ys : List ThreadUid)
    → Schedules k (a ∷ xs ++ b ∷ ys)
    → OwnersMatch k
    → k.loaded ≡ (k.processes (uid_pid a)).addr_space
    → (k' : Kernel) × Reaches k k' (suc (length xs)) b (ys ++ a ∷ xs)
turns-Reaches k a b [] ys s owners space =
    let (l, w) = scheduler_next-Switches k a b ys s owners space in
    (
      l,
      record {
        call = one_more k l l 0 w.call (turns-none l);
        queue = w.queue;
        restored = w.resumes.restored;
        started = λ z. (
          ap (λ (f : Frame). f.eip) (w.resumes.started z),
          ap (λ (f : Frame). f.user_esp) (w.resumes.started z),
        );
        space = w.space;
        owners = w.owners;
      },
    )
turns-Reaches k a b (x ∷ xs) ys s owners space =
    let (l, w) = scheduler_next-Switches k a x (xs ++ b ∷ ys) s owners space in
    let later : Schedules l (x ∷ xs ++ b ∷ (ys ++ a ∷ [])) =
      subst (λ q. Schedules l (x ∷ q)) (append_assoc xs (b ∷ ys) (a ∷ [])) w.queue in
    let kept : (l.threads b).task ≡ (k.threads b).task =
      w.others b (ground (arith, s.distinct.0, has-middle b xs ys)) in
    let (m, r) = turns-Reaches l x b xs (ys ++ a ∷ []) later w.owners w.space in
    (
      m,
      record {
        call = one_more k l m (suc (length xs)) w.call r.call;
        queue = subst (λ q. Schedules m (b ∷ q)) (append_assoc ys (a ∷ []) (x ∷ xs)) r.queue;
        restored = subst (λ t. t.frame.eip ≢ 0 → m.frame ≡ t.frame) kept r.restored;
        started =
            subst (λ t. t.frame.eip ≡ 0 → (m.frame.eip ≡ t.entry) × (m.frame.user_esp ≡ t.stack))
              kept r.started;
        space = r.space;
        owners = r.owners;
      },
    )
