-- ===== src/Multitask/Scheduler/Switch.antt =====
-- Time slices and task switches: `scheduler_next` of kernel/core/multitask/scheduler.c.
use mathlib.Core.Path.{subst}
use horizon_microkernel.Prelude.Members.{has-snoc, Distinct-snoc}
use horizon_microkernel.Prelude.{
  write, Bool-cases, inl, inr, sym, ap, ℕ, ◌≡◌, ◌≢◌, refl, ◌∙◌, Bool, true, false, ◌==◌,
  if◌then◌else◌, arith, List, [], ◌∷◌, ◌++◌, some,
}
use horizon_microkernel.Prelude.Outcome.{done}
use horizon_microkernel.State.{
  Frame, TaskInfo, Thread, Kernel, ThreadUid, uid_pid, set_timeslice, set_frame,
  scheduler_timeslice, pure, K,
}
use horizon_microkernel.Multitask.Table.{
  Live, LiveProcess, Live-process, thread_get-Live, process_get-LiveProcess,
}
use horizon_microkernel.Multitask.Task.{resumed, task_preserve, task_switch, paging_pas_load}
use horizon_microkernel.Multitask.Scheduler.{scheduler_next, switch_to, load_space}
use horizon_microkernel.Multitask.Scheduler.Ring.{Threads, Linked, Linked-frame, Linked-rotate}
use horizon_microkernel.Multitask.Scheduler.Queue.{Schedules}

-- Every live thread belongs to the process of its UID.
abbrev pub OwnersMatch : Kernel → Type 0
OwnersMatch k = (u : ThreadUid) → Live k u → (k.threads u).owner ≡ uid_pid u

pub load_space-call :
    (k : Kernel) (pid : ℕ)
    → LiveProcess k pid
    → load_space pid k ≡ done (tt, record k { loaded = (k.processes pid).addr_space })
unfolding load_space paging_pas_load
load_space-call k pid l = rw (process_get-LiveProcess k pid l, load_space) refl

-- The state after a switch from `c` to `n`.
abbrev switched : Kernel → ThreadUid → ThreadUid → Kernel
switched k c n = record k {
  active_thread = n;
  threads = write k.threads c (set_frame k.frame);
  frame = resumed k.frame (write k.threads c (set_frame k.frame) n);
  loaded =
      if (k.threads c).owner == (k.threads n).owner
      then k.loaded
      else (k.processes (k.threads n).owner).addr_space;
}

switch_to-call :
    (k : Kernel) (c n : ThreadUid)
    → Live k n
    → LiveProcess k (k.threads n).owner
    → switch_to (some c) n k ≡ done (tt, switched k c n)
unfolding switch_to task_switch task_preserve
switch_to-call k c n l p =
    let k1 : Kernel = record k { active_thread = n } in
    rw (thread_get-Live k1 n l, switch_to)
      (elim (Bool-cases ((k.threads c).owner == (k.threads n).owner)) [
        | inl same ↦ rw same refl
        | inr other ↦ rw other (rw (load_space-call k1 (k.threads n).owner p) refl)
      ])

-- The threads once the running one has its time slice back.
abbrev renewed : Threads → ThreadUid → Threads
renewed t u = write t u (set_timeslice scheduler_timeslice)

module _ (k : Kernel) (live : Live k k.active_thread) where
  abbrev follower : ThreadUid
  follower = (renewed k.threads k.active_thread k.active_thread).sched_info.next

  abbrev renewal : Kernel
  renewal = record k { threads = renewed k.threads k.active_thread }

  -- The end of `scheduler_next`, by the test for a queue of one.
  abbrev go_on : Bool → K (Unit {0})
  go_on alone = if alone then pure tt else switch_to (some k.active_thread) follower

  next-run : scheduler_next k ≡ go_on (k.active_thread == follower) renewal
  unfolding scheduler_next
  next-run = rw (thread_get-Live k k.active_thread live, scheduler_next) refl

  next_alone-call : (k.active_thread == follower) ≡ true → scheduler_next k ≡ done (tt, renewal)
  next_alone-call e = next-run ∙ ap (λ b. go_on b renewal) e

  next_switch-call :
      (k.active_thread == follower) ≡ false
      → Live k follower
      → LiveProcess k (renewed k.threads k.active_thread follower).owner
      → scheduler_next k ≡ done (tt, switched renewal k.active_thread follower)
  next_switch-call e l p =
      next-run ∙ ap (λ b. go_on b renewal) e ∙ switch_to-call renewal k.active_thread follower l p

-- The state after `scheduler_next` has switched from `a` to `x`.
abbrev moved_on : Kernel → ThreadUid → ThreadUid → Kernel
moved_on k a x = switched (record k { threads = renewed k.threads a }) a x

next_switch_at :
    (k : Kernel) (a x : ThreadUid)
    → k.active_thread ≡ a
    → (k.threads a).sched_info.next ≡ x
    → (a == x) ≡ false
    → Live k a
    → Live k x
    → OwnersMatch k
    → scheduler_next k ≡ done (tt, moved_on k a x)
next_switch_at k a x first next ne la lx owners =
    let f = k.active_thread in
    let after : (renewed k.threads f f).sched_info.next ≡ x =
      subst (λ v. (renewed k.threads v v).sched_info.next ≡ x) (sym first) (ground (arith, next)) in
    let owner : (renewed k.threads f x).owner ≡ uid_pid x = ground (arith, owners x lx) in
    subst (λ v. scheduler_next k ≡ done (tt, moved_on k v x)) first
      (subst (λ v. scheduler_next k ≡ done (tt, moved_on k f v)) after
        (next_switch-call k (subst (λ v. Live k v) (sym first) la) (rw (after, first) ne)
          (subst (λ v. Live k v) (sym after) lx)
          (subst (λ v. LiveProcess k (renewed k.threads f v).owner) (sym after)
            (rw owner (Live-process k x lx)))))

-- The registers `new` with which a thread goes on, when the ones of the processor were `old`: they
-- are the saved ones, or, if it has none yet, it starts at its entry with its stack.
pub record Resumes (old : Frame) (task : TaskInfo) (new : Frame) : Type 0 where
  pub restored : task.frame.eip ≢ 0 → new ≡ task.frame
  pub started : task.frame.eip ≡ 0 → new ≡ record old { eip = task.entry; user_esp = task.stack }

pub resumed-Resumes : (old : Frame) (t : Thread) → Resumes old t.task (resumed old t)
unfolding resumed
resumed-Resumes old t = record {
  restored = λ ne. let e : (t.task.frame.eip == 0) ≡ false = ground (arith, ne) in rw (e) refl;
  started = λ z. let e : (t.task.frame.eip == 0) ≡ true = ground (arith, z) in rw (e) refl;
}

-- What the switch to the next thread comes to.
pub record Switches (k k' : Kernel) (a x : ThreadUid) (ys : List ThreadUid) : Type 0 where
  pub call : scheduler_next k ≡ done (tt, k')
  pub queue : Schedules k' (x ∷ ys ++ a ∷ [])
  pub saved : (k'.threads a).task.frame ≡ k.frame
  pub slice : (k'.threads a).sched_info.timeslice ≡ scheduler_timeslice
  pub resumes : Resumes k.frame (k.threads x).task k'.frame
  pub others : (v : ThreadUid) → (a == v) ≡ false → (k'.threads v).task ≡ (k.threads v).task
  pub space : k'.loaded ≡ (k'.processes (uid_pid x)).addr_space
  pub owners : OwnersMatch k'

-- With two threads or more in the queue, `scheduler_next` moves the running one to the end of the
-- queue with its registers saved and a fresh time slice, and keeps what the others have saved. The next
-- one goes on with its saved registers, or at its entry with its stack if it never ran, in the address
-- space of its process.
pub scheduler_next-Switches :
    (k : Kernel) (a x : ThreadUid) (ys : List ThreadUid)
    → Schedules k (a ∷ x ∷ ys)
    → OwnersMatch k
    → k.loaded ≡ (k.processes (uid_pid a)).addr_space
    → (k' : Kernel) × Switches k k' a x ys
scheduler_next-Switches k a x ys s owners space = (
  moved_on k a x,
  record {
    call = next_switch_at k a x s.ring.0 s.ring.1.0.0 ne la lx owners;
    queue = record {
      ring = (refl, ring);
      distinct = Distinct-snoc a (x ∷ ys) s.distinct.1 s.distinct.0;
      live = λ u h. s.live u (ground (arith, has-snoc u a (x ∷ ys)));
      states = λ u h. ground (arith, has-snoc u a (x ∷ ys), s.states u);
      complete = λ u l h. ground (arith, has-snoc u a (x ∷ ys), s.complete u);
    };
    saved = ground arith;
    slice = ground arith;
    resumes =
        subst (λ f. Resumes k.frame (k.threads x).task f) (sym resumed_x)
          (resumed-Resumes k.frame (k.threads x));
    others = λ v other. ground (arith, other);
    space = ground (arith, owners a la, owners x lx, ne);
    owners = λ u l. ground (arith, owners u l);
  },
)
  where
    la : Live k a
    la = s.live a (ground arith)

    lx : Live k x
    lx = s.live x (ground arith)

    ne : (a == x) ≡ false
    ne = ground (arith, s.distinct.0)

    resumed_x : (moved_on k a x).frame ≡ resumed k.frame (k.threads x)
    resumed_x = ground (arith, ne)

    ring : Linked (moved_on k a x).threads x (ys ++ a ∷ []) x
    ring =
        Linked-frame k.threads (moved_on k a x).threads x x (ys ++ a ∷ []) (λ j _. ground arith)
          (λ j _. ground arith) (Linked-rotate k.threads a x ys s.ring.1)
