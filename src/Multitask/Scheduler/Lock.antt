-- ===== src/Multitask/Scheduler/Lock.antt =====
-- scheduler_lock and scheduler_unlock of kernel/core/multitask/scheduler.c.
use mathlib.Core.Path.{subst}
use horizon_microkernel.Prelude.{◌≡◌, refl, sym, ap, true, false, ◌==◌, arith, List, [], ◌∷◌, write}
use horizon_microkernel.Prelude.Outcome.{done}
use horizon_microkernel.State.{Kernel, SchedInfo, ThreadUid, uid_pid, is_active, set_frame}
use horizon_microkernel.Multitask.Table.{Live, LiveProcess, Live-process, Live-pid, thread_get-Live}
use horizon_microkernel.Multitask.Task.{task_preserve, task_resume, resumed}
use horizon_microkernel.Multitask.Scheduler.{scheduler_lock, scheduler_unlock}
use horizon_microkernel.Multitask.Scheduler.Ring.{Threads, Linked-frame}
use horizon_microkernel.Multitask.Scheduler.Queue.{Ring, Schedules}
use horizon_microkernel.Multitask.Scheduler.Switch.{load_space-call}

-- The kernel after `scheduler_lock`, while `a` runs.
abbrev pub held : Kernel → ThreadUid → Kernel
held k a = record k { locked = true; threads = write k.threads a (set_frame k.frame) }

pub lock-run :
    (k : Kernel) → Live k k.active_thread → scheduler_lock k ≡ done (tt, held k k.active_thread)
unfolding scheduler_lock task_preserve
lock-run k live =
    rw (thread_get-Live (record k { locked = true }) k.active_thread live, scheduler_lock) refl

pub lock_at :
    (k : Kernel) (a : ThreadUid)
    → k.active_thread ≡ a
    → Live k a
    → scheduler_lock k ≡ done (tt, held k a)
lock_at k a e l =
    subst (λ v. scheduler_lock k ≡ done (tt, held k v)) e
      (lock-run k (subst (λ v. Live k v) (sym e) l))

-- The kernel after `scheduler_unlock`, with `x` in front.
abbrev pub freed : Kernel → ThreadUid → Kernel
freed k x = record k {
  locked = false;
  loaded = (k.processes (k.threads x).owner).addr_space;
  frame = resumed k.frame (k.threads x);
}

unlock-run :
    (k : Kernel)
    → Live k k.active_thread
    → LiveProcess k (k.threads k.active_thread).owner
    → scheduler_unlock k ≡ done (tt, freed k k.active_thread)
unfolding scheduler_unlock task_resume
unlock-run k live owner =
    let u = k.active_thread in
    let some_thread : (u == 0) ≡ false = ground (arith, Live-pid k u live) in
    let open_kernel : Kernel = record k { locked = false } in
    rw (some_thread, scheduler_unlock)
      (rw (thread_get-Live open_kernel u live)
        (rw (load_space-call open_kernel (k.threads u).owner owner) refl))

pub unlock_at :
    (k : Kernel) (x : ThreadUid)
    → k.active_thread ≡ x
    → Live k x
    → (k.threads x).owner ≡ uid_pid x
    → scheduler_unlock k ≡ done (tt, freed k x)
unlock_at k x e l o =
    let owner : LiveProcess k (k.threads x).owner =
      subst (λ p. LiveProcess k p) (sym o) (Live-process k x l) in
    subst (λ v. scheduler_unlock k ≡ done (tt, freed k v)) e
      (unlock-run k (subst (λ v. Live k v) (sym e) l)
        (subst (λ v. LiveProcess k (k.threads v).owner) (sym e) owner))

-- Other threads' blocks that the scheduler sees as before.
pub same-Schedules :
    (k : Kernel) (ts : Threads) (q : List ThreadUid)
    → ((v : ThreadUid) → (ts v).sched_info ≡ (k.threads v).sched_info)
    → ((v : ThreadUid) → is_active (ts v).state ≡ is_active (k.threads v).state)
    → Schedules k q
    → Schedules (record k { threads = ts }) q
same-Schedules k ts q infos states s = record {
  ring = ring q s.ring;
  distinct = s.distinct;
  live = s.live;
  states = λ v h. ground (arith, states v, s.states v h);
  complete = λ v l h. s.complete v l (ground (arith, states v, h));
}
  where
    ring : (q : List ThreadUid) → Ring k.threads k.active_thread q → Ring ts k.active_thread q
    ring [] r = r
    ring (x ∷ xs) r = (
      r.0,
      Linked-frame k.threads ts x x xs (λ j h. ap (λ (c : SchedInfo). c.next) (infos j))
          (λ j h. ap (λ (c : SchedInfo). c.prev) (infos j)) r.1,
    )
