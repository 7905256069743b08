-- ===== src/System/Control.antt =====
-- kernel/core/system/control: syscall_wait and syscall_yield. The error codes of horizon/errno.h are
-- 32-bit words.
pub mod Block
use horizon_microkernel.Prelude.Outcome.{done}
use horizon_microkernel.Multitask.Scheduler.Queue.{Schedules}
use horizon_microkernel.Multitask.Scheduler.Switch.{OwnersMatch, Resumes, scheduler_next-Switches}
use horizon_microkernel.Prelude.{
  List, [], ◌∷◌, ◌++◌, ◌≡◌, ℕ, ◌-◌, ◌^◌, Bool, true, false, Option, none, some, ltb, ◌==◌,
  if◌then◌else◌,
}
use horizon_microkernel.State.{
  Kernel, Thread, ThreadUid, uid_pid, uid_tid, thread_uid, waiting, K, pure, ◌>>=◌, ◌>>◌, is_some,
  store, set_state,
}
use horizon_microkernel.Multitask.Table.{thread_get}
use horizon_microkernel.Multitask.Task.{syscall_return_set}
use horizon_microkernel.Multitask.Scheduler.{
  scheduler_curr, scheduler_lock, scheduler_unlock, scheduler_remove, scheduler_next,
}
use horizon_microkernel.Ipc.Port.{port_to_uid}
use horizon_microkernel.Ipc.Message.{message_find}

abbrev pub enone : ℕ
enone = 0

abbrev pub enotavail : ℕ
enotavail = 2 ^ 32 - 6

abbrev pub einvalid : ℕ
einvalid = 2 ^ 32 - 7

unfoldable pub syscall_yield : K (Unit {0})
syscall_yield = syscall_return_set enone >> scheduler_next

abbrev pub set_wait_for : ℕ → Thread → Thread
set_wait_for port t = record t { syscall_info = record (t.syscall_info) { wait_for = port } }

-- The caller leaves the queue and waits.
unfoldable pub block : ThreadUid → ℕ → K (Unit {0})
block caller_uid sender = do
  syscall_return_set enone
  scheduler_lock
  scheduler_remove caller_uid
  caller ← thread_get caller_uid
  store caller (set_state waiting)
  store caller (set_wait_for sender)
  scheduler_unlock

-- The thread that is looked up for a target, and whether there is one to look up: PID 1 stands for
-- the special ports.
unfoldable pub wait_exists : ThreadUid → ThreadUid → K Bool
wait_exists caller_uid target_uid =
    if uid_pid target_uid == 0
    then (do
      target ← thread_get (thread_uid (uid_pid caller_uid) (uid_tid target_uid))
      pure (is_some target))
    else (if ltb 1 (uid_pid target_uid)
        then (do target ← thread_get target_uid; pure (is_some target))
        else pure true)

-- The rest of `syscall_wait` once no message was found.
unfoldable pub wait_for_sender : ThreadUid → ℕ → K (Unit {0})
wait_for_sender caller_uid sender = do
  target_uid ← port_to_uid sender (uid_pid caller_uid)
  if target_uid == 0 then syscall_return_set einvalid else (do
    exists ← wait_exists caller_uid target_uid
    if exists then block caller_uid sender else syscall_return_set enotavail)

-- By the result of the search; it is `none` when the search does not end.
unfoldable pub after_find : ThreadUid → ℕ → Option Bool → K (Option (Unit {0}))
after_find caller_uid sender none = pure none
after_find caller_uid sender (some true) = syscall_return_set enone >> pure (some tt)
after_find caller_uid sender (some false) = wait_for_sender caller_uid sender >> pure (some tt)

-- The fuel is for the loop of `message_find`.
unfoldable pub syscall_wait : ℕ → ℕ → K (Option (Unit {0}))
syscall_wait fuel sender = do
  caller_uid ← scheduler_curr
  found ← message_find fuel caller_uid sender
  after_find caller_uid sender found

-- What `syscall_yield` does to the kernel `k`, in which `a` runs and `x` comes next.
pub record Yields (k k' : Kernel) (a x : ThreadUid) (ys : List ThreadUid) : Type 0 where
  pub call : syscall_yield k ≡ done (tt, k')
  pub queue : Schedules k' (x ∷ ys ++ a ∷ [])
  pub saved : (k'.threads a).task.frame ≡ record (k.frame) { eax = enone }
  pub resumes : Resumes (record (k.frame) { eax = enone }) (k.threads x).task k'.frame
  pub space : k'.loaded ≡ (k'.processes (uid_pid x)).addr_space
  pub owners : OwnersMatch k'

-- With two threads or more in the queue, `syscall_yield` moves the caller to the end of the queue,
-- with the return value `ENONE` in its saved registers. The next thread goes on with its saved
-- registers, or at its entry with its stack if it never ran, in the address space of its process.
pub syscall_yield-Yields :
    (k : Kernel) (a x : ThreadUid) (ys : List ThreadUid)
    → Schedules k (a ∷ x ∷ ys)
    → OwnersMatch k
    → k.loaded ≡ (k.processes (uid_pid a)).addr_space
    → (k' : Kernel) × Yields k k' a x ys
unfolding syscall_yield syscall_return_set
syscall_yield-Yields k a x ys s owners space =
    let returned : Kernel = record k { frame = record (k.frame) { eax = enone } } in
    let same : Schedules returned (a ∷ x ∷ ys) = record {
      ring = s.ring;
      distinct = s.distinct;
      live = s.live;
      states = s.states;
      complete = s.complete;
    } in
    let (k', w) = scheduler_next-Switches returned a x ys same owners space in
    (
      k',
      record {
        call = w.call;
        queue = w.queue;
        saved = w.saved;
        resumes = w.resumes;
        space = w.space;
        owners = w.owners;
      },
    )
