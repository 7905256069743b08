-- ===== src/System/Process.antt =====
-- kernel/core/system/process: syscall_release.
use horizon_microkernel.Prelude.{
  ℕ, ◌%◌, ◌^◌, ◌≡◌, ◌∙◌, ap, ◌≢◌, refl, Bool, true, false, Option, ◌==◌, if◌then◌else◌, arith,
}
use horizon_microkernel.Prelude.Outcome.{done, halted}
use horizon_microkernel.State.{
  Kernel, ThreadUid, uid_pid, uid_tid, thread_uid, is_active, K, pure, and_then, ◌>>=◌, ◌>>◌,
  is_some,
}
use horizon_microkernel.Multitask.Table.{Live, thread_get, thread_get-Live}
use horizon_microkernel.Multitask.Task.{syscall_return_set}
use horizon_microkernel.Multitask.Thread.{thread_kill}
use horizon_microkernel.Multitask.Scheduler.{scheduler_curr, scheduler_lock, scheduler_unlock}
use horizon_microkernel.Multitask.Scheduler.Lock.{held, lock-run}
use horizon_microkernel.System.Control.{enone, enotavail, einvalid}

-- `TID_SELF` is 0.
abbrev pub release_tid : ThreadUid → ℕ → ℕ
release_tid caller_uid tid = if tid == 0 then uid_tid caller_uid else tid

-- The release of a thread that exists.
unfoldable pub release : ThreadUid → ThreadUid → K (Unit {0})
release caller_uid target_uid = do
  if uid_tid target_uid == uid_tid caller_uid then scheduler_lock else pure tt
  thread_kill caller_uid
  curr ← scheduler_curr
  if uid_pid curr == 0 then scheduler_unlock else syscall_return_set enone

unfoldable pub release_target : ThreadUid → ThreadUid → Option ThreadUid → K (Unit {0})
release_target caller_uid target_uid target =
    if is_some target then release caller_uid target_uid else syscall_return_set enotavail

-- The call of a given thread.
unfoldable pub release_for : ℕ → ThreadUid → K (Unit {0})
release_for tid caller_uid =
    if release_tid caller_uid tid == 0 then syscall_return_set einvalid else (do
      target ← thread_get (thread_uid (uid_pid caller_uid) (release_tid caller_uid tid))
      release_target caller_uid (thread_uid (uid_pid caller_uid) (release_tid caller_uid tid))
          target)

-- The argument is a `tid_t`, an `uint8_t`.
unfoldable pub syscall_release : ℕ → K (Unit {0})
syscall_release tid = scheduler_curr >>= release_for (tid % 2 ^ 8)

kill-active :
    (k : Kernel) (u : ThreadUid)
    → Live k u
    → is_active (k.threads u).state ≡ true
    → thread_kill u k ≡ halted
unfolding thread_kill
kill-active k u live busy = rw (thread_get-Live k u live, thread_kill) (rw (busy) refl)

-- Whether the scheduler is locked first, the caller is still active.
release_by : ThreadUid → Bool → K (Unit {0})
release_by caller_uid own = do
  if own then scheduler_lock else pure tt
  thread_kill caller_uid
  curr ← scheduler_curr
  if uid_pid curr == 0 then scheduler_unlock else syscall_return_set enone

release_by-halts :
    (k : Kernel) (own : Bool)
    → Live k k.active_thread
    → is_active (k.threads k.active_thread).state ≡ true
    → release_by k.active_thread own k ≡ halted
unfolding release_by
release_by-halts k true live busy =
    rw (lock-run k live, release_by)
      (rw (kill-active (held k k.active_thread) k.active_thread live (ground (arith, busy))) refl)
release_by-halts k false live busy = rw (kill-active k k.active_thread live busy, release_by) refl

release-halts :
    (k : Kernel) (target : ThreadUid)
    → Live k k.active_thread
    → is_active (k.threads k.active_thread).state ≡ true
    → release k.active_thread target k ≡ halted
unfolding release release_by
release-halts k target live busy =
    release_by-halts k (uid_tid target == uid_tid k.active_thread) live busy

release_for-halts :
    (k : Kernel) (tid : ℕ)
    → Live k k.active_thread
    → is_active (k.threads k.active_thread).state ≡ true
    → (release_tid k.active_thread tid == 0) ≡ false
    → Live k (thread_uid (uid_pid k.active_thread) (release_tid k.active_thread tid))
    → release_for tid k.active_thread k ≡ halted
unfolding release_for release_target
release_for-halts k tid live busy other target =
    let to : ThreadUid = thread_uid (uid_pid k.active_thread) (release_tid k.active_thread tid) in
    rw (other, release_for) (rw (thread_get-Live k to target) (release-halts k to live busy))

curr-run : (k : Kernel) → k.locked ≡ false → scheduler_curr k ≡ done (k.active_thread, k)
unfolding scheduler_curr
curr-run k unlocked = ap (λ b. done (if b then 0 else k.active_thread, k)) unlocked

-- Whatever thread of its process the running thread releases, `syscall_release` halts the kernel,
-- if the thread exists and is not the main one: it kills the caller, which is still active.
pub syscall_release-halts :
    (k : Kernel) (tid : ℕ)
    → k.locked ≡ false
    → Live k k.active_thread
    → is_active (k.threads k.active_thread).state ≡ true
    → release_tid k.active_thread (tid % 2 ^ 8) ≢ 0
    → Live k (thread_uid (uid_pid k.active_thread) (release_tid k.active_thread (tid % 2 ^ 8)))
    → syscall_release tid k ≡ halted
unfolding syscall_release
syscall_release-halts k tid unlocked live busy other target =
    ap (λ r. and_then r (release_for (tid % 2 ^ 8))) (curr-run k unlocked)
    ∙ release_for-halts k (tid % 2 ^ 8) live busy (ground (arith, other)) target
