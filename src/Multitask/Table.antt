-- ===== src/Multitask/Table.antt =====
-- Looking up control blocks: `process_get` of kernel/core/multitask/process.c and `thread_get` of
-- thread.c.
use horizon_microkernel.Prelude.{
  ℕ, ◌≤◌, ◌≡◌, Bool, true, false, Option, none, some, leb, ltb, if◌then◌else◌, arith,
}
use horizon_microkernel.Prelude.Outcome.{Outcome, done, halted, fault}
use horizon_microkernel.Util.Bitmap.{bitmap_test}
use horizon_microkernel.Util.Bmstack.{Bmstack, bmstack_test}
use horizon_microkernel.State.{
  Kernel, Process, ThreadUid, uid_pid, uid_tid, process_max, process_thread_max, K, pure, ◌>>=◌,
  asks,
}

-- `process_get` returns NULL for a PID out of range, for the reserved PIDs, and for a block that
-- is not in use.
unfoldable pub process_live : Bmstack → ℕ → Outcome Bool
process_live block_map pid =
    if leb process_max pid
    then done false
    else (if ltb pid 2 then done false else bmstack_test block_map pid)

unfoldable pub process_get : ℕ → K (Option ℕ)
process_get pid = do
  live ← asks (λ k. process_live k.block_map pid)
  pure (if live then some pid else none)

-- The owner must be alive before its bitmap counts.
abbrev if_owned : Outcome Bool → Bool → Outcome Bool
if_owned (done true) b = done b
if_owned (done false) b = done false
if_owned halted b = halted
if_owned fault b = fault

-- `thread_get` returns NULL if the process is not alive, and for a thread that is not in use.
unfoldable pub thread_live : Bmstack → (ℕ → Process) → ThreadUid → Outcome Bool
thread_live block_map processes uid =
    if leb process_thread_max (uid_tid uid)
    then done false
    else if_owned (process_live block_map (uid_pid uid))
        (bitmap_test (processes (uid_pid uid)).thread_info.bitmap (uid_tid uid))

unfoldable pub thread_get : ThreadUid → K (Option ThreadUid)
thread_get uid = do
  live ← asks (λ k. thread_live k.block_map k.processes uid)
  pure (if live then some uid else none)

-- A thread, or a process, that can be looked up.
abbrev pub Live : Kernel → ThreadUid → Type 0
Live k uid = thread_live k.block_map k.processes uid ≡ done true

abbrev pub LiveProcess : Kernel → ℕ → Type 0
LiveProcess k pid = process_live k.block_map pid ≡ done true

pub thread_get-Live :
    (k : Kernel) (uid : ThreadUid) → Live k uid → thread_get uid k ≡ done (some uid, k)
unfolding thread_get
thread_get-Live k uid h = ground arith

pub process_get-LiveProcess :
    (k : Kernel) (pid : ℕ) → LiveProcess k pid → process_get pid k ≡ done (some pid, k)
unfolding process_get
process_get-LiveProcess k pid h = ground arith

-- The process of a live thread is alive.
pub Live-process : (k : Kernel) (uid : ThreadUid) → Live k uid → LiveProcess k (uid_pid uid)
unfolding thread_live
Live-process k uid h = ground arith

-- The two reserved PIDs are not alive.
pub Live-pid : (k : Kernel) (uid : ThreadUid) → Live k uid → 2 ≤ uid_pid uid
unfolding thread_live process_live
Live-pid k uid h = ground arith

-- Only the bitmap of threads counts.
pub Live-processes :
    (k : Kernel) (ps : ℕ → Process) (u : ThreadUid)
    → ((p : ℕ) → (ps p).thread_info ≡ (k.processes p).thread_info)
    → Live k u
    → Live (record k { processes = ps }) u
unfolding thread_live
Live-processes k ps u same l = ground (arith, same (uid_pid u))
