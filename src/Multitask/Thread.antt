-- ===== src/Multitask/Thread.antt =====
-- kernel/core/multitask/thread.c: the end of a thread.
use mathlib.Core.Path.{subst}
use horizon_microkernel.Prelude.{
  inl, inr, Bool-cases, ==_iff, ℕ, ◌≡◌, refl, true, false, not, ◌&&◌, ◌==◌, if◌then◌else◌, arith,
  write,
}
use horizon_microkernel.Prelude.Words.{sub_word}
use horizon_microkernel.Prelude.Outcome.{done}
use horizon_microkernel.Util.Bitmap.{Bitmap, bitmap_test, bitmap_clear}
use horizon_microkernel.Util.Bitmap.Laws.{IsWords, test-clear}
use horizon_microkernel.State.{
  Kernel, Process, ThreadUid, uid_pid, uid_tid, is_active, K, ◌>>=◌, ◌>>◌, dassert, is_some, load,
  load_process, store_process,
}
use horizon_microkernel.Multitask.Table.{
  process_get, thread_get, thread_live, process_live, Live, Live-process, thread_get-Live,
  process_get-LiveProcess,
}

abbrev pub set_thread_bitmap : Bitmap → Process → Process
set_thread_bitmap b p = record p { thread_info = record (p.thread_info) { bitmap = b } }

abbrev pub set_thread_count : ℕ → Process → Process
set_thread_count n p = record p { thread_info = record (p.thread_info) { count = n } }

unfoldable pub thread_kill : ThreadUid → K (Unit {0})
thread_kill uid = do
  target ← thread_get uid
  dassert (is_some target)
  t ← load target
  dassert (not (is_active t.state))
  owner ← process_get (uid_pid uid)
  dassert (is_some owner)
  p ← load_process owner
  dassert (bitmap_test p.thread_info.bitmap (uid_tid uid))
  store_process owner (set_thread_bitmap (bitmap_clear p.thread_info.bitmap (uid_tid uid)))
  p' ← load_process owner
  store_process owner (set_thread_count (sub_word p'.thread_info.count 1))

-- The processes without the thread.
abbrev buried : (ℕ → Process) → ThreadUid → ℕ → Process
buried ps u =
    write
      (write ps (uid_pid u)
        (set_thread_bitmap (bitmap_clear (ps (uid_pid u)).thread_info.bitmap (uid_tid u))))
      (uid_pid u) (λ p. set_thread_count (sub_word p.thread_info.count 1) p)

-- What `thread_kill` does to the kernel `k`.
pub record Kills (k : Kernel) (u : ThreadUid) (new : Kernel) : Type 0 where
  pub call : thread_kill u k ≡ done (tt, new)
  pub live :
      (v : ThreadUid)
      → thread_live new.block_map new.processes v ≡ (
          if uid_pid u == uid_pid v && uid_tid u == uid_tid v
          then done false
          else thread_live k.block_map k.processes v)
  pub threads : new.threads ≡ k.threads

Live-bit :
    (k : Kernel) (u : ThreadUid)
    → Live k u
    → bitmap_test (k.processes (uid_pid u)).thread_info.bitmap (uid_tid u) ≡ true
unfolding thread_live
Live-bit k u l = ground arith

kill-run :
    (k : Kernel) (u : ThreadUid)
    → Live k u
    → is_active (k.threads u).state ≡ false
    → thread_kill u k ≡ done (tt, record k { processes = buried k.processes u })
unfolding thread_kill
kill-run k u live idle =
    rw (thread_get-Live k u live, thread_kill)
      (rw (idle) (
        rw (process_get-LiveProcess k (uid_pid u) (Live-process k u live))
          (rw (Live-bit k u live) refl)))

buried-bit :
    (ps : ℕ → Process) (u : ThreadUid) (p j : ℕ)
    → IsWords (ps (uid_pid u)).thread_info.bitmap
    → bitmap_test (buried ps u p).thread_info.bitmap j ≡ (
        if uid_pid u == p && uid_tid u == j then false else bitmap_test (ps p).thread_info.bitmap j)
buried-bit ps u p j words =
    ground (arith, test-clear (ps (uid_pid u)).thread_info.bitmap (uid_tid u) j words)

-- The process of `u` is alive.
same-owner :
    (k : Kernel) (u v : ThreadUid)
    → Live k u
    → (uid_pid u == uid_pid v && uid_tid u == uid_tid v) ≡ true
    → process_live k.block_map (uid_pid v) ≡ done true
same-owner k u v l same =
    subst (λ p. process_live k.block_map p ≡ done true)
      ((==_iff (uid_pid u) (uid_pid v)).0 (ground arith)) (Live-process k u l)

buried-Live :
    (k : Kernel) (u v : ThreadUid)
    → Live k u
    → IsWords (k.processes (uid_pid u)).thread_info.bitmap
    → thread_live k.block_map (buried k.processes u) v ≡ (
        if uid_pid u == uid_pid v && uid_tid u == uid_tid v
        then done false
        else thread_live k.block_map k.processes v)
unfolding thread_live
buried-Live k u v l words =
    let bit = buried-bit k.processes u (uid_pid v) (uid_tid v) words in
    elim (Bool-cases (uid_pid u == uid_pid v && uid_tid u == uid_tid v))
      as (λ _. thread_live k.block_map (buried k.processes u) v ≡ (
        if uid_pid u == uid_pid v && uid_tid u == uid_tid v
        then done false
        else thread_live k.block_map k.processes v)) [
          | inl same ↦ ground (arith, same, bit, same-owner k u v l same)
          | inr other ↦ ground (arith, other, bit)
        ]

-- `thread_kill` of a live thread that is not active does not halt. Afterwards it cannot be looked
-- up, every other thread can be as before, and no control block of a thread is changed.
pub thread_kill-Kills :
    (k : Kernel) (u : ThreadUid)
    → Live k u
    → is_active (k.threads u).state ≡ false
    → IsWords (k.processes (uid_pid u)).thread_info.bitmap
    → (new : Kernel) × Kills k u new
thread_kill-Kills k u live idle words = (
  record k { processes = buried k.processes u },
  record {
    call = kill-run k u live idle;
    live = λ v. buried-Live k u v live words;
    threads = refl;
  },
)
