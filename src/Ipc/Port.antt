-- ===== src/Ipc/Port.antt =====
-- kernel/core/ipc/port.c: ports, 32-bit names of threads. The format is `union port_fmt`, 10 bits
-- of PID, 8 of the process's version, 6 of TID, 8 of the thread's version, from the low end.
pub mod Laws
use horizon_microkernel.Prelude.{
  ℕ, ◌+◌, ◌*◌, ◌/◌, ◌%◌, ◌^◌, Bool, true, not, ◌&&◌, ◌||◌, Option, none, some, ◌==◌, if◌then◌else◌,
}
use horizon_microkernel.State.{
  ThreadUid, uid_pid, thread_uid, K, pure, ◌>>=◌, ◌>>◌, dassert, is_some, load, load_process,
}
use horizon_microkernel.Multitask.Table.{process_get, thread_get}

-- `IPORT_ANY` and `IPORT_KERNEL` of horizon/ipc.h
abbrev pub iport_any : ℕ
iport_any = 1

abbrev pub iport_kernel : ℕ
iport_kernel = 2 ^ 18 + 1

abbrev pub fmt_pid : ℕ → ℕ
fmt_pid port = port % 2 ^ 10

abbrev pub fmt_pvn : ℕ → ℕ
fmt_pvn port = port / 2 ^ 10 % 2 ^ 8

abbrev pub fmt_tid : ℕ → ℕ
fmt_tid port = port / 2 ^ 18 % 2 ^ 6

abbrev pub fmt_tvn : ℕ → ℕ
fmt_tvn port = port / 2 ^ 24 % 2 ^ 8

-- `raw` of the format with these fields, each cut to its bits.
abbrev pub port_fmt : ℕ → ℕ → ℕ → ℕ → ℕ
port_fmt pid pvn tid tvn =
    pid % 2 ^ 10 + 2 ^ 10 * (pvn % 2 ^ 8) + 2 ^ 18 * (tid % 2 ^ 6) + 2 ^ 24 * (tvn % 2 ^ 8)

abbrev pub unversioned : ℕ → Bool
unversioned port = fmt_pvn port == 0 && fmt_tvn port == 0

pub port_from_uid : ThreadUid → K ℕ
port_from_uid uid = do
  process ← process_get (uid_pid uid)
  dassert (is_some process)
  thread ← thread_get uid
  dassert (is_some thread)
  p ← load_process process
  t ← load thread
  pure (port_fmt p.pid p.version t.tid t.version)

-- The UID of a versioned port, if its thread lives and has these versions, else 0.
unfoldable pub check_versions : ℕ → Option ThreadUid → K ThreadUid
check_versions port none = pure 0
check_versions port (some uid) = do
  process ← process_get (uid_pid uid)
  p ← load_process process
  t ← load (some uid)
  pure (
      if not (p.version == fmt_pvn port) || not (t.version == fmt_tvn port)
      then 0
      else thread_uid (fmt_pid port) (fmt_tid port))

unfoldable pub port_to_uid : ℕ → ℕ → K ThreadUid
port_to_uid port parent =
    if port == iport_any || port == iport_kernel
    then pure (thread_uid 1 (fmt_tid port))
    else (if unversioned port
        then (if fmt_pid port == 0
            then pure (thread_uid parent (fmt_tid port))
            else pure (thread_uid (fmt_pid port) 0))
        else (do
          thread ← thread_get (thread_uid (fmt_pid port) (fmt_tid port))
          check_versions port thread))

unfoldable pub port_compare : ℕ → ℕ → Bool
port_compare port1 port2 =
    if port1 == iport_any || port2 == iport_any
    then true
    else (if unversioned port1 || unversioned port2
        then fmt_pid port1 == fmt_pid port2 && fmt_tid port1 == fmt_tid port2
        else port1 == port2)
