-- ===== src/System/Message.antt =====
-- kernel/core/system/message: syscall_peek and internal_ksend.
pub mod Wake
use horizon_microkernel.Prelude.Outcome.{done}
use horizon_microkernel.Ipc.Message.Queue.{Queues, sans_link}
use horizon_microkernel.Ipc.Message.Remove.{queue_left}
use horizon_microkernel.Ipc.Message.Post.{Holds}
use horizon_microkernel.Ipc.Message.Add.{Appends, message_add-Appends}
use horizon_microkernel.Prelude.{
  ◌<◌, ◌≡◌, ◌∙◌, ap, refl, arith, List, [], ◌∷◌, ◌++◌, ℕ, Bool, true, false, not, ◌&&◌, Option,
  none, some, leb, ◌==◌, if◌then◌else◌,
}
use horizon_microkernel.State.{
  Kernel, ThreadUid, uid_pid, Args, Msg, is_waiting, process_message_max, K, pure, and_then, ◌>>=◌,
  ◌>>◌, dassert, load, load_process,
}
use horizon_microkernel.Multitask.Table.{
  process_get, thread_get, Live, Live-process, Live-pid, thread_get-Live, process_get-LiveProcess,
}
use horizon_microkernel.Multitask.Task.{syscall_return_set}
use horizon_microkernel.Multitask.Scheduler.{scheduler_curr, scheduler_add}
use horizon_microkernel.Ipc.Port.{iport_kernel, port_to_uid, port_compare}
use horizon_microkernel.Ipc.Message.{message_add, message_peek}
use horizon_microkernel.System.Control.{enotavail}

-- Whether a message wakes its target.
unfoldable pub wakes : Option ThreadUid → ℕ → K Bool
wakes target port = do
  t ← load target
  pure (if is_waiting t.state then port_compare t.syscall_info.wait_for port else false)

-- The message that the kernel sends.
abbrev pub kernel_msg : ℕ → ℕ → Args → Msg
kernel_msg port code args = record { port = port; code = code; args = args; buf = 0; size = 0 }

-- A `dpanic` halts as a failed dassert does.
unfoldable pub internal_ksend : ℕ → ℕ → Args → K (Unit {0})
internal_ksend port code args = do
  target_uid ← port_to_uid port 0
  dassert (not (target_uid == 0))
  target_proc ← process_get (uid_pid target_uid)
  p ← load_process target_proc
  dassert (not (leb process_message_max p.msg_info.count))
  target ← thread_get target_uid
  woken ← wakes target iport_kernel
  message_add target_uid iport_kernel (kernel_msg port code args) woken
  if woken then scheduler_add target_uid else pure tt

-- The size of the payload, if its sender is still there.
unfoldable pub peek_size : Bool → ThreadUid → K (Unit {0})
peek_size has_payload sender_uid =
    if not (has_payload && not (sender_uid == 0)) then syscall_return_set 0 else (do
      sender ← thread_get sender_uid
      s ← load sender
      syscall_return_set s.syscall_info.payload_size)

unfoldable pub syscall_peek : K (Unit {0})
syscall_peek = do
  caller_uid ← scheduler_curr
  caller ← thread_get caller_uid
  c ← load caller
  if c.msg_info.count == 0 then syscall_return_set enotavail else (do
    peeked ← message_peek caller_uid
    sender_uid ← port_to_uid peeked.1 0
    peek_size peeked.0 sender_uid)

-- What `internal_ksend` does to the kernel `k`.
pub record Posts (k : Kernel) (qs : ThreadUid → List ℕ) (u : ThreadUid) (port code : ℕ)
    (args : Args) (i : ℕ) (new : Kernel) : Type 0 where
  pub call : internal_ksend port code args k ≡ done (tt, new)
  pub queues : Queues new (queue_left qs u (qs u ++ i ∷ []))
  pub content : Holds (new.messages (uid_pid u) i) iport_kernel code args false

wakes-idle :
    (k : Kernel) (u : ThreadUid) (port : ℕ)
    → is_waiting (k.threads u).state ≡ false
    → wakes (some u) port k ≡ done (false, k)
unfolding wakes
wakes-idle k u port idle = rw (idle) refl

ksend-run :
    (k : Kernel) (u : ThreadUid) (port code : ℕ) (args : Args)
    → port_to_uid port 0 k ≡ done (u, k)
    → (u == 0) ≡ false
    → Live k u
    → leb 1024 (k.processes (uid_pid u)).msg_info.count ≡ false
    → is_waiting (k.threads u).state ≡ false
    → internal_ksend port code args k
      ≡ and_then (message_add u iport_kernel (kernel_msg port code args) false k) (λ _. pure tt)
unfolding internal_ksend
ksend-run k u port code args to some_uid live room idle =
    rw (to, some_uid, internal_ksend)
      (rw (process_get-LiveProcess k (uid_pid u) (Live-process k u live))
        (rw (room) (rw (thread_get-Live k u live) (rw (wakes-idle k u iport_kernel idle) refl))))

-- The queues of all threads are lists of slots, the port resolves to a live thread that is not
-- waiting, and its process has fewer than 1024 messages. Then `internal_ksend` does not halt, and
-- a message from the kernel's port with the code and the arguments, and without a payload, is behind
-- the others in the thread's queue.
pub internal_ksend-Posts :
    (k : Kernel) (qs : ThreadUid → List ℕ) (u : ThreadUid) (port code : ℕ) (args : Args)
    → Queues k qs
    → port_to_uid port 0 k ≡ done (u, k)
    → Live k u
    → (k.processes (uid_pid u)).msg_info.count < 1024
    → is_waiting (k.threads u).state ≡ false
    → (i : ℕ) × (new : Kernel) × Posts k qs u port code args i new
internal_ksend-Posts k qs u port code args q to live room idle =
    let (i, new, a) =
      message_add-Appends k qs u iport_kernel (kernel_msg port code args) q live room in
    (
      i,
      new,
      record {
        call =
            ksend-run k u port code args to (ground (arith, Live-pid k u live)) live
              (ground (arith, room)) idle
            ∙ ap (λ r. and_then {A = Unit {0}} r (λ _. pure tt)) a.call;
        queues = a.queues;
        content = a.content;
      },
    )
