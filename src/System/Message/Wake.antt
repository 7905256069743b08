-- ===== src/System/Message/Wake.antt =====
-- `internal_ksend` of kernel/core/system/message/internal_kmsg.c to a thread that waits for it.
use mathlib.Core.Path.{subst}
use horizon_microkernel.Prelude.{
  ℕ, ◌<◌, ◌≡◌, ◌∙◌, ap, refl, sym, some, true, false, ◌==◌, leb, arith, List, [], ◌∷◌, ◌++◌,
}
use horizon_microkernel.Prelude.Outcome.{done}
use horizon_microkernel.State.{
  Kernel, Message, Thread, ThreadState, fresh, active, sending, waiting, old, ThreadUid, uid_pid,
  Args, is_waiting, is_active, and_then,
}
use horizon_microkernel.Multitask.Table.{
  Live, Live-process, Live-pid, thread_get-Live, process_get-LiveProcess,
}
use horizon_microkernel.Multitask.Scheduler.{scheduler_add}
use horizon_microkernel.Multitask.Scheduler.Queue.{Schedules, sans_links}
use horizon_microkernel.Multitask.Scheduler.Add.{scheduler_add-Adds}
use horizon_microkernel.Ipc.Port.{iport_kernel, port_to_uid, port_compare}
use horizon_microkernel.Ipc.Message.{nil, message_add}
use horizon_microkernel.Ipc.Message.Queue.{Queues, HasQueue}
use horizon_microkernel.Ipc.Message.Post.{Holds}
use horizon_microkernel.Ipc.Message.Remove.{queue_left}
use horizon_microkernel.Ipc.Message.Prepend.{message_add-Prepends}
use horizon_microkernel.System.Message.{wakes, internal_ksend, kernel_msg}

-- The queues of messages do not depend on what the scheduler keeps in the threads.
Queues-scheduled :
    (k l : Kernel) (qs : ThreadUid → List ℕ)
    → ((v : ThreadUid) → sans_links (l.threads v) ≡ sans_links (k.threads v))
    → k ≡ record l { threads = k.threads; active_thread = k.active_thread }
    → Queues k qs
    → Queues l qs
Queues-scheduled k l qs same rest q =
    let r : Queues (record l { threads = k.threads; active_thread = k.active_thread }) qs =
      subst (λ m. Queues m qs) rest q in
    record {
      queue = λ v alive.
          subst
            (λ i.
              HasQueue (l.messages (uid_pid v)) i (l.processes (uid_pid v)).msg_info.bitmap (qs v))
            (ap (λ (t : Thread). t.msg_info) (sym (same v))) (r.queue v alive);
      apart = r.apart;
      slots = r.slots;
    }

waiting-idle : (s : ThreadState) → is_waiting s ≡ true → is_active s ≡ false
waiting-idle fresh h = refl
waiting-idle active h = sym h
waiting-idle sending h = refl
waiting-idle waiting h = refl
waiting-idle old h = refl

-- What `internal_ksend` does to the kernel `k` for a thread that it wakes.
pub record Wakes (k : Kernel) (qs : ThreadUid → List ℕ) (order : List ThreadUid) (u : ThreadUid)
    (port code : ℕ) (args : Args) (i : ℕ) (new : Kernel) : Type 0 where
  pub call : internal_ksend port code args k ≡ done (tt, new)
  pub queues : Queues new (queue_left qs u (i ∷ qs u))
  pub content : Holds (new.messages (uid_pid u) i) iport_kernel code args false
  pub queue : Schedules new (order ++ u ∷ [])

wakes-waiting :
    (k : Kernel) (u : ThreadUid) (port : ℕ)
    → is_waiting (k.threads u).state ≡ true
    → port_compare (k.threads u).syscall_info.wait_for port ≡ true
    → wakes (some u) port k ≡ done (true, k)
unfolding wakes
wakes-waiting k u port waits covers = rw (waits, covers) refl

ksend_wake-run :
    (k : Kernel) (u : ThreadUid) (port code : ℕ) (args : Args)
    → port_to_uid port 0 k ≡ done (u, k)
    → (u == 0) ≡ false
    → Live k u
    → leb 1024 (k.processes (uid_pid u)).msg_info.count ≡ false
    → is_waiting (k.threads u).state ≡ true
    → port_compare (k.threads u).syscall_info.wait_for iport_kernel ≡ true
    → internal_ksend port code args k
      ≡ and_then
          (message_add u iport_kernel (kernel_msg port code args) true k)
          (λ _. scheduler_add u)
unfolding internal_ksend
ksend_wake-run k u port code args to some_uid live room waits covers =
    rw (to, some_uid, internal_ksend)
      (rw (process_get-LiveProcess k (uid_pid u) (Live-process k u live)) (
        rw (room)
          (rw (thread_get-Live k u live) (rw (wakes-waiting k u iport_kernel waits covers) refl))))

-- The queues of all threads are lists of slots, the scheduler's queue is `order`, the port resolves
-- to a live thread that waits for a port that covers the kernel's, its process has fewer than 1024
-- messages, and the head of its queue is -1 if the queue is empty. Then `internal_ksend` does not
-- halt: a message from the kernel's port with the code and the arguments, and without a payload, is in
-- front of the thread's queue, and the thread is scheduled last.
pub internal_ksend-Wakes :
    (k : Kernel) (qs : ThreadUid → List ℕ) (order : List ThreadUid) (u : ThreadUid) (port code : ℕ)
    (args : Args)
    → Queues k qs
    → Schedules k order
    → port_to_uid port 0 k ≡ done (u, k)
    → Live k u
    → (k.processes (uid_pid u)).msg_info.count < 1024
    → ((k.threads u).msg_info.count ≡ 0 → (k.threads u).msg_info.head ≡ nil)
    → is_waiting (k.threads u).state ≡ true
    → port_compare (k.threads u).syscall_info.wait_for iport_kernel ≡ true
    → (i : ℕ) × (new : Kernel) × Wakes k qs order u port code args i new
internal_ksend-Wakes k qs order u port code args q s to live room end waits covers =
    let (i, mid, p) =
      message_add-Prepends k qs u iport_kernel (kernel_msg port code args) q live room end in
    let idle : is_active (mid.threads u).state ≡ false =
      rw (p.state) (waiting-idle (k.threads u).state waits) in
    let (new, a) = scheduler_add-Adds mid u order (p.scheduling order s) (p.alive u live) idle in
    (
      i,
      new,
      record {
        call =
            ksend_wake-run k u port code args to (ground (arith, Live-pid k u live)) live
              (ground (arith, room)) waits covers
            ∙ ap (λ r. and_then {A = Unit {0}} r (λ _. scheduler_add u)) p.call
            ∙ a.call;
        queues = Queues-scheduled mid new (queue_left qs u (i ∷ qs u)) a.untouched a.rest p.queues;
        content =
            subst (λ (ms : ℕ → ℕ → Message). Holds (ms (uid_pid u) i) iport_kernel code args false)
              (ap (λ (m : Kernel). m.messages) a.rest) p.content;
        queue = a.queue;
      },
    )
