-- ===== src/Ipc/Message/Add.antt =====
-- `message_add` of kernel/core/ipc/message.c, with the new message behind the others.

use horizon_microkernel.Prelude.{
  ℕ, ltb, ◌≤◌, ◌<◌, ◌≡◌, ◌∙◌, false, ◌==◌, if◌then◌else◌, arith, List, [], ◌∷◌, ◌++◌,
}
use horizon_microkernel.Prelude.Outcome.{done}
use horizon_microkernel.Prelude.Members.{has-snoc}
use horizon_microkernel.Util.Bitmap.{bitmap_test}
use horizon_microkernel.Util.Bitmap.Find.{bitmap_find_and_set-Takes}
use horizon_microkernel.State.{Kernel, Msg, ThreadUid, uid_pid}
use horizon_microkernel.Multitask.Table.{Live, Live-process}
use horizon_microkernel.Ipc.Message.{nil, fill_slot, message_add}
use horizon_microkernel.Ipc.Message.Queue.{QueueOf, Queues, sans_link, free_below}
use horizon_microkernel.Ipc.Message.Remove.{queue_left}
use horizon_microkernel.Ipc.Message.Post.{Holds, content-Holds, post-bits, post-Queues}
use horizon_microkernel.Ipc.Message.Call.{slotted, appended, add-run, append-run}
use horizon_microkernel.Ipc.Message.Grow.{queue-length, grow-HasQueue, Grown}

-- What `message_add` does to the kernel `k` when it appends.
pub record Appends (k : Kernel) (qs : ThreadUid → List ℕ) (u : ThreadUid) (from : ℕ) (info : Msg)
    (i : ℕ) (new : Kernel) : Type 0 where
  pub call : message_add u from info false k ≡ done (tt, new)
  pub unused : bitmap_test (k.processes (uid_pid u)).msg_info.bitmap i ≡ false
  pub queues : Queues new (queue_left qs u (qs u ++ i ∷ []))
  pub content : Holds (new.messages (uid_pid u) i) from info.code info.args (ltb 0 info.size)
  pub kept :
      (p j : ℕ)
      → (p ≡ uid_pid u → i == j ≡ false)
      → sans_link (new.messages p j) ≡ sans_link (k.messages p j)

module _ (k : Kernel) (u : ThreadUid) (from i : ℕ) (info : Msg) where
  abbrev after : Kernel
  after = appended (slotted k (uid_pid u) i from info) u i

  after-links :
      (j : ℕ)
      → i < 1024
      → (after.messages (uid_pid u) j).next ≡ (
          if i == j
          then nil
          else if (k.threads u).msg_info.count == 0
          then (k.messages (uid_pid u) j).next
          else if (k.threads u).msg_info.tail == j
          then i
          else (k.messages (uid_pid u) j).next)
  after-links j h = ground arith

  after-Grown :
      i < 1024
      → (k.threads u).msg_info.count ≤ 1024
      → Grown
          (k.messages (uid_pid u))
          (after.messages (uid_pid u))
          (k.threads u).msg_info
          (after.threads u).msg_info
          i
  after-Grown h l = record {
    count = ground (arith, l);
    head = ground (arith, h);
    tail = ground (arith, h);
    links = λ j. after-links j h;
  }

  other-info :
      (v : ThreadUid) → u == v ≡ false → (after.threads v).msg_info ≡ (k.threads v).msg_info
  other-info v ne = ground (arith, ne)

  other-link :
      (p j : ℕ)
      → (p ≡ uid_pid u
          → (i == j ≡ false)
            × ((k.threads u).msg_info.count == 0 ≡ false
                → (k.threads u).msg_info.tail == j ≡ false))
      → (after.messages p j).next ≡ (k.messages p j).next
  other-link p j apart = ground arith

  after-kept :
      (p j : ℕ)
      → (p ≡ uid_pid u → i == j ≡ false)
      → sans_link (after.messages p j) ≡ sans_link (k.messages p j)
  after-kept p j other = ground arith

  after-filled : sans_link (after.messages (uid_pid u) i) ≡ record {
    from = from;
    code = info.code;
    args = info.args;
    next = 0;
    payload = ltb 0 info.size;
  }
  unfolding fill_slot
  after-filled = ground arith

  after-content : Holds (after.messages (uid_pid u) i) from info.code info.args (ltb 0 info.size)
  after-content =
      content-Holds (after.messages (uid_pid u) i) from info.code info.args (ltb 0 info.size)
        after-filled

module _ (k : Kernel) (qs : ThreadUid → List ℕ) (u : ThreadUid) (from i : ℕ) (info : Msg)
    (q : Queues k qs) (live : Live k u) (inside : i < 1024)
    (clear : bitmap_test (k.processes (uid_pid u)).msg_info.bitmap i ≡ false) where
  abbrev grown : Kernel
  grown = after k u from i info

  few : (k.threads u).msg_info.count ≤ 1024
  few = omega (arith, (q.queue u live).count, queue-length k qs u q live)

  own_queue : QueueOf grown u (qs u ++ i ∷ [])
  own_queue =
      grow-HasQueue (k.messages (uid_pid u)) (grown.messages (uid_pid u)) (k.threads u).msg_info
        (grown.threads u).msg_info i (k.processes (uid_pid u)).msg_info.bitmap
        (grown.processes (uid_pid u)).msg_info.bitmap (qs u)
        (after-Grown k u from i info inside few) (q.queue u live) inside clear
        (post-bits k u i grown.messages grown.threads)

  grown-Queues : Queues grown (queue_left qs u (qs u ++ i ∷ []))
  grown-Queues =
      post-Queues k qs u i q live inside clear grown.messages grown.threads (qs u ++ i ∷ [])
        (λ j. ground (arith, has-snoc j i (qs u))) (other-info k u from i info)
        (other-link k u from i info) own_queue

-- If the queues of all threads are lists of slots, the thread is alive, and the process has fewer
-- than 1024 messages, then `message_add` with `head` false does not halt: it takes a slot that was
-- unused, puts the message into it (sender, code, arguments, and whether there is
-- a payload), adds it behind the messages of the thread's queue, keeps the
-- queues of all other threads, and changes no other message but for its link.
pub message_add-Appends :
    (k : Kernel) (qs : ThreadUid → List ℕ) (u : ThreadUid) (from : ℕ) (info : Msg)
    → Queues k qs
    → Live k u
    → (k.processes (uid_pid u)).msg_info.count < 1024
    → (i : ℕ) × (new : Kernel) × Appends k qs u from info i new
message_add-Appends k qs u from info q live room =
    let s = q.slots (uid_pid u) (Live-process k u live) in
    let (c, small, free) =
      free_below 1024 (k.processes (uid_pid u)).msg_info.bitmap (omega (arith, room, s.counted)) in
    let (i, l, t) =
      bitmap_find_and_set-Takes (k.processes (uid_pid u)).msg_info.bitmap 1024 c s.words small
        free in
    (
      i,
      after k u from i info,
      record {
        call =
            add-run k u from i info live (ground (arith, room)) t.result false
            ∙ append-run (slotted k (uid_pid u) i from info) u i;
        unused = t.clear;
        queues = grown-Queues k qs u from i info q live (omega (arith, l, small)) t.clear;
        content = after-content k u from i info;
        kept = after-kept k u from i info;
      },
    )
