-- ===== src/Ipc/Message/Prepend.antt =====
-- `message_add` of kernel/core/ipc/message.c, with the new message in front of the others.
use horizon_microkernel.Prelude.{
  ℕ, ltb, ◌+◌, ◌≤◌, ◌<◌, ◌≡◌, ◌∙◌, ap, true, false, ◌==◌, if◌then◌else◌, arith, List, [], ◌∷◌, has,
}
use horizon_microkernel.Prelude.Outcome.{done}
use horizon_microkernel.Util.Bitmap.{Bitmap, bitmap_test}
use horizon_microkernel.Util.Bitmap.Find.{bitmap_find_and_set-Takes}
use horizon_microkernel.State.{Kernel, Message, MsgInfo, Msg, ThreadUid, uid_pid}
use horizon_microkernel.Multitask.Table.{Live, Live-process, Live-processes}
use horizon_microkernel.Multitask.Scheduler.Queue.{Schedules}
use horizon_microkernel.Ipc.Message.{nil, fill_slot, message_add}
use horizon_microkernel.Ipc.Message.Chain.{Messages, Chain-frame}
use horizon_microkernel.Ipc.Message.Queue.{Queues, HasQueue, Shape, sans_link, free_below}
use horizon_microkernel.Ipc.Message.Call.{slotted, prepended, add-run, prepend-run}
use horizon_microkernel.Ipc.Message.Grow.{queue-length}
use horizon_microkernel.Ipc.Message.Remove.{queue_left}
use horizon_microkernel.Ipc.Message.Post.{
  Holds, content-Holds, post-bits, post-Queues, post-Schedules,
}

-- What `prepend` writes to the links and the ends of a list.
record Fronted (ms ns : Messages) (info new : MsgInfo) (i : ℕ) : Type 0 where
  count : new.count ≡ info.count + 1
  head : new.head ≡ i
  tail : new.tail ≡ (if info.count == 0 then i else info.tail)
  links : (j : ℕ) → (ns j).next ≡ (if i == j then info.head else (ms j).next)

Fronted-Shape :
    (ms ns : Messages) (info new : MsgInfo) (i : ℕ) (bm : Bitmap) (xs : List ℕ)
    → Fronted ms ns info new i
    → HasQueue ms info bm xs
    → has i xs ≡ false
    → (info.count ≡ 0 → info.head ≡ nil)
    → Shape ns new (i ∷ xs)
Fronted-Shape ms ns info new i bm [] f q fresh end =
    (f.head, ground (arith, f.tail, q.count), ground (arith, f.links i, end, q.count))
Fronted-Shape ms ns info new i bm (x ∷ xs) f q fresh end =
    let (h, t, c) = q.shape in
    (
      f.head,
      ground (arith, f.tail, q.count, t),
      (
        ground (arith, f.links i, h),
        Chain-frame ms ns x xs (λ j g. ground (arith, f.links j, fresh)) c,
      ),
    )

front-HasQueue :
    (ms ns : Messages) (info new : MsgInfo) (i : ℕ) (bm cm : Bitmap) (xs : List ℕ)
    → Fronted ms ns info new i
    → HasQueue ms info bm xs
    → (info.count ≡ 0 → info.head ≡ nil)
    → i < 1024
    → bitmap_test bm i ≡ false
    → ((j : ℕ) → bitmap_test cm j ≡ (if i == j then true else bitmap_test bm j))
    → HasQueue ns new cm (i ∷ xs)
front-HasQueue ms ns info new i bm cm xs f q end inside clear bits =
    let fresh : has i xs ≡ false = ground (arith, q.used i, clear) in
    record {
      count = ground (arith, f.count, q.count);
      inside = λ j h. ground (arith, q.inside j);
      used = λ j h. ground (arith, q.used j, bits j);
      distinct = (fresh, q.distinct);
      shape = Fronted-Shape ms ns info new i bm xs f q fresh end;
    }

-- What `message_add` does to the kernel `k` when it puts the message in front.
pub record Prepends (k : Kernel) (qs : ThreadUid → List ℕ) (u : ThreadUid) (from : ℕ) (info : Msg)
    (i : ℕ) (new : Kernel) : Type 0 where
  pub call : message_add u from info true k ≡ done (tt, new)
  pub unused : bitmap_test (k.processes (uid_pid u)).msg_info.bitmap i ≡ false
  pub queues : Queues new (queue_left qs u (i ∷ qs u))
  pub content : Holds (new.messages (uid_pid u) i) from info.code info.args (ltb 0 info.size)
  pub kept : (p j : ℕ) → (p ≡ uid_pid u → i == j ≡ false) → new.messages p j ≡ k.messages p j
  pub scheduling : (order : List ThreadUid) → Schedules k order → Schedules new order
  pub alive : (v : ThreadUid) → Live k v → Live new v
  pub state : (new.threads u).state ≡ (k.threads u).state

module _ (k : Kernel) (u : ThreadUid) (from i : ℕ) (info : Msg) where
  abbrev after : Kernel
  after = prepended (slotted k (uid_pid u) i from info) u i

  after-Fronted :
      i < 1024
      → (k.threads u).msg_info.count ≤ 1024
      → Fronted
          (k.messages (uid_pid u))
          (after.messages (uid_pid u))
          (k.threads u).msg_info
          (after.threads u).msg_info
          i
  after-Fronted h l = record {
    count = ground (arith, l);
    head = ground (arith, h);
    tail = ground (arith, h);
    links = λ j. ground arith;
  }

  after-info :
      (v : ThreadUid) → u == v ≡ false → (after.threads v).msg_info ≡ (k.threads v).msg_info
  after-info v ne = ground (arith, ne)

  after-sched : (v : ThreadUid) → (after.threads v).sched_info ≡ (k.threads v).sched_info
  after-sched v = ground arith

  after-state : (v : ThreadUid) → (after.threads v).state ≡ (k.threads v).state
  after-state v = ground arith

  after-kept : (p j : ℕ) → (p ≡ uid_pid u → i == j ≡ false) → after.messages p j ≡ k.messages p j
  after-kept p j other = ground arith

  after-filled : sans_link (after.messages (uid_pid u) i) ≡ record {
    from = from;
    code = info.code;
    args = info.args;
    next = 0;
    payload = ltb 0 info.size;
  }
  unfolding fill_slot
  after-filled = ground arith

  after-content : Holds (after.messages (uid_pid u) i) from info.code info.args (ltb 0 info.size)
  after-content =
      content-Holds (after.messages (uid_pid u) i) from info.code info.args (ltb 0 info.size)
        after-filled

-- If the queues of all threads are lists of slots, the thread is alive, its process has fewer than
-- 1024 messages, and the head of its queue is -1 if the queue is empty, then `message_add` with
-- `head` true does not halt: it takes a slot that was unused, puts the message into it (sender, code, arguments, and whether there is
-- a payload), adds it in
-- front of the thread's queue, and keeps the queues of all other threads, every other message, and
-- the queue of the scheduler.
pub message_add-Prepends :
    (k : Kernel) (qs : ThreadUid → List ℕ) (u : ThreadUid) (from : ℕ) (info : Msg)
    → Queues k qs
    → Live k u
    → (k.processes (uid_pid u)).msg_info.count < 1024
    → ((k.threads u).msg_info.count ≡ 0 → (k.threads u).msg_info.head ≡ nil)
    → (i : ℕ) × (new : Kernel) × Prepends k qs u from info i new
message_add-Prepends k qs u from info q live room end =
    let s = q.slots (uid_pid u) (Live-process k u live) in
    let bm = (k.processes (uid_pid u)).msg_info.bitmap in
    let (c, small, free) = free_below 1024 bm (omega (arith, room, s.counted)) in
    let (i, l, t) = bitmap_find_and_set-Takes bm 1024 c s.words small free in
    let inside : i < 1024 = omega (arith, l, small) in
    let new = after k u from i info in
    let few : (k.threads u).msg_info.count ≤ 1024 =
      omega (arith, (q.queue u live).count, queue-length k qs u q live) in
    (
      i,
      new,
      record {
        call =
            add-run k u from i info live (ground (arith, room)) t.result true
            ∙ prepend-run (slotted k (uid_pid u) i from info) u i;
        unused = t.clear;
        queues =
            post-Queues k qs u i q live inside t.clear new.messages new.threads (i ∷ qs u)
              (λ j. ground arith) (after-info k u from i info)
              (λ p j apart.
                ap (λ (m : Message). m.next) (after-kept k u from i info p j (λ e. (apart e).0)))
              (front-HasQueue (k.messages (uid_pid u)) (new.messages (uid_pid u))
                (k.threads u).msg_info (new.threads u).msg_info i bm
                (new.processes (uid_pid u)).msg_info.bitmap (qs u)
                (after-Fronted k u from i info inside few) (q.queue u live) end inside t.clear
                (post-bits k u i new.messages new.threads));
        content = after-content k u from i info;
        kept = after-kept k u from i info;
        scheduling =
            post-Schedules k u i new.messages new.threads (after-sched k u from i info)
              (after-state k u from i info);
        alive = λ v l. Live-processes k new.processes v (λ p. ground arith) l;
        state = after-state k u from i info u;
      },
    )
