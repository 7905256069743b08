-- ===== src/Ipc/Message/Remove.antt =====
-- `message_remove` and `message_peek` of kernel/core/ipc/message.c.
use mathlib.Core.Path.{subst}
use horizon_microkernel.Prelude.{
  ℕ, ◌+◌, ◌≤◌, ◌≡◌, ◌∙◌, ap, refl, sym, inl, inr, true, false, ◌==◌, ==_iff, if◌then◌else◌,
  Bool-cases, arith, List, [], ◌∷◌, has, write,
}
use horizon_microkernel.Prelude.Words.{sub_word}
use horizon_microkernel.Prelude.Outcome.{done}
use horizon_microkernel.Util.Bitmap.{Bitmap, bitmap_test, bitmap_clear}
use horizon_microkernel.Util.Bitmap.Laws.{test-clear, clear-IsWords}
use horizon_microkernel.State.{
  Kernel, MsgInfo, ThreadUid, uid_pid, set_queue_bitmap, set_queue_count, set_msg_head,
  set_msg_count,
}
use horizon_microkernel.Multitask.Table.{
  Live, LiveProcess, Live-process, Live-processes, thread_get-Live, process_get-LiveProcess,
}
use horizon_microkernel.Ipc.Message.{Delivery, delivery, message_remove, message_peek}
use horizon_microkernel.Ipc.Message.Chain.{Messages}
use horizon_microkernel.Ipc.Message.Queue.{QueueOf, Queues, HasQueue, Slots, taken-le, taken-clear}
use horizon_microkernel.Ipc.Message.Grow.{queue-length, frame-HasQueue}

-- The queues with `xs` for `u`.
abbrev pub queue_left : (ThreadUid → List ℕ) → ThreadUid → List ℕ → ThreadUid → List ℕ
queue_left qs u xs v = if u == v then xs else qs v

-- What `message_remove` does to the kernel `k`, whose first message for `u` is in slot `x`.
pub record Drops (k : Kernel) (qs : ThreadUid → List ℕ) (u : ThreadUid) (x : ℕ) (xs : List ℕ)
    (new : Kernel) : Type 0 where
  pub message : Delivery
  pub call : message_remove u k ≡ done (((k.messages (uid_pid u) x).payload, message), new)
  pub sender : message.from ≡ (k.messages (uid_pid u) x).from
  pub number : message.code ≡ (k.messages (uid_pid u) x).code
  pub words : message.args ≡ (k.messages (uid_pid u) x).args
  pub unused : bitmap_test (new.processes (uid_pid u)).msg_info.bitmap x ≡ false
  pub queues : Queues new (queue_left qs u xs)
  pub kept : new.messages ≡ k.messages

abbrev dropped : Kernel → ThreadUid → ℕ → Kernel
dropped k u x = record k {
  processes =
      write
        (write k.processes (uid_pid u)
          (set_queue_bitmap (bitmap_clear (k.processes (uid_pid u)).msg_info.bitmap x)))
        (uid_pid u) (λ p. set_queue_count (sub_word p.msg_info.count 1) p);
  threads =
      write (write k.threads u (set_msg_head (k.messages (uid_pid u) x).next)) u
        (λ t. set_msg_count (sub_word t.msg_info.count 1) t);
}

remove-run :
    (k : Kernel) (u : ThreadUid) (x : ℕ)
    → Live k u
    → (k.threads u).msg_info.count == 0 ≡ false
    → (k.threads u).msg_info.head ≡ x
    → message_remove u k
      ≡ done
          (((k.messages (uid_pid u) x).payload, delivery (k.messages (uid_pid u) x)), dropped k u x)
unfolding message_remove
remove-run k u x live some_message head =
    subst
      (λ y.
        message_remove u k
        ≡ done (
          ((k.messages (uid_pid u) y).payload, delivery (k.messages (uid_pid u) y)),
          dropped k u y,
        ))
      head
      (rw (process_get-LiveProcess k (uid_pid u) (Live-process k u live), message_remove)
        (rw (thread_get-Live k u live) (rw (some_message) refl)))

peek-run :
    (k : Kernel) (u : ThreadUid)
    → Live k u
    → (k.threads u).msg_info.count == 0 ≡ false
    → message_peek u k
      ≡ done (
        (
          (k.messages (uid_pid u) (k.threads u).msg_info.head).payload,
          (k.messages (uid_pid u) (k.threads u).msg_info.head).from,
        ),
        k,
      )
unfolding message_peek
peek-run k u live some_message =
    rw (process_get-LiveProcess k (uid_pid u) (Live-process k u live), message_peek)
      (rw (thread_get-Live k u live) (rw (some_message) refl))

-- A queue without its first slot.
rest-HasQueue :
    (ms : Messages) (info new : MsgInfo) (bm cm : Bitmap) (x : ℕ) (xs : List ℕ)
    → HasQueue ms info bm (x ∷ xs)
    → new.count + 1 ≡ info.count
    → new.head ≡ (ms x).next
    → new.tail ≡ info.tail
    → ((j : ℕ) → has j xs ≡ true → bitmap_test cm j ≡ true)
    → HasQueue ms new cm xs
rest-HasQueue ms info new bm cm x [] q count head tail used = record {
  count = omega (arith, count, q.count);
  inside = λ j h. q.inside j (ground arith);
  used = used;
  distinct = tt;
  shape = tt;
}
rest-HasQueue ms info new bm cm x (y ∷ ys) q count head tail used = record {
  count = omega (arith, count, q.count);
  inside = λ j h. q.inside j (ground arith);
  used = used;
  distinct = q.distinct.1;
  shape = (head ∙ q.shape.2.0, tail ∙ q.shape.1, q.shape.2.1);
}

module _ (k : Kernel) (qs : ThreadUid → List ℕ) (u : ThreadUid) (x : ℕ) (xs : List ℕ)
    (q : Queues k qs) (live : Live k u) (list : qs u ≡ x ∷ xs) where
  abbrev bits : Bitmap
  bits = (k.processes (uid_pid u)).msg_info.bitmap

  own : QueueOf k u (x ∷ xs)
  own = subst (λ ys. QueueOf k u ys) list (q.queue u live)

  few : (k.threads u).msg_info.count ≤ 1024
  few = omega (arith, (q.queue u live).count, queue-length k qs u q live)

  dropped-bits :
      (j : ℕ)
      → bitmap_test ((dropped k u x).processes (uid_pid u)).msg_info.bitmap j
        ≡ (if x == j then false else bitmap_test bits j)
  dropped-bits j =
      ground (arith, test-clear bits x j (q.slots (uid_pid u) (Live-process k u live)).words)

  own_queue : QueueOf (dropped k u x) u xs
  own_queue =
      rest-HasQueue (k.messages (uid_pid u)) (k.threads u).msg_info
        ((dropped k u x).threads u).msg_info bits
        ((dropped k u x).processes (uid_pid u)).msg_info.bitmap x xs own
        (ground (arith, few, own.count)) (ground arith) (ground arith)
        (λ j h. ground (arith, dropped-bits j, own.used j, own.distinct))

  other-info :
      (v : ThreadUid)
      → u == v ≡ false
      → ((dropped k u x).threads v).msg_info ≡ (k.threads v).msg_info
  other-info v ne = ground (arith, ne)

  other-unlike :
      (v : ThreadUid) (j : ℕ)
      → Live k v
      → u == v ≡ false
      → has j (qs v) ≡ true
      → uid_pid v ≡ uid_pid u
      → x == j ≡ false
  other-unlike v j lv ne h p =
      let head_in : has x (qs u) ≡ true = subst (λ ys. has x ys ≡ true) (sym list) (ground arith) in
      ground (arith, q.apart u v x live lv ne (sym p) head_in, h)

  other-used :
      (p j : ℕ)
      → (p ≡ uid_pid u → x == j ≡ false)
      → bitmap_test (k.processes p).msg_info.bitmap j ≡ true
      → bitmap_test ((dropped k u x).processes p).msg_info.bitmap j ≡ true
  other-used p j other set =
      ground (arith, test-clear bits x j (q.slots (uid_pid u) (Live-process k u live)).words)

  other_queue : (v : ThreadUid) → Live k v → u == v ≡ false → QueueOf (dropped k u x) v (qs v)
  other_queue v lv ne =
      subst
        (λ i.
          HasQueue (k.messages (uid_pid v)) i
            ((dropped k u x).processes (uid_pid v)).msg_info.bitmap (qs v))
        (sym (other-info v ne))
        (frame-HasQueue (k.messages (uid_pid v)) (k.messages (uid_pid v)) (k.threads v).msg_info
          (k.processes (uid_pid v)).msg_info.bitmap
          ((dropped k u x).processes (uid_pid v)).msg_info.bitmap (qs v) (q.queue v lv)
          (λ j h. refl)
          (λ j h.
            other-used (uid_pid v) j (λ p. other-unlike v j lv ne h p) ((q.queue v lv).used j h)))

  has-left : (v : ThreadUid) (j : ℕ) → has j (queue_left qs u xs v) ≡ true → has j (qs v) ≡ true
  has-left v j h = elim (Bool-cases (u == v)) [
    | inl e ↦
        subst (λ y. has j (queue_left qs u xs y) ≡ true → has j (qs y) ≡ true) ((==_iff u v).0 e)
          (λ g. subst (λ ys. has j ys ≡ true) (sym list) (ground (arith, g))) h
    | inr ne ↦ ground (arith, ne)
  ]

  dropped-Live : (v : ThreadUid) → Live (dropped k u x) v → Live k v
  dropped-Live v l = Live-processes (dropped k u x) k.processes v (λ p. ground arith) l

  dropped-apart :
      (v w : ThreadUid) (j : ℕ)
      → Live k v
      → Live k w
      → v == w ≡ false
      → uid_pid v ≡ uid_pid w
      → has j (queue_left qs u xs v) ≡ true
      → has j (queue_left qs u xs w) ≡ false
  dropped-apart v w j lv lw ne p h =
      let apart = q.apart v w j lv lw ne p (has-left v j h) in ground (arith, has-left w j, apart)

  dropped-Slots : (p : ℕ) → LiveProcess k p → Slots ((dropped k u x).processes p).msg_info
  dropped-Slots p l = elim (Bool-cases (uid_pid u == p)) [
    | inl e ↦
        subst (λ y. Slots ((dropped k u x).processes y).msg_info) ((==_iff (uid_pid u) p).0 e)
          (let s = q.slots (uid_pid u) (Live-process k u live) in
            record {
              words = λ j. ground (arith, s.words j, clear-IsWords bits x s.words j);
              counted = ground (
                arith,
                s.counted,
                taken-clear 1024 x bits s.words (own.inside x (ground arith))
                    (own.used x (ground arith)),
                taken-le 1024 bits,
              );
            })
    | inr ne ↦ record {
      words = λ j. ground (arith, (q.slots p l).words j);
      counted = ground (arith, (q.slots p l).counted);
    }
  ]

  own_list : xs ≡ queue_left qs u xs u
  own_list = ap (λ b. if b then xs else qs u) (sym ((==_iff u u).1 refl))

  dropped-Queues : Queues (dropped k u x) (queue_left qs u xs)
  dropped-Queues = record {
    queue = λ v l. elim (Bool-cases (u == v)) [
      | inl e ↦
          subst (λ y. QueueOf (dropped k u x) y (queue_left qs u xs y)) ((==_iff u v).0 e)
            (subst (λ ys. QueueOf (dropped k u x) u ys) own_list own_queue)
      | inr ne ↦
          subst (λ ys. QueueOf (dropped k u x) v ys) (ap (λ b. if b then xs else qs v) (sym ne))
            (other_queue v (dropped-Live v l) ne)
    ];
    apart = λ v w j lv lw. dropped-apart v w j (dropped-Live v lv) (dropped-Live w lw);
    slots = λ p l. dropped-Slots p l;
  }

  -- If the queues of all threads are lists of slots, and the queue of a live thread is slot `x` and
  -- then the slots `xs`, then `message_remove` does not halt: it returns the payload flag and the
  -- content of the message in slot `x`, and leaves `xs` as the thread's queue. The slot is unused
  -- from then on, the queues of all other threads are kept, and no message is written.
  pub message_remove-Drops : (new : Kernel) × Drops k qs u x xs new
  message_remove-Drops = (
    dropped k u x,
    record {
      message = delivery (k.messages (uid_pid u) x);
      call = remove-run k u x live (ground (arith, own.count)) own.shape.0;
      sender = refl;
      number = refl;
      words = refl;
      unused = ground (arith, dropped-bits x);
      queues = dropped-Queues;
      kept = refl;
    },
  )

  -- Under the same conditions `message_peek` returns the payload flag and the sender of the message
  -- in slot `x` and changes nothing.
  pub message_peek-first :
      message_peek u k
      ≡ done (((k.messages (uid_pid u) x).payload, (k.messages (uid_pid u) x).from), k)
  message_peek-first =
      subst
        (λ y.
          message_peek u k
          ≡ done (((k.messages (uid_pid u) y).payload, (k.messages (uid_pid u) y).from), k))
        own.shape.0 (peek-run k u live (ground (arith, own.count)))
