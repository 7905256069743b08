-- ===== src/Ipc/Message/Post.antt =====
-- What `message_add` leaves of the queues, wherever it puts the new message in the list.
use mathlib.Core.Path.{subst}
use horizon_microkernel.Prelude.{
  ℕ, ◌<◌, ◌≡◌, ap, refl, sym, inl, inr, true, false, ◌==◌, ==_iff, ◌||◌, if◌then◌else◌, Bool,
  Bool-cases, arith, List, has, write,
}
use horizon_microkernel.Util.Bitmap.{bitmap_test, bitmap_set}
use horizon_microkernel.Util.Bitmap.Laws.{test-set, set-IsWords}
use horizon_microkernel.State.{
  Kernel, is_active, Thread, Message, Args, ThreadUid, uid_pid, set_queue_bitmap,
}
use horizon_microkernel.Multitask.Table.{Live, LiveProcess, Live-processes}
use horizon_microkernel.Multitask.Scheduler.Lock.{same-Schedules}
use horizon_microkernel.Multitask.Scheduler.Queue.{Schedules}
use horizon_microkernel.Ipc.Message.Queue.{
  QueueOf, Queues, HasQueue, Slots, sans_link, taken-le, taken-set,
}
use horizon_microkernel.Ipc.Message.Call.{counted}
use horizon_microkernel.Ipc.Message.Grow.{tail_in, frame-HasQueue}
use horizon_microkernel.Ipc.Message.Remove.{queue_left}

-- The content of a message, apart from its link.
pub record Holds (m : Message) (from code : ℕ) (args : Args) (payload : Bool) : Type 0 where
  pub sender : m.from ≡ from
  pub number : m.code ≡ code
  pub words : m.args ≡ args
  pub has_payload : m.payload ≡ payload

pub content-Holds :
    (m : Message) (from code : ℕ) (args : Args) (payload : Bool)
    → sans_link m ≡ record { from = from; code = code; args = args; next = 0; payload = payload }
    → Holds m from code args payload
content-Holds m from code args payload e = record {
  sender = ap (λ (x : Message). x.from) e;
  number = ap (λ (x : Message). x.code) e;
  words = ap (λ (x : Message). x.args) e;
  has_payload = ap (λ (x : Message). x.payload) e;
}

-- The kernel with slot `i` taken for the process of `u`, for any messages and threads.
abbrev pub with_post : Kernel → ThreadUid → ℕ → (ℕ → ℕ → Message) → (ThreadUid → Thread) → Kernel
with_post k u i ms ts = record k {
  processes =
      counted
        (write k.processes (uid_pid u)
          (set_queue_bitmap (bitmap_set (k.processes (uid_pid u)).msg_info.bitmap i)))
        (uid_pid u);
  messages = ms;
  threads = ts;
}

module _ (k : Kernel) (u : ThreadUid) (i : ℕ) (ms : ℕ → ℕ → Message) (ts : ThreadUid → Thread) where
  pub post-Live : (v : ThreadUid) → Live (with_post k u i ms ts) v → Live k v
  post-Live v l = Live-processes (with_post k u i ms ts) k.processes v (λ p. ground arith) l

  pub post-bits :
      (j : ℕ)
      → bitmap_test ((with_post k u i ms ts).processes (uid_pid u)).msg_info.bitmap j
        ≡ (if i == j then true else bitmap_test (k.processes (uid_pid u)).msg_info.bitmap j)
  post-bits j = ground (arith, test-set (k.processes (uid_pid u)).msg_info.bitmap i j)

  post-used :
      (p j : ℕ)
      → bitmap_test (k.processes p).msg_info.bitmap j ≡ true
      → bitmap_test ((with_post k u i ms ts).processes p).msg_info.bitmap j ≡ true
  post-used p j set = ground (arith, test-set (k.processes (uid_pid u)).msg_info.bitmap i j)

module _ (k : Kernel) (qs : ThreadUid → List ℕ) (u : ThreadUid) (i : ℕ) (q : Queues k qs)
    (live : Live k u) (inside : i < 1024)
    (clear : bitmap_test (k.processes (uid_pid u)).msg_info.bitmap i ≡ false) (ms : ℕ → ℕ → Message)
    (ts : ThreadUid → Thread) (list : List ℕ)
    (members : (j : ℕ) → has j list ≡ (has j (qs u) || (j == i)))
    (infos : (v : ThreadUid) → u == v ≡ false → (ts v).msg_info ≡ (k.threads v).msg_info)
    (links : (p j : ℕ)
      → (p ≡ uid_pid u
          → (i == j ≡ false)
            × ((k.threads u).msg_info.count == 0 ≡ false
                → (k.threads u).msg_info.tail == j ≡ false))
      → (ms p j).next ≡ (k.messages p j).next)
    (own : QueueOf (with_post k u i ms ts) u list) where
  abbrev after : Kernel
  after = with_post k u i ms ts

  -- The tail of a list that is not empty is one of its slots.
  tail-has :
      (k.threads u).msg_info.count == 0 ≡ false → has (k.threads u).msg_info.tail (qs u) ≡ true
  tail-has ne =
      tail_in (k.messages (uid_pid u)) (k.threads u).msg_info
        (k.processes (uid_pid u)).msg_info.bitmap (qs u) (q.queue u live) ne

  other_slot :
      (v : ThreadUid) (j : ℕ)
      → Live k v
      → u == v ≡ false
      → has j (qs v) ≡ true
      → uid_pid v ≡ uid_pid u
      → (i == j ≡ false)
        × ((k.threads u).msg_info.count == 0 ≡ false → (k.threads u).msg_info.tail == j ≡ false)
  other_slot v j lv ne h p = (
    (let set =
          subst (λ x. bitmap_test (k.processes x).msg_info.bitmap j ≡ true) p
            ((q.queue v lv).used j h) in
        ground (arith, clear, set)),
    λ some_slot. ground (arith, tail-has some_slot, q.apart u v j live lv ne (sym p)),
  )

  other_queue : (v : ThreadUid) → Live k v → u == v ≡ false → QueueOf after v (qs v)
  other_queue v lv ne =
      subst
        (λ x.
          HasQueue (after.messages (uid_pid v)) x (after.processes (uid_pid v)).msg_info.bitmap
            (qs v))
        (sym (infos v ne))
        (frame-HasQueue (k.messages (uid_pid v)) (after.messages (uid_pid v)) (k.threads v).msg_info
          (k.processes (uid_pid v)).msg_info.bitmap (after.processes (uid_pid v)).msg_info.bitmap
          (qs v) (q.queue v lv) (λ j h. links (uid_pid v) j (λ p. other_slot v j lv ne h p))
          (λ j h. post-used k u i ms ts (uid_pid v) j ((q.queue v lv).used j h)))

  -- The new slot is in no queue of the process.
  new_slot : (v : ThreadUid) → Live k v → uid_pid v ≡ uid_pid u → has i (qs v) ≡ false
  new_slot v lv p =
      let used = (q.queue v lv).used i in
      subst
        (λ x.
          (has i (qs v) ≡ true → bitmap_test (k.processes x).msg_info.bitmap i ≡ true)
          → has i (qs v) ≡ false)
        (sym p) (λ f. ground (arith, f, clear)) used

  has-left :
      (v : ThreadUid) (j : ℕ)
      → has j (queue_left qs u list v) ≡ (has j (qs v) || (if u == v then j == i else false))
  has-left v j = elim (Bool-cases (u == v)) [
    | inl e ↦
        subst
          (λ x.
            has j (queue_left qs u list x) ≡ (has j (qs x) || (if u == x then j == i else false)))
          ((==_iff u v).0 e) (ground (arith, members j))
    | inr ne ↦ ground (arith, ne)
  ]

  post-apart :
      (v w : ThreadUid) (j : ℕ)
      → Live k v
      → Live k w
      → v == w ≡ false
      → uid_pid v ≡ uid_pid w
      → has j (queue_left qs u list v) ≡ true
      → has j (queue_left qs u list w) ≡ false
  post-apart v w j lv lw ne p h =
      ground
        (arith, has-left v j, has-left w j, q.apart v w j lv lw ne p, new_slot v lv, new_slot w lw)

  post-Slots : (p : ℕ) → LiveProcess k p → Slots (after.processes p).msg_info
  post-Slots p l = record {
    words = λ j. ground (
      arith,
      (q.slots p l).words j,
      set-IsWords (k.processes p).msg_info.bitmap i (q.slots p l).words j,
    );
    counted = ground (
      arith,
      (q.slots p l).counted,
      taken-set 1024 i (k.processes p).msg_info.bitmap inside,
      taken-le 1024 (bitmap_set (k.processes p).msg_info.bitmap i),
      clear,
    );
  }

  -- The queues are those of before, with the new list for `u`.
  pub post-Queues : Queues after (queue_left qs u list)
  post-Queues = record {
    queue = λ v l. elim (Bool-cases (u == v)) [
      | inl e ↦
          subst (λ x. QueueOf after x (queue_left qs u list x)) ((==_iff u v).0 e)
            (subst (λ xs. QueueOf after u xs)
              (ap (λ b. if b then list else qs u) (sym ((==_iff u u).1 refl))) own)
      | inr ne ↦
          subst (λ xs. QueueOf after v xs) (ap (λ b. if b then list else qs v) (sym ne))
            (other_queue v (post-Live k u i ms ts v l) ne)
    ];
    apart =
        λ v w j lv lw. post-apart v w j (post-Live k u i ms ts v lv) (post-Live k u i ms ts w lw);
    slots = λ p l. post-Slots p l;
  }

-- Threads that the scheduler sees as before.
pub post-Schedules :
    (k : Kernel) (u : ThreadUid) (i : ℕ) (ms : ℕ → ℕ → Message) (ts : ThreadUid → Thread)
    → ((v : ThreadUid) → (ts v).sched_info ≡ (k.threads v).sched_info)
    → ((v : ThreadUid) → (ts v).state ≡ (k.threads v).state)
    → (order : List ThreadUid) → Schedules k order
    → Schedules (with_post k u i ms ts) order
post-Schedules k u i ms ts infos states order s =
    let t = same-Schedules k ts order infos (λ v. ap is_active (states v)) s in
    record {
      ring = t.ring;
      distinct = s.distinct;
      live = λ v h.
          Live-processes k (with_post k u i ms ts).processes v (λ p. ground arith) (s.live v h);
      states = t.states;
      complete = λ v l h. t.complete v (post-Live k u i ms ts v l) h;
    }
