-- ===== src/Ipc/Message.antt =====
-- kernel/core/ipc/message.c: the message queues. The messages of a process share one array, with a
-- bitmap of the slots in use; each thread has a list through it. A link is an `int16_t`, and the
-- head and the tail of a list are `uint16_t`; all are given by their bit pattern.
pub mod Chain
pub mod Queue
pub mod Call
pub mod Grow
pub mod Post
pub mod Add
pub mod Prepend
pub mod Remove
pub mod Find
pub mod Move
pub mod Front
pub mod Search
pub mod Spin
use horizon_microkernel.Prelude.{
  ℕ, zero, suc, ◌+◌, ◌-◌, ◌%◌, ◌^◌, Bool, true, false, not, Option, none, some, ◌==◌, leb, ltb,
  if◌then◌else◌,
}
use horizon_microkernel.Prelude.Words.{add_word, sub_word}
use horizon_microkernel.Util.Bitmap.{Bitmap, bitmap_clear, bitmap_find_and_set}
use horizon_microkernel.State.{
  ThreadUid, uid_pid, Args, Msg, Message, process_message_max, K, pure, ◌>>=◌, ◌>>◌, dassert,
  is_some, load, store, load_process, store_process, load_message, store_message, set_msg_count,
  set_msg_head, set_msg_tail, set_queue_bitmap, set_queue_count, set_link,
}
use horizon_microkernel.Multitask.Table.{process_get, thread_get}
use horizon_microkernel.Ipc.Port.{port_compare}

-- The bit pattern of -1.
abbrev pub nil : ℕ
nil = 0xFFFF

-- `x == -1` of an `int16_t`, and of a `uint16_t`, which is promoted to an int from 0 on.
abbrev pub is_nil : ℕ → Bool
is_nil x = x == nil

abbrev pub is_nil_unsigned : ℕ → Bool
is_nil_unsigned x = false

-- The slot that `bitmap_find_and_set` gives. -1 fails the dassert.
unfoldable pub take_slot : Option ℕ → K ℕ
take_slot none = dassert false >> pure 0
take_slot (some index) = pure index

-- The message in its slot, before it is linked. `memset` comes first.
unfoldable pub fill_slot : ℕ → Msg → Message → Message
fill_slot from info m = record {
  from = from;
  code = info.code;
  args = info.args;
  next = 0;
  payload = ltb 0 info.size;
}

-- Link slot `index` in front of the list of `thread`.
unfoldable pub prepend : Option ℕ → Option ThreadUid → ℕ → K (Unit {0})
prepend owner thread index = do
  t ← load thread
  if t.msg_info.count == 0 then store thread (set_msg_tail (index % 2 ^ 16)) else pure tt
  t' ← load thread
  store_message owner index (set_link t'.msg_info.head)
  store thread (set_msg_head (index % 2 ^ 16))

-- Link slot `index` behind the list of `thread`.
unfoldable pub append : Option ℕ → Option ThreadUid → ℕ → K (Unit {0})
append owner thread index = do
  t ← load thread
  if t.msg_info.count == 0
      then store thread (set_msg_head (index % 2 ^ 16))
      else store_message owner t.msg_info.tail (set_link (index % 2 ^ 16))
  store_message owner index (set_link nil)
  store thread (set_msg_tail (index % 2 ^ 16))

-- The counters of the process and the thread.
unfoldable pub count_up : Option ℕ → Option ThreadUid → K (Unit {0})
count_up owner thread = do
  p ← load_process owner
  store_process owner (set_queue_count (add_word p.msg_info.count 1))
  t ← load thread
  store thread (set_msg_count (add_word t.msg_info.count 1))

pub message_add : ThreadUid → ℕ → Msg → Bool → K (Unit {0})
message_add uid from info head = do
  owner ← process_get (uid_pid uid)
  dassert (is_some owner)
  p ← load_process owner
  dassert (leb p.msg_info.count process_message_max)
  let found = bitmap_find_and_set p.msg_info.bitmap process_message_max
  store_process owner (set_queue_bitmap found.1)
  index ← take_slot found.0
  store_message owner index (fill_slot from info)
  thread ← thread_get uid
  dassert (is_some thread)
  if head then prepend owner thread index else append owner thread index
  count_up owner thread

-- What `message_remove` copies to its `dest`.
pub record Delivery : Type 0 where
  pub from : ℕ
  pub code : ℕ
  pub args : Args

abbrev pub delivery : Message → Delivery
delivery m = record { from = m.from; code = m.code; args = m.args }

-- The result is the payload flag, with the message for the caller's `dest`, which may be NULL.
pub message_remove : ThreadUid → K (Bool × Delivery)
message_remove uid = do
  owner ← process_get (uid_pid uid)
  dassert (is_some owner)
  thread ← thread_get uid
  dassert (is_some thread)
  t ← load thread
  dassert (not (t.msg_info.count == 0))
  p ← load_process owner
  store_process owner (set_queue_bitmap (bitmap_clear p.msg_info.bitmap t.msg_info.head))
  source ← load_message owner t.msg_info.head
  store thread (set_msg_head source.next)
  t' ← load thread
  if is_nil_unsigned t'.msg_info.head then store thread (set_msg_tail nil) else pure tt
  p' ← load_process owner
  store_process owner (set_queue_count (sub_word p'.msg_info.count 1))
  t'' ← load thread
  store thread (set_msg_count (sub_word t''.msg_info.count 1))
  pure (source.payload, delivery source)

-- The result is the payload flag, with the sender for the caller's `from`.
pub message_peek : ThreadUid → K (Bool × ℕ)
message_peek uid = do
  owner ← process_get (uid_pid uid)
  dassert (is_some owner)
  thread ← thread_get uid
  dassert (is_some thread)
  t ← load thread
  dassert (not (t.msg_info.count == 0))
  source ← load_message owner t.msg_info.head
  pure (source.payload, source.from)

-- Take the message at `curr`, behind `prev`, to the front of the list.
unfoldable pub to_front : Option ℕ → Option ThreadUid → ℕ → ℕ → K (Unit {0})
to_front owner thread prev curr = do
  msg ← load_message owner curr
  store_message owner prev (set_link msg.next)
  t ← load thread
  if t.msg_info.tail == curr then store thread (set_msg_tail prev) else pure tt
  t' ← load thread
  store_message owner curr (set_link t'.msg_info.head)
  store thread (set_msg_head curr)

-- The loop of `message_find` on fuel. The result is `none` when the fuel has run out.
unfoldable pub find_loop : ℕ → Option ℕ → Option ThreadUid → ℕ → ℕ → ℕ → K (Option Bool)
find_loop zero owner thread search prev curr = pure none
find_loop (suc fuel) owner thread search prev curr = elim (is_nil curr) [
  | true ↦ pure (some false)
  | false ↦ do
    msg ← load_message owner curr
    elim (port_compare search msg.from) [
      | true ↦ do if is_nil prev then pure tt else to_front owner thread prev curr; pure (some true)
      | false ↦ find_loop fuel owner thread search curr msg.next
    ]
]

pub message_find : ℕ → ThreadUid → ℕ → K (Option Bool)
message_find fuel uid search = do
  owner ← process_get (uid_pid uid)
  dassert (is_some owner)
  thread ← thread_get uid
  dassert (is_some thread)
  t ← load thread
  if t.msg_info.count == 0
      then pure (some false)
      else find_loop fuel owner thread search nil t.msg_info.head
