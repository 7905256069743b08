-- ===== src/Ipc/Message/Call.antt =====
-- The state after each operation of message.c, as writes to the objects.

use horizon_microkernel.Prelude.{
  ℕ, inl, inr, Bool-cases, ◌%◌, ◌^◌, ◌≡◌, refl, Bool, true, ◌==◌, leb, if◌then◌else◌, arith, write,
  some,
}
use horizon_microkernel.Prelude.Words.{add_word}
use horizon_microkernel.Prelude.Outcome.{done}
use horizon_microkernel.Util.Bitmap.{bitmap_set, bitmap_find_and_set}
use horizon_microkernel.State.{
  MsgInfo, Kernel, Thread, Process, Message, Msg, ThreadUid, uid_pid, ◌>>◌, set_queue_bitmap,
  set_queue_count, set_msg_count, set_msg_head, set_msg_tail, set_link,
}
use horizon_microkernel.Multitask.Table.{
  Live, Live-process, Live-processes, thread_get-Live, process_get-LiveProcess,
}
use horizon_microkernel.Ipc.Message.{
  nil, take_slot, fill_slot, prepend, append, count_up, message_add,
}

abbrev pub write_message : (ℕ → ℕ → Message) → ℕ → ℕ → (Message → Message) → ℕ → ℕ → Message
write_message ms p i f = write ms p (λ m. write m i f)

-- The state once slot `idx` is taken and filled.
abbrev pub slotted : Kernel → ℕ → ℕ → ℕ → Msg → Kernel
slotted k pid idx from info = record k {
  processes =
      write k.processes pid (set_queue_bitmap (bitmap_set (k.processes pid).msg_info.bitmap idx));
  messages = write_message k.messages pid idx (fill_slot from info);
}

module _ (k : Kernel) (u : ThreadUid) (from idx : ℕ) (info : Msg) (live : Live k u)
    (room : leb (k.processes (uid_pid u)).msg_info.count 1024 ≡ true)
    (found : bitmap_find_and_set (k.processes (uid_pid u)).msg_info.bitmap 1024
      ≡ (some idx, bitmap_set (k.processes (uid_pid u)).msg_info.bitmap idx)) where
  pub add-run :
      (head : Bool)
      → message_add u from info head k
        ≡ ((if head
                then prepend (some (uid_pid u)) (some u) idx
                else append (some (uid_pid u)) (some u) idx)
              >> count_up (some (uid_pid u)) (some u))
            (slotted k (uid_pid u) idx from info)
  unfolding message_add take_slot
  add-run head =
      rw (process_get-LiveProcess k (uid_pid u) (Live-process k u live), message_add)
        (rw (room, found)
          (rw
            (thread_get-Live (slotted k (uid_pid u) idx from info) u
              (Live-processes k _ u (λ p. ground arith) live))
            refl))

-- The writes of `append` and `count_up`: to the processes, to the messages, and to the threads.
abbrev pub counted : (ℕ → Process) → ℕ → ℕ → Process
counted ps pid = write ps pid (λ p. set_queue_count (add_word p.msg_info.count 1) p)

abbrev pub chained : (ℕ → ℕ → Message) → ℕ → MsgInfo → ℕ → ℕ → ℕ → Message
chained ms pid old idx =
    write_message
      (if old.count == 0 then ms else write_message ms pid old.tail (set_link (idx % 2 ^ 16))) pid
      idx (set_link nil)

abbrev pub ended : (ThreadUid → Thread) → ThreadUid → ℕ → ThreadUid → Thread
ended ts u idx =
    write
      (write (if (ts u).msg_info.count == 0 then write ts u (set_msg_head (idx % 2 ^ 16)) else ts) u
        (set_msg_tail (idx % 2 ^ 16)))
      u (λ t. set_msg_count (add_word t.msg_info.count 1) t)

abbrev pub appended : Kernel → ThreadUid → ℕ → Kernel
appended k u idx = record k {
  processes = counted k.processes (uid_pid u);
  messages = chained k.messages (uid_pid u) (k.threads u).msg_info idx;
  threads = ended k.threads u idx;
}

pub append-run :
    (k : Kernel) (u : ThreadUid) (idx : ℕ)
    → (append (some (uid_pid u)) (some u) idx >> count_up (some (uid_pid u)) (some u)) k
      ≡ done (tt, appended k u idx)
unfolding append count_up
append-run k u idx = elim (Bool-cases ((k.threads u).msg_info.count == 0)) [
  | inl e ↦ rw (e) refl
  | inr ne ↦ rw (ne) refl
]

-- The writes of `prepend` and `count_up`.
abbrev pub tailed : (ThreadUid → Thread) → ThreadUid → ℕ → ThreadUid → Thread
tailed ts u idx =
    if (ts u).msg_info.count == 0 then write ts u (set_msg_tail (idx % 2 ^ 16)) else ts

abbrev pub prepended : Kernel → ThreadUid → ℕ → Kernel
prepended k u idx = record k {
  processes = counted k.processes (uid_pid u);
  messages =
      write_message k.messages (uid_pid u) idx (set_link (tailed k.threads u idx u).msg_info.head);
  threads =
      write (write (tailed k.threads u idx) u (set_msg_head (idx % 2 ^ 16))) u
        (λ t. set_msg_count (add_word t.msg_info.count 1) t);
}

pub prepend-run :
    (k : Kernel) (u : ThreadUid) (idx : ℕ)
    → (prepend (some (uid_pid u)) (some u) idx >> count_up (some (uid_pid u)) (some u)) k
      ≡ done (tt, prepended k u idx)
unfolding prepend count_up
prepend-run k u idx = elim (Bool-cases ((k.threads u).msg_info.count == 0)) [
  | inl e ↦ rw (e) refl
  | inr ne ↦ rw (ne) refl
]
