-- ===== src/State/Data.antt =====
-- The kernel's objects: kernel/core/multitask/thread.h, process.h, kernel/core/ipc/message.h, the
-- static variables of process.c, scheduler.c and service.c, and lib/libh/include/horizon.
-- A block of `block_data` holds a process, its threads and its messages; here these are three
-- arrays, indexed by PID, by thread UID, and by PID and message index. Enough kernel memory is
-- mapped for each object that is in use.
use horizon_microkernel.Prelude.{ℕ, ◌+◌, ◌*◌, ◌/◌, ◌%◌, Bool, true, false}
use horizon_microkernel.Util.Bitmap.{Bitmap}
use horizon_microkernel.Util.Bmstack.{Bmstack}

abbrev pub process_max : ℕ
process_max = 1024

abbrev pub process_thread_max : ℕ
process_thread_max = 64

abbrev pub process_message_max : ℕ
process_message_max = 1024

abbrev pub scheduler_timeslice : ℕ
scheduler_timeslice = 5

-- `union thread_uid` by its `raw` value: 10 bits of PID, then 6 bits of TID.
abbrev pub ThreadUid : Type 0
ThreadUid = ℕ

abbrev pub uid_pid : ThreadUid → ℕ
uid_pid u = u % 1024

abbrev pub uid_tid : ThreadUid → ℕ
uid_tid u = u / 1024 % 64

-- `(thread_uid_t){ .pid = pid, .tid = tid }` keeps 10 and 6 bits.
abbrev pub thread_uid : ℕ → ℕ → ThreadUid
thread_uid pid tid = pid % 1024 + 1024 * (tid % 64)

pub data ThreadState : Type 0 where
  fresh active sending waiting old : ThreadState

abbrev pub is_active : ThreadState → Bool
is_active active = true
is_active _ = false

abbrev pub is_waiting : ThreadState → Bool
is_waiting waiting = true
is_waiting _ = false

-- `int_frame_t`: the registers that the kernel touches, and the others as one value.
pub record Frame : Type 0 where
  pub eip : ℕ
  pub user_esp : ℕ
  pub eax : ℕ
  pub others : ℕ

-- `struct shm`
pub record Shm : Type 0 where
  pub to : ℕ
  pub addr : ℕ
  pub size : ℕ
  pub prot : ℕ

-- The `MSG_ARGC` words of a message.
abbrev pub Args : Type 0
Args = ℕ × ℕ × ℕ

-- `struct msg`, whose `to` and `from` are one union.
pub record Msg : Type 0 where
  pub port : ℕ
  pub code : ℕ
  pub args : Args
  pub buf : ℕ
  pub size : ℕ

-- `message_t` of message.h. `next` is the bit pattern of an `int16_t`.
pub record Message : Type 0 where
  pub from : ℕ
  pub code : ℕ
  pub args : Args
  pub next : ℕ
  pub payload : Bool

abbrev pub set_link : ℕ → Message → Message
set_link i m = record m { next = i }

-- `task_info_t` of kernel/arch/i586/sw/task.h
pub record TaskInfo : Type 0 where
  pub entry : ℕ
  pub stack : ℕ
  pub frame : Frame

-- The anonymous structs of `thread_t`; `head` and `tail` are `uint16_t`.
pub record MsgInfo : Type 0 where
  pub count : ℕ
  pub head : ℕ
  pub tail : ℕ

pub record SchedInfo : Type 0 where
  pub timeslice : ℕ
  pub next : ThreadUid
  pub prev : ThreadUid

pub record SyscallInfo : Type 0 where
  pub wait_for : ℕ
  pub shm_offer : Shm
  pub payload_addr : ℕ
  pub payload_size : ℕ

-- `thread_t`
pub record Thread : Type 0 where
  pub tid : ℕ
  pub version : ℕ
  pub owner : ℕ
  pub state : ThreadState
  pub task : TaskInfo
  pub msg_info : MsgInfo
  pub sched_info : SchedInfo
  pub syscall_info : SyscallInfo

-- Writes to one field of a thread.
abbrev pub set_state : ThreadState → Thread → Thread
set_state s t = record t { state = s }

abbrev pub set_timeslice : ℕ → Thread → Thread
set_timeslice n t = record t { sched_info = record (t.sched_info) { timeslice = n } }

abbrev pub set_next : ThreadUid → Thread → Thread
set_next u t = record t { sched_info = record (t.sched_info) { next = u } }

abbrev pub set_prev : ThreadUid → Thread → Thread
set_prev u t = record t { sched_info = record (t.sched_info) { prev = u } }

abbrev pub set_frame : Frame → Thread → Thread
set_frame f t = record t { task = record (t.task) { frame = f } }

-- The two infos of `process_t`. The array `versions` stands behind the words of `bitmap`.
pub record ThreadInfo : Type 0 where
  pub count : ℕ
  pub bitmap : Bitmap
  pub versions : ℕ → ℕ

pub record QueueInfo : Type 0 where
  pub count : ℕ
  pub bitmap : Bitmap

abbrev pub set_msg_count : ℕ → Thread → Thread
set_msg_count n t = record t { msg_info = record (t.msg_info) { count = n } }

abbrev pub set_msg_head : ℕ → Thread → Thread
set_msg_head i t = record t { msg_info = record (t.msg_info) { head = i } }

abbrev pub set_msg_tail : ℕ → Thread → Thread
set_msg_tail i t = record t { msg_info = record (t.msg_info) { tail = i } }

-- `process_t`. An address space is the number of its page directory, and the pointers into the
-- block are implied by the PID.
pub record Process : Type 0 where
  pub pid : ℕ
  pub version : ℕ
  pub parent : ℕ
  pub priv : ℕ
  pub entry : ℕ
  pub addr_space : ℕ
  pub msg_info : QueueInfo
  pub thread_info : ThreadInfo

abbrev pub set_queue_bitmap : Bitmap → Process → Process
set_queue_bitmap b p = record p { msg_info = record (p.msg_info) { bitmap = b } }

abbrev pub set_queue_count : ℕ → Process → Process
set_queue_count n p = record p { msg_info = record (p.msg_info) { count = n } }

-- `block_map`, `blocks` and `block_versions` of process.c; `active_thread` and `locked` of
-- scheduler.c; `service_ids` of service.c; the frame of the interrupt that is being served, and
-- the address space that is loaded.
pub record Kernel : Type 0 where
  pub block_map : Bmstack
  pub block_versions : ℕ → ℕ
  pub processes : ℕ → Process
  pub threads : ThreadUid → Thread
  pub messages : ℕ → ℕ → Message
  pub active_thread : ThreadUid
  pub locked : Bool
  pub service_ids : ℕ → ℕ
  pub frame : Frame
  pub loaded : ℕ
