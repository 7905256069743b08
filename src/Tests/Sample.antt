-- ===== src/Tests/Sample.antt =====
-- A kernel with one process, PID 2, and its threads 0 to 2: the first two are scheduled, and the
-- first has two messages.
use mathlib.Core.Path.{subst}
use horizon_microkernel.Prelude.{
  ℕ, ◌≡◌, refl, sym, inl, inr, ◌⊎◌, true, false, none, some, ◌==◌, ==_iff, if◌then◌else◌,
  Bool-cases, arith, List, [], ◌∷◌, has,
}
use horizon_microkernel.Util.Bitmap.{Bitmap, bitmap_test}
use horizon_microkernel.Util.Bmstack.{bmstack_test}
use horizon_microkernel.State.{
  Kernel, Thread, Process, Message, MsgInfo, Frame, ThreadUid, uid_pid, uid_tid, active, waiting,
}
use horizon_microkernel.Multitask.Table.{Live, thread_live, process_live}
use horizon_microkernel.Multitask.Scheduler.Queue.{Schedules}
use horizon_microkernel.Multitask.Scheduler.Switch.{OwnersMatch}
use horizon_microkernel.Ipc.Message.{nil}
use horizon_microkernel.Ipc.Message.Queue.{HasQueue, QueueOf, Queues, taken}

abbrev pub frame0 : Frame
frame0 = record { eip = 1; user_esp = 2; eax = 3; others = 4 }

abbrev pub first_word : ℕ → Bitmap
first_word w i = if i == 0 then w else 0

abbrev pub messages0 : ℕ → Message
messages0 i = record {
  from = if i == 3 then 77 else 88;
  code = i;
  args = (1, 2, 3);
  next = if i == 5 then 3 else nil;
  payload = false;
}

abbrev pub process0 : ℕ → Process
process0 p = record {
  pid = p;
  version = 1;
  parent = 2;
  priv = 0;
  entry = 0;
  addr_space = 9;
  msg_info = record { count = 2; bitmap = first_word 40 };
  thread_info = record { count = 3; bitmap = first_word 7; versions = λ _. 1 };
}

abbrev pub info0 : ThreadUid → MsgInfo
info0 u =
    if 2 == u
    then record { count = 2; head = 5; tail = 3 }
    else record { count = 0; head = if 2050 == u then nil else 0; tail = 0 }

abbrev pub thread0 : ThreadUid → Thread
thread0 u = record {
  tid = uid_tid u;
  version = 1;
  owner = uid_pid u;
  state = if 2 == u then active else if 1026 == u then active else waiting;
  task = record { entry = 0; stack = 0; frame = frame0 };
  msg_info = info0 u;
  sched_info = record {
    timeslice = 1;
    next = if 2 == u then 1026 else 2;
    prev = if 2 == u then 1026 else 2;
  };
  syscall_info = record {
    wait_for = 1;
    shm_offer = record { to = 0; addr = 0; size = 0; prot = 0 };
    payload_addr = 0;
    payload_size = 0;
  };
}

abbrev pub sample : Kernel
sample = record {
  block_map = record {
    base = 4096;
    entries = λ i. record { next = none; bitmap = first_word 4 i };
    head = some 0;
  };
  block_versions = λ _. 1;
  processes = process0;
  threads = thread0;
  messages = λ _. messages0;
  active_thread = 2;
  locked = false;
  service_ids = λ _. 0;
  frame = frame0;
  loaded = 9;
}

pub sample-Live : (t : ℕ) → t ≡ 2 → Live sample t
unfolding thread_live process_live bmstack_test bitmap_test
sample-Live t e = subst (λ u. Live sample u) (sym e) refl

pub second-Live : Live sample 1026
unfolding thread_live process_live bmstack_test bitmap_test
second-Live = refl

pub third-Live : Live sample 2050
unfolding thread_live process_live bmstack_test bitmap_test
third-Live = refl

pub sample-Schedules : Schedules sample (2 ∷ 1026 ∷ [])
sample-Schedules = record {
  ring = (refl, ((refl, refl), (refl, refl)));
  distinct = (refl, (refl, tt));
  live = λ u h. elim (Bool-cases (u == 2)) [
    | inl e ↦ sample-Live u ((==_iff u 2).0 e)
    | inr ne ↦
        subst (λ v. Live sample v) (sym ((==_iff u 1026).0 (ground (arith, h, ne)))) second-Live
  ];
  states = λ u h. ground (arith, h);
  complete = λ u l h. ground (arith, h);
}

pub sample-OwnersMatch : OwnersMatch sample
sample-OwnersMatch u l = refl

abbrev pub queues0 : ThreadUid → List ℕ
queues0 u = if 2 == u then 5 ∷ 3 ∷ [] else []

-- Slots 3 and 5 are the bits of 40.
two_slots : (j : ℕ) → has j (5 ∷ 3 ∷ []) ≡ true → (j ≡ 5) ⊎ (j ≡ 3)
two_slots j h = ground arith

busy_queue : HasQueue messages0 (info0 2) (first_word 40) (5 ∷ 3 ∷ [])
unfolding bitmap_test
busy_queue = record {
  count = refl;
  inside = λ j h. ground (arith, two_slots j);
  used = λ j h. elim (two_slots j h) [
    | inl e ↦ subst (λ i. bitmap_test (first_word 40) i ≡ true) (sym e) refl
    | inr e ↦ subst (λ i. bitmap_test (first_word 40) i ≡ true) (sym e) refl
  ];
  distinct = (refl, (refl, tt));
  shape = (refl, refl, (refl, refl));
}

idle_queue :
    (h : ℕ) → HasQueue messages0 (record { count = 0; head = h; tail = 0 }) (first_word 40) []
idle_queue h = record {
  count = refl;
  inside = λ j g. ground (arith, g);
  used = λ j g. ground (arith, g);
  distinct = tt;
  shape = tt;
}

queue0 : (u : ThreadUid) → QueueOf sample u (queues0 u)
queue0 u =
    elim (Bool-cases (2 == u))
      as (λ _.
        HasQueue messages0
          (if 2 == u
            then record { count = 2; head = 5; tail = 3 }
            else record { count = 0; head = if 2050 == u then nil else 0; tail = 0 })
          (first_word 40) (if 2 == u then 5 ∷ 3 ∷ [] else [])) [
            | inl e ↦ rw (e) busy_queue
            | inr ne ↦ rw (ne) (idle_queue (if 2050 == u then nil else 0))
          ]

pub sample-Queues : Queues sample queues0
unfolding taken bitmap_test
sample-Queues = record {
  queue = λ u l. queue0 u;
  apart = λ u v j lu lv ne p h. ground (arith, ne, h);
  slots = λ p l. record { words = λ j. ground arith; counted = refl };
}
