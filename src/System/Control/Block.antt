-- ===== src/System/Control/Block.antt =====
-- `syscall_wait` of kernel/core/system/control/syscall_wait.c when the caller has to wait.
use mathlib.Core.Path.{subst}
use horizon_microkernel.Prelude.{
  ℕ, ◌<◌, ◌≡◌, ◌≢◌, ◌∙◌, ap, refl, sym, inl, inr, true, false, ◌==◌, ==_iff, Bool-cases,
  if◌then◌else◌, arith, none, some, List, ◌∷◌, erase, write,
}
use horizon_microkernel.Prelude.Outcome.{done}
use horizon_microkernel.State.{
  Kernel, TaskInfo, Thread, ThreadUid, uid_pid, waiting, is_active, set_state, store, ◌>>=◌, ◌>>◌,
}
use horizon_microkernel.Multitask.Table.{Live, thread_get, thread_get-Live}
use horizon_microkernel.Multitask.Scheduler.{
  scheduler_curr, scheduler_lock, scheduler_unlock, scheduler_remove,
}
use horizon_microkernel.Multitask.Task.{resumed, syscall_return_set}
use horizon_microkernel.Multitask.Scheduler.Queue.{Schedules}
use horizon_microkernel.Multitask.Scheduler.Remove.{Removes, scheduler_remove-Removes}
use horizon_microkernel.Multitask.Scheduler.Switch.{OwnersMatch, Resumes, resumed-Resumes}
use horizon_microkernel.Multitask.Scheduler.Lock.{held, lock_at, freed, unlock_at, same-Schedules}
use horizon_microkernel.Ipc.Port.{port_to_uid}
use horizon_microkernel.Ipc.Message.{message_find}
use horizon_microkernel.Ipc.Message.Queue.{Queues}
use horizon_microkernel.Ipc.Message.Find.{first, fits}
use horizon_microkernel.Ipc.Message.Search.{found, message_find-Finds}
use horizon_microkernel.System.Control.{
  enone, set_wait_for, block, wait_exists, wait_for_sender, after_find, syscall_wait,
}

-- What `block` does to the kernel `k`, in which `a` runs and `x` comes next.
pub record Blocks (k new : Kernel) (a x : ThreadUid) (ys : List ThreadUid) (port : ℕ) : Type 0 where
  pub call : block a port k ≡ done (tt, new)
  pub queue : Schedules new (x ∷ ys)
  pub state : (new.threads a).state ≡ waiting
  pub wait_for : (new.threads a).syscall_info.wait_for ≡ port
  pub saved : (new.threads a).task.frame ≡ record (k.frame) { eax = enone }
  pub resumes : Resumes (record (k.frame) { eax = enone }) (k.threads x).task new.frame
  pub unlocked : new.locked ≡ false
  pub space : new.loaded ≡ (new.processes (uid_pid x)).addr_space

-- The kernel with the return value set and the scheduler locked.
abbrev stopped : Kernel → ThreadUid → Kernel
stopped k a = held (record k { frame = record (k.frame) { eax = enone } }) a

-- The kernel with the caller marked as waiting.
abbrev parked : Kernel → ThreadUid → ℕ → Kernel
parked m a port = record m {
  threads = write (write m.threads a (set_state waiting)) a (set_wait_for port);
}

stopped-Schedules :
    (k : Kernel) (a : ThreadUid) (q : List ThreadUid) → Schedules k q → Schedules (stopped k a) q
stopped-Schedules k a q s =
    let t = same-Schedules k (stopped k a).threads q (λ v. ground arith) (λ v. ground arith) s in
    record {
      ring = t.ring;
      distinct = t.distinct;
      live = t.live;
      states = t.states;
      complete = t.complete;
    }

erase-head : (a : ℕ) (xs : List ℕ) → erase a (a ∷ xs) ≡ xs
unfolding erase
erase-head a xs = let same : (a == a) ≡ true = ground arith in rw (same) refl

module _ (j m : Kernel) (a x : ThreadUid) (ys : List ThreadUid) (port : ℕ)
    (r : Removes j m a (a ∷ x ∷ ys)) where
  left : Schedules m (x ∷ ys)
  left = subst (λ q. Schedules m q) (erase-head a (x ∷ ys)) r.queue

  keeps-Live : (v : ThreadUid) → Live j v → Live m v
  keeps-Live v l = subst (λ k. Live k v) r.rest l

  parked-Schedules : Schedules (parked m a port) (x ∷ ys)
  parked-Schedules =
      same-Schedules m (parked m a port).threads (x ∷ ys) (λ v. ground arith)
        (λ v. elim (Bool-cases (a == v)) [
          | inl e ↦
              subst
                (λ w. is_active ((parked m a port).threads w).state ≡ is_active (m.threads w).state)
                ((==_iff a v).0 e) (ground (arith, r.stopped))
          | inr ne ↦ ground (arith, ne)
        ])
        left

  parked-owner : OwnersMatch j → Live j x → ((parked m a port).threads x).owner ≡ uid_pid x
  parked-owner owners l =
      let kept : ((parked m a port).threads x).owner ≡ (m.threads x).owner = ground arith in
      kept ∙ ap (λ (t : Thread). t.owner) (r.untouched x) ∙ owners x l

  parked-frame : ((parked m a port).threads a).task.frame ≡ (j.threads a).task.frame
  parked-frame =
      let kept : ((parked m a port).threads a).task.frame ≡ (m.threads a).task.frame =
        ground arith in
      kept ∙ ap (λ (t : Thread). t.task.frame) (r.untouched a)

  -- The next thread goes on with what it had saved.
  parked-Resumes :
      {task : TaskInfo}
      → (j.threads x).task ≡ task
      → Resumes j.frame task (resumed (parked m a port).frame ((parked m a port).threads x))
  parked-Resumes e =
      let kept : ((parked m a port).threads x).task ≡ (m.threads x).task = ground arith in
      subst (λ t. Resumes j.frame t (resumed (parked m a port).frame ((parked m a port).threads x)))
        (kept ∙ ap (λ (t : Thread). t.task) (r.untouched x) ∙ e)
        (subst
          (λ f.
            Resumes f ((parked m a port).threads x).task
              (resumed (parked m a port).frame ((parked m a port).threads x)))
          (sym (ap (λ (k : Kernel). k.frame) r.rest))
          (resumed-Resumes (parked m a port).frame ((parked m a port).threads x)))

stopped-task :
    (k : Kernel) (a x : ThreadUid)
    → (a == x) ≡ false
    → ((stopped k a).threads x).task ≡ (k.threads x).task
stopped-task k a x ne = ground (arith, ne)

stopped-frame :
    (k : Kernel) (a : ThreadUid)
    → ((stopped k a).threads a).task.frame ≡ record (k.frame) { eax = enone }
stopped-frame k a = let same : (a == a) ≡ true = ground arith in rw (same) refl

-- The stores to the caller and the unlocking.
park-run :
    (m : Kernel) (a x : ThreadUid) (port : ℕ)
    → Live m a
    → scheduler_unlock (parked m a port) ≡ done (tt, freed (parked m a port) x)
    → (thread_get a >>= λ caller.
          store caller (set_state waiting)
          >> (store caller (set_wait_for port) >> scheduler_unlock))
        m
      ≡ done (tt, freed (parked m a port) x)
park-run m a x port live unlock = rw (thread_get-Live m a live) unlock

block-run :
    (k m : Kernel) (a x : ThreadUid) (port : ℕ)
    → scheduler_lock (record k { frame = record (k.frame) { eax = enone } })
      ≡ done (tt, stopped k a)
    → scheduler_remove a (stopped k a) ≡ done (tt, m)
    → Live m a
    → scheduler_unlock (parked m a port) ≡ done (tt, freed (parked m a port) x)
    → block a port k ≡ done (tt, freed (parked m a port) x)
unfolding block syscall_return_set
block-run k m a x port lock remove live unlock =
    rw (lock, block) (rw (remove) (park-run m a x port live unlock))

-- With two threads or more in the queue, the thread that runs, when it has to wait, leaves the queue
-- with the return value `ENONE` in its saved registers and is marked as waiting for the port. The
-- next thread goes on with its saved registers, or at its entry with its stack if it never ran, in the
-- address space of its process, and the scheduler is not locked.
pub block-Blocks :
    (k : Kernel) (a x : ThreadUid) (ys : List ThreadUid) (port : ℕ)
    → Schedules k (a ∷ x ∷ ys)
    → OwnersMatch k
    → (new : Kernel) × Blocks k new a x ys port
block-Blocks k a x ys port s owners =
    let j : Kernel = stopped k a in
    let sj : Schedules j (a ∷ x ∷ ys) = stopped-Schedules k a (a ∷ x ∷ ys) s in
    let la : Live k a = s.live a (ground arith) in
    let lx : Live j x = s.live x (ground arith) in
    let own : OwnersMatch j = λ v l. ground (arith, owners v l) in
    let (m, r) = scheduler_remove-Removes j a (a ∷ x ∷ ys) sj (ground arith) (ground arith) in
    let parked_owner = parked-owner j m a x ys port r own lx in
    let unlock =
      unlock_at (parked m a port) x (left j m a x ys port r).ring.0
        (keeps-Live j m a x ys port r x lx) parked_owner in
    let parked_queue = parked-Schedules j m a x ys port r in
    (
      freed (parked m a port) x,
      record {
        call =
            block-run k m a x port
              (lock_at (record k { frame = record (k.frame) { eax = enone } }) a s.ring.0 la) r.call
              (keeps-Live j m a x ys port r a la) unlock;
        queue = record {
          ring = parked_queue.ring;
          distinct = parked_queue.distinct;
          live = parked_queue.live;
          states = parked_queue.states;
          complete = parked_queue.complete;
        };
        state = ground arith;
        wait_for = ground arith;
        saved = parked-frame j m a x ys port r ∙ stopped-frame k a;
        resumes =
            parked-Resumes j m a x ys port r (stopped-task k a x (ground (arith, s.distinct.0)));
        unlocked = refl;
        space = ap (λ p. (m.processes p).addr_space) parked_owner;
      },
    )

curr-run :
    (k : Kernel) (a : ThreadUid)
    → k.locked ≡ false
    → k.active_thread ≡ a
    → scheduler_curr k ≡ done (a, k)
unfolding scheduler_curr
curr-run k a unlocked e =
    ap (λ b. done (if b then 0 else k.active_thread, k)) unlocked ∙ ap (λ v. done (v, k)) e

sender-run :
    (k : Kernel) (a t : ThreadUid) (port : ℕ)
    → port_to_uid port (uid_pid a) k ≡ done (t, k)
    → (t == 0) ≡ false
    → wait_exists a t k ≡ done (true, k)
    → wait_for_sender a port k ≡ block a port k
unfolding wait_for_sender
sender-run k a t port to some_uid exists = rw (to, some_uid, wait_for_sender) (rw (exists) refl)

wait-run :
    (k new : Kernel) (a : ThreadUid) (fuel port : ℕ)
    → scheduler_curr k ≡ done (a, k)
    → message_find fuel a port k ≡ done (some false, k)
    → wait_for_sender a port k ≡ done (tt, new)
    → syscall_wait fuel port k ≡ done (some tt, new)
unfolding syscall_wait after_find
wait-run k new a fuel port curr find wait = rw (curr, syscall_wait) (rw (find) (rw (wait) refl))

-- Thread `a` runs, `x` comes next, the scheduler is not locked, and the queues of all threads are
-- lists of slots. If no message for `a` comes from a port that `port` covers, and `port` resolves
-- to a thread that exists or is a special one, then `syscall_wait` ends, within 1026 rounds of the
-- search: `a` leaves the queue with the return value `ENONE` in its saved registers and is marked as
-- waiting for the port, and `x` goes on with its saved registers, or at its entry with its stack if it
-- never ran, in the address space of its process.
pub syscall_wait-Blocks :
    (k : Kernel) (qs : ThreadUid → List ℕ) (a x t : ThreadUid) (ys : List ThreadUid) (fuel port : ℕ)
    → Queues k qs
    → Schedules k (a ∷ x ∷ ys)
    → OwnersMatch k
    → k.locked ≡ false
    → 1025 < fuel
    → first (fits (k.messages (uid_pid a)) port) (qs a) ≡ none
    → port_to_uid port (uid_pid a) k ≡ done (t, k)
    → t ≢ 0
    → wait_exists a t k ≡ done (true, k)
    → (new : Kernel) × (syscall_wait fuel port k ≡ done (some tt, new)) × Blocks k new a x ys port
syscall_wait-Blocks k qs a x t ys fuel port q s owners unlocked enough nothing to other exists =
    let (new, b) = block-Blocks k a x ys port s owners in
    let (l, f) = message_find-Finds k qs a fuel port q (s.live a (ground arith)) enough in
    let missed : message_find fuel a port k ≡ done (some false, k) =
      f.call
      ∙ ap (λ r. done (some (found r), l)) nothing
      ∙ ap (λ m. done (some false, m)) (f.unmoved nothing) in
    (
      new,
      wait-run k new a fuel port (curr-run k a unlocked s.ring.0) missed
          (sender-run k a t port to (ground (arith, other)) exists ∙ b.call),
      b,
    )
