-- ===== src/Multitask/Scheduler.antt =====
-- kernel/core/multitask/scheduler.c: the round-robin queue of the active threads, a circular list
-- through their control blocks that starts at `active_thread`.
pub mod Ring
pub mod Queue
pub mod Add
pub mod Remove
pub mod Switch
pub mod Turns
pub mod Ticks
pub mod Lock
use horizon_microkernel.Prelude.{
  ℕ, zero, suc, ◌+◌, ◌-◌, Bool, true, false, not, ◌||◌, Option, none, some, ◌==◌, if◌then◌else◌,
}
use horizon_microkernel.Prelude.Words.{sub_word}
use horizon_microkernel.Util.Bitmap.{bitmap_test}
use horizon_microkernel.State.{
  Kernel, Thread, ThreadUid, uid_pid, thread_uid, active, old, is_active, process_thread_max,
  scheduler_timeslice, K, pure, ◌>>=◌, ◌>>◌, gets, modify, dassert, is_some, load, store,
  load_process, set_state, set_timeslice, set_next, set_prev,
}
use horizon_microkernel.Multitask.Table.{process_get, thread_get}
use horizon_microkernel.Multitask.Task.{task_preserve, task_switch, task_resume, paging_pas_load}

-- Insert the thread at the end of the queue of `first`, by the writes in their order.
link_last : Option ThreadUid → ThreadUid → ThreadUid → K (Unit {0})
link_last target uid first = do
  curr ← thread_get first
  c ← load curr
  prev ← thread_get c.sched_info.prev
  store target (set_next first)
  c' ← load curr
  store target (set_prev c'.sched_info.prev)
  store curr (set_prev uid)
  store prev (set_next uid)

-- The only thread of the queue is linked to itself.
link_alone : Option ThreadUid → ThreadUid → K (Unit {0})
link_alone target uid = do
  store target (set_next uid)
  store target (set_prev uid)
  modify (λ k. record k { active_thread = uid })

pub scheduler_add : ThreadUid → K (Unit {0})
scheduler_add uid = do
  target ← thread_get uid
  dassert (is_some target)
  t ← load target
  dassert (not (is_active t.state))
  store target (set_state active)
  store target (set_timeslice scheduler_timeslice)
  first ← gets (λ k. k.active_thread)
  if uid_pid first == 0 then link_alone target uid else link_last target uid first

-- Take the thread out of a queue with others, by the writes in their order.
unlink : Option ThreadUid → ThreadUid → K (Unit {0})
unlink target uid = do
  t ← load target
  modify (λ k. record k {
    active_thread = if k.active_thread == uid then t.sched_info.next else k.active_thread;
  })
  next ← thread_get t.sched_info.next
  prev ← thread_get t.sched_info.prev
  store next (set_prev t.sched_info.prev)
  t' ← load target
  store prev (set_next t'.sched_info.next)

pub scheduler_remove : ThreadUid → K (Unit {0})
scheduler_remove uid = do
  target ← thread_get uid
  dassert (is_some target)
  t ← load target
  dassert (is_active t.state)
  first ← gets (λ k. k.active_thread)
  locked ← gets (λ k. k.locked)
  dassert (not (uid == first) || locked)
  if t.sched_info.next == uid
      then modify (λ k. record k { active_thread = 0 })
      else unlink target uid
  store target (set_state old)

-- The loop of `scheduler_purge` from TID `i` on, with the rounds left.
purge_one : Option ℕ → ℕ → ℕ → K (Unit {0})
purge_one process pid i = do
  p ← load_process process
  if bitmap_test p.thread_info.bitmap i
      then (do
        target ← thread_get (thread_uid pid i)
        t ← load target
        if is_active t.state then scheduler_remove (thread_uid pid i) else pure tt)
      else pure tt

purge_from : ℕ → Option ℕ → ℕ → ℕ → K (Unit {0})
purge_from zero process pid i = pure tt
purge_from (suc rounds) process pid i =
    purge_one process pid i >> purge_from rounds process pid (i + 1)

pub scheduler_purge : ℕ → K (Unit {0})
scheduler_purge pid = do
  process ← process_get pid
  dassert (is_some process)
  purge_from process_thread_max process pid 0

-- `paging_pas_load(process_get(owner)->addr_space)`
unfoldable pub load_space : ℕ → K (Unit {0})
load_space owner = do
  process ← process_get owner
  p ← load_process process
  paging_pas_load p.addr_space

-- The task switch of `scheduler_next`. Threads of one process share the address space.
switch_to : Option ThreadUid → ThreadUid → K (Unit {0})
switch_to curr uid = do
  modify (λ k. record k { active_thread = uid })
  next ← thread_get uid
  dassert (is_some next)
  c ← load curr
  n ← load next
  if c.owner == n.owner then pure tt else load_space n.owner
  task_switch curr next

pub scheduler_next : K (Unit {0})
scheduler_next = do
  first ← gets (λ k. k.active_thread)
  curr ← thread_get first
  store curr (set_timeslice scheduler_timeslice)
  c ← load curr
  if first == c.sched_info.next then pure tt else switch_to curr c.sched_info.next

unfoldable pub scheduler_lock : K (Unit {0})
scheduler_lock = do
  modify (λ k. record k { locked = true })
  first ← gets (λ k. k.active_thread)
  curr ← thread_get first
  task_preserve curr

unfoldable pub scheduler_unlock : K (Unit {0})
scheduler_unlock = do
  first ← gets (λ k. k.active_thread)
  dassert (not (first == 0))
  modify (λ k. record k { locked = false })
  curr ← thread_get first
  c ← load curr
  load_space c.owner
  task_resume curr

unfoldable pub scheduler_curr : K ThreadUid
scheduler_curr = gets (λ k. if k.locked then 0 else k.active_thread)

-- The interrupt of the timer. `timeslice` is unsigned.
pub timer_tick : K (Unit {0})
timer_tick = do
  first ← gets (λ k. k.active_thread)
  curr ← thread_get first
  dassert (is_some curr)
  t ← load curr
  store curr (set_timeslice (sub_word t.sched_info.timeslice 1))
  t' ← load curr
  if t'.sched_info.timeslice == 0 then scheduler_next else pure tt
