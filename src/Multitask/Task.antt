-- ===== src/Multitask/Task.antt =====
-- Saving and restoring the registers of a thread: `task_switch` and `task_preserve` of
-- kernel/arch/i586/sw/task.c, `paging_pas_load`, and `syscall_return_set` of
-- kernel/arch/i586/sw/int/syscall.h. They run in an interrupt, so there is a frame.
use horizon_microkernel.Prelude.{ℕ, Option, ◌==◌, if◌then◌else◌}
use horizon_microkernel.State.{
  Frame, Thread, ThreadUid, K, ◌>>=◌, ◌>>◌, gets, modify, load, store, set_frame,
}

-- `memcpy(&(info->frame), frame, …)`
unfoldable pub task_preserve : Option ThreadUid → K (Unit {0})
task_preserve thread = do frame ← gets (λ k. k.frame); store thread (set_frame frame)

-- The frame with which a thread goes on. One that never ran has no EIP in its frame.
unfoldable pub resumed : Frame → Thread → Frame
resumed frame t =
    if t.task.frame.eip == 0
    then record frame { eip = t.task.entry; user_esp = t.task.stack }
    else t.task.frame

-- `task_switch(curr, next)` with a `curr`, which is saved first.
unfoldable pub task_switch : Option ThreadUid → Option ThreadUid → K (Unit {0})
unfolding task_preserve
task_switch curr next = do
  task_preserve curr
  t ← load next
  modify (λ k. record k { frame = resumed k.frame t })

-- `task_switch(NULL, next)`
unfoldable pub task_resume : Option ThreadUid → K (Unit {0})
task_resume next = do t ← load next; modify (λ k. record k { frame = resumed k.frame t })

unfoldable pub paging_pas_load : ℕ → K (Unit {0})
paging_pas_load pas = modify (λ k. record k { loaded = pas })

unfoldable pub syscall_return_set : ℕ → K (Unit {0})
syscall_return_set val = modify (λ k. record k { frame = record (k.frame) { eax = val } })
