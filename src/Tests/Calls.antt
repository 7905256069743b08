-- ===== src/Tests/Calls.antt =====
-- kernel/core/system on the sample.
use horizon_microkernel.Prelude.{true, some, none, ℕ, ◌+◌, ◌*◌, ◌^◌, ◌≡◌, refl, arith, [], ◌∷◌}
use horizon_microkernel.Prelude.Outcome.{done, halted}
use horizon_microkernel.Util.Bitmap.{bitmap_test}
use horizon_microkernel.Util.Bmstack.{bmstack_test}
use horizon_microkernel.State.{Kernel, uid_pid}
use horizon_microkernel.Multitask.Table.{thread_live, process_live, thread_get, process_get}
use horizon_microkernel.Multitask.Thread.{Kills, thread_kill-Kills}
use horizon_microkernel.Ipc.Port.{port_to_uid, check_versions, port_compare}
use horizon_microkernel.Ipc.Message.Find.{first, fits}
use horizon_microkernel.System.Control.{Yields, syscall_yield-Yields, wait_exists, syscall_wait}
use horizon_microkernel.System.Control.Block.{Blocks, syscall_wait-Blocks}
use horizon_microkernel.System.Message.{Posts, internal_ksend-Posts}
use horizon_microkernel.System.Message.Wake.{Wakes, internal_ksend-Wakes}
use horizon_microkernel.System.Process.{syscall_release, syscall_release-halts}
use horizon_microkernel.Tests.Sample.{
  sample, queues0, sample-Queues, sample-Schedules, sample-OwnersMatch, sample-Live, second-Live,
  third-Live,
}

thread_kill-Kills_example : (new : Kernel) × Kills sample 2050 new
thread_kill-Kills_example = thread_kill-Kills sample 2050 third-Live refl (λ i. ground arith)

syscall_yield-Yields_example : (k : Kernel) × Yields sample k 2 1026 []
syscall_yield-Yields_example =
    syscall_yield-Yields sample 2 1026 [] sample-Schedules sample-OwnersMatch refl

syscall_release-halts_example : syscall_release 1 sample ≡ halted
syscall_release-halts_example =
    syscall_release-halts sample 1 refl (sample-Live 2 refl) refl (λ e. omega (arith, e))
      second-Live

-- A port without a version names the main thread of its process.
main-resolves : port_to_uid 2 0 sample ≡ done (2, sample)
unfolding port_to_uid
main-resolves = refl

internal_ksend-Posts_example : (i : ℕ) × (new : Kernel) × Posts sample queues0 2 2 4 (1, 0, 0) i new
internal_ksend-Posts_example =
    internal_ksend-Posts sample queues0 2 2 4 (1, 0, 0) sample-Queues main-resolves
      (sample-Live 2 refl) (omega arith) refl

-- PID 2 and TID 2, both in version 1.
abbrev waiter : ℕ
waiter = 2 + 2 ^ 10 + 2 * 2 ^ 18 + 2 ^ 24

waiter-resolves : port_to_uid waiter 0 sample ≡ done (2050, sample)
unfolding port_to_uid check_versions thread_get process_get thread_live process_live bmstack_test
    bitmap_test
waiter-resolves = refl

internal_ksend-Wakes_example :
    (i : ℕ) × (new : Kernel) × Wakes sample queues0 (2 ∷ 1026 ∷ []) 2050 waiter 4 (1, 0, 0) i new
unfolding port_compare
internal_ksend-Wakes_example =
    internal_ksend-Wakes sample queues0 (2 ∷ 1026 ∷ []) 2050 waiter 4 (1, 0, 0) sample-Queues
      sample-Schedules waiter-resolves third-Live (omega arith) (λ e. refl) refl refl

nothing-fits : first (fits (sample.messages (uid_pid 2)) waiter) (queues0 2) ≡ none
unfolding first port_compare
nothing-fits = refl

waiter-exists : wait_exists 2 2050 sample ≡ done (true, sample)
unfolding wait_exists thread_get process_get thread_live process_live bmstack_test bitmap_test
waiter-exists = refl

waiter-local : port_to_uid waiter (uid_pid 2) sample ≡ done (2050, sample)
unfolding port_to_uid check_versions thread_get process_get thread_live process_live bmstack_test
    bitmap_test
waiter-local = refl

syscall_wait-Blocks_example :
    (new : Kernel) × (syscall_wait 1026 waiter sample ≡ done (some tt, new))
    × Blocks sample new 2 1026 [] waiter
syscall_wait-Blocks_example =
    syscall_wait-Blocks sample queues0 2 1026 2050 [] 1026 waiter sample-Queues sample-Schedules
      sample-OwnersMatch refl (omega arith) nothing-fits waiter-local (λ e. omega (arith, e))
      waiter-exists
