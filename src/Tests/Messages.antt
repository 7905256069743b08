-- ===== src/Tests/Messages.antt =====
-- kernel/core/ipc/message.c on the sample.
use horizon_microkernel.Prelude.{true, none, ℕ, refl, ◌≡◌, arith, [], ◌∷◌}
use horizon_microkernel.State.{Kernel, Msg}
use horizon_microkernel.Prelude.Outcome.{done}
use horizon_microkernel.Util.Bitmap.{bitmap_test}
use horizon_microkernel.Ipc.Port.{port_compare}
use horizon_microkernel.Ipc.Message.{message_add, message_find}
use horizon_microkernel.Ipc.Message.Prepend.{Prepends, message_add-Prepends}
use horizon_microkernel.Ipc.Message.Spin.{message_add-spins}
use horizon_microkernel.Ipc.Message.Add.{Appends, message_add-Appends}
use horizon_microkernel.Ipc.Message.Remove.{Drops, message_remove-Drops}
use horizon_microkernel.Ipc.Message.Find.{first, fits}
use horizon_microkernel.Ipc.Message.Search.{Finds, message_find-Finds}
use horizon_microkernel.Tests.Sample.{
  second-Live, sample, messages0, queues0, sample-Queues, sample-Live, third-Live,
}

abbrev letter : Msg
letter = record { port = 0; code = 6; args = (7, 8, 9); buf = 0; size = 0 }

message_add-Appends_example : (i : ℕ) × (new : Kernel) × Appends sample queues0 2050 77 letter i new
message_add-Appends_example =
    message_add-Appends sample queues0 2050 77 letter sample-Queues third-Live (omega arith)

message_remove-Drops_example : (new : Kernel) × Drops sample queues0 2 5 (3 ∷ []) new
message_remove-Drops_example =
    message_remove-Drops sample queues0 2 5 (3 ∷ []) sample-Queues (sample-Live 2 refl) refl

message_find-Finds_example :
    (new : Kernel) × Finds sample queues0 2 1026 77 (first (fits messages0 77) (5 ∷ 3 ∷ [])) new
message_find-Finds_example =
    message_find-Finds sample queues0 2 1026 77 sample-Queues (sample-Live 2 refl) (omega arith)

message_add-Prepends_example : (i : ℕ) × (new : Kernel) × Prepends sample queues0 2 77 letter i new
message_add-Prepends_example =
    message_add-Prepends sample queues0 2 77 letter sample-Queues (sample-Live 2 refl) (omega arith)
      (λ e. omega (arith, e))

message_add-spins_example :
    (new : Kernel) × (message_add 1026 77 letter true sample ≡ done (tt, new))
    × ((fuel : ℕ) → message_find fuel 1026 88 new ≡ done (none, new))
unfolding bitmap_test port_compare
message_add-spins_example =
    message_add-spins sample 1026 77 letter 88 second-Live (omega arith) (λ i. ground arith) refl
      refl refl refl
