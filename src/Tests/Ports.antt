-- ===== src/Tests/Ports.antt =====
-- kernel/core/ipc/port.c on the sample.

use horizon_microkernel.Prelude.{ℕ, ◌+◌, ◌^◌, refl, ◌≡◌, arith}
use horizon_microkernel.Prelude.Outcome.{done}
use horizon_microkernel.Util.Bitmap.{bitmap_test}
use horizon_microkernel.Util.Bmstack.{bmstack_test}
use horizon_microkernel.Multitask.Table.{Live, thread_live, process_live, thread_get, process_get}
use horizon_microkernel.Ipc.Port.{port_from_uid, port_to_uid, check_versions}
use horizon_microkernel.Ipc.Port.Laws.{HasIds, port_to_uid-port_from_uid, port_to_uid_sound}
use horizon_microkernel.Tests.Sample.{sample, second-Live}

second-HasIds : HasIds sample 1026
second-HasIds = record {
  small = omega arith;
  pid = refl;
  tid = refl;
  pvn = omega arith;
  tvn = omega arith;
  versioned = omega arith;
}

-- PID 2 and TID 1, both in version 1.
abbrev port0 : ℕ
port0 = 2 + 2 ^ 10 + 2 ^ 18 + 2 ^ 24

port0-resolves : port_to_uid port0 7 sample ≡ done (1026, sample)
unfolding port_to_uid check_versions thread_get process_get thread_live process_live bmstack_test
    bitmap_test
port0-resolves = refl

port_to_uid-port_from_uid_example :
    (port : ℕ) × (port_from_uid 1026 sample ≡ done (port, sample))
    × (port_to_uid port 7 sample ≡ done (1026, sample))
port_to_uid-port_from_uid_example =
    port_to_uid-port_from_uid sample 1026 7 second-Live second-HasIds

port_to_uid_sound_example : Live sample 1026 × (port_from_uid 1026 sample ≡ done (port0, sample))
port_to_uid_sound_example =
    port_to_uid_sound sample port0 7 1026 (omega arith) refl port0-resolves (λ e. omega (arith, e))
      second-HasIds
