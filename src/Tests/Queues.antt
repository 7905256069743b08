-- ===== src/Tests/Queues.antt =====
-- kernel/core/multitask/scheduler.c on the sample.
use horizon_microkernel.Prelude.{refl, [], ◌∷◌}
use horizon_microkernel.State.{Kernel}
use horizon_microkernel.Multitask.Scheduler.Add.{Adds, scheduler_add-Adds}
use horizon_microkernel.Multitask.Scheduler.Remove.{Removes, scheduler_remove-Removes}
use horizon_microkernel.Multitask.Scheduler.Switch.{Switches, scheduler_next-Switches}
use horizon_microkernel.Prelude.{arith}
use horizon_microkernel.Multitask.Scheduler.Turns.{Reaches, turns-Reaches}
use horizon_microkernel.Multitask.Scheduler.Ticks.{TimesOut, ticks-TimesOut}
use horizon_microkernel.Tests.Sample.{sample, sample-Schedules, sample-OwnersMatch, third-Live}

scheduler_add-Adds_example : (k : Kernel) × Adds sample k 2050 (2 ∷ 1026 ∷ [])
scheduler_add-Adds_example =
    scheduler_add-Adds sample 2050 (2 ∷ 1026 ∷ []) sample-Schedules third-Live refl

scheduler_remove-Removes_example : (k : Kernel) × Removes sample k 1026 (2 ∷ 1026 ∷ [])
scheduler_remove-Removes_example =
    scheduler_remove-Removes sample 1026 (2 ∷ 1026 ∷ []) sample-Schedules refl refl

scheduler_next-Switches_example : (k : Kernel) × Switches sample k 2 1026 []
scheduler_next-Switches_example =
    scheduler_next-Switches sample 2 1026 [] sample-Schedules sample-OwnersMatch refl

turns-Reaches_example : (k : Kernel) × Reaches sample k 1 1026 (2 ∷ [])
turns-Reaches_example = turns-Reaches sample 2 1026 [] [] sample-Schedules sample-OwnersMatch refl

ticks-TimesOut_example : (k : Kernel) × TimesOut 1 sample k 2 1026 []
ticks-TimesOut_example =
    ticks-TimesOut 0 sample 2 1026 [] sample-Schedules sample-OwnersMatch refl refl (omega arith)
