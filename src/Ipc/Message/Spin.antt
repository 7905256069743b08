-- ===== src/Ipc/Message/Spin.antt =====
-- A message in front of the empty queue of a fresh thread, and `message_find` after it.
use mathlib.Core.Path.{subst}
use horizon_microkernel.Prelude.{
  ℕ, zero, suc, ◌≤◌, ◌<◌, ◌≡◌, ◌∙◌, ap, refl, sym, true, false, ◌==◌, arith, none, some,
}
use horizon_microkernel.Prelude.Outcome.{done}
use horizon_microkernel.Util.Bitmap.{bitmap_test, bitmap_set, bitmap_find_and_set}
use horizon_microkernel.Util.Bitmap.Laws.{IsWords}
use horizon_microkernel.Util.Bitmap.Find.{bitmap_find_and_set-Takes}
use horizon_microkernel.State.{Kernel, Msg, ThreadUid, uid_pid}
use horizon_microkernel.Multitask.Table.{Live, Live-processes}
use horizon_microkernel.Ipc.Port.{port_compare}
use horizon_microkernel.Ipc.Message.{nil, fill_slot, find_loop, message_add, message_find}
use horizon_microkernel.Ipc.Message.Find.{at_slot, find_loop-step}
use horizon_microkernel.Ipc.Message.Search.{find-run}
use horizon_microkernel.Ipc.Message.Call.{slotted, prepended, add-run, prepend-run}

-- From a slot that is linked to itself the loop does not come back.
find_loop_self :
    (fuel : ℕ) (k : Kernel) (u : ThreadUid) (port prev i : ℕ)
    → i < 1024
    → (k.messages (uid_pid u) i).next ≡ i
    → port_compare port (k.messages (uid_pid u) i).from ≡ false
    → find_loop fuel (some (uid_pid u)) (some u) port prev i k ≡ done (none, k)
unfolding find_loop
find_loop_self zero k u port prev i inside self other = refl
find_loop_self (suc fuel) k u port prev i inside self other =
    find_loop-step fuel k u port prev i inside
    ∙ ap (λ b. at_slot fuel k u port prev i b k) other
    ∙ ap (λ n. find_loop fuel (some (uid_pid u)) (some u) port i n k) self
    ∙ find_loop_self fuel k u port i i inside self other

module _ (k : Kernel) (u : ThreadUid) (from : ℕ) (info : Msg)
    (fresh : (k.threads u).msg_info.head ≡ 0) (empty : (k.threads u).msg_info.count ≡ 0) where
  abbrev after : Kernel
  after = prepended (slotted k (uid_pid u) 0 from info) u 0

  after-link : (after.messages (uid_pid u) 0).next ≡ 0
  after-link = ground (arith, fresh, empty)

  after-from : (after.messages (uid_pid u) 0).from ≡ from
  unfolding fill_slot
  after-from = ground arith

  after-count : (after.threads u).msg_info.count == 0 ≡ false
  after-count = ground (arith, empty)

  after-head : (after.threads u).msg_info.head ≡ 0
  after-head = ground arith

-- A live thread has the queue of a fresh one, no message and 0 for its head, and slot 0 of its
-- process is free. Then `message_add` with `head` true does not halt, and afterwards the loop of
-- `message_find` does not end, with any number of rounds, for a port that does not cover the sender.
pub message_add-spins :
    (k : Kernel) (u : ThreadUid) (from : ℕ) (info : Msg) (port : ℕ)
    → Live k u
    → (k.processes (uid_pid u)).msg_info.count ≤ 1024
    → IsWords (k.processes (uid_pid u)).msg_info.bitmap
    → bitmap_test (k.processes (uid_pid u)).msg_info.bitmap 0 ≡ false
    → (k.threads u).msg_info.head ≡ 0
    → (k.threads u).msg_info.count ≡ 0
    → port_compare port from ≡ false
    → (new : Kernel) × (message_add u from info true k ≡ done (tt, new))
      × ((fuel : ℕ) → message_find fuel u port new ≡ done (none, new))
message_add-spins k u from info port live room words free fresh empty other =
    let bm = (k.processes (uid_pid u)).msg_info.bitmap in
    let (i, l, t) = bitmap_find_and_set-Takes bm 1024 0 words (omega arith) free in
    let first : i ≡ 0 = omega (arith, l) in
    let found : bitmap_find_and_set bm 1024 ≡ (some 0, bitmap_set bm 0) =
      subst (λ j. bitmap_find_and_set bm 1024 ≡ (some j, bitmap_set bm j)) first t.result in
    let new : Kernel = after k u from info fresh empty in
    (
      new,
      add-run k u from 0 info live (ground (arith, room)) found true
          ∙ prepend-run (slotted k (uid_pid u) 0 from info) u 0,
      λ fuel.
          find-run new u fuel port 0 (Live-processes k new.processes u (λ p. ground arith) live)
            (after-count k u from info fresh empty) (after-head k u from info fresh empty)
          ∙ find_loop_self fuel new u port nil 0 (omega arith)
              (after-link k u from info fresh empty)
              (subst (λ f. port_compare port f ≡ false) (sym (after-from k u from info fresh empty))
                other),
    )
