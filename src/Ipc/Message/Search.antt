-- ===== src/Ipc/Message/Search.antt =====
-- `message_find` of kernel/core/ipc/message.c.
use mathlib.Core.Path.{subst, fun_ext}
use horizon_microkernel.Prelude.{
  ℕ, ◌+◌, ◌<◌, ◌≡◌, ◌∙◌, ap, refl, sym, inl, inr, Bool, true, false, ◌==◌, ==_iff, if◌then◌else◌,
  Bool-cases, arith, List, [], ◌∷◌, has, erase, length, Option, none, some,
}
use horizon_microkernel.Prelude.Outcome.{done}
use horizon_microkernel.State.{Kernel, ThreadUid, uid_pid, pure, and_then}
use horizon_microkernel.Multitask.Table.{
  Live, Live-process, thread_get-Live, process_get-LiveProcess,
}
use horizon_microkernel.Ipc.Message.{nil, is_nil, find_loop, message_find}
use horizon_microkernel.Ipc.Message.Queue.{QueueOf, Queues, sans_link}
use horizon_microkernel.Ipc.Message.Grow.{queue-length}
use horizon_microkernel.Ipc.Message.Remove.{queue_left}
use horizon_microkernel.Ipc.Message.Find.{first, first-has, before, fits, finish, find_loop-run}
use horizon_microkernel.Ipc.Message.Move.{has-before}
use horizon_microkernel.Ipc.Message.Front.{moved, to_front-run, fronted-Queues, fronted-kept}

-- The slots with `y` in front.
abbrev pub promote : Option ℕ → List ℕ → List ℕ
promote none xs = xs
promote (some y) xs = y ∷ erase y xs

abbrev pub found : Option ℕ → Bool
found none = false
found (some y) = true

-- The call goes to the loop.
pub find-run :
    (k : Kernel) (u : ThreadUid) (fuel port x : ℕ)
    → Live k u
    → (k.threads u).msg_info.count == 0 ≡ false
    → (k.threads u).msg_info.head ≡ x
    → message_find fuel u port k ≡ find_loop fuel (some (uid_pid u)) (some u) port nil x k
unfolding message_find
find-run k u fuel port x live some_message head =
    rw (process_get-LiveProcess k (uid_pid u) (Live-process k u live), message_find)
      (rw (thread_get-Live k u live) (
        rw (some_message) (ap (λ y. find_loop fuel (some (uid_pid u)) (some u) port nil y k) head)))

find-none :
    (k : Kernel) (u : ThreadUid) (fuel port : ℕ)
    → Live k u
    → (k.threads u).msg_info.count == 0 ≡ true
    → message_find fuel u port k ≡ done (some false, k)
unfolding message_find
find-none k u fuel port live no_message =
    rw (process_get-LiveProcess k (uid_pid u) (Live-process k u live), message_find)
      (rw (thread_get-Live k u live) (rw (no_message) refl))

-- Lists that are equal thread by thread.
same-Queues :
    (k : Kernel) (qs rs : ThreadUid → List ℕ)
    → Queues k qs
    → ((v : ThreadUid) → qs v ≡ rs v)
    → Queues k rs
same-Queues k qs rs q e = subst (λ r. Queues k r) (fun_ext e) q

unchanged :
    (k : Kernel) (qs : ThreadUid → List ℕ) (u : ThreadUid) (xs : List ℕ)
    → Queues k qs
    → qs u ≡ xs
    → Queues k (queue_left qs u xs)
unchanged k qs u xs q e = same-Queues k qs (queue_left qs u xs) q (λ v.
    elim (Bool-cases (u == v)) as (λ _. qs v ≡ (if u == v then xs else qs v)) [
      | inl h ↦ rw (h) (subst (λ w. qs w ≡ xs) ((==_iff u v).0 h) e)
      | inr h ↦ rw (h) refl
    ])

-- What the end of the loop does, for the slot `hit`.
record Ends (k : Kernel) (qs : ThreadUid → List ℕ) (u : ThreadUid) (xs : List ℕ) (hit : Option ℕ)
    (new : Kernel) : Type 0 where
  call : finish u nil xs hit k ≡ done (some (found hit), new)
  queues : Queues new (queue_left qs u (promote hit xs))
  kept : (p j : ℕ) → sans_link (new.messages p j) ≡ sans_link (k.messages p j)
  unmoved : hit ≡ none → new ≡ k

module _ (k : Kernel) (qs : ThreadUid → List ℕ) (u : ThreadUid) (x : ℕ) (xs : List ℕ)
    (q : Queues k qs) (live : Live k u) (list : qs u ≡ x ∷ xs) where
  head-Ends : (y : ℕ) → y == x ≡ true → Ends k qs u (x ∷ xs) (some y) k
  unfolding finish erase
  head-Ends y e = record {
    call = rw (e) refl;
    queues =
        subst (λ z. Queues k (queue_left qs u (z ∷ (if z == x then xs else x ∷ erase z xs))))
          (sym ((==_iff y x).0 e))
          (let same : x == x ≡ true = ground arith in rw (same) (unchanged k qs u (x ∷ xs) q list));
    kept = λ p j. refl;
    unmoved = λ e. refl;
  }

  inner-Ends :
      (y : ℕ)
      → y == x ≡ false
      → has y xs ≡ true
      → ((j : ℕ) → has j (x ∷ xs) ≡ true → j < 1024)
      → Ends k qs u (x ∷ xs) (some y) (moved k u (before y x xs) y)
  unfolding finish erase
  inner-Ends y ne inner inside =
      let far : is_nil (before y x xs) ≡ false =
        ground (arith, inside (before y x xs) (has-before y x xs inner)) in
      record {
        call =
            rw (ne, far)
              (ap (λ r. and_then {A = Unit {0}} r (λ _. pure (some true)))
                (to_front-run k u (before y x xs) y));
        queues = rw (ne) (fronted-Queues k qs u x y xs q live list inner);
        kept = fronted-kept k qs u x y xs q live list inner;
        unmoved = λ e. ground (arith, e);
      }

  ends :
      (port : ℕ) (hit : Option ℕ)
      → first (fits (k.messages (uid_pid u)) port) (x ∷ xs) ≡ hit
      → ((j : ℕ) → has j (x ∷ xs) ≡ true → j < 1024)
      → (new : Kernel) × Ends k qs u (x ∷ xs) hit new
  unfolding finish
  ends port none e inside = (
    k,
    record {
      call = refl;
      queues = unchanged k qs u (x ∷ xs) q list;
      kept = λ p j. refl;
      unmoved = λ e'. refl;
    },
  )
  ends port (some y) e inside =
      let member = first-has (fits (k.messages (uid_pid u)) port) (x ∷ xs) y e in
      elim (Bool-cases (y == x)) [
        | inl same ↦ (k, head-Ends y same)
        | inr other ↦
            (moved k u (before y x xs) y, inner-Ends y other (ground (arith, member, other)) inside)
      ]

-- What `message_find` does to the kernel `k`.
pub record Finds (k : Kernel) (qs : ThreadUid → List ℕ) (u : ThreadUid) (fuel port : ℕ)
    (hit : Option ℕ) (new : Kernel) : Type 0 where
  pub call : message_find fuel u port k ≡ done (some (found hit), new)
  pub queues : Queues new (queue_left qs u (promote hit (qs u)))
  pub kept : (p j : ℕ) → sans_link (new.messages p j) ≡ sans_link (k.messages p j)
  pub unmoved : hit ≡ none → new ≡ k

finds_in :
    (k : Kernel) (qs : ThreadUid → List ℕ) (u : ThreadUid) (fuel port : ℕ) (xs : List ℕ)
    → Queues k qs
    → Live k u
    → qs u ≡ xs
    → length xs + 1 < fuel
    → (new : Kernel) × (message_find fuel u port k
        ≡ done (some (found (first (fits (k.messages (uid_pid u)) port) xs)), new))
      × Queues new (queue_left qs u (promote (first (fits (k.messages (uid_pid u)) port) xs) xs))
      × ((p j : ℕ) → sans_link (new.messages p j) ≡ sans_link (k.messages p j))
      × (first (fits (k.messages (uid_pid u)) port) xs ≡ none → new ≡ k)
unfolding first
finds_in k qs u fuel port [] q live list h =
    let own : QueueOf k u [] = subst (λ ys. QueueOf k u ys) list (q.queue u live) in
    (
      k,
      find-none k u fuel port live (ground (arith, own.count)),
      unchanged k qs u [] q list,
      λ p j. refl,
      λ e. refl,
    )
finds_in k qs u fuel port (x ∷ xs) q live list h =
    let own : QueueOf k u (x ∷ xs) = subst (λ ys. QueueOf k u ys) list (q.queue u live) in
    let (new, e) =
      ends k qs u x xs q live list port (first (fits (k.messages (uid_pid u)) port) (x ∷ xs)) refl
        own.inside in
    (
      new,
      find-run k u fuel port x live (ground (arith, own.count)) own.shape.0
          ∙ find_loop-run fuel k u port nil x xs own.shape.2 own.inside (omega (arith, h))
          ∙ e.call,
      e.queues,
      e.kept,
      e.unmoved,
    )

-- If the queues of all threads are lists of slots and the thread is alive, then the loop of
-- `message_find` ends within 1026 rounds. The result is true if a message of the thread comes from
-- a port that the search covers. The first such message is then in front of the thread's queue, and
-- the others follow in their order; if there is none, the kernel is unchanged. The queues of all
-- other threads are kept, and no message is changed but for its link.
pub message_find-Finds :
    (k : Kernel) (qs : ThreadUid → List ℕ) (u : ThreadUid) (fuel port : ℕ)
    → Queues k qs
    → Live k u
    → 1025 < fuel
    → (new : Kernel) × Finds k qs u fuel port
        (first (fits (k.messages (uid_pid u)) port) (qs u))
        new
message_find-Finds k qs u fuel port q live h =
    let (new, call, queues, kept, unmoved) =
      finds_in k qs u fuel port (qs u) q live refl (omega (arith, h, queue-length k qs u q live)) in
    (new, record { call = call; queues = queues; kept = kept; unmoved = unmoved })
