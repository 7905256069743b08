-- ===== src/Ipc/Message/Front.antt =====
-- The queues once `message_find` of kernel/core/ipc/message.c has taken a message to the front.
use mathlib.Core.Path.{subst}
use horizon_microkernel.Prelude.{
  ℕ, ◌≡◌, ap, refl, sym, inl, inr, true, false, ◌==◌, ==_iff, if◌then◌else◌, Bool-cases, arith,
  List, ◌∷◌, has, erase, write, some,
}
use horizon_microkernel.Prelude.Members.{has-erase}
use horizon_microkernel.Prelude.Outcome.{done}
use horizon_microkernel.State.{
  Kernel, Thread, ThreadUid, uid_pid, set_link, set_msg_head, set_msg_tail,
}
use horizon_microkernel.Multitask.Table.{Live}
use horizon_microkernel.Ipc.Message.{to_front}
use horizon_microkernel.Ipc.Message.Queue.{QueueOf, Queues, HasQueue, sans_link}
use horizon_microkernel.Ipc.Message.Call.{write_message}
use horizon_microkernel.Ipc.Message.Grow.{frame-HasQueue}
use horizon_microkernel.Ipc.Message.Remove.{queue_left}
use horizon_microkernel.Ipc.Message.Find.{before}
use horizon_microkernel.Ipc.Message.Move.{has-before, Moved, move-HasQueue}

-- The threads when the tail is taken off `y`.
abbrev pub tailed : Kernel → ThreadUid → ℕ → ℕ → ThreadUid → Thread
tailed k u p y =
    if (k.threads u).msg_info.tail == y then write k.threads u (set_msg_tail p) else k.threads

abbrev pub moved : Kernel → ThreadUid → ℕ → ℕ → Kernel
moved k u p y = record k {
  messages =
      write_message
        (write_message k.messages (uid_pid u) p (set_link (k.messages (uid_pid u) y).next))
        (uid_pid u) y (set_link (tailed k u p y u).msg_info.head);
  threads = write (tailed k u p y) u (set_msg_head y);
}

pub to_front-run :
    (k : Kernel) (u : ThreadUid) (p y : ℕ)
    → to_front (some (uid_pid u)) (some u) p y k ≡ done (tt, moved k u p y)
unfolding to_front
to_front-run k u p y = elim (Bool-cases ((k.threads u).msg_info.tail == y)) [
  | inl e ↦ rw (e) refl
  | inr ne ↦ rw (ne) refl
]

module _ (k : Kernel) (qs : ThreadUid → List ℕ) (u : ThreadUid) (x y : ℕ) (xs : List ℕ)
    (q : Queues k qs) (live : Live k u) (list : qs u ≡ x ∷ xs) (inner : has y xs ≡ true) where
  abbrev pub p : ℕ
  p = before y x xs

  abbrev pub fronted : Kernel
  fronted = moved k u p y

  own : QueueOf k u (x ∷ xs)
  own = subst (λ ys. QueueOf k u ys) list (q.queue u live)

  fronted-Moved :
      Moved
        (k.messages (uid_pid u))
        (fronted.messages (uid_pid u))
        (k.threads u).msg_info
        (fronted.threads u).msg_info
        x
        y
        p
  fronted-Moved = record {
    count = ground arith;
    head = ground arith;
    tail = ground arith;
    links = λ j. ground (arith, own.shape.0);
  }

  own_queue : QueueOf fronted u (y ∷ x ∷ erase y xs)
  own_queue =
      move-HasQueue (k.messages (uid_pid u)) (fronted.messages (uid_pid u)) (k.threads u).msg_info
        (fronted.threads u).msg_info (k.processes (uid_pid u)).msg_info.bitmap x y xs fronted-Moved
        own inner

  other-info :
      (v : ThreadUid) → u == v ≡ false → (fronted.threads v).msg_info ≡ (k.threads v).msg_info
  other-info v ne = ground (arith, ne)

  other-link :
      (o j : ℕ)
      → (o ≡ uid_pid u → (y == j ≡ false) × (p == j ≡ false))
      → (fronted.messages o j).next ≡ (k.messages o j).next
  other-link o j apart = ground (arith, apart)

  pub fronted-kept : (o j : ℕ) → sans_link (fronted.messages o j) ≡ sans_link (k.messages o j)
  fronted-kept o j = ground arith

  other-apart :
      (v : ThreadUid) (j i : ℕ)
      → Live k v
      → u == v ≡ false
      → uid_pid v ≡ uid_pid u
      → has j (qs v) ≡ true
      → has i (x ∷ xs) ≡ true
      → i == j ≡ false
  other-apart v j i lv ne e h g =
      let mine : has i (qs u) ≡ true = subst (λ ys. has i ys ≡ true) (sym list) g in
      ground (arith, q.apart u v i live lv ne (sym e) mine, h)

  other_queue : (v : ThreadUid) → Live k v → u == v ≡ false → QueueOf fronted v (qs v)
  other_queue v lv ne =
      subst
        (λ i.
          HasQueue (fronted.messages (uid_pid v)) i (k.processes (uid_pid v)).msg_info.bitmap
            (qs v))
        (sym (other-info v ne))
        (frame-HasQueue (k.messages (uid_pid v)) (fronted.messages (uid_pid v))
          (k.threads v).msg_info (k.processes (uid_pid v)).msg_info.bitmap
          (k.processes (uid_pid v)).msg_info.bitmap (qs v) (q.queue v lv)
          (λ j h. other-link (uid_pid v) j (λ e. (
            other-apart v j y lv ne e h (ground (arith, inner)),
            other-apart v j p lv ne e h (has-before y x xs inner),
          )))
          (λ j h. (q.queue v lv).used j h))

  promoted-has :
      (v : ThreadUid) (j : ℕ)
      → has j (queue_left qs u (y ∷ x ∷ erase y xs) v) ≡ true
      → has j (qs v) ≡ true
  promoted-has v j h = elim (Bool-cases (u == v)) [
    | inl e ↦
        subst (λ w. has j (queue_left qs u (y ∷ x ∷ erase y xs) w) ≡ true → has j (qs w) ≡ true)
          ((==_iff u v).0 e)
          (λ g.
            subst (λ ys. has j ys ≡ true) (sym list)
              (ground (arith, g, inner, has-erase j y xs own.distinct.1)))
          h
    | inr ne ↦ ground (arith, ne)
  ]

  pub fronted-Queues : Queues fronted (queue_left qs u (y ∷ x ∷ erase y xs))
  fronted-Queues = record {
    queue = λ v l. elim (Bool-cases (u == v)) [
      | inl e ↦
          subst (λ w. QueueOf fronted w (queue_left qs u (y ∷ x ∷ erase y xs) w)) ((==_iff u v).0 e)
            (subst (λ ys. QueueOf fronted u ys)
              (ap (λ b. if b then y ∷ x ∷ erase y xs else qs u) (sym ((==_iff u u).1 refl)))
              own_queue)
      | inr ne ↦
          subst (λ ys. QueueOf fronted v ys)
            (ap (λ b. if b then y ∷ x ∷ erase y xs else qs v) (sym ne)) (other_queue v l ne)
    ];
    apart = λ v w j lv lw ne e h.
        let apart = q.apart v w j lv lw ne e (promoted-has v j h) in
        ground (arith, promoted-has w j, apart);
    slots = q.slots;
  }
