-- ===== src/Ipc/Message/Grow.antt =====
-- Queues as a slot is added, for any arrays of messages.
use horizon_microkernel.Prelude.{
  ℕ, ◌+◌, ◌≤◌, ◌<◌, ◌≡◌, true, false, ◌==◌, if◌then◌else◌, arith, List, [], ◌∷◌, ◌++◌, has,
  Distinct, length, length-append,
}
use horizon_microkernel.Prelude.Members.{has-snoc, Distinct-snoc}
use horizon_microkernel.Util.Bitmap.{Bitmap, bitmap_test, bitmap_clear}
use horizon_microkernel.Util.Bitmap.Laws.{IsWords, test-clear, clear-IsWords}
use horizon_microkernel.State.{Kernel, ThreadUid, uid_pid, MsgInfo}
use horizon_microkernel.Multitask.Table.{Live, Live-process}
use horizon_microkernel.Ipc.Message.{nil}
use horizon_microkernel.Ipc.Message.Chain.{Messages, has-last, last-snoc, Chain-frame, Chain-snoc}
use horizon_microkernel.Ipc.Message.Queue.{HasQueue, Shape, Queues, taken, taken-le, taken-clear}

-- No more slots are in a list than bits are set.
pub length-le-taken :
    (n : ℕ) (bm : Bitmap) (xs : List ℕ)
    → IsWords bm
    → Distinct xs
    → ((j : ℕ) → has j xs ≡ true → j < n)
    → ((j : ℕ) → has j xs ≡ true → bitmap_test bm j ≡ true)
    → length xs ≤ taken n bm
length-le-taken n bm [] w d inside used = omega arith
length-le-taken n bm (x ∷ xs) w d inside used = omega (
  arith,
  taken-clear n x bm w (inside x (ground arith)) (used x (ground arith)),
  length-le-taken n (bitmap_clear bm x) xs (clear-IsWords bm x w) d.1
      (λ j h. inside j (ground arith)) (λ j h. ground (arith, test-clear bm x j w, used j, d.0)),
)

-- A queue whose slots are left alone.
pub frame-HasQueue :
    (ms ns : Messages) (info : MsgInfo) (bm cm : Bitmap) (xs : List ℕ)
    → HasQueue ms info bm xs
    → ((j : ℕ) → has j xs ≡ true → (ns j).next ≡ (ms j).next)
    → ((j : ℕ) → has j xs ≡ true → bitmap_test cm j ≡ true)
    → HasQueue ns info cm xs
frame-HasQueue ms ns info bm cm [] q same used = record {
  count = q.count;
  inside = q.inside;
  used = used;
  distinct = q.distinct;
  shape = tt;
}
frame-HasQueue ms ns info bm cm (x ∷ xs) q same used = record {
  count = q.count;
  inside = q.inside;
  used = used;
  distinct = q.distinct;
  shape = (q.shape.0, q.shape.1, Chain-frame ms ns x xs same q.shape.2);
}

-- What `append` writes to the links and the ends of a list.
pub record Grown (ms ns : Messages) (info new : MsgInfo) (i : ℕ) : Type 0 where
  pub count : new.count ≡ info.count + 1
  pub head : new.head ≡ (if info.count == 0 then i else info.head)
  pub tail : new.tail ≡ i
  pub links :
      (j : ℕ)
      → (ns j).next ≡ (
          if i == j
          then nil
          else if info.count == 0
          then (ms j).next
          else if info.tail == j
          then i
          else (ms j).next)

Grown-Shape :
    (ms ns : Messages) (info new : MsgInfo) (i : ℕ) (bm : Bitmap) (xs : List ℕ)
    → Grown ms ns info new i
    → HasQueue ms info bm xs
    → has i xs ≡ false
    → Shape ns new (xs ++ i ∷ [])
Grown-Shape ms ns info new i bm [] g q fresh =
    (ground (arith, g.head, q.count), g.tail, ground (arith, g.links i))
Grown-Shape ms ns info new i bm (x ∷ xs) g q fresh =
    let (h, t, c) = q.shape in
    (
      ground (arith, g.head, q.count, h),
      ground (arith, g.tail, last-snoc x i xs),
      Chain-snoc ms ns x i xs (λ j. ground (arith, g.links j, q.count, t)) c q.distinct fresh,
    )

pub grow-HasQueue :
    (ms ns : Messages) (info new : MsgInfo) (i : ℕ) (bm cm : Bitmap) (xs : List ℕ)
    → Grown ms ns info new i
    → HasQueue ms info bm xs
    → i < 1024
    → bitmap_test bm i ≡ false
    → ((j : ℕ) → bitmap_test cm j ≡ (if i == j then true else bitmap_test bm j))
    → HasQueue ns new cm (xs ++ i ∷ [])
grow-HasQueue ms ns info new i bm cm xs g q inside clear bits =
    let fresh : has i xs ≡ false = ground (arith, q.used i) in
    record {
      count = ground (arith, g.count, q.count, length-append xs (i ∷ []));
      inside = λ j h. ground (arith, has-snoc j i xs, q.inside j);
      used = λ j h. ground (arith, has-snoc j i xs, q.used j, bits j);
      distinct = Distinct-snoc i xs q.distinct fresh;
      shape = Grown-Shape ms ns info new i bm xs g q fresh;
    }

-- The tail of a queue that is not empty is one of its slots.
pub tail_in :
    (ms : Messages) (info : MsgInfo) (bm : Bitmap) (xs : List ℕ)
    → HasQueue ms info bm xs
    → info.count == 0 ≡ false
    → has info.tail xs ≡ true
tail_in ms info bm [] q ne = ground (arith, q.count)
tail_in ms info bm (x ∷ xs) q ne = ground (arith, q.shape.1, has-last x xs)

-- No queue is longer than the array of slots.
pub queue-length :
    (k : Kernel) (qs : ThreadUid → List ℕ) (u : ThreadUid)
    → Queues k qs
    → Live k u
    → length (qs u) ≤ 1024
queue-length k qs u q live =
    let own = q.queue u live in
    let s = q.slots (uid_pid u) (Live-process k u live) in
    omega (
      arith,
      length-le-taken 1024 (k.processes (uid_pid u)).msg_info.bitmap (qs u) s.words own.distinct
          own.inside own.used,
      taken-le 1024 (k.processes (uid_pid u)).msg_info.bitmap,
    )
