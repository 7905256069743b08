-- ===== src/Ipc/Message/Queue.antt =====
-- What it means that the message queues of the kernel hold lists of slots.
use horizon_microkernel.Prelude.{
  ℕ, zero, suc, ◌+◌, ◌≤◌, ◌<◌, ◌≡◌, refl, inl, inr, true, false, ◌==◌, if◌then◌else◌, Bool-cases,
  arith, List, [], ◌∷◌, has, Distinct, length,
}
use horizon_microkernel.Util.Bitmap.{Bitmap, bitmap_test, bitmap_set, bitmap_clear}
use horizon_microkernel.Util.Bitmap.Laws.{IsWords, test-set, test-clear}
use horizon_microkernel.State.{Kernel, Message, MsgInfo, QueueInfo, ThreadUid, uid_pid, set_link}
use horizon_microkernel.Multitask.Table.{Live, LiveProcess}
use horizon_microkernel.Ipc.Message.Chain.{Messages, Chain, last}

-- The number of bits that are set below `n`.
unfoldable pub taken : ℕ → Bitmap → ℕ
taken zero bm = 0
taken (suc n) bm = taken n bm + (if bitmap_test bm n then 1 else 0)

pub taken-le : (n : ℕ) (bm : Bitmap) → taken n bm ≤ n
unfolding taken
taken-le zero bm = omega arith
taken-le (suc n) bm = ground (arith, taken-le n bm)

taken-congr :
    (n : ℕ) (bm cm : Bitmap)
    → ((j : ℕ) → j < n → bitmap_test cm j ≡ bitmap_test bm j)
    → taken n cm ≡ taken n bm
unfolding taken
taken-congr zero bm cm same = refl
taken-congr (suc n) bm cm same =
    ground (arith, same n, taken-congr n bm cm (λ j h. same j (omega arith)))

-- Setting a clear bit adds one.
pub taken-set :
    (n i : ℕ) (bm : Bitmap)
    → i < n
    → bitmap_test bm i ≡ false
    → taken n (bitmap_set bm i) ≡ taken n bm + 1
unfolding taken
taken-set zero i bm h clear = absurd (omega arith)
taken-set (suc n) i bm h clear = elim (Bool-cases (i == n)) [
  | inl e ↦ ground (
    arith,
    test-set bm i n,
    taken-congr n bm (bitmap_set bm i) (λ j l. ground (arith, test-set bm i j)),
  )
  | inr ne ↦ ground (arith, test-set bm i n, taken-set n i bm)
]

-- Clearing a set bit takes one away.
pub taken-clear :
    (n i : ℕ) (bm : Bitmap)
    → IsWords bm
    → i < n
    → bitmap_test bm i ≡ true
    → taken n (bitmap_clear bm i) + 1 ≡ taken n bm
unfolding taken
taken-clear zero i bm w h set = absurd (omega arith)
taken-clear (suc n) i bm w h set = elim (Bool-cases (i == n)) [
  | inl e ↦ ground (
    arith,
    test-clear bm i n w,
    taken-congr n bm (bitmap_clear bm i) (λ j l. ground (arith, test-clear bm i j w)),
  )
  | inr ne ↦ ground (arith, test-clear bm i n w, taken-clear n i bm w)
]

-- With fewer than `n` bits set, one below `n` is clear.
pub free_below :
    (n : ℕ) (bm : Bitmap) → taken n bm < n → (c : ℕ) × (c < n) × (bitmap_test bm c ≡ false)
unfolding taken
free_below zero bm h = absurd (omega arith)
free_below (suc n) bm h = elim (Bool-cases (bitmap_test bm n)) [
  | inr clear ↦ (n, omega arith, clear)
  | inl set ↦ let (c, l, f) = free_below n bm (ground (arith, set)) in (c, omega (arith, l), f)
]

-- The slots of a process: `count` counts the bits of the bitmap.
pub record Slots (q : QueueInfo) : Type 0 where
  pub words : IsWords q.bitmap
  pub counted : q.count ≡ taken 1024 q.bitmap

-- The head, the tail and the links of a queue that is not empty.
abbrev pub Shape : Messages → MsgInfo → List ℕ → Type 0
Shape ms info [] = Unit {0}
Shape ms info (x ∷ xs) = (info.head ≡ x) × (info.tail ≡ last x xs) × Chain ms x xs

-- The slots `xs`, in order, are the queue of a thread.
pub record HasQueue (ms : Messages) (info : MsgInfo) (bm : Bitmap) (xs : List ℕ) : Type 0 where
  pub count : info.count ≡ length xs
  pub inside : (j : ℕ) → has j xs ≡ true → j < 1024
  pub used : (j : ℕ) → has j xs ≡ true → bitmap_test bm j ≡ true
  pub distinct : Distinct xs
  pub shape : Shape ms info xs

abbrev pub QueueOf : Kernel → ThreadUid → List ℕ → Type 0
QueueOf k u xs =
    HasQueue (k.messages (uid_pid u)) (k.threads u).msg_info
      (k.processes (uid_pid u)).msg_info.bitmap xs

-- The queues of all threads: those of one process share no slot.
pub record Queues (k : Kernel) (qs : ThreadUid → List ℕ) : Type 0 where
  pub queue : (u : ThreadUid) → Live k u → QueueOf k u (qs u)
  pub apart :
      (u v : ThreadUid) (j : ℕ)
      → Live k u
      → Live k v
      → (u == v) ≡ false
      → uid_pid u ≡ uid_pid v
      → has j (qs u) ≡ true
      → has j (qs v) ≡ false
  pub slots : (p : ℕ) → LiveProcess k p → Slots (k.processes p).msg_info

-- A message without its link.
abbrev pub sans_link : Message → Message
sans_link = set_link 0
