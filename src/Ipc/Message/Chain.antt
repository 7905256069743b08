-- ===== src/Ipc/Message/Chain.antt =====
-- Lists through an array of messages.
use horizon_microkernel.Prelude.{
  ℕ, ◌≡◌, refl, true, false, ◌==◌, if◌then◌else◌, arith, List, [], ◌∷◌, ◌++◌, has, Distinct,
}
use horizon_microkernel.State.{Message}
use horizon_microkernel.Ipc.Message.{nil}

abbrev pub Messages : Type 0
Messages = ℕ → Message

-- From `x` the links lead through `xs`, and the last one is -1.
abbrev pub Chain : Messages → ℕ → List ℕ → Type 0
Chain ms x [] = (ms x).next ≡ nil
Chain ms x (y ∷ ys) = ((ms x).next ≡ y) × Chain ms y ys

abbrev pub last : ℕ → List ℕ → ℕ
last x [] = x
last x (y ∷ ys) = last y ys

pub has-last : (x : ℕ) (xs : List ℕ) → has (last x xs) (x ∷ xs) ≡ true
has-last x [] = ground arith
has-last x (y ∷ ys) = ground (arith, has-last y ys)

pub last-snoc : (x i : ℕ) (xs : List ℕ) → last x (xs ++ i ∷ []) ≡ i
last-snoc x i [] = refl
last-snoc x i (y ∷ ys) = last-snoc y i ys

pub Chain-frame :
    (ms ns : Messages) (x : ℕ) (xs : List ℕ)
    → ((j : ℕ) → has j (x ∷ xs) ≡ true → (ns j).next ≡ (ms j).next)
    → Chain ms x xs
    → Chain ns x xs
Chain-frame ms ns x [] same c = ground (arith, same x)
Chain-frame ms ns x (y ∷ ys) same c =
    (ground (arith, same x), Chain-frame ms ns y ys (λ j h. same j (ground arith)) c.1)

-- `i` linked in behind the last.
pub Chain-snoc :
    (ms ns : Messages) (x i : ℕ) (xs : List ℕ)
    → ((j : ℕ) → (ns j).next ≡ (if i == j then nil else if last x xs == j then i else (ms j).next))
    → Chain ms x xs
    → Distinct (x ∷ xs)
    → has i (x ∷ xs) ≡ false
    → Chain ns x (xs ++ i ∷ [])
Chain-snoc ms ns x i [] links c d new = ground (arith, links x, links i)
Chain-snoc ms ns x i (y ∷ ys) links c d new =
    (ground (arith, links x, has-last y ys), Chain-snoc ms ns y i ys links c.1 d.1 (ground arith))
