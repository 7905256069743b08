-- ===== src/Ipc/Message/Find.antt =====
-- The loop of `message_find` of kernel/core/ipc/message.c, and the list that it leaves.

use horizon_microkernel.Prelude.{
  ℕ, zero, suc, ◌+◌, ◌<◌, ◌≡◌, ◌∙◌, ap, refl, sym, inl, inr, Bool, true, false, ◌==◌, if◌then◌else◌,
  Bool-cases, arith, List, [], ◌∷◌, has, length, Option, none, some,
}
use horizon_microkernel.Prelude.Outcome.{done}
use horizon_microkernel.State.{Kernel, ThreadUid, uid_pid, K, pure, ◌>>◌}
use horizon_microkernel.Ipc.Port.{port_compare}
use horizon_microkernel.Ipc.Message.{nil, is_nil, to_front, find_loop}
use horizon_microkernel.Ipc.Message.Chain.{Messages, Chain}

-- The first slot that fits.
unfoldable pub first : (ℕ → Bool) → List ℕ → Option ℕ
first fits [] = none
first fits (x ∷ xs) = if fits x then some x else first fits xs

-- The slot before `y`, for a list that comes behind `prev`.
abbrev pub before : ℕ → ℕ → List ℕ → ℕ
before y prev [] = prev
before y prev (x ∷ xs) = if y == x then prev else before y x xs

pub first-has : (fits : ℕ → Bool) (xs : List ℕ) (y : ℕ) → first fits xs ≡ some y → has y xs ≡ true
unfolding first
first-has fits [] y e = ground (arith, e)
first-has fits (x ∷ xs) y e = ground (arith, e, first-has fits xs y)

-- Does the message in the slot come from a port that the wanted covers?
abbrev pub fits : Messages → ℕ → ℕ → Bool
fits ms wanted j = port_compare wanted (ms j).from

-- The end of the loop, for the slot that it finds.
unfoldable pub finish : ThreadUid → ℕ → List ℕ → Option ℕ → K (Option Bool)
finish u prev xs none = pure (some false)
finish u prev xs (some y) = do
  if is_nil (before y prev xs)
      then pure tt
      else to_front (some (uid_pid u)) (some u) (before y prev xs) y
  pure (some true)

-- The loop at a slot, by what the test of its message gives.
abbrev pub at_slot : ℕ → Kernel → ThreadUid → ℕ → ℕ → ℕ → Bool → K (Option Bool)
at_slot fuel k u wanted prev x b = elim b [
  | true ↦ do
    if is_nil prev then pure tt else to_front (some (uid_pid u)) (some u) prev x
    pure (some true)
  | false ↦ find_loop fuel (some (uid_pid u)) (some u) wanted x (k.messages (uid_pid u) x).next
]

pub find_loop-step :
    (fuel : ℕ) (k : Kernel) (u : ThreadUid) (wanted prev x : ℕ)
    → x < 1024
    → find_loop (suc fuel) (some (uid_pid u)) (some u) wanted prev x k
      ≡ at_slot fuel k u wanted prev x (fits (k.messages (uid_pid u)) wanted x) k
unfolding find_loop
find_loop-step fuel k u wanted prev x h =
    let inside : is_nil x ≡ false = ground arith in rw (inside, find_loop) refl

first-fits : (f : ℕ → Bool) (xs : List ℕ) (y : ℕ) → first f xs ≡ some y → f y ≡ true
unfolding first
first-fits f [] y e = ground (arith, e)
first-fits f (x ∷ xs) y e = elim (Bool-cases (f x)) [
  | inl h ↦ ground (arith, e, h)
  | inr h ↦ ground (arith, e, h, first-fits f xs y)
]

first-hit : (f : ℕ → Bool) (x : ℕ) (xs : List ℕ) → f x ≡ true → first f (x ∷ xs) ≡ some x
unfolding first
first-hit f x xs h = ground (arith, h)

first-miss : (f : ℕ → Bool) (x : ℕ) (xs : List ℕ) → f x ≡ false → first f (x ∷ xs) ≡ first f xs
unfolding first
first-miss f x xs h = ground (arith, h)

finish-hit :
    (u : ThreadUid) (prev x : ℕ) (xs : List ℕ) (k : Kernel) (fuel wanted : ℕ)
    → at_slot fuel k u wanted prev x true k ≡ finish u prev (x ∷ xs) (some x) k
unfolding finish
finish-hit u prev x xs k fuel wanted = let same : x == x ≡ true = ground arith in rw (same) refl

-- The slot is not the one behind `x`.
finish-miss :
    (u : ThreadUid) (prev x y : ℕ) (ys : List ℕ) (k : Kernel) (f : ℕ → Bool) (r : Option ℕ)
    → f x ≡ false
    → ((z : ℕ) → r ≡ some z → f z ≡ true)
    → finish u x (y ∷ ys) r k ≡ finish u prev (x ∷ y ∷ ys) r k
unfolding finish
finish-miss u prev x y ys k f none miss hit = refl
finish-miss u prev x y ys k f (some z) miss hit =
    let other : z == x ≡ false = ground (arith, hit z, miss) in rw (other) refl

-- At -1 the loop ends.
find_loop-nil :
    (fuel : ℕ) (k : Kernel) (u : ThreadUid) (wanted prev : ℕ)
    → 0 < fuel
    → find_loop fuel (some (uid_pid u)) (some u) wanted prev nil k ≡ done (some false, k)
unfolding find_loop
find_loop-nil zero k u wanted prev h = absurd (omega arith)
find_loop-nil (suc fuel) k u wanted prev h = refl

-- Behind a message that does not fit.
abbrev Rest : ℕ → Kernel → ThreadUid → ℕ → ℕ → ℕ → List ℕ → Type 0
Rest fuel k u wanted prev x xs =
    find_loop fuel (some (uid_pid u)) (some u) wanted x (k.messages (uid_pid u) x).next k
    ≡ finish u prev (x ∷ xs) (first (fits (k.messages (uid_pid u)) wanted) (x ∷ xs)) k

loop_hit :
    (fuel : ℕ) (k : Kernel) (u : ThreadUid) (wanted prev x : ℕ) (xs : List ℕ)
    → x < 1024
    → (fits (k.messages (uid_pid u)) wanted x ≡ false → Rest fuel k u wanted prev x xs)
    → find_loop (suc fuel) (some (uid_pid u)) (some u) wanted prev x k
      ≡ finish u prev (x ∷ xs) (first (fits (k.messages (uid_pid u)) wanted) (x ∷ xs)) k
loop_hit fuel k u wanted prev x xs inside rest =
    let f : ℕ → Bool = fits (k.messages (uid_pid u)) wanted in
    find_loop-step fuel k u wanted prev x inside
    ∙ elim (Bool-cases (f x))
        as (λ _.
          at_slot fuel k u wanted prev x (f x) k ≡ finish u prev (x ∷ xs) (first f (x ∷ xs)) k) [
            | inl hit ↦
                ap (λ b. at_slot fuel k u wanted prev x b k) hit
                ∙ finish-hit u prev x xs k fuel wanted
                ∙ ap (λ r. finish u prev (x ∷ xs) r k) (sym (first-hit f x xs hit))
            | inr miss ↦ ap (λ b. at_slot fuel k u wanted prev x b k) miss ∙ rest miss
          ]

Rest-end :
    (fuel : ℕ) (k : Kernel) (u : ThreadUid) (wanted prev x : ℕ)
    → (k.messages (uid_pid u) x).next ≡ nil
    → 0 < fuel
    → fits (k.messages (uid_pid u)) wanted x ≡ false
    → Rest fuel k u wanted prev x []
unfolding finish first
Rest-end fuel k u wanted prev x c h miss =
    ap (λ n. find_loop fuel (some (uid_pid u)) (some u) wanted x n k) c
    ∙ find_loop-nil fuel k u wanted x h
    ∙ ap (λ r. finish u prev (x ∷ []) r k)
        (sym (first-miss (fits (k.messages (uid_pid u)) wanted) x [] miss))

Rest-more :
    (fuel : ℕ) (k : Kernel) (u : ThreadUid) (wanted prev x y : ℕ) (ys : List ℕ)
    → (k.messages (uid_pid u) x).next ≡ y
    → find_loop fuel (some (uid_pid u)) (some u) wanted x y k
      ≡ finish u x (y ∷ ys) (first (fits (k.messages (uid_pid u)) wanted) (y ∷ ys)) k
    → fits (k.messages (uid_pid u)) wanted x ≡ false
    → Rest fuel k u wanted prev x (y ∷ ys)
Rest-more fuel k u wanted prev x y ys c run miss =
    let f : ℕ → Bool = fits (k.messages (uid_pid u)) wanted in
    ap (λ n. find_loop fuel (some (uid_pid u)) (some u) wanted x n k) c
    ∙ run
    ∙ finish-miss u prev x y ys k f (first f (y ∷ ys)) miss (first-fits f (y ∷ ys))
    ∙ ap (λ r. finish u prev (x ∷ y ∷ ys) r k) (sym (first-miss f x (y ∷ ys) miss))

pub find_loop-run :
    (fuel : ℕ) (k : Kernel) (u : ThreadUid) (wanted prev x : ℕ) (xs : List ℕ)
    → Chain (k.messages (uid_pid u)) x xs
    → ((j : ℕ) → has j (x ∷ xs) ≡ true → j < 1024)
    → length xs + 1 < fuel
    → find_loop fuel (some (uid_pid u)) (some u) wanted prev x k
      ≡ finish u prev (x ∷ xs) (first (fits (k.messages (uid_pid u)) wanted) (x ∷ xs)) k
find_loop-run zero k u wanted prev x xs c inside h = absurd (omega arith)
find_loop-run (suc fuel) k u wanted prev x [] c inside h =
    loop_hit fuel k u wanted prev x [] (inside x (ground arith))
      (Rest-end fuel k u wanted prev x c (omega (arith, h)))
find_loop-run (suc fuel) k u wanted prev x (y ∷ ys) c inside h =
    loop_hit fuel k u wanted prev x (y ∷ ys) (inside x (ground arith)) (
      Rest-more fuel k u wanted prev x y ys c.0 (
        find_loop-run fuel k u wanted x y ys c.1 (λ j g. inside j (ground arith))
          (omega (arith, h))))
