-- ===== src/Ipc/Message/Move.antt =====
-- A message that goes to the front of its list.
use horizon_microkernel.Prelude.{
  ℕ, ◌≡◌, ◌∙◌, refl, inl, inr, true, false, ◌==◌, if◌then◌else◌, Bool-cases, arith, List, [], ◌∷◌,
  has, Distinct, erase,
}
use horizon_microkernel.Prelude.Members.{has-erase, Distinct-erase, length-erase}
use horizon_microkernel.Util.Bitmap.{Bitmap}
use horizon_microkernel.State.{MsgInfo}
use horizon_microkernel.Ipc.Message.Chain.{Messages, Chain, last, has-last, Chain-frame}
use horizon_microkernel.Ipc.Message.Queue.{HasQueue}
use horizon_microkernel.Ipc.Message.Find.{before}

pub has-before : (y x : ℕ) (xs : List ℕ) → has y xs ≡ true → has (before y x xs) (x ∷ xs) ≡ true
has-before y x [] h = ground (arith, h)
has-before y x (z ∷ zs) h = ground (arith, h, has-before y z zs)

-- `x` takes the place of `y` at the head of a chain.
skip-Chain :
    (ms ns : Messages) (x y : ℕ) (zs : List ℕ)
    → (ns x).next ≡ (ms y).next
    → Chain ms y zs
    → ((j : ℕ) → has j zs ≡ true → (ns j).next ≡ (ms j).next)
    → Chain ns x zs
skip-Chain ms ns x y [] e c same = e ∙ c
skip-Chain ms ns x y (w ∷ ws) e c same = (e ∙ c.0, Chain-frame ms ns w ws same c.1)

-- The list without `y`, whose forerunner is `p`.
unlink-Chain :
    (ms ns : Messages) (y p x : ℕ) (xs : List ℕ)
    → Chain ms x xs
    → Distinct (x ∷ xs)
    → has y xs ≡ true
    → before y x xs ≡ p
    → ((j : ℕ) → y == j ≡ false → (ns j).next ≡ (if p == j then (ms y).next else (ms j).next))
    → Chain ns x (erase y xs)
unfolding erase
unlink-Chain ms ns y p x [] c d h e links = ground (arith, h)
unlink-Chain ms ns y p x (z ∷ zs) c d h e links =
    elim (Bool-cases (y == z)) as (λ _. Chain ns x (if y == z then zs else z ∷ erase y zs)) [
      | inl same ↦ rw (same) (
          skip-Chain ms ns x z zs (ground (arith, links x, e, same, d.0)) c.1
            (λ j g. ground (arith, links j, e, same, d.0, d.1)))
      | inr other ↦ rw (other) (
        ground (arith, links x, has-before y z zs, other),
        unlink-Chain ms ns y p z zs c.1 d.1 (ground (arith, other)) (ground (arith, e, other))
            links,
      )
    ]

last-erase :
    (y x : ℕ) (xs : List ℕ)
    → Distinct (x ∷ xs)
    → has y xs ≡ true
    → last x (erase y xs) ≡ (if last x xs == y then before y x xs else last x xs)
unfolding erase
last-erase y x [] d h = ground (arith, h)
last-erase y x (z ∷ []) d h = ground (arith, h)
last-erase y x (z ∷ w ∷ ws) d h = ground (arith, h, last-erase y z (w ∷ ws) d.1, has-last w ws)

-- What `to_front` writes for slot `y` behind `p`, in a list whose head is `x`.
pub record Moved (ms ns : Messages) (info new : MsgInfo) (x y p : ℕ) : Type 0 where
  pub count : new.count ≡ info.count
  pub head : new.head ≡ y
  pub tail : new.tail ≡ (if info.tail == y then p else info.tail)
  pub links :
      (j : ℕ) → (ns j).next ≡ (if y == j then x else if p == j then (ms y).next else (ms j).next)

pub move-HasQueue :
    (ms ns : Messages) (info new : MsgInfo) (bm : Bitmap) (x y : ℕ) (xs : List ℕ)
    → Moved ms ns info new x y (before y x xs)
    → HasQueue ms info bm (x ∷ xs)
    → has y xs ≡ true
    → HasQueue ns new bm (y ∷ x ∷ erase y xs)
move-HasQueue ms ns info new bm x y xs m q h = record {
  count = omega (arith, m.count, q.count, length-erase y xs h);
  inside = λ j g. q.inside j (ground (arith, has-erase j y xs q.distinct.1, h));
  used = λ j g. q.used j (ground (arith, has-erase j y xs q.distinct.1, h));
  distinct = (
    ground (arith, has-erase y y xs q.distinct.1, q.distinct.0, h),
    (ground (arith, has-erase x y xs q.distinct.1, q.distinct.0), Distinct-erase y xs q.distinct.1),
  );
  shape = (
    m.head,
    ground (arith, m.tail, q.shape.1, last-erase y x xs q.distinct h),
    (
      ground (arith, m.links y),
      unlink-Chain ms ns y (before y x xs) x xs q.shape.2 q.distinct h refl
          (λ j ne. ground (arith, m.links j, ne)),
    ),
  );
}
