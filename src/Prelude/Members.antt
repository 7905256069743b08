-- ===== src/Prelude/Members.antt =====
-- Membership and distinctness in lists of numbers, as one is added or taken out.
use Prim.Native.Nat.{ℕ, ◌+◌}
use mathlib.Core.Path.{◌≡◌}
use mathlib.Core.Bool.{true, false}
use mathlib.Core.List.{List, [], ◌∷◌, ◌++◌}
use native.Mathlib.Omega.{arith}
use horizon_microkernel.Prelude.Tests.{◌==◌, if◌then◌else◌}
use horizon_microkernel.Prelude.Lists.{length, has, Distinct, erase}

pub has-snoc : (j u : ℕ) (q : List ℕ) → has j (q ++ u ∷ []) ≡ (if has j q then true else j == u)
has-snoc j u [] = ground arith
has-snoc j u (x ∷ q) = ground (arith, has-snoc j u q)

pub Distinct-snoc : (u : ℕ) (q : List ℕ) → Distinct q → has u q ≡ false → Distinct (q ++ u ∷ [])
Distinct-snoc u [] d h = ground arith
Distinct-snoc u (x ∷ q) d h =
    (ground (arith, has-snoc x u q, d.0), Distinct-snoc u q d.1 (ground arith))

pub has-erase :
    (j u : ℕ) (q : List ℕ) → Distinct q → has j (erase u q) ≡ (if j == u then false else has j q)
unfolding erase
has-erase j u [] d = ground arith
has-erase j u (x ∷ q) d = ground (arith, has-erase j u q d.1, d.0)

pub Distinct-erase : (u : ℕ) (q : List ℕ) → Distinct q → Distinct (erase u q)
unfolding erase
Distinct-erase u [] d = tt
Distinct-erase u (x ∷ q) d = ground (arith, Distinct-erase u q d.1, has-erase x u q d.1, d.0)

pub length-erase : (u : ℕ) (q : List ℕ) → has u q ≡ true → length (erase u q) + 1 ≡ length q
unfolding erase
length-erase u [] h = ground (arith, h)
length-erase u (x ∷ q) h = ground (arith, h, length-erase u q)
