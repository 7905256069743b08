-- ===== src/Util/Bmstack/Chain.antt =====
-- The list that starts at `head`: the indices of its entries, in order.
use horizon_microkernel.Prelude.{has, ℕ, ◌≡◌, true, Option, none, some, List, [], ◌∷◌, arith}
use horizon_microkernel.Util.Bmstack.{Entries}

-- From `p` the links lead through the entries `xs` and end there.
abbrev pub Chain : Entries → Option ℕ → List ℕ → Type 0
Chain es p [] = p ≡ none
Chain es p (x ∷ xs) = (p ≡ some x) × Chain es (es x).next xs

-- A list survives any change that spares the links of its entries.
pub Chain-frame :
    (es gs : Entries) (p : Option ℕ) (xs : List ℕ)
    → ((a : ℕ) → has a xs ≡ true → (gs a).next ≡ (es a).next)
    → Chain es p xs
    → Chain gs p xs
Chain-frame es gs p [] same c = c
Chain-frame es gs p (x ∷ xs) same (e, c) =
    (e, Chain-frame es gs (gs x).next xs (λ a h. same a (ground arith)) (ground (arith, same x)))
