-- ===== src/User/Vfs/Walk.antt =====
-- A path whose components are in the tree leads to its node.
use horizon_microkernel.Prelude.{
  ℕ, zero, suc, ◌+◌, ◌≤◌, ◌<◌, ◌≡◌, Bool, true, false, Option, none, some, ◌==◌, arith, refl, List,
  [], ◌∷◌, Bool-cases, inl, inr, ◌++◌, length, All,
}
use horizon_microkernel.User.Vfs.{Tree, slash, same_start, find_child, split_path, walk, node_find}

-- The name begins with the component.
abbrev pub Begins : List ℕ → List ℕ → Type 0
Begins name component = (rest : List ℕ) × (name ≡ component ++ rest)

same_start_on : (component rest : List ℕ) → same_start (component ++ rest) component ≡ true
unfolding same_start
same_start_on [] rest = refl
same_start_on (c ∷ cs) rest =
    let same : (c == c) ≡ true = ground arith in rw (same) (same_start_on cs rest)

same_start-Begins :
    (name component : List ℕ) → same_start name component ≡ true → Begins name component
unfolding same_start
same_start-Begins name [] h = (name, refl)
same_start-Begins [] (c ∷ cs) h = absurd (ground (arith, h))
same_start-Begins (b ∷ bs) (c ∷ cs) h =
    let (rest, e) = same_start-Begins bs cs (ground (arith, h)) in
    let same : b ≡ c = ground (arith, h) in (rest, rw (same, e) refl)

same_start_off :
    (name component : List ℕ) → ¬ Begins name component → same_start name component ≡ false
same_start_off name component other = elim (Bool-cases (same_start name component)) [
  | inl h ↦ absurd (other (same_start-Begins name component h))
  | inr h ↦ h
]

-- In a chain of siblings, node `c` is the first whose name begins with the component, after `k` others.
abbrev pub IsFirstKid : Tree → List ℕ → ℕ → Option ℕ → ℕ → Type 0
IsFirstKid t component k none c = true ≡ false
IsFirstKid t component zero (some i) c = Begins (t.nodes i).name component × (i ≡ c)
IsFirstKid t component (suc k) (some i) c =
    (¬ Begins (t.nodes i).name component) × IsFirstKid t component k (t.nodes i).next c

find_child-IsFirstKid :
    (fuel k : ℕ) (t : Tree) (curr : Option ℕ) (component : List ℕ) (c : ℕ)
    → IsFirstKid t component k curr c
    → k < fuel
    → find_child fuel t curr component ≡ some (some c)
unfolding find_child
find_child-IsFirstKid zero k t curr component c i h = absurd (omega (arith, h))
find_child-IsFirstKid (suc fuel) k t none component c i h = absurd (ground (arith, i))
find_child-IsFirstKid (suc fuel) zero t (some n) component c ((rest, s), e) h =
    rw (s, same_start_on component rest, e) refl
find_child-IsFirstKid (suc fuel) (suc k) t (some n) component c (s, i) h =
    rw (same_start_off (t.nodes n).name component s)
      (find_child-IsFirstKid fuel k t (t.nodes n).next component c i (omega (arith, h)))

abbrev pub NoSlash : List ℕ → Type 0
NoSlash component = All (λ c. (c == slash) ≡ false) component

-- The node `q` is reached from `p` over the components.
abbrev pub Reaches : Tree → ℕ → List (List ℕ) → ℕ → Type 0
Reaches t p [] q = p ≡ q
Reaches t p (component ∷ rest) q =
    NoSlash component
    × ((c : ℕ) × (k : ℕ) × (k ≤ t.allocated)
        × IsFirstKid t component k (t.nodes p).children c
        × Reaches t c rest q)

-- The path of a component and the ones behind it, with slashes between them, and the part behind the first.
abbrev pub path_of : List ℕ → List (List ℕ) → List ℕ
path_of component [] = component
path_of component (next ∷ rest) = component ++ slash ∷ path_of next rest

abbrev pub path_behind : List (List ℕ) → Option (List ℕ)
path_behind [] = none
path_behind (next ∷ rest) = some (path_of next rest)

split_path_end : (component : List ℕ) → NoSlash component → split_path component ≡ (component, none)
unfolding split_path
split_path_end [] a = refl
split_path_end (c ∷ cs) (h, a) = rw (h, split_path_end cs a) refl

split_path-slash :
    (component path : List ℕ)
    → NoSlash component
    → split_path (component ++ slash ∷ path) ≡ (component, some path)
unfolding split_path
split_path-slash [] path a = refl
split_path-slash (c ∷ cs) path (h, a) = rw (h, split_path-slash cs path a) refl

split_path-path_of :
    (component : List ℕ) (rest : List (List ℕ))
    → NoSlash component
    → split_path (path_of component rest) ≡ (component, path_behind rest)
split_path-path_of component [] a = split_path_end component a
split_path-path_of component (next ∷ rest) a = split_path-slash component (path_of next rest) a

module _ (ask : ℕ → ℕ → List ℕ → ℕ × ℕ) (t : Tree) (virt : Bool) where
  walk-Reaches :
      (fuel p q : ℕ) (components : List (List ℕ))
      → Reaches t p components q
      → length components < fuel
      → walk ask fuel t (some p) (path_behind components) virt ≡ some (some q, t)
  unfolding walk
  walk-Reaches zero p q components r h = absurd (omega (arith, h))
  walk-Reaches (suc fuel) p q [] r h = rw (r) refl
  walk-Reaches (suc fuel) p q (component ∷ rest) (a, (c, k, l, kid, r)) h =
      rw
        (
          walk,
          split_path-path_of component rest a,
          find_child-IsFirstKid (t.allocated + 1) k t (t.nodes p).children component c kid
              (omega (arith, l)),
        )
        (rw (split_path-path_of component rest a) (walk-Reaches fuel c q rest r (omega (arith, h))))

  -- `node_find` on a path whose components are in the tree ends at the node that they lead to, and neither
  -- asks a file system nor adds a node. A component leads to the first child whose name begins with it.
  pub node_find-Reaches :
      (fuel p q b : ℕ) (bs : List ℕ) (rest : List (List ℕ))
      → Reaches t p ((b ∷ bs) ∷ rest) q
      → length rest + 1 < fuel
      → node_find ask fuel t p (path_of (b ∷ bs) rest) virt ≡ some (some q, t)
  unfolding node_find
  node_find-Reaches fuel p q b bs [] r h =
      walk-Reaches fuel p q ((b ∷ bs) ∷ []) r (omega (arith, h))
  node_find-Reaches fuel p q b bs (next ∷ rest) r h =
      walk-Reaches fuel p q ((b ∷ bs) ∷ next ∷ rest) r (omega (arith, h))
