-- ===== src/User/Vfs/Open.antt =====
-- The table of open files keeps its count.
use horizon_microkernel.Prelude.{
  ℕ, zero, suc, ◌+◌, ◌≤◌, ◌<◌, ◌≡◌, ◌⊎◌, true, false, Option, none, some, ◌==◌, leb, if◌then◌else◌,
  update, arith, refl, Bool-cases, inl, inr, ap, sym, ◌∙◌,
}
use horizon_microkernel.User.Vfs.{FileTable, slot, full, is_open, free_slot, file_open}

-- How many of the `left` slots from `i` on are open.
abbrev pub open_from : ℕ → (ℕ → Option ℕ) → ℕ → ℕ
open_from zero nodes i = 0
open_from (suc left) nodes i = (if is_open (nodes i) then 1 else 0) + open_from left nodes (i + 1)

-- A write in front of the slots leaves their number.
open_from_behind :
    (left i j : ℕ) (nodes : ℕ → Option ℕ) (v : Option ℕ)
    → j < i
    → open_from left (update nodes j v) i ≡ open_from left nodes i
open_from_behind zero i j nodes v h = refl
open_from_behind (suc left) i j nodes v h =
    ground (arith, h, open_from_behind left (i + 1) j nodes v (omega (arith, h)))

open_from_bound : (left i : ℕ) (nodes : ℕ → Option ℕ) → open_from left nodes i ≤ left
open_from_bound zero i nodes = omega arith
open_from_bound (suc left) i nodes = ground (arith, open_from_bound left (i + 1) nodes)

-- While not every slot is open, the search finds the first one that is not, and opening it counts one up.
free_slot-found :
    (left : ℕ) (t : FileTable) (i node : ℕ)
    → open_from left t.nodes i < left
    → (k : ℕ) × (free_slot left t i ≡ some k)
      × (i ≤ k)
      × (k < i + left)
      × (t.nodes k ≡ none)
      × ((j : ℕ) → i ≤ j → j < k → is_open (t.nodes j) ≡ true)
      × (open_from left (update t.nodes k (some node)) i ≡ open_from left t.nodes i + 1)
unfolding free_slot
free_slot-found zero t i node h = absurd (omega (arith, h))
free_slot-found (suc left) t i node h = elim (Bool-cases (is_open (t.nodes i))) [
  | inr free ↦ (
    i,
    rw (free) refl,
    omega arith,
    omega arith,
    closed (t.nodes i) free,
    (λ j a b. absurd (omega (arith, a, b))),
    ground (arith, free, open_from_behind left (i + 1) i t.nodes (some node) (omega arith)),
  )
  | inl taken ↦
      let (k, found, low, high, was, before, more) =
        free_slot-found left t (i + 1) node (ground (arith, h, taken)) in
      (
        k,
        rw (taken) found,
        omega (arith, low),
        omega (arith, high),
        was,
        (λ j a b. elim (Bool-cases (j == i)) [
          | inl hit ↦ let e : j ≡ i = ground (arith, hit) in rw (e) taken
          | inr miss ↦ before j (ground (arith, a, miss)) b
        ]),
        ground (arith, taken, low, more),
      )
]
  where
    closed : (v : Option ℕ) → is_open v ≡ false → v ≡ none
    closed none h = refl
    closed (some n) h = absurd (ground (arith, h))

-- The count is the number of open slots.
abbrev pub IsCounted : FileTable → Type 0
IsCounted t = t.count ≡ open_from 8 t.nodes 0

-- What `file_open` has done when it opened the slot `k`.
abbrev pub OpensAt : FileTable → ℕ → ℕ → FileTable → Type 0
OpensAt t node k now =
    (file_open t node ≡ slot k now)
    × (k < 8)
    × (t.nodes k ≡ none)
    × ((j : ℕ) → j < k → is_open (t.nodes j) ≡ true)
    × ((j : ℕ) → now.nodes j ≡ (if k == j then some node else t.nodes j))
    × IsCounted now

opens_at :
    (t : FileTable) (node k n : ℕ)
    → leb 8 t.count ≡ false
    → free_slot 8 t 0 ≡ some k
    → k < 8
    → t.nodes k ≡ none
    → ((j : ℕ) → 0 ≤ j → j < k → is_open (t.nodes j) ≡ true)
    → t.count ≡ n
    → open_from 8 (update t.nodes k (some node)) 0 ≡ n + 1
    → OpensAt t node k (record { count = t.count + 1; nodes = update t.nodes k (some node) })
unfolding file_open
opens_at t node k n some_free found high was before c more = (
  rw (some_free, found) refl,
  high,
  was,
  (λ j a. before j (omega arith) a),
  (λ j. refl),
  ap (λ x. x + 1) c ∙ sym more,
)

-- `file_open` with the count right fails exactly if all eight slots are open; otherwise it puts the node
-- into the lowest slot that is free, keeps the others, and the count is right again.
pub file_open-Opens :
    (t : FileTable) (node : ℕ)
    → IsCounted t
    → ((t.count ≡ 8) × (file_open t node ≡ full))
      ⊎ ((k : ℕ) × (now : FileTable) × OpensAt t node k now)
unfolding file_open
file_open-Opens t node c = elim (Bool-cases (leb 8 t.count)) [
  | inl all ↦ let b = open_from_bound 8 0 t.nodes in inl (ground (arith, all, c, b), rw (all) refl)
  | inr some_free ↦
      let (k, found, low, high, was, before, more) =
        free_slot-found 8 t 0 node (ground (arith, some_free, c)) in
      inr (
        k,
        record { count = t.count + 1; nodes = update t.nodes k (some node) },
        opens_at t node k (open_from 8 t.nodes 0) some_free found high was before c more,
      )
]
