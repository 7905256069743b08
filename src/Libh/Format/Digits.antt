-- ===== src/Libh/Format/Digits.antt =====
-- The digits that `fmt_u` writes are the ones that `get_n` reads.
use native.Mathlib.Nat.{pow-suc}
use mathlib.Core.List.{append-nil}
use horizon_microkernel.Prelude.{
  ℕ, zero, suc, ◌+◌, ◌-◌, ◌*◌, ◌/◌, ◌%◌, ◌^◌, ◌≤◌, ◌<◌, ◌≡◌, true, false, ◌==◌, if◌then◌else◌,
  arith, refl, List, [], ◌∷◌, ◌++◌, Bool-cases, inl, inr, All, ap, ◌∙◌,
}
use horizon_microkernel.Libh.Format.{isdigit, fmt_loop, fmt, fmt_u, digits_back, get_n_loop, get_n}

-- The last `rounds` digits of a number, the last one first.
unfoldable pub digits_of : ℕ → ℕ → List ℕ
digits_of zero u = []
digits_of (suc rounds) u =
    let rest = digits_of rounds (u / 10) in if u == 0 then [] else (48 + u % 10) ∷ rest

-- The list turned around before `s`.
abbrev pub rev_onto : List ℕ → List ℕ → List ℕ
rev_onto [] s = s
rev_onto (c ∷ cs) s = rev_onto cs (c ∷ s)

pub fmt_loop-rev_onto :
    (rounds u : ℕ) (s : List ℕ)
    → fmt_loop rounds (λ d. 48 + d) 10 u s ≡ rev_onto (digits_of rounds u) s
unfolding fmt_loop digits_of
fmt_loop-rev_onto zero u s = refl
fmt_loop-rev_onto (suc rounds) u s = elim (Bool-cases (u == 0)) [
  | inl z ↦ rw (z) refl
  | inr nz ↦ rw (nz) (fmt_loop-rev_onto rounds (u / 10) ((48 + u % 10) ∷ s))
]

pub digits_of-All : (rounds u : ℕ) → All (λ c. isdigit c ≡ true) (digits_of rounds u)
unfolding digits_of
digits_of-All zero u = tt
digits_of-All (suc rounds) u = elim (Bool-cases (u == 0)) [
  | inl z ↦ rw (z) tt
  | inr nz ↦ rw (nz) (ground arith, digits_of-All rounds (u / 10))
]

pub digits_back-rev_onto :
    (ds seen s : List ℕ)
    → All (λ c. isdigit c ≡ true) ds
    → digits_back seen (rev_onto ds s) ≡ digits_back (ds ++ seen) s
unfolding digits_back
digits_back-rev_onto [] seen s a = refl
digits_back-rev_onto (c ∷ cs) seen s (d, a) = digits_back-rev_onto cs seen (c ∷ s) a ∙ rw (d) refl

pub digits_of_zero : (rounds : ℕ) → digits_of rounds 0 ≡ []
unfolding digits_of
digits_of_zero zero = refl
digits_of_zero (suc rounds) = refl

-- A number times `i`, by its last digit and the others.
by_last_digit : (u i : ℕ) → u * i ≡ u % 10 * i + u / 10 * (i * 10)
by_last_digit u i =
    let e : u ≡ u % 10 + u / 10 * 10 = omega arith in ap (λ x. x * i) e ∙ grind arith

times_grows : (q x : ℕ) → 0 < q → x ≤ q * x
times_grows zero x h = absurd (omega (arith, h))
times_grows (suc q) x h = grind arith

get_n_loop_digit :
    (d n i : ℕ) (cs : List ℕ)
    → d < 10
    → get_n_loop ((48 + d) ∷ cs) n i ≡ get_n_loop cs ((n + d * i) % 2 ^ 32) (i * 10 % 2 ^ 32)
unfolding get_n_loop
get_n_loop_digit d n i cs h =
    let digit : (48 + d + 2 ^ 32 - 48) % 2 ^ 32 ≡ d = omega (arith, h) in
    ap (λ x. get_n_loop cs ((n + x * i) % 2 ^ 32) (i * 10 % 2 ^ 32)) digit

get_n_loop-value :
    (rounds u n i : ℕ)
    → u < 2 ^ rounds
    → n + u * i < 2 ^ 32
    → get_n_loop (digits_of rounds u) n i ≡ n + u * i
unfolding get_n_loop digits_of
get_n_loop-value zero u n i h b = let e : u ≡ 0 = omega (arith, h) in rw (e) (omega arith)
get_n_loop-value (suc rounds) u n i h b = elim (Bool-cases (u == 0)) [
  | inl z ↦ rw (z) (let e : u ≡ 0 = ground (arith, z) in rw (e) (omega arith))
  | inr nz ↦
      let sum : n + u % 10 * i + u / 10 * (i * 10) ≡ n + u * i = omega (arith, by_last_digit u i) in
      let small : (n + u % 10 * i) % 2 ^ 32 ≡ n + u % 10 * i = omega (arith, b, sum) in
      rw (nz) (
        get_n_loop_digit (u % 10) n i (digits_of rounds (u / 10)) (omega arith)
        ∙ rw (small) (elim (Bool-cases (u / 10 == 0)) [
          | inl last ↦
              let q : u / 10 ≡ 0 = ground (arith, last) in
              let one : u % 10 ≡ u = omega (arith, q) in rw (q, digits_of_zero rounds, one) refl
          | inr more ↦
              let grows = times_grows (u / 10) (i * 10) (ground (arith, more)) in
              let tens : i * 10 % 2 ^ 32 ≡ i * 10 = omega (arith, b, sum, grows) in
              rw (tens) (
                get_n_loop-value rounds (u / 10) (n + u % 10 * i) (i * 10)
                  (omega (arith, h, pow-suc 2 rounds)) (omega (arith, b, sum))
                ∙ sum)
        ]))
]

-- The text goes on with no digit.
abbrev pub NoDigit : List ℕ → Type 0
NoDigit [] = Unit {0}
NoDigit (c ∷ cs) = isdigit c ≡ false

digits_back_stop : (ds cs : List ℕ) → NoDigit cs → digits_back ds cs ≡ (ds, cs)
unfolding digits_back
digits_back_stop ds [] h = refl
digits_back_stop ds (c ∷ cs) h = rw (h) refl

get_n-rev_onto :
    (ds rest : List ℕ)
    → All (λ c. isdigit c ≡ true) ds
    → NoDigit rest
    → get_n (rev_onto ds rest) ≡ (get_n_loop ds 0 1, rest)
unfolding get_n
get_n-rev_onto ds rest a h =
    rw (get_n, digits_back-rev_onto ds [] rest a, digits_back_stop (ds ++ []) rest h, append-nil ds)
      refl

zero_digit : (u : ℕ) → u ≡ 0 → get_n_loop (48 ∷ []) 0 1 ≡ u
unfolding get_n_loop
zero_digit u e = rw (e) refl

-- `get_n` reads back a number that `fmt_u` has written, and stops behind it.
pub get_n-fmt_u :
    (u : ℕ) (rest : List ℕ) → u < 2 ^ 32 → NoDigit rest → get_n (fmt_u u rest) ≡ (u, rest)
unfolding fmt_u fmt
get_n-fmt_u u rest b h = elim (Bool-cases (u == 0)) [
  | inl z ↦
      rw (fmt_u, fmt, z)
        (get_n-rev_onto (48 ∷ []) rest (refl, tt) h
          ∙ ap (λ x. (x, rest)) (zero_digit u (ground (arith, z))))
  | inr nz ↦
      rw (fmt_u, fmt, nz, fmt_loop-rev_onto 32 u rest)
        (get_n-rev_onto (digits_of 32 u) rest (digits_of-All 32 u) h
          ∙ ap (λ x. (x, rest)) (get_n_loop-value 32 u 0 1 b (omega (arith, b)) ∙ omega arith))
]
