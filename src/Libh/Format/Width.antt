-- ===== src/Libh/Format/Width.antt =====
-- The loops of vprintf end, and a conversion with a width prints that many chars.
use native.Mathlib.Nat.{pow-suc}
use horizon_microkernel.Prelude.{
  ℕ, zero, suc, ◌+◌, ◌-◌, ◌/◌, ◌%◌, ◌^◌, ◌≤◌, ◌<◌, ◌≡◌, true, false, ◌==◌, ltb, arith, refl, List,
  [], ◌∷◌, ◌++◌, length, Bool-cases, inl, inr, All, ap, sym, subst, ◌∙◌, some,
}
use horizon_microkernel.Libh.Format.{
  isalpha, isdigit, fmt_u, fmt, digits_back, get_n, Flags, no_flags, flag, flags, Shown, number,
  plain, unknown, padding, show, convert, Round, ended, continued, shown, converted, round, before,
  print_loop,
}
use horizon_microkernel.Libh.Format.Digits.{
  digits_of, digits_of_zero, rev_onto, fmt_loop-rev_onto, get_n-fmt_u,
}

digits_back-length : (seen cs : List ℕ) → length (digits_back seen cs).1 ≤ length cs
unfolding digits_back
digits_back-length seen [] = omega arith
digits_back-length seen (c ∷ cs) = ground (arith, digits_back-length (c ∷ seen) cs)

flag-length : (c : ℕ) (cs : List ℕ) (f : Flags) → length (flag c cs f).1 ≤ length cs
unfolding flag get_n digits_back
flag-length c cs f = ground (arith, digits_back-length (c ∷ []) cs)

-- The loop over the flags ends at a letter or the end of the text.
flags-stops :
    (fuel : ℕ) (cs : List ℕ) (f : Flags)
    → length cs < fuel
    → (now : Flags) × (rest : List ℕ) × (flags fuel cs f ≡ some (now, rest))
      × (length rest ≤ length cs)
unfolding flags
flags-stops zero cs f h = absurd (omega (arith, h))
flags-stops (suc fuel) [] f h = (f, [], refl, omega arith)
flags-stops (suc fuel) (c ∷ cs) f h = elim (Bool-cases (isalpha c)) [
  | inl letter ↦ (f, c ∷ cs, rw (letter) refl, omega arith)
  | inr other ↦
      let l = flag-length c cs f in
      let (now, rest, ran, m) =
        flags-stops fuel (flag c cs f).1 (flag c cs f).0 (omega (arith, h, l)) in
      (now, rest, rw (other) ran, omega (arith, l, m))
]

-- A round ends the loop, or the text that it leaves is shorter than `n`.
abbrev Advances : ℕ → Round → Type 0
Advances n (ended result printed) = Unit {0}
Advances n (continued printed rest next) = length rest < n

shown-Advances :
    (f : Flags) (s : Shown) (rest : List ℕ) (next n : ℕ)
    → length rest < n
    → Advances n (shown f s rest next)
shown-Advances f (number putn) rest next n h = h
shown-Advances f (plain str) rest next n h = h
shown-Advances f unknown rest next n h = tt

module _ (text_at : ℕ → List ℕ) (args : ℕ → ℕ) where
  converted-Advances :
      (next n : ℕ) (f : Flags) (rest : List ℕ)
      → length rest ≤ n
      → (r : Round) × (converted text_at args next (some (f, rest)) ≡ some r) × Advances n r
  unfolding converted
  converted-Advances next n f [] h = (ended 0 [], refl, tt)
  converted-Advances next n f (c ∷ rest) h = (
    shown f (convert text_at c f (args next)) rest (next + 1),
    refl,
    shown-Advances f (convert text_at c f (args next)) rest (next + 1) n (omega (arith, h)),
  )

  round-Advances :
      (fuel : ℕ) (cs : List ℕ) (next : ℕ)
      → length cs < suc fuel
      → (r : Round) × (round text_at fuel cs args next ≡ some r) × Advances (length cs) r
  unfolding round
  round-Advances fuel [] next h = (ended 0 [], refl, tt)
  round-Advances fuel (c ∷ []) next h = elim (Bool-cases (c == 37)) [
    | inl e ↦ (ended 0 [], rw (e) refl, tt)
    | inr e ↦ (continued (c ∷ []) [] next, rw (e) refl, omega arith)
  ]
  round-Advances fuel (c ∷ d ∷ cs) next h = elim (Bool-cases (c == 37)) [
    | inr e ↦ (continued (c ∷ []) (d ∷ cs) next, rw (e) refl, omega arith)
    | inl e ↦ elim (Bool-cases (d == 37)) [
      | inl k ↦ (continued (37 ∷ []) cs next, rw (e, k) refl, omega arith)
      | inr k ↦
          let (f, rest, ran, l) = flags-stops fuel (d ∷ cs) no_flags (omega (arith, h)) in
          let (r, made, a) =
            converted-Advances next (length (c ∷ d ∷ cs)) f rest (omega (arith, l)) in
          (r, rw (e, k, ran) made, a)
    ]
  ]

  -- How the loop goes on behind a round that gave `r`.
  round_then :
      (fuel n : ℕ) (cs : List ℕ) (next : ℕ) (r : Round)
      → round text_at fuel cs args next ≡ some r
      → Advances n r
      → ((rest : List ℕ) (k : ℕ)
          → length rest < n
          → (answer : ℕ × List ℕ) × (print_loop text_at fuel rest args k ≡ some answer))
      → (answer : ℕ × List ℕ) × (print_loop text_at (suc fuel) cs args next ≡ some answer)
  unfolding print_loop
  round_then fuel n cs next (ended result printed) ran a more =
      ((result, printed), rw (print_loop, ran) refl)
  round_then fuel n cs next (continued printed rest k) ran a more =
      let (answer, went) = more rest k a in
      ((answer.0, printed ++ answer.1), rw (print_loop, ran, went) refl)

  -- `vprintf` ends on every format, when there is more fuel than the format has chars.
  pub print_loop-ends :
      (fuel : ℕ) (cs : List ℕ) (next : ℕ)
      → length cs < fuel
      → (answer : ℕ × List ℕ) × (print_loop text_at fuel cs args next ≡ some answer)
  print_loop-ends zero cs next h = absurd (omega (arith, h))
  print_loop-ends (suc fuel) cs next h =
      let (r, ran, a) = round-Advances fuel cs next h in
      round_then fuel (length cs) cs next r ran a
        λ rest k l. print_loop-ends fuel rest k (omega (arith, h, l))

-- A number other than zero starts with a digit other than zero.
digits_of_head :
    (rounds u : ℕ) (s : List ℕ)
    → 0 < u
    → u < 2 ^ rounds
    → (c : ℕ) × (cs : List ℕ) × (rev_onto (digits_of rounds u) s ≡ c ∷ cs) × (48 < c) × (c ≤ 57)
unfolding digits_of
digits_of_head zero u s p h = absurd (omega (arith, p, h))
digits_of_head (suc rounds) u s p h = elim (Bool-cases (u / 10 == 0)) [
  | inl last ↦
      let q : u / 10 ≡ 0 = ground (arith, last) in
      let nz : (u == 0) ≡ false = ground (arith, p) in
      (48 + u % 10, s, rw (nz, q, digits_of_zero rounds) refl, omega (arith, p, q), omega arith)
  | inr more ↦
      let nz : (u == 0) ≡ false = ground (arith, p) in
      let (c, cs, e, low, high) =
        digits_of_head rounds (u / 10) ((48 + u % 10) ∷ s) (ground (arith, more))
          (omega (arith, h, pow-suc 2 rounds)) in
      (c, cs, rw (nz) e, low, high)
]

fmt_u_head :
    (u : ℕ) (s : List ℕ)
    → 0 < u
    → u < 2 ^ 32
    → (c : ℕ) × (cs : List ℕ) × (fmt_u u s ≡ c ∷ cs) × (48 < c) × (c ≤ 57)
unfolding fmt_u fmt
fmt_u_head u s p h =
    let (c, cs, e, low, high) = digits_of_head 32 u s p h in
    let nz : (u == 0) ≡ false = ground (arith, p) in
    (c, cs, rw (fmt_u, fmt, nz, fmt_loop-rev_onto 32 u s) e, low, high)

padding-length :
    (pad diff c : ℕ)
    → (All (λ x. x ≡ c) (padding pad diff c)) × (length (padding pad diff c) ≡ pad - diff)
unfolding padding
padding-length zero diff c = (tt, omega arith)
padding-length (suc pad) diff c = elim (Bool-cases (ltb diff (suc pad))) [
  | inl l ↦
      rw (l)
        ((refl, (padding-length pad diff c).0), ground (arith, l, (padding-length pad diff c).1))
  | inr g ↦ rw (g) (tt, ground (arith, g))
]

-- The flags of a conversion `%<w>u`.
flags-width :
    (fuel w : ℕ) (rest : List ℕ)
    → 0 < w
    → w < 2 ^ 32
    → flags (suc (suc fuel)) (fmt_u w (117 ∷ rest)) no_flags
      ≡ some (record no_flags { pad = w }, 117 ∷ rest)
unfolding flags flag
flags-width fuel w rest p h =
    let (c, cs, e, low, high) = fmt_u_head w (117 ∷ rest) p h in
    let letter : isalpha c ≡ false = ground (arith, low, high) in
    let digit : isdigit c ≡ true = ground (arith, low, high) in
    let sharp : (c == 35) ≡ false = ground (arith, low) in
    let nought : (c == 48) ≡ false = ground (arith, low) in
    let read : get_n (c ∷ cs) ≡ (w, 117 ∷ rest) =
      ap get_n (sym e) ∙ get_n-fmt_u w (117 ∷ rest) h refl in
    rw (e, letter, sharp, nought, digit, read) refl

-- The round at a conversion `u`, after the flags have been read.
round_number :
    (text_at : ℕ → List ℕ) (args : ℕ → ℕ) (fuel next c : ℕ) (cs rest : List ℕ) (f : Flags)
    → (c == 37) ≡ false
    → flags fuel (c ∷ cs) no_flags ≡ some (f, 117 ∷ rest)
    → round text_at fuel (37 ∷ c ∷ cs) args next
      ≡ some (continued (show f (number (fmt_u (args next) []))) rest (next + 1))
unfolding round converted convert
round_number text_at args fuel next c cs rest f other read = rw (other, read) refl

-- A conversion `%<w>u` prints its argument, with spaces before it to make `w` chars, and then the rest
-- of the format is printed with the next argument.
pub print_width :
    (text_at : ℕ → List ℕ) (args : ℕ → ℕ) (fuel w : ℕ) (rest : List ℕ) (next : ℕ)
    → 0 < w
    → w < 2 ^ 32
    → (spaces : List ℕ) × (print_loop text_at
          (suc (suc (suc fuel)))
          (37 ∷ fmt_u w (117 ∷ rest))
          args
          next
        ≡ before
            (spaces ++ fmt_u (args next) [])
            (print_loop text_at (suc (suc fuel)) rest args (next + 1)))
      × All (λ c. c ≡ 32) spaces
      × (length spaces ≡ w - length (fmt_u (args next) []))
unfolding show print_loop
print_width text_at args fuel w rest next p h =
    let (c, cs, e, low, high) = fmt_u_head w (117 ∷ rest) p h in
    let other : (c == 37) ≡ false = ground (arith, low) in
    let (blank, len) = padding-length w (length (fmt_u (args next) [])) 32 in
    (
      padding w (length (fmt_u (args next) [])) 32,
      rw
          (
            e,
            print_loop,
            round_number text_at args (suc (suc fuel)) next c cs rest (record no_flags { pad = w })
                other
                (subst
                  (λ x.
                    flags (suc (suc fuel)) x no_flags
                    ≡ some (record no_flags { pad = w }, 117 ∷ rest))
                  e (flags-width fuel w rest p h)),
          )
          refl,
      blank,
      len,
    )
