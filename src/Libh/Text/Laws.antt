-- ===== src/Libh/Text/Laws.antt =====
-- What the functions of string.h do on texts.
use horizon_microkernel.Prelude.{
  ℕ, zero, suc, ◌+◌, ◌-◌, ◌^◌, ◌≤◌, ◌<◌, ◌≡◌, ◌≢◌, ◌↔◌, ◌⊎◌, ◌∙◌, refl, ◌==◌, ltb, if◌then◌else◌,
  arith, update, subst, ap, ap₂, sym, Bool-cases, inl, inr, List, [], ◌∷◌, length, Option, none,
  some,
}
use horizon_microkernel.Libh.Memory.{Memory}
use horizon_microkernel.Libh.Memory.Laws.{IsCopy, Apart}
use horizon_microkernel.Libh.Text.{
  char_gt, widen, strlen, char_stop, char_at, strchr, strcmp, strcpy, strncpy, strncpy_loop,
}

-- The text at `p` is `cs`, and then comes the zero byte.
abbrev pub IsText : Memory → ℕ → List ℕ → Type 0
IsText m p [] = m p ≡ 0
IsText m p (c ∷ cs) = (m p ≡ c) × (c ≢ 0) × (c < 256) × IsText m (p + 1) cs

pub strlen_from :
    (fuel : ℕ) (m : Memory) (s ret : ℕ) (cs : List ℕ)
    → IsText m (s + ret) cs
    → length cs < fuel
    → strlen fuel m s ret ≡ some (ret + length cs)
unfolding strlen
strlen_from zero m s ret cs t h = absurd (omega arith)
strlen_from (suc fuel) m s ret [] t h = ground (arith, t)
strlen_from (suc fuel) m s ret (c ∷ cs) (e, ne, b, t) h = ground (
  arith,
  e,
  ne,
  strlen_from fuel m s (ret + 1) cs (subst (λ p. IsText m p cs) (omega arith) t) (omega (arith, h)),
)

-- `strlen` gives the number of bytes before the zero byte, within one round more.
pub strlen-length :
    (fuel : ℕ) (m : Memory) (s : ℕ) (cs : List ℕ)
    → IsText m s cs
    → length cs < fuel
    → strlen fuel m s 0 ≡ some (length cs)
strlen-length fuel m s cs t h =
    ground (arith, strlen_from fuel m s 0 cs (subst (λ p. IsText m p cs) (omega arith) t) h)

-- Memory that agrees on the bytes of a text holds the text.
IsText-frame :
    (m new : Memory) (p q : ℕ) (cs : List ℕ)
    → ((j : ℕ) → j ≤ length cs → new (q + j) ≡ m (p + j))
    → IsText m p cs
    → IsText new q cs
IsText-frame m new p q [] same t =
    ap new (omega arith) ∙ same 0 (omega arith) ∙ ap m (omega arith) ∙ t
IsText-frame m new p q (c ∷ cs) same (e, ne, b, t) = (
  ap new (omega arith) ∙ same 0 (omega arith) ∙ ap m (omega arith) ∙ e,
  ne,
  b,
  IsText-frame m new (p + 1) (q + 1) cs
      (λ j h. ap new (omega arith) ∙ same (suc j) (omega (arith, h)) ∙ ap m (omega arith)) t,
)

strcpy_from :
    (fuel n : ℕ) (m : Memory) (dst src i : ℕ) (cs : List ℕ)
    → IsText m (src + i) cs
    → Apart dst src n
    → i + length cs < n
    → length cs < fuel
    → (new : Memory) × (strcpy fuel m dst src i ≡ some new)
      × IsCopy m new (dst + i) (src + i) (length cs + 1)
unfolding strcpy
strcpy_from zero n m dst src i cs t a l h = absurd (omega arith)
strcpy_from (suc fuel) n m dst src i [] t a l h =
    (update m (dst + i) 0, ground (arith, t), λ j. ground (arith, t))
strcpy_from (suc fuel) n m dst src i (c ∷ cs) (e, ne, b, t) a l h =
    let mid = update m (dst + i) (m (src + i)) in
    let (new, ran, copy) =
      strcpy_from fuel n mid dst src (i + 1) cs
        (IsText-frame m mid (src + i + 1) (src + (i + 1)) cs (λ j k. ground (arith, a, l, k)) t) a
        (omega (arith, l)) (omega (arith, h)) in
    (new, ground (arith, e, ne, ran), λ j. ground (arith, a, l, copy j))

-- `strcpy` copies the text with its zero byte and writes nothing else, if the blocks are apart.
pub strcpy-IsCopy :
    (fuel : ℕ) (m : Memory) (dst src : ℕ) (cs : List ℕ)
    → IsText m src cs
    → Apart dst src (length cs + 1)
    → length cs < fuel
    → (new : Memory) × (strcpy fuel m dst src 0 ≡ some new)
      × IsCopy m new dst src (length cs + 1)
      × IsText new dst cs
strcpy-IsCopy fuel m dst src cs t a h =
    let (new, ran, copy) =
      strcpy_from fuel (length cs + 1) m dst src 0 cs (subst (λ p. IsText m p cs) (omega arith) t) a
        (omega arith) h in
    (
      new,
      ran,
      λ j. ground (arith, copy j),
      IsText-frame m new src dst cs (λ j k. ground (arith, k, copy (dst + j))) t,
    )

-- What `strcmp` gives at two chars where it stops.
abbrev char_order : ℕ → ℕ → ℕ
char_order x y = if char_gt x y then 1 else if x == y then 0 else 2 ^ 32 - 1

char_order-zero : (x y : ℕ) → char_order x y ≡ 0 → x ≡ y
char_order-zero x y e = ground (arith, e)

strcmp_from :
    (fuel : ℕ) (m : Memory) (a b i : ℕ) (cs ds : List ℕ)
    → IsText m (a + i) cs
    → IsText m (b + i) ds
    → length cs < fuel
    → (r : ℕ) × (strcmp fuel m a b i ≡ some r) × (r ≡ 0 ↔ cs ≡ ds)
unfolding strcmp
strcmp_from zero m a b i cs ds t u h = absurd (omega arith)
strcmp_from (suc fuel) m a b i [] [] t u h = (0, ground (arith, t, u), ((λ _. refl), λ _. refl))
strcmp_from (suc fuel) m a b i [] (d ∷ ds) t (e, ne, bound, rest) h = (
  char_order 0 d,
  ground (arith, t, e),
  ((λ z. absurd (ne (sym (char_order-zero 0 d z)))), λ z. ground (arith, z)),
)
strcmp_from (suc fuel) m a b i (c ∷ cs) [] (e, ne, bound, rest) u h = (
  char_order c 0,
  ground (arith, u, e, ne),
  ((λ z. absurd (ne (char_order-zero c 0 z))), λ z. ground (arith, z)),
)
strcmp_from (suc fuel) m a b i (c ∷ cs) (d ∷ ds) (e, ne, bc, t) (f, nf, bd, u) h =
    elim (Bool-cases (c == d)) [
      | inl same ↦
          let (r, ran, law) =
            strcmp_from fuel m a b (i + 1) cs ds (subst (λ p. IsText m p cs) (omega arith) t)
              (subst (λ p. IsText m p ds) (omega arith) u) (omega (arith, h)) in
          (
            r,
            ground (arith, e, f, ne, same, ran),
            (
              (λ z. ap₂ (λ x y. x ∷ y) (ground (arith, same)) (law.0 z)),
              λ z. law.1 (ground (arith, z)),
            ),
          )
      | inr other ↦ (
        char_order c d,
        ground (arith, e, f, ne, other),
        (
          (λ z. absurd (ground (arith, char_order-zero c d z, other))),
          λ z. ground (arith, z, other),
        ),
      )
    ]

-- `strcmp` of two texts stops, and is zero exactly if the texts are equal.
pub strcmp-zero_iff :
    (fuel : ℕ) (m : Memory) (a b : ℕ) (cs ds : List ℕ)
    → IsText m a cs
    → IsText m b ds
    → length cs < fuel
    → (r : ℕ) × (strcmp fuel m a b 0 ≡ some r) × (r ≡ 0 ↔ cs ≡ ds)
strcmp-zero_iff fuel m a b cs ds t u h =
    strcmp_from fuel m a b 0 cs ds (subst (λ p. IsText m p cs) (omega arith) t)
      (subst (λ p. IsText m p ds) (omega arith) u) h

strncpy_loop-IsCopy :
    (n : ℕ) (m : Memory) (dst src : ℕ)
    → (dst ≤ src) ⊎ (src + n ≤ dst)
    → IsCopy m (strncpy_loop n m dst src) dst src n
unfolding strncpy_loop
strncpy_loop-IsCopy zero m dst src a j = ground arith
strncpy_loop-IsCopy (suc n) m dst src a j = ground (
  arith,
  a,
  strncpy_loop-IsCopy n (update m dst (m src)) (dst + 1) (src + 1) (ground (arith, a)) j,
)

-- `strncpy` copies exactly `n` bytes, whatever they are: it does not stop at the end of the text, and
-- does not fill the rest with zeros.
pub strncpy-IsCopy :
    (m : Memory) (dst src n : ℕ)
    → src ≢ 0
    → (dst ≤ src) ⊎ (src + n ≤ dst)
    → IsCopy m (strncpy m dst src n) dst src n
unfolding strncpy
strncpy-IsCopy m dst src n ne a j = ground (arith, ne, strncpy_loop-IsCopy n m dst src a j)

char_stop-first :
    (fuel : ℕ) (m : Memory) (s ch : ℕ) (cs : List ℕ)
    → IsText m s cs
    → length cs < fuel
    → (stop : ℕ) × (char_stop fuel m s ch ≡ some stop)
      × (s ≤ stop)
      × (stop ≤ s + length cs)
      × ((stop ≡ s + length cs) ⊎ (widen (m stop) ≡ ch))
      × ((p : ℕ) → s ≤ p → p < stop → widen (m p) ≢ ch)
unfolding char_stop
char_stop-first zero m s ch cs t h = absurd (omega arith)
char_stop-first (suc fuel) m s ch [] t h = (
  s,
  ground (arith, t),
  omega arith,
  omega arith,
  inl (omega arith),
  λ p a b. absurd (omega (arith, a, b)),
)
char_stop-first (suc fuel) m s ch (c ∷ cs) (e, ne, b, t) h = elim (Bool-cases (widen (m s) == ch)) [
  | inl here ↦ (
    s,
    ground (arith, here),
    omega arith,
    omega arith,
    inr (ground (arith, here)),
    λ p a k. absurd (omega (arith, a, k)),
  )
  | inr other ↦
      let (stop, ran, low, high, end, first) =
        char_stop-first fuel m (s + 1) ch cs t (omega (arith, h)) in
      (
        stop,
        ground (arith, e, ne, other, ran),
        omega (arith, low),
        omega (arith, high),
        ground (arith, end),
        λ p a k. elim (Bool-cases (p == s)) [
          | inl eq ↦ ground (arith, eq, other)
          | inr ne ↦ first p (ground (arith, ne, a)) k
        ],
      )
]

-- The answer `r` about the bytes from `s` to `last` is the first one that is the char `ch`, or none is.
abbrev pub IsFirst : Memory → ℕ → ℕ → ℕ → Option ℕ → Type 0
IsFirst m s last ch none = (p : ℕ) → s ≤ p → p ≤ last → widen (m p) ≢ ch
IsFirst m s last ch (some at) =
    (s ≤ at) × (at ≤ last) × (widen (m at) ≡ ch) × ((p : ℕ) → s ≤ p → p < at → widen (m p) ≢ ch)

-- `strchr` on a text stops, and points at the first byte of the text that is the char, its zero byte
-- counted as one, or gives NULL if none is.
pub strchr-IsFirst :
    (fuel : ℕ) (m : Memory) (s ch : ℕ) (cs : List ℕ)
    → IsText m s cs
    → length cs < fuel
    → (r : Option ℕ) × (strchr fuel m s ch ≡ some r) × IsFirst m s (s + length cs) ch r
unfolding strchr char_at
strchr-IsFirst fuel m s ch cs t h =
    let (stop, ran, low, high, end, first) = char_stop-first fuel m s ch cs t h in
    elim (Bool-cases (widen (m stop) == ch)) [
      | inl here ↦
          (some stop, rw (ran) (ground (arith, here)), (low, high, ground (arith, here), first))
      | inr other ↦ (
        none,
        rw (ran) (ground (arith, other)),
        λ p a b. elim (Bool-cases (ltb p stop)) [
          | inl before ↦ first p a (ground (arith, before))
          | inr after ↦ ground (arith, after, b, low, high, end, other)
        ],
      )
    ]
