-- ===== src/Libh/Text.antt =====
-- lib/libh/src/string: the functions on texts that end with a zero byte. A loop that looks for the
-- end runs on fuel, and gives `none` when the fuel has run out.
pub mod Laws
use horizon_microkernel.Prelude.{
  ℕ, zero, suc, ◌+◌, ◌-◌, ◌%◌, ◌^◌, Bool, true, false, not, ◌&&◌, ◌||◌, Option, none, some, ◌==◌,
  ltb, if◌then◌else◌, update,
}
use horizon_microkernel.Libh.Memory.{Memory}

-- A `char` as an `int`: it is signed.
abbrev pub widen : ℕ → ℕ
widen c = if ltb c 128 then c else c + (2 ^ 32 - 256)

unfoldable pub strlen : ℕ → Memory → ℕ → ℕ → Option ℕ
strlen zero m s ret = none
strlen (suc fuel) m s ret =
    let rest = strlen fuel m s (ret + 1) in if m (s + ret) == 0 then some ret else rest

-- The pointer where the loop of `strchr` stops.
unfoldable pub char_stop : ℕ → Memory → ℕ → ℕ → Option ℕ
char_stop zero m s ch = none
char_stop (suc fuel) m s ch =
    let rest = char_stop fuel m (s + 1) ch in if m s == 0 || widen (m s) == ch then some s else rest

-- A result `some none` is NULL.
unfoldable pub char_at : Memory → ℕ → Option ℕ → Option (Option ℕ)
char_at m ch none = none
char_at m ch (some s) = some (if widen (m s) == ch then some s else none)

unfoldable pub strchr : ℕ → Memory → ℕ → ℕ → Option (Option ℕ)
strchr fuel m s ch = char_at m ch (char_stop fuel m s ch)

-- `while (i && s[i] != ch) --i`
unfoldable pub char_back : Memory → ℕ → ℕ → ℕ → ℕ
char_back m s ch zero = zero
char_back m s ch (suc i) =
    let rest = char_back m s ch i in if widen (m (s + suc i)) == ch then suc i else rest

unfoldable pub strrchr : ℕ → Memory → ℕ → ℕ → Option (Option ℕ)
strrchr fuel m s ch =
    char_at m ch (elim (strlen fuel m s 0) [ none ↦ none | some i ↦ some (s + char_back m s ch i) ])

-- `a > b` of two chars
abbrev pub char_gt : ℕ → ℕ → Bool
char_gt a b = ltb ((b + 128) % 256) ((a + 128) % 256)

-- The result is an `int`, as a word.
unfoldable pub strcmp : ℕ → Memory → ℕ → ℕ → ℕ → Option ℕ
strcmp zero m a b i = none
strcmp (suc fuel) m a b i =
    let rest = strcmp fuel m a b (i + 1) in
    if not (m (a + i) == 0) && m (a + i) == m (b + i)
    then rest
    else some (
        if char_gt (m (a + i)) (m (b + i))
        then 1
        else if m (a + i) == m (b + i)
        then 0
        else 2 ^ 32 - 1)

unfoldable pub strcpy : ℕ → Memory → ℕ → ℕ → ℕ → Option Memory
strcpy zero m dst src i = none
strcpy (suc fuel) m dst src i =
    let rest = strcpy fuel (update m (dst + i) (m (src + i))) dst src (i + 1) in
    if m (src + i) == 0 then some (update m (dst + i) 0) else rest

-- The loop of `strncpy` tests the pointer `src`, not the byte, so it makes `n` rounds.
unfoldable pub strncpy_loop : ℕ → Memory → ℕ → ℕ → Memory
strncpy_loop zero m s src = m
strncpy_loop (suc n) m s src = strncpy_loop n (update m s (m src)) (s + 1) (src + 1)

unfoldable pub strncpy : Memory → ℕ → ℕ → ℕ → Memory
strncpy m dst src n =
    if src == 0 then (if n == 0 then m else update m dst 0) else strncpy_loop n m dst src
