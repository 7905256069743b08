-- ===== src/Libh/Format.antt =====
-- lib/libh/src/stdio/vprintf.c, with the macros of lib/libh/include/ctype.h. A text is the list of its
-- bytes before the zero byte. What is printed is the list of the bytes that `putchar` is called with.
pub mod Digits
pub mod Width
use horizon_microkernel.Prelude.{
  ℕ, zero, suc, ◌+◌, ◌-◌, ◌*◌, ◌/◌, ◌%◌, ◌^◌, Bool, true, false, not, ◌&&◌, ◌||◌, Option, none,
  some, ◌==◌, ltb, leb, if◌then◌else◌, List, [], ◌∷◌, ◌++◌, length,
}

-- `a | 0x20`
abbrev pub lowered : ℕ → ℕ
lowered a = if a / 32 % 2 == 0 then a + 32 else a

abbrev pub isalpha : ℕ → Bool
isalpha a = ltb ((lowered a + 2 ^ 32 - 97) % 2 ^ 32) 26

abbrev pub isdigit : ℕ → Bool
isdigit a = ltb ((a + 2 ^ 32 - 48) % 2 ^ 32) 10

-- The loop in `FMT(s, for (; x; x /= base) *--s = digit(x % base))`; a word has at most 32 digits.
unfoldable pub fmt_loop : ℕ → (ℕ → ℕ) → ℕ → ℕ → List ℕ → List ℕ
fmt_loop zero digit base x s = s
fmt_loop (suc rounds) digit base x s =
    let rest = fmt_loop rounds digit base (x / base) (digit (x % base) ∷ s) in
    if x == 0 then s else rest

-- The macro `FMT`. The bytes from `s` on are the list, so `*--s = c` puts `c` before it.
unfoldable pub fmt : (ℕ → ℕ) → ℕ → ℕ → List ℕ → List ℕ
fmt digit base x s = if x == 0 then 48 ∷ s else fmt_loop 32 digit base x s

-- `xdigits[x] | (lower & 0x20)`
abbrev pub xdigit : ℕ → ℕ → ℕ
xdigit lower x =
    let c = if ltb x 10 then 48 + x else 55 + x in if lower / 32 % 2 == 1 then lowered c else c

unfoldable pub fmt_x : ℕ → List ℕ → ℕ → List ℕ
fmt_x x s lower = fmt (xdigit lower) 16 x s

unfoldable pub fmt_o : ℕ → List ℕ → List ℕ
fmt_o o s = fmt (λ d. 48 + d) 8 o s

unfoldable pub fmt_u : ℕ → List ℕ → List ℕ
fmt_u u s = fmt (λ d. 48 + d) 10 u s

-- The digits that a text begins with, the last one first, and what is behind them.
unfoldable pub digits_back : List ℕ → List ℕ → List ℕ × List ℕ
digits_back seen [] = (seen, [])
digits_back seen (c ∷ cs) =
    let rest = digits_back (c ∷ seen) cs in if isdigit c then rest else (seen, c ∷ cs)

-- `while (curr != str)`, from the last digit to the first.
unfoldable pub get_n_loop : List ℕ → ℕ → ℕ → ℕ
get_n_loop [] n i = n
get_n_loop (c ∷ cs) n i =
    get_n_loop cs ((n + (c + 2 ^ 32 - 48) % 2 ^ 32 * i) % 2 ^ 32) (i * 10 % 2 ^ 32)

-- The number, and the text behind it.
unfoldable pub get_n : List ℕ → ℕ × List ℕ
get_n str = let found = digits_back [] str in (get_n_loop found.0 0 1, found.1)

pub record Flags : Type 0 where
  pub alt : Bool
  pub zext : Bool
  pub pad : ℕ

abbrev pub no_flags : Flags
no_flags = record { alt = false; zext = false; pad = 0 }

-- One round of the loop over the flags, at the char `c`: the flags, and the text that is left.
unfoldable pub flag : ℕ → List ℕ → Flags → Flags × List ℕ
flag c cs f =
    if c == 35
    then (record f { alt = true }, cs)
    else if c == 48
    then (record f { zext = true }, cs)
    else if isdigit c
    then (record f { pad = (get_n (c ∷ cs)).0 }, (get_n (c ∷ cs)).1)
    else (f, cs)

-- `while (*curr && !isalpha(*curr))`
unfoldable pub flags : ℕ → List ℕ → Flags → Option (Flags × List ℕ)
unfolding flag
flags zero cs f = none
flags (suc fuel) [] f = some (f, [])
flags (suc fuel) (c ∷ cs) f =
    let rest = flags fuel (flag c cs f).1 (flag c cs f).0 in
    if isalpha c then some (f, c ∷ cs) else rest

-- What a conversion gives: a number, which is padded, text that is printed as it is, or no meaning.
pub data Shown : Type 0 where
  number : List ℕ → Shown
  plain : List ℕ → Shown
  unknown : Shown

-- `while (pad-- > diff) putchar(c)`
unfoldable pub padding : ℕ → ℕ → ℕ → List ℕ
padding zero diff c = []
padding (suc pad) diff c =
    let rest = padding pad diff c in if ltb diff (suc pad) then c ∷ rest else []

unfoldable pub show : Flags → Shown → List ℕ
unfolding padding
show f (number putn) = padding f.pad (length putn) (if f.zext then 48 else 32) ++ putn
show f (plain str) = str
show f unknown = []

abbrev pub signed : ℕ → List ℕ
signed d = if leb (2 ^ 31) d then 45 ∷ fmt_u ((2 ^ 32 - d) % 2 ^ 32) [] else fmt_u d []

abbrev pub prefixed : Bool → List ℕ → List ℕ → List ℕ
prefixed b pre putn = if b then pre ++ putn else putn

-- What a round of the loop prints before it goes on with the rest of the format and the next argument,
-- or ends with a result.
pub data Round : Type 0 where
  ended : ℕ → List ℕ → Round
  continued : List ℕ → List ℕ → ℕ → Round

abbrev pub shown : Flags → Shown → List ℕ → ℕ → Round
shown f unknown rest next = ended (2 ^ 32 - 1) []
shown f (number putn) rest next = continued (show f (number putn)) rest next
shown f (plain str) rest next = continued (show f (plain str)) rest next

abbrev pub before : List ℕ → Option (ℕ × List ℕ) → Option (ℕ × List ℕ)
before printed none = none
before printed (some (result, rest)) = some (result, printed ++ rest)

-- `text_at` gives the text at an address, and `popped` is the argument.
module _ (text_at : ℕ → List ℕ) where
  unfoldable pub convert : ℕ → Flags → ℕ → Shown
  unfolding fmt_u fmt_x fmt_o
  convert c f popped =
      if c == 100 || c == 105
      then number (signed popped)
      else if c == 117
      then number (fmt_u popped [])
      else if c == 120 || c == 88 || c == 112
      then number (prefixed (f.alt || c == 112) (48 ∷ 120 ∷ []) (fmt_x popped [] c))
      else if c == 111
      then number (prefixed f.alt (79 ∷ []) (fmt_o popped []))
      else if c == 115
      then plain (text_at popped)
      else if c == 99
      then plain (popped % 256 ∷ [])
      else unknown

  unfoldable pub converted : (ℕ → ℕ) → ℕ → Option (Flags × List ℕ) → Option Round
  unfolding convert show
  converted args next none = none
  converted args next (some (f, [])) = some (ended 0 [])
  converted args next (some (f, c ∷ rest)) =
      some (shown f (convert c f (args next)) rest (next + 1))

  -- One char of `while (*curr && *curr != '%') putchar(*curr++)`, or one conversion.
  unfoldable pub round : ℕ → List ℕ → (ℕ → ℕ) → ℕ → Option Round
  unfolding converted flags
  round fuel [] args next = some (ended 0 [])
  round fuel (c ∷ []) args next = some (if c == 37 then ended 0 [] else continued (c ∷ []) [] next)
  round fuel (c ∷ d ∷ cs) args next =
      let other = converted args next (flags fuel (d ∷ cs) no_flags) in
      if not (c == 37)
      then some (continued (c ∷ []) (d ∷ cs) next)
      else if d == 37
      then some (continued (37 ∷ []) cs next)
      else other

  -- The loop of `vprintf`, and what it prints.
  unfoldable pub print_loop : ℕ → List ℕ → (ℕ → ℕ) → ℕ → Option (ℕ × List ℕ)
  unfolding round
  print_loop zero cs args next = none
  print_loop (suc fuel) cs args next = elim (round fuel cs args next) [
    | none ↦ none
    | some (ended result printed) ↦ some (result, printed)
    | some (continued printed rest n) ↦ before printed (print_loop fuel rest args n)
  ]

  -- The result as a word, and what is printed. The format is `none` if it is NULL.
  unfoldable pub vprintf : ℕ → Option (List ℕ) → (ℕ → ℕ) → Option (ℕ × List ℕ)
  unfolding print_loop
  vprintf fuel none args = some (0, [])
  vprintf fuel (some format) args = print_loop fuel format args 0
