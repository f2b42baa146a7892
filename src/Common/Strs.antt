-- ===== src/Common/Strs.antt =====
-- The methods of Python's `str` that the program uses, on code points, and `int(text, base)`.
-- Case mapping and digits are those of ASCII; white space is Unicode's.
use pyrad.Common.Tests.{ltb, leb, ◌==◌, if◌then◌else◌}
use pyrad.Common.Lists.{Text}
use pyrad.Common.Int.{ℤ, pos, negsuc}
use Prim.Native.Nat.{ℕ, zero, suc, ◌+◌, ◌-◌, ◌*◌, ◌/◌, ◌%◌}
use mathlib.Core.Bool.{Bool, true, false, ◌&&◌, ◌||◌}
use mathlib.Core.Option.{Option, none, some}
use mathlib.Core.List.{List, [], ◌∷◌, map, reverse}

abbrev within : ℕ → ℕ → ℕ → Bool
within lo hi c = leb lo c && leb c hi

unfoldable pub is_space : ℕ → Bool
is_space c =
    within 9 13 c
    || within 28 32 c
    || c == 133
    || c == 160
    || c == 5760
    || within 8192 8202 c
    || within 8232 8233 c
    || c == 8239
    || c == 8287
    || c == 12288

unfoldable pub lstrip : Text → Text
unfolding is_space
lstrip [] = []
lstrip (c ∷ s) = if is_space c then lstrip s else c ∷ s

unfoldable pub strip : Text → Text
unfolding lstrip
strip s = reverse (lstrip (reverse (lstrip s)))

flush : Text → List Text → List Text
flush [] r = r
flush (c ∷ w) r = reverse (c ∷ w) ∷ r

-- `s.split()`; the first argument is the word so far, backwards
split_words : Text → Text → List Text
unfolding flush is_space
split_words w [] = flush w []
split_words w (c ∷ s) =
    let rest = split_words (if is_space c then [] else c ∷ w) s in
    if is_space c then flush w rest else rest

unfoldable pub words : Text → List Text
unfolding split_words
words = split_words []

cons_head : ℕ → List Text → List Text
cons_head c [] = (c ∷ []) ∷ []
cons_head c (w ∷ ws) = (c ∷ w) ∷ ws

-- `s.split(sep)` for a separator of one character: never empty
unfoldable pub split_on : ℕ → Text → List Text
unfolding cons_head
split_on sep [] = [] ∷ []
split_on sep (c ∷ s) = let rest = split_on sep s in if c == sep then [] ∷ rest else cons_head c rest

-- `s.split(sep, 1)[0]` and `s.partition(sep)[0]`
unfoldable pub before : ℕ → Text → Text
before sep [] = []
before sep (c ∷ s) = if c == sep then [] else c ∷ before sep s

-- `s.partition(sep)[2]`
unfoldable pub after : ℕ → Text → Text
after sep [] = []
after sep (c ∷ s) = if c == sep then s else after sep s

unfoldable pub upper : Text → Text
upper = map (λ c. if within b'a' b'z' c then c - 32 else c)

unfoldable pub starts_with : Text → Text → Bool
starts_with [] s = true
starts_with (p ∷ ps) [] = false
starts_with (p ∷ ps) (c ∷ s) = p == c && starts_with ps s

-- a digit of a base up to 16
digit : ℕ → ℕ → Option ℕ
digit base c =
    let v : ℕ =
      if within b'0' b'9' c
      then c - b'0'
      else if within b'a' b'f' c
      then c - 87
      else if within b'A' b'F' c
      then c - 55
      else 99 in
    if ltb v base then some v else none

-- Digits, with single underscores between them; the flag says that a digit stands before.
digits : ℕ → ℕ → Bool → Text → Option ℕ
unfolding digit
digits base acc after_digit [] = if after_digit then some acc else none
digits base acc after_digit (c ∷ s) = elim (digit base c) [
  | some v ↦ digits base (acc * base + v) true s
  | none ↦ if c == b'_' && after_digit then digits base acc false s else none
]

abbrev negated : Option ℕ → Option ℤ
negated none = none
negated (some zero) = some (pos 0)
negated (some (suc n)) = some (negsuc n)

abbrev positive : Option ℕ → Option ℤ
positive none = none
positive (some n) = some (pos n)

-- what follows the prefix `0x`, `0o` or `0b` (the letter in lower case is the first argument)
after_prefix : ℕ → Text → Option Text
after_prefix letter (z ∷ x ∷ s) =
    if z == b'0' && (x == letter || x + 32 == letter) then some s else none
after_prefix letter s = none

-- one underscore may follow the prefix
prefixed : ℕ → Text → Option ℕ
unfolding digits
prefixed base [] = none
prefixed base (c ∷ s) = if c == b'_' then digits base 0 false s else digits base 0 false (c ∷ s)

-- in base 0 a number with a leading zero must be zero
no_leading_zero : Text → Option ℕ → Option ℕ
no_leading_zero (c ∷ s) (some (suc n)) = if c == b'0' then none else some (suc n)
no_leading_zero s o = o

magnitude : ℕ → Text → Option ℕ
unfolding digits after_prefix prefixed no_leading_zero
magnitude base s = if base == 10 then digits 10 0 false s else elim (after_prefix b'x' s) [
  | some r ↦ if base == 16 || base == 0 then prefixed 16 r else digits base 0 false s
  | none ↦ elim (after_prefix b'o' s) [
    | some r ↦ if base == 8 || base == 0 then prefixed 8 r else digits base 0 false s
    | none ↦ elim (after_prefix b'b' s) [
      | some r ↦ if base == 0 then prefixed 2 r else digits base 0 false s
      | none ↦ if base == 0 then no_leading_zero s (digits 10 0 false s) else digits base 0 false s
    ]
  ]
]

signed : ℕ → Text → Option ℤ
unfolding magnitude
signed base [] = none
signed base (c ∷ s) =
    if c == b'-'
    then negated (magnitude base s)
    else if c == b'+'
    then positive (magnitude base s)
    else positive (magnitude base (c ∷ s))

-- `int(text, base)` for base 0, 8, 10 or 16; `none` is a ValueError
unfoldable pub parse_int : ℕ → Text → Option ℤ
unfolding signed strip
parse_int base s = signed base (strip s)

-- `str(n)`: decimal digits, with fuel for as many as `n` can have
show_loop : ℕ → ℕ → Text → Text
show_loop zero n acc = acc
show_loop (suc fuel) n acc =
    let rest = show_loop fuel (n / 10) ((b'0' + n % 10) ∷ acc) in
    if ltb n 10 then (b'0' + n) ∷ acc else rest

unfoldable pub show_nat : ℕ → Text
unfolding show_loop
show_nat n = show_loop (suc n) n []
