-- ===== src/Common/Utf8.antt =====
-- `str.encode('utf-8')` and `bytes.decode('utf-8')`.
use pyrad.Common.Tests.{ltb, leb, Bool-cases, Option-cases, if◌then◌else◌}
use pyrad.Common.Lists.{Bytes, Text}
use Prim.Native.Nat.{ℕ, zero, suc, ◌+◌, ◌-◌, ◌*◌, ◌/◌, ◌%◌, ◌<◌, ◌≤◌}
use mathlib.Core.Bool.{Bool, false, not, ◌&&◌}
use mathlib.Core.Option.{Option, none, some}
use mathlib.Core.Logic.{inl, inr}
use mathlib.Core.List.{[], ◌∷◌, ◌++◌}
use mathlib.Core.Path.{◌≡◌, refl, ◌∙◌}
use native.Mathlib.Omega.{arith}

abbrev is_surrogate : ℕ → Bool
is_surrogate c = leb 0xd800 c && ltb c 0xe000

-- A character's bytes; `none` is a UnicodeEncodeError, or no character.
unfoldable pub encode_char : ℕ → Option Bytes
encode_char c =
    if ltb c 0x80
    then some (c ∷ [])
    else if ltb c 0x800
    then some ((0xc0 + c / 64) ∷ (0x80 + c % 64) ∷ [])
    else if ltb c 0x10000
    then (if is_surrogate c
        then none
        else some ((0xe0 + c / 4096) ∷ (0x80 + c / 64 % 64) ∷ (0x80 + c % 64) ∷ []))
    else if ltb c 0x110000
    then some
        ((0xf0 + c / 262144) ∷ (0x80 + c / 4096 % 64) ∷ (0x80 + c / 64 % 64) ∷ (0x80 + c % 64) ∷ [])
    else none

join_bytes : Option Bytes → Option Bytes → Option Bytes
join_bytes none r = none
join_bytes (some b) none = none
join_bytes (some b) (some r) = some (b ++ r)

unfoldable pub utf8_encode : Text → Option Bytes
unfolding join_bytes
utf8_encode [] = some []
utf8_encode (c ∷ s) = join_bytes (encode_char c) (utf8_encode s)

-- The decoder: how many bytes of a character are still to come, their number so far, and the least
-- number that this length may encode.
pub record State : Type 0 where
  pub left : ℕ
  pub acc : ℕ
  pub least : ℕ

abbrev pub start : State
start = record { left = 0; acc = 0; least = 0 }

lead : ℕ → Option (State × Text)
lead b =
    if ltb b 0x80
    then some (start, b ∷ [])
    else if ltb b 0xc0
    then none
    else if ltb b 0xe0
    then some (record { left = 1; acc = b - 0xc0; least = 0x80 }, [])
    else if ltb b 0xf0
    then some (record { left = 2; acc = b - 0xe0; least = 0x800 }, [])
    else if ltb b 0xf8
    then some (record { left = 3; acc = b - 0xf0; least = 0x10000 }, [])
    else none

finish : ℕ → ℕ → Option (State × Text)
finish c least =
    if leb least c && ltb c 0x110000 && not (is_surrogate c) then some (start, c ∷ []) else none

trail : ℕ → State → ℕ → Option (State × Text)
unfolding finish
trail zero s b = finish (s.acc * 64 + (b - 0x80)) s.least
trail (suc n) s b =
    some (record { left = suc n; acc = s.acc * 64 + (b - 0x80); least = s.least }, [])

step_left : ℕ → State → ℕ → Option (State × Text)
unfolding lead trail
step_left zero s b = lead b
step_left (suc n) s b = if leb 0x80 b && ltb b 0xc0 then trail n s b else none

push : Text → Option Text → Option Text
push out none = none
push out (some s) = some (out ++ s)

done : ℕ → Option Text
done zero = some []
done (suc n) = none

unfoldable pub decode_from : State → Bytes → Option Text
unfolding step_left push done
decode_from s [] = done s.left
decode_from s (b ∷ bs) = elim (step_left s.left s b) [
  | none ↦ none
  | some (s', out) ↦ push out (decode_from s' bs)
]

-- `none` is a UnicodeDecodeError
unfoldable pub utf8_decode : Bytes → Option Text
unfolding decode_from
utf8_decode bs = decode_from start bs

decode_two :
    (c : ℕ) (more : Bytes)
    → 0x80 ≤ c
    → c < 0x800
    → decode_from start ((0xc0 + c / 64) ∷ (0x80 + c % 64) ∷ more)
      ≡ push (c ∷ []) (decode_from start more)
unfolding decode_from
decode_two c more lo hi = ground arith

decode_three :
    (c : ℕ) (more : Bytes)
    → 0x800 ≤ c
    → c < 0x10000
    → is_surrogate c ≡ false
    → decode_from start ((0xe0 + c / 4096) ∷ (0x80 + c / 64 % 64) ∷ (0x80 + c % 64) ∷ more)
      ≡ push (c ∷ []) (decode_from start more)
unfolding decode_from
decode_three c more lo hi s = ground arith

decode_four :
    (c : ℕ) (more : Bytes)
    → 0x10000 ≤ c
    → c < 0x110000
    → decode_from start (
        (0xf0 + c / 262144)
        ∷ (0x80 + c / 4096 % 64)
        ∷ (0x80 + c / 64 % 64)
        ∷ (0x80 + c % 64)
        ∷ more)
      ≡ push (c ∷ []) (decode_from start more)
unfolding decode_from
decode_four c more lo hi = ground arith

decode-encode_char :
    (c : ℕ) (b more : Bytes)
    → encode_char c ≡ some b
    → decode_from start (b ++ more) ≡ push (c ∷ []) (decode_from start more)
unfolding encode_char
decode-encode_char c b more h = elim (Bool-cases (ltb c 0x80)) [
  | inl one ↦ let e : c ∷ [] ≡ b = ground arith in rw (← e) (unfold decode_from in ground arith)
  | inr more_than_one ↦ elim (Bool-cases (ltb c 0x800)) [
    | inl two ↦
        let e : (0xc0 + c / 64) ∷ (0x80 + c % 64) ∷ [] ≡ b = ground arith in
        rw (← e) (decode_two c more (ground arith) (ground arith))
    | inr more_than_two ↦ elim (Bool-cases (ltb c 0x10000)) [
      | inl three ↦
          let e : (0xe0 + c / 4096) ∷ (0x80 + c / 64 % 64) ∷ (0x80 + c % 64) ∷ [] ≡ b =
            ground arith in
          rw (← e) (decode_three c more (ground arith) (ground arith) (ground arith))
      | inr four ↦
          let e : (0xf0 + c / 262144)
                ∷ (0x80 + c / 4096 % 64)
                ∷ (0x80 + c / 64 % 64)
                ∷ (0x80 + c % 64)
                ∷ []
              ≡ b =
            ground arith in
          rw (← e) (decode_four c more (ground arith) (ground arith))
    ]
  ]
]

-- Decoding what was encoded gives the text back.
pub utf8_decode-utf8_encode :
    (s : Text) (b : Bytes) → utf8_encode s ≡ some b → utf8_decode b ≡ some s
unfolding utf8_encode utf8_decode push
utf8_decode-utf8_encode [] b h = let e : [] ≡ b = cc in rw (← e) refl
utf8_decode-utf8_encode (c ∷ s) b h = elim (Option-cases (encode_char c)) [
  | inl bad ↦ cc (bad, h)
  | inr (x, good) ↦ elim (Option-cases (utf8_encode s)) [
    | inl bad ↦ absurd (ground arith)
    | inr (y, tail) ↦
        let e : x ++ y ≡ b = ground arith in
        rw (← e) (decode-encode_char c x y good ∙ rw (utf8_decode-utf8_encode s y tail) refl)
  ]
]
