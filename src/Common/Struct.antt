-- ===== src/Common/Struct.antt =====
-- The integer formats of Python's `struct`, in network byte order.
use native.Mathlib.Nat.{pow-suc}
use pyrad.Common.Tests.{ltb, if◌then◌else◌}
use pyrad.Common.Lists.{Bytes, length, length-append, All, All-append, IsByte}
use pyrad.Common.Int.{ℤ, pos, negsuc}
use pyrad.Common.Result.{Result, ok, raise, struct_error}
use Prim.Native.Nat.{ℕ, zero, suc, ◌+◌, ◌-◌, ◌*◌, ◌/◌, ◌%◌, ◌^◌, ◌<◌}
use mathlib.Core.Path.{◌≡◌, refl}
use mathlib.Core.List.{[], ◌∷◌, ◌++◌}
use native.Mathlib.Omega.{arith}

-- The `w` bytes of `n`, the highest first; `n` is in range where this is called.
unfoldable pub be : ℕ → ℕ → Bytes
be zero n = []
be (suc zero) n = n ∷ []
be (suc (suc w)) n = be (suc w) (n / 256) ++ n % 256 ∷ []

-- The number that the bytes stand for.
unfoldable pub unbe_from : ℕ → Bytes → ℕ
unbe_from acc [] = acc
unbe_from acc (b ∷ bs) = unbe_from (acc * 256 + b) bs

abbrev pub unbe : Bytes → ℕ
unbe = unbe_from 0

-- struct.pack of an unsigned field of `w` bytes
unfoldable pub pack_uint : ℕ → ℤ → Result Bytes
pack_uint w (pos n) = if ltb n (256 ^ w) then ok (be w n) else raise struct_error
pack_uint w (negsuc n) = raise struct_error

-- struct.pack of a signed field of `w` bytes: two's complement
unfoldable pub pack_int : ℕ → ℤ → Result Bytes
pack_int w (pos n) = if ltb n (256 ^ w / 2) then ok (be w n) else raise struct_error
pack_int w (negsuc n) =
    if ltb n (256 ^ w / 2) then ok (be w (256 ^ w - 1 - n)) else raise struct_error

-- struct.unpack of one unsigned field of `w` bytes: the buffer must have that length
unfoldable pub unpack_uint : ℕ → Bytes → Result ℤ
unpack_uint w bs =
    if ltb (length bs) w
    then raise struct_error
    else if ltb w (length bs)
    then raise struct_error
    else ok (pos (unbe bs))

abbrev signed_of : ℕ → ℕ → ℤ
signed_of w n = if ltb n (256 ^ w / 2) then pos n else negsuc (256 ^ w - 1 - n)

-- struct.unpack of one signed field of `w` bytes
unfoldable pub unpack_int : ℕ → Bytes → Result ℤ
unpack_int w bs =
    if ltb (length bs) w
    then raise struct_error
    else if ltb w (length bs)
    then raise struct_error
    else ok (signed_of w (unbe bs))

pub length-be : (w n : ℕ) → length (be w n) ≡ w
unfolding be
length-be zero n = refl
length-be (suc zero) n = refl
length-be (suc (suc w)) n =
    omega (arith, length-append (be (suc w) (n / 256)) (n % 256 ∷ []), length-be (suc w) (n / 256))

unbe_from-append :
    (acc : ℕ) (xs ys : Bytes) → unbe_from acc (xs ++ ys) ≡ unbe_from (unbe_from acc xs) ys
unfolding unbe_from
unbe_from-append acc [] ys = refl
unbe_from-append acc (x ∷ xs) ys = unbe_from-append (acc * 256 + x) xs ys

pub unbe-be : (w n : ℕ) → n < 256 ^ w → unbe (be w n) ≡ n
unfolding be unbe_from
unbe-be zero n h = omega arith
unbe-be (suc zero) n h = omega arith
unbe-be (suc (suc w)) n h =
    rw (unbe_from-append 0 (be (suc w) (n / 256)) (n % 256 ∷ []))
      (omega (arith, unbe-be (suc w) (n / 256) (omega (arith, pow-suc 256 (suc w)))))

pub be-IsByte : (w n : ℕ) → n < 256 ^ w → All IsByte (be w n)
unfolding be
be-IsByte zero n h = tt
be-IsByte (suc zero) n h = omega arith
be-IsByte (suc (suc w)) n h =
    All-append IsByte (be (suc w) (n / 256)) (n % 256 ∷ [])
      (be-IsByte (suc w) (n / 256) (omega (arith, pow-suc 256 (suc w)))) (omega arith)

-- A packed unsigned field reads back.
pub unpack_uint-pack_uint :
    (w : ℕ) (z : ℤ) (bs : Bytes) → pack_uint w z ≡ ok bs → unpack_uint w bs ≡ ok z
unfolding pack_uint unpack_uint
unpack_uint-pack_uint w (pos n) bs h = ground (arith, length-be w n, unbe-be w n)
unpack_uint-pack_uint w (negsuc n) bs h = cc
