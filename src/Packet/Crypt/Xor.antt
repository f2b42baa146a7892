-- ===== src/Packet/Crypt/Xor.antt =====
-- The exclusive or of bytes undoes itself.
use Prim.Native.Nat.{bit_xor}
use pyrad.Common.{
  ℕ, zero, suc, ◌<◌, ◌≤◌, ◌≡◌, refl, sym, ap, ◌∙◌, Bool, true, ◌&&◌, ◌==◌, arith, ==_iff, [], ◌∷◌,
  Bytes, length, All, IsByte,
}
use mathlib.Core.Path.{ap₂}
use pyrad.Packet.Crypt.{xor_bytes}

abbrev all_below : ℕ → (ℕ → Bool) → Bool
all_below zero f = true
all_below (suc n) f = f n && all_below n f

all_below_lem : (n : ℕ) (f : ℕ → Bool) (k : ℕ) → all_below n f ≡ true → k < n → f k ≡ true
all_below_lem zero f k h l = absurd (omega arith)
all_below_lem (suc n) f k h l = ground (arith, all_below_lem n f k)

xor_table : all_below 256 (λ a. all_below 256 (λ b. bit_xor (bit_xor a b) b == a)) ≡ true
xor_table = refl

pub xor_twice : (a b : ℕ) → a < 256 → b < 256 → bit_xor (bit_xor a b) b ≡ a
xor_twice a b la lb = (==_iff (bit_xor (bit_xor a b) b) a).0 (
    all_below_lem 256 (λ k. bit_xor (bit_xor a k) k == a) b
      (all_below_lem 256 (λ j. all_below 256 (λ k. bit_xor (bit_xor j k) k == j)) a xor_table la)
      lb)

pub length-xor_bytes :
    (bs hs : Bytes) → length bs ≤ length hs → length (xor_bytes bs hs) ≡ length bs
unfolding xor_bytes
length-xor_bytes [] hs h = refl
length-xor_bytes (b ∷ bs) [] h = absurd (omega arith)
length-xor_bytes (b ∷ bs) (k ∷ hs) h = ap suc (length-xor_bytes bs hs (omega arith))

pub xor_bytes_twice :
    (bs hs : Bytes)
    → length bs ≤ length hs
    → All IsByte bs
    → All IsByte hs
    → xor_bytes (xor_bytes bs hs) hs ≡ bs
unfolding xor_bytes
xor_bytes_twice [] hs h u v = refl
xor_bytes_twice (b ∷ bs) [] h u v = absurd (omega arith)
xor_bytes_twice (b ∷ bs) (k ∷ hs) h (ub, us) (vb, vs) =
    ap₂ (λ (c : ℕ) (cs : Bytes). c ∷ cs) (xor_twice b k ub vb)
      (xor_bytes_twice bs hs (omega arith) us vs)

again_table : all_below 256 (λ a. all_below 256 (λ b. bit_xor a (bit_xor a b) == b)) ≡ true
again_table = refl

xor_again : (a b : ℕ) → a < 256 → b < 256 → bit_xor a (bit_xor a b) ≡ b
xor_again a b la lb = (==_iff (bit_xor a (bit_xor a b)) b).0 (
    all_below_lem 256 (λ k. bit_xor a (bit_xor a k) == k) b
      (all_below_lem 256 (λ j. all_below 256 (λ k. bit_xor j (bit_xor j k) == k)) a again_table la)
      lb)

xor_bytes_again :
    (bs hs : Bytes)
    → length bs ≡ length hs
    → All IsByte bs
    → All IsByte hs
    → xor_bytes bs (xor_bytes bs hs) ≡ hs
unfolding xor_bytes
xor_bytes_again [] [] h u v = refl
xor_bytes_again [] (k ∷ hs) h u v = absurd (omega arith)
xor_bytes_again (b ∷ bs) [] h u v = absurd (omega arith)
xor_bytes_again (b ∷ bs) (k ∷ hs) h (ub, us) (vb, vs) =
    ap₂ (λ (c : ℕ) (cs : Bytes). c ∷ cs) (xor_again b k ub vb)
      (xor_bytes_again bs hs (omega arith) us vs)

-- Another digest gives other bytes.
pub xor_bytes_injective :
    (bs hs ks : Bytes)
    → length bs ≡ length hs
    → length bs ≡ length ks
    → All IsByte bs
    → All IsByte hs
    → All IsByte ks
    → xor_bytes bs hs ≡ xor_bytes bs ks
    → hs ≡ ks
xor_bytes_injective bs hs ks lh lk ub uh uk e =
    sym (xor_bytes_again bs hs lh ub uh) ∙ (ap (xor_bytes bs) e ∙ xor_bytes_again bs ks lk ub uk)
