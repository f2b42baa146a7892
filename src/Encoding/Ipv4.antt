-- ===== src/Encoding/Ipv4.antt =====
-- IPv4 addresses of pyrad/encoding.py: their texts and their bytes.
use pyrad.Common.{
  ℕ, zero, suc, ◌<◌, ◌≡◌, refl, ap, Bool, true, false, not, ◌&&◌, Option, none, some, [], ◌∷◌, ◌++◌,
  Text, ◌==◌, ==_iff, &&_split, arith,
}
use pyrad.Common.Strs.{split_on, show_nat, parse_int}
use pyrad.Common.Result.{ok}
use pyrad.Encoding.{Value, octet, octets, four, encode_ipv4_address, decode_ipv4_address}

-- whether no character is the separator
lacks : ℕ → Text → Bool
lacks sep [] = true
lacks sep (c ∷ s) = not (c == sep) && lacks sep s

split_on-lacks : (sep : ℕ) (s : Text) → lacks sep s ≡ true → split_on sep s ≡ s ∷ []
unfolding split_on lacks
split_on-lacks sep [] h = refl
split_on-lacks sep (c ∷ s) h =
    let (differs, rest) = &&_split (not (c == sep)) (lacks sep s) h in
    ground (arith, split_on-lacks sep s rest)

split_on-append :
    (sep : ℕ) (s t : Text) → lacks sep s ≡ true → split_on sep (s ++ sep ∷ t) ≡ s ∷ split_on sep t
unfolding split_on lacks
split_on-append sep [] t h = rw ((==_iff sep sep).1 refl)
split_on-append sep (c ∷ s) t h =
    let (differs, rest) = &&_split (not (c == sep)) (lacks sep s) h in
    ground (arith, split_on-append sep s t rest)

is_octet : ℕ → Option ℕ → Bool
is_octet n none = false
is_octet n (some m) = m == n

all_below : ℕ → (ℕ → Bool) → Bool
all_below zero p = true
all_below (suc n) p = p n && all_below n p

all_below_lem : (n : ℕ) (p : ℕ → Bool) (a : ℕ) → all_below n p ≡ true → a < n → p a ≡ true
unfolding all_below
all_below_lem zero p a h small = absurd (omega arith)
all_below_lem (suc n) p a h small = ground (arith, all_below_lem n p a)

-- the text of a byte has no dot and reads as the byte
reads_back : ℕ → Bool
reads_back n = lacks b'.' (show_nat n) && is_octet n (octet (show_nat n))

reads_back_table : all_below 256 reads_back ≡ true
unfolding all_below reads_back lacks is_octet show_nat octet parse_int
reads_back_table = refl

show_nat-lacks : (n : ℕ) → n < 256 → lacks b'.' (show_nat n) ≡ true
unfolding reads_back
show_nat-lacks n small =
    (&&_split (lacks b'.' (show_nat n)) _ (all_below_lem 256 reads_back n reads_back_table small)).0

is_octet_lem : (n : ℕ) (o : Option ℕ) → is_octet n o ≡ true → o ≡ some n
unfolding is_octet
is_octet_lem n none h = cc h
is_octet_lem n (some m) h = ap some ((==_iff m n).0 h)

octet-show_nat : (n : ℕ) → n < 256 → octet (show_nat n) ≡ some n
unfolding reads_back
octet-show_nat n small = is_octet_lem n (octet (show_nat n)) (
    (&&_split (lacks b'.' (show_nat n)) _
      (all_below_lem 256 reads_back n reads_back_table small)).1)

-- Every four bytes decode to a text that encodes to the same bytes: `encode_ipv4_address` inverts
-- `decode_ipv4_address`.
pub encode_ipv4_address-decode_ipv4_address :
    (a b c d : ℕ)
    → a < 256
    → b < 256
    → c < 256
    → d < 256
    → (v : Value) × (decode_ipv4_address (a ∷ b ∷ c ∷ d ∷ []) ≡ ok v)
      × (encode_ipv4_address v ≡ ok (a ∷ b ∷ c ∷ d ∷ []))
unfolding decode_ipv4_address encode_ipv4_address octets four
encode_ipv4_address-decode_ipv4_address a b c d ha hb hc hd = (
  _,
  refl,
  rw
      (
        split_on-append b'.' (show_nat a) _ (show_nat-lacks a ha),
        split_on-append b'.' (show_nat b) _ (show_nat-lacks b hb),
        split_on-append b'.' (show_nat c) _ (show_nat-lacks c hc),
        split_on-lacks b'.' (show_nat d) (show_nat-lacks d hd),
        octet-show_nat a ha,
        octet-show_nat b hb,
        octet-show_nat c hc,
        octet-show_nat d hd,
      )
      refl,
)
