-- ===== src/Encoding.antt =====
-- pyrad/encoding.py: the values of attributes and their bytes.
pub mod Abinary
pub mod Ipv4
pub mod RoundTrip
use pyrad.Common.{
  ℕ, zero, suc, ◌+◌, ◌-◌, ◌*◌, ◌^◌, Bool, true, false, not, ◌&&◌, ◌||◌, Option, none, some, List,
  [], ◌∷◌, ◌++◌, Bytes, Text, codes, length, take, drop, replicate, ltb, leb, ◌==◌, if◌then◌else◌,
}
use pyrad.Common.Int.{ℤ, pos, negsuc}
use pyrad.Common.Struct.{pack_uint, pack_int, unpack_uint, unpack_int}
use pyrad.Common.Utf8.{utf8_encode, utf8_decode}
use pyrad.Common.Strs.{parse_int, show_nat, split_on, starts_with}
use pyrad.Common.Result.{
  Result, ok, raise, ◌>>=◌, value_error, type_error, attribute_error, unicode_error, struct_error,
  or_raise,
}
use pyrad.Dictionary.Types.{Datatype}
use pyrad.Externals.{Externals}
use Abinary.{encode_ascend_binary}

-- the Python values that an attribute can have
pub data Value : Type 0 where
  int : ℤ → Value
  str : Text → Value
  bytes : Bytes → Value

encode_text : Text → Result Bytes
encode_text s = or_raise unicode_error (utf8_encode s)

-- the length is that of the text, in characters
unfoldable pub encode_string : Value → Result Bytes
unfolding encode_text
encode_string (int n) = raise type_error
encode_string (str s) = if ltb 253 (length s) then raise value_error else encode_text s
encode_string (bytes b) = if ltb 253 (length b) then raise value_error else ok b

hex_digit : ℕ → Option ℕ
hex_digit c =
    if leb b'0' c && leb c b'9'
    then some (c - b'0')
    else if leb b'a' c && leb c b'f'
    then some (c - 87)
    else if leb b'A' c && leb c b'F'
    then some (c - 55)
    else none

hex_byte : Option ℕ → Option ℕ → Result Bytes → Result Bytes
hex_byte (some hi) (some lo) rest = do bs ← rest; ok ((hi * 16 + lo) ∷ bs)
hex_byte _ _ rest = raise value_error

-- binascii.unhexlify; its Error is a ValueError
unfoldable pub unhexlify : Bytes → Result Bytes
unfolding hex_digit hex_byte
unhexlify [] = ok []
unhexlify (a ∷ []) = raise value_error
unhexlify (a ∷ b ∷ bs) = hex_byte (hex_digit a) (hex_digit b) (unhexlify bs)

-- the bytes before the next `0x`: `b.split(b'0x')[0]`
before_mark : Bytes → Bytes
before_mark [] = []
before_mark (c ∷ []) = c ∷ []
before_mark (c ∷ x ∷ bs) = if c == b'0' && x == b'x' then [] else c ∷ before_mark (x ∷ bs)

octets_of : Bytes → Result Bytes
unfolding unhexlify before_mark
octets_of (z ∷ x ∷ bs) =
    if z == b'0' && x == b'x' then unhexlify (before_mark bs) else ok (z ∷ x ∷ bs)
octets_of bs = ok bs

-- a str has no prefix that is bytes: `startswith` raises
unfoldable pub encode_octets : Value → Result Bytes
unfolding octets_of
encode_octets (int n) = raise type_error
encode_octets (str s) = if ltb 253 (length s) then raise value_error else raise type_error
encode_octets (bytes b) = if ltb 253 (length b) then raise value_error else octets_of b

all_digits : Text → Bool
all_digits [] = true
all_digits (c ∷ s) = leb b'0' c && leb c b'9' && all_digits s

-- An octet of `IPv4Address(text)`: up to three ASCII digits with no leading zero, at most 255.
octet : Text → Option ℕ
unfolding all_digits
octet [] = none
octet (c ∷ s) =
    if not (all_digits (c ∷ s)) || ltb 3 (length (c ∷ s)) || (c == b'0' && not (length s == 0))
    then none
    else elim (parse_int 10 (c ∷ s)) [
      | none ↦ none
      | some (pos n) ↦ if ltb 255 n then none else some n
      | some (negsuc n) ↦ none
    ]

four : Option ℕ → Option ℕ → Option ℕ → Option ℕ → Option Bytes
four (some a) (some b) (some c) (some d) = some (a ∷ b ∷ c ∷ d ∷ [])
four _ _ _ _ = none

octets : List Text → Option Bytes
octets (a ∷ b ∷ c ∷ d ∷ []) = four (octet a) (octet b) (octet c) (octet d)
octets _ = none

unfoldable pub encode_ipv4_address : Value → Result Bytes
unfolding octets octet four
encode_ipv4_address (str s) = or_raise value_error (octets (split_on b'.' s))
encode_ipv4_address _ = raise type_error

-- `int(num)` of a number, a text or ASCII bytes
unfoldable pub to_int : Value → Option ℤ
to_int (int n) = some n
to_int (str s) = parse_int 10 s
to_int (bytes b) = parse_int 10 b

-- The formats of `encode_integer` and `encode_integer_64`: unsigned and signed, with their sizes.
pub data Format : Type 0 where
  unsigned signed : ℕ → Format

unfoldable pub pack : Format → ℤ → Result Bytes
unfolding pack_uint pack_int
pack (unsigned w) n = pack_uint w n
pack (signed w) n = pack_int w n

unfoldable pub unpack : Format → Bytes → Result ℤ
unfolding unpack_uint unpack_int
unpack (unsigned w) b = unpack_uint w b
unpack (signed w) b = unpack_int w b

unfoldable pub encode_integer : Format → Value → Result Bytes
encode_integer format num = do n ← or_raise type_error (to_int num); pack format n

unfoldable pub encode_date : Value → Result Bytes
encode_date (int n) = pack (unsigned 4) n
encode_date _ = raise type_error

unfoldable pub decode_string : Bytes → Value
decode_string b = elim (utf8_decode b) [ none ↦ bytes b | some s ↦ str s ]

unfoldable pub decode_octets : Bytes → Value
decode_octets b = bytes b

-- `struct.unpack('BBBB', addr)`, joined by dots
unfoldable pub decode_ipv4_address : Bytes → Result Value
decode_ipv4_address (a ∷ b ∷ c ∷ d ∷ []) =
    ok (str (show_nat a ++ b'.' ∷ (show_nat b ++ b'.' ∷ (show_nat c ++ b'.' ∷ show_nat d))))
decode_ipv4_address _ = raise struct_error

unfoldable pub decode_integer : Format → Bytes → Result Value
decode_integer format num = do n ← unpack format num; ok (int n)

module _ (x : Externals) where
  unfoldable pub encode_ipv6_prefix : Value → Result Bytes
  encode_ipv6_prefix (str s) = do
    (prefixlen, packed) ← or_raise value_error (x.ipv6_network s)
    ok (0 ∷ prefixlen ∷ packed)
  encode_ipv6_prefix _ = raise type_error

  unfoldable pub encode_ipv6_address : Value → Result Bytes
  encode_ipv6_address (str s) = or_raise value_error (x.ipv6_packed s)
  encode_ipv6_address _ = raise type_error

  prefix_of : Bytes → Result Value
  prefix_of (reserved ∷ prefix ∷ addr) = do
    s ← or_raise value_error (x.ipv6_network_text addr prefix)
    ok (str s)
  prefix_of _ = raise struct_error

  -- padded with zeros to 18 bytes
  unfoldable pub decode_ipv6_prefix : Bytes → Result Value
  unfolding prefix_of
  decode_ipv6_prefix addr = prefix_of (addr ++ replicate (18 - length addr) 0)

  -- padded with zeros to 16 bytes; IPv6Address refuses more
  unfoldable pub decode_ipv6_address : Bytes → Result Value
  decode_ipv6_address addr =
      if ltb 16 (length addr)
      then raise value_error
      else ok (str (x.ipv6_text (addr ++ replicate (16 - length addr) 0)))

  abinary_of : Value → Result Bytes
  abinary_of (str s) = encode_ascend_binary x s
  abinary_of (int n) = raise attribute_error
  abinary_of (bytes b) = raise type_error

  -- ENCODE_MAP and `encode_attr`
  unfoldable pub encode_attr : Datatype → Value → Result Bytes
  unfolding abinary_of
  encode_attr Datatype.string v = encode_string v
  encode_attr Datatype.octets v = encode_octets v
  encode_attr Datatype.integer v = encode_integer (unsigned 4) v
  encode_attr Datatype.ipaddr v = encode_ipv4_address v
  encode_attr Datatype.ipv6prefix v = encode_ipv6_prefix v
  encode_attr Datatype.ipv6addr v = encode_ipv6_address v
  encode_attr Datatype.abinary v = abinary_of v
  encode_attr Datatype.signed v = encode_integer (signed 4) v
  encode_attr Datatype.short v = encode_integer (unsigned 2) v
  encode_attr Datatype.byte v = encode_integer (unsigned 1) v
  encode_attr Datatype.date v = encode_date v
  encode_attr Datatype.integer64 v = encode_integer (unsigned 8) v
  encode_attr Datatype.ifid v = raise value_error
  encode_attr Datatype.ether v = raise value_error
  encode_attr Datatype.tlv v = raise value_error

  -- DECODE_MAP and `decode_attr`
  unfoldable pub decode_attr : Datatype → Bytes → Result Value
  decode_attr Datatype.string b = ok (decode_string b)
  decode_attr Datatype.octets b = ok (decode_octets b)
  decode_attr Datatype.integer b = decode_integer (unsigned 4) b
  decode_attr Datatype.ipaddr b = decode_ipv4_address b
  decode_attr Datatype.ipv6prefix b = decode_ipv6_prefix b
  decode_attr Datatype.ipv6addr b = decode_ipv6_address b
  decode_attr Datatype.abinary b = ok (bytes b)
  decode_attr Datatype.signed b = decode_integer (signed 4) b
  decode_attr Datatype.short b = decode_integer (unsigned 2) b
  decode_attr Datatype.byte b = decode_integer (unsigned 1) b
  decode_attr Datatype.date b = decode_integer (unsigned 4) b
  decode_attr Datatype.integer64 b = decode_integer (unsigned 8) b
  decode_attr Datatype.ifid b = raise value_error
  decode_attr Datatype.ether b = raise value_error
  decode_attr Datatype.tlv b = raise value_error
