-- ===== src/Encoding/RoundTrip.antt =====
-- What `encode_attr` of pyrad/encoding.py writes, `decode_attr` reads.
use pyrad.Common.{
  ℕ, ◌-◌, ◌^◌, ◌≡◌, refl, ap, Bool, true, false, some, Bytes, Text, length, ltb, Bool-cases, inl,
  inr, arith,
}
use pyrad.Common.Int.{ℤ, pos, negsuc}
use pyrad.Common.Struct.{unbe-be, length-be, pack_int, unpack_int, unpack_uint-pack_uint}
use pyrad.Common.Utf8.{utf8_encode, utf8_decode-utf8_encode}
use pyrad.Common.Result.{ok, unicode_error, or_raise, or_raise-eq-ok}
use pyrad.Dictionary.Types.{Datatype}
use pyrad.Externals.{Externals}
use pyrad.Encoding.{
  Value, int, str, bytes, Format, unsigned, signed, pack, unpack, to_int, encode_integer,
  decode_integer, encode_date, encode_string, decode_string, encode_text, encode_attr, decode_attr,
}

unpack_int-pack_int : (w : ℕ) (z : ℤ) (b : Bytes) → pack_int w z ≡ ok b → unpack_int w b ≡ ok z
unfolding pack_int unpack_int
unpack_int-pack_int w (pos n) b h = ground (arith, length-be w n, unbe-be w n)
unpack_int-pack_int w (negsuc n) b h =
    ground (arith, length-be w (256 ^ w - 1 - n), unbe-be w (256 ^ w - 1 - n))

unpack-pack : (f : Format) (z : ℤ) (b : Bytes) → pack f z ≡ ok b → unpack f b ≡ ok z
unfolding pack unpack
unpack-pack (unsigned w) z b h = unpack_uint-pack_uint w z b h
unpack-pack (signed w) z b h = unpack_int-pack_int w z b h

decode_integer-encode_integer :
    (f : Format) (v : Value) (n : ℤ) (b : Bytes)
    → to_int v ≡ some n
    → encode_integer f v ≡ ok b
    → decode_integer f b ≡ ok (int n)
unfolding encode_integer decode_integer
decode_integer-encode_integer f v n b hv h =
    let packed : pack f n ≡ ok b = rw hv at h in rw (unpack-pack f n b packed) refl

decode_integer-encode_date :
    (v : Value) (n : ℤ) (b : Bytes)
    → to_int v ≡ some n
    → encode_date v ≡ ok b
    → decode_integer (unsigned 4) b ≡ ok (int n)
unfolding encode_date decode_integer to_int
decode_integer-encode_date (int z) n b hv h =
    rw (unpack-pack (unsigned 4) z b h) (ap ok (ap int (cc hv)))
decode_integer-encode_date (str s) n b hv h = cc h
decode_integer-encode_date (bytes s) n b hv h = cc h

decode_string-utf8_encode :
    (s : Text) (b : Bytes) → utf8_encode s ≡ some b → decode_string b ≡ str s
unfolding decode_string
decode_string-utf8_encode s b e = ground (arith, utf8_decode-utf8_encode s b e)

-- the data types of numbers
abbrev pub is_numeric : Datatype → Bool
is_numeric Datatype.integer = true
is_numeric Datatype.signed = true
is_numeric Datatype.short = true
is_numeric Datatype.byte = true
is_numeric Datatype.date = true
is_numeric Datatype.integer64 = true
is_numeric _ = false

module _ (x : Externals) where
  -- A number comes back from every data type of numbers that can hold it: if `encode_attr` of an
  -- integer, or of the text of one, returns, then `decode_attr` of the bytes gives the integer.
  pub decode_attr-encode_attr :
      (t : Datatype) (v : Value) (n : ℤ) (b : Bytes)
      → is_numeric t ≡ true
      → to_int v ≡ some n
      → encode_attr x t v ≡ ok b
      → decode_attr x t b ≡ ok (int n)
  unfolding encode_attr decode_attr
  decode_attr-encode_attr Datatype.integer v n b k hv h =
      decode_integer-encode_integer (unsigned 4) v n b hv h
  decode_attr-encode_attr Datatype.signed v n b k hv h =
      decode_integer-encode_integer (signed 4) v n b hv h
  decode_attr-encode_attr Datatype.short v n b k hv h =
      decode_integer-encode_integer (unsigned 2) v n b hv h
  decode_attr-encode_attr Datatype.byte v n b k hv h =
      decode_integer-encode_integer (unsigned 1) v n b hv h
  decode_attr-encode_attr Datatype.integer64 v n b k hv h =
      decode_integer-encode_integer (unsigned 8) v n b hv h
  decode_attr-encode_attr Datatype.date v n b k hv h = decode_integer-encode_date v n b hv h
  decode_attr-encode_attr Datatype.string v n b k hv h = absurd (cc k)
  decode_attr-encode_attr Datatype.octets v n b k hv h = absurd (cc k)
  decode_attr-encode_attr Datatype.ipaddr v n b k hv h = absurd (cc k)
  decode_attr-encode_attr Datatype.ipv6addr v n b k hv h = absurd (cc k)
  decode_attr-encode_attr Datatype.ipv6prefix v n b k hv h = absurd (cc k)
  decode_attr-encode_attr Datatype.abinary v n b k hv h = absurd (cc k)
  decode_attr-encode_attr Datatype.ifid v n b k hv h = absurd (cc k)
  decode_attr-encode_attr Datatype.ether v n b k hv h = absurd (cc k)
  decode_attr-encode_attr Datatype.tlv v n b k hv h = absurd (cc k)

  -- A text comes back: if `encode_attr` of it as a string returns, `decode_attr` of the bytes gives it.
  pub decode_attr-encode_string :
      (s : Text) (b : Bytes)
      → encode_attr x Datatype.string (str s) ≡ ok b
      → decode_attr x Datatype.string b ≡ ok (str s)
  unfolding encode_attr decode_attr encode_string encode_text
  decode_attr-encode_string s b h = elim (Bool-cases (ltb 253 (length s))) [
    | inl long ↦ absurd (ground arith)
    | inr short ↦
        let encoded : or_raise unicode_error (utf8_encode s) ≡ ok b = rw short at h in
        let e : utf8_encode s ≡ some b = or_raise-eq-ok unicode_error (utf8_encode s) b encoded in
        ap ok (decode_string-utf8_encode s b e)
  ]
