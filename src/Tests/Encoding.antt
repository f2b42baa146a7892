-- ===== src/Tests/Encoding.antt =====
-- A signed number and a text.
use pyrad.Common.{◌≡◌, refl, some, [], ◌∷◌, codes}
use pyrad.Common.Int.{negsuc}
use pyrad.Common.Struct.{be}
use pyrad.Common.Utf8.{utf8_encode, encode_char}
use pyrad.Common.Result.{ok}
use pyrad.Dictionary.Types.{Datatype}
use pyrad.Externals.{constant_digests}
use pyrad.Encoding.{int, str, to_int, pack, encode_integer, encode_string, encode_attr, decode_attr}
use pyrad.Encoding.RoundTrip.{decode_attr-encode_attr}

minus_five :
    encode_attr constant_digests Datatype.signed (int (negsuc 4)) ≡ ok (255 ∷ 255 ∷ 255 ∷ 251 ∷ [])
unfolding encode_attr encode_integer to_int pack be
minus_five = refl

is_number : to_int (int (negsuc 4)) ≡ some (negsuc 4)
unfolding to_int
is_number = refl

decode_attr-encode_attr_example :
    decode_attr constant_digests Datatype.signed (255 ∷ 255 ∷ 255 ∷ 251 ∷ []) ≡ ok (int (negsuc 4))
decode_attr-encode_attr_example =
    decode_attr-encode_attr constant_digests Datatype.signed (int (negsuc 4)) (negsuc 4)
      (255 ∷ 255 ∷ 255 ∷ 251 ∷ []) refl is_number minus_five

alice : encode_attr constant_digests Datatype.string (str (codes "alice")) ≡ ok (codes "alice")
unfolding encode_attr encode_string utf8_encode encode_char
alice = refl
