-- ===== src/Packet/Access/RoundTrip.antt =====
-- Numbers that are written by name, in pyrad/packet.py, are read back.
use pyrad.Common.{ℕ, ◌≡◌, refl, true, false, some, [], ◌∷◌, Bytes, Text, ◌==◌}
use pyrad.Common.Eq.{int_eq_instance, text_eq_instance}
use pyrad.Common.Int.{ℤ}
use pyrad.Common.Strs.{before}
use pyrad.Common.Result.{ok}
use pyrad.Common.Dict.{lookup, insert}
use pyrad.Bidict
use pyrad.Externals.{Externals}
use pyrad.Dictionary.{attribute, is_tlv_type}
use pyrad.Dictionary.Types.{Datatype, Key, Attribute, key_eq_instance}
use pyrad.Encoding.{int, to_int, encode_attr}
use pyrad.Encoding.RoundTrip.{is_numeric, decode_attr-encode_attr}
use pyrad.Packet.State.{values, Packet}
use pyrad.Packet.Names.{encode_key, list, get_item, decode_value}
use pyrad.Packet.Access.{set_item, encode_key_values}

-- An attribute of numbers: its values have no names, no tag and no encryption.
pub record IsNumber (a : Attribute) : Type 0 where
  pub numeric : is_numeric a.type ≡ true
  pub unnamed : a.values ≡ Bidict.empty
  pub untagged : a.has_tag ≡ false
  pub plain : (a.encrypt == 2) ≡ false

numeric_not_tlv : (t : Datatype) → is_numeric t ≡ true → is_tlv_type t ≡ false
numeric_not_tlv Datatype.tlv h = cc h
numeric_not_tlv _ h = refl

module _ (x : Externals) (draw : ℕ → ℕ) where
  pub set_item_number :
      (name : Text) (a : Attribute) (key : Key) (n : ℤ) (b : Bytes) (p : Packet)
      → before b':' name ≡ name
      → attribute p.dict name ≡ ok a
      → encode_key p.dict name ≡ ok key
      → IsNumber a
      → encode_attr x a.type (int n) ≡ ok b
      → set_item x draw name (int n ∷ []) p
        ≡ (ok tt, record p { attrs = insert key (values (b ∷ [])) p.attrs })
  unfolding set_item encode_key_values
  set_item_number name a key n b p whole known keyed number encoded =
      rw (whole, known, keyed, number.untagged, encoded, number.plain) refl

  pub get_item_number :
      (name : Text) (a : Attribute) (key : Key) (n : ℤ) (b : Bytes) (p : Packet)
      → attribute p.dict name ≡ ok a
      → encode_key p.dict name ≡ ok key
      → IsNumber a
      → encode_attr x a.type (int n) ≡ ok b
      → lookup key p.attrs ≡ some (values (b ∷ []))
      → get_item x p name ≡ ok (list (int n ∷ []))
  unfolding get_item decode_value lookup to_int
  get_item_number name a key n b p known keyed number encoded found =
      rw
        (
          keyed,
          found,
          known,
          numeric_not_tlv a.type number.numeric,
          number.unnamed,
          decode_attr-encode_attr x a.type (int n) n b number.numeric refl encoded,
        )
        refl
