-- ===== src/Tests/Tlv.antt =====
-- A tlv of a vendor, with two values of one sub-attribute and one of another.
use pyrad.Common.{◌≡◌, refl, false, none, List, [], ◌∷◌, Bytes, codes}
use pyrad.Common.Dict.{Dict, lookup}
use pyrad.Common.Eq.{text_eq_instance, int_eq_instance}
use pyrad.Common.Int.{ℤ, pos}
use pyrad.Common.Result.{ok}
use pyrad.Common.Struct.{pack_uint, be}
use pyrad.Bidict.{empty}
use pyrad.Dictionary.{attribute_for, find_attribute}
use pyrad.Dictionary.Types.{Dictionary, Attribute, Datatype, pair, key_eq_instance}
use pyrad.Packet.State.{subs, Packet, Kind}
use pyrad.Packet.Names.{key_of}
use pyrad.Packet.Encode.{encode_avp, encode_slot, pkt_encode_tlv}
use pyrad.Packet.Decode.Tlv.Item.{IsTlvItem}
use pyrad.Tests.Data

abbrev tlv_attribute : Attribute
tlv_attribute = record {
  name = codes "T";
  code = pos 7;
  type = Datatype.tlv;
  vendor = codes "V";
  encrypt = 0;
  has_tag = false;
  values = empty;
  sub_attributes = [];
  parent = none;
  is_sub_attribute = false;
}

abbrev dictionary : Dictionary
dictionary = record {
  vendors = record { forward = (codes "V", pos 9) ∷ []; backward = (pos 9, codes "V") ∷ [] };
  attrindex = record {
    forward = (codes "T", pair (pos 9) (pos 7)) ∷ [];
    backward = (pair (pos 9) (pos 7), codes "T") ∷ [];
  };
  attributes = (codes "T", 0) ∷ [];
  heap = tlv_attribute ∷ [];
}

abbrev sub_attributes : Dict ℤ (List Bytes)
sub_attributes = (pos 1, codes "a" ∷ codes "bc" ∷ []) ∷ (pos 2, codes "d" ∷ []) ∷ []

abbrev fresh : Packet
fresh = record (Data.packet_with Kind.auth 1 none []) { dict = dictionary }

is_tlv_item : IsTlvItem dictionary (pair (pos 9) (pos 7)) sub_attributes
unfolding attribute_for find_attribute lookup key_of
is_tlv_item = record {
  attribute = tlv_attribute;
  found = refl;
  own = refl;
  tlv = refl;
  distinct = (refl, (refl, tt));
  full = tt;
  some_sub = λ h. cc h;
}

abbrev written : Bytes
written = 26 ∷ 18 ∷ 0 ∷ 0 ∷ 0 ∷ 9 ∷ 7 ∷ 12 ∷ 1 ∷ 3 ∷ 97 ∷ 2 ∷ 3 ∷ 100 ∷ 1 ∷ 4 ∷ 98 ∷ 99 ∷ []

tlv_written : encode_slot dictionary (pair (pos 9) (pos 7)) (subs sub_attributes) ≡ ok written
unfolding encode_slot pkt_encode_tlv attribute_for find_attribute lookup encode_avp pack_uint be
tlv_written = refl
