-- ===== src/Dictionary.antt =====
-- pyrad/dictionary.py: the attribute dictionary. Its data are in Types; what a packet asks of it
-- is here.
pub mod Types
pub mod Tokens
pub mod Parse
pub mod Read
pub mod Consistency
use pyrad.Common.{
  ℕ, ◌≡◌, Bool, true, false, Option, none, some, List, [], ◌∷◌, Text, Bytes, get_elem?,
}
use pyrad.Common.Eq.{text_eq_instance}
use pyrad.Common.Int.{ℤ}
use pyrad.Common.Result.{Result, ok, raise, key_error, or_raise, ◌>>=◌}
use pyrad.Common.Dict.{Dict, lookup}
use pyrad.Bidict.{BiDict}
use Types.{Datatype, Key, Attribute, Dictionary, key_eq_instance}
use Types.{tlv}

-- the object that a name in `attributes` refers to
unfoldable pub find_attribute : Dictionary → Text → Option Attribute
find_attribute d name = elim (lookup name d.attributes) [
  | none ↦ none
  | some r ↦ get_elem? d.heap r
]

-- `self.dict.attributes[name]`
unfoldable pub attribute : Dictionary → Text → Result Attribute
attribute d name = or_raise key_error (find_attribute d name)

-- `self.dict.attributes.get(self._decode_key(key))`: the keys of `attributes` are names, so a key
-- that `_decode_key` returns undecoded finds nothing.
unfoldable pub attribute_for : Dictionary → Key → Option Attribute
attribute_for d key = elim (lookup key d.attrindex.backward) [
  | none ↦ none
  | some name ↦ find_attribute d name
]

abbrev pub is_tlv_type : Datatype → Bool
is_tlv_type tlv = true
is_tlv_type _ = false

abbrev is_tlv_attribute : Option Attribute → Bool
is_tlv_attribute none = false
is_tlv_attribute (some a) = is_tlv_type a.type

-- `attribute and attribute.type == 'tlv'`
abbrev pub is_tlv_key : Dictionary → Key → Bool
is_tlv_key d key = is_tlv_attribute (attribute_for d key)
