-- ===== src/Dictionary/Types.antt =====
-- The data of pyrad/dictionary.py. An `Attribute` is a mutable object that `attributes`, the
-- parser's `tlvs` and `parent` share, so objects stand in a heap and are named by their place.
use pyrad.Common.{ℕ, ◌≡◌, ◌↔◌, Bool, true, false, ◌&&◌, Option, List, arith}
use pyrad.Common.{Text, Bytes}
use pyrad.Common.Eq.{Eq, text_eq_instance}
use pyrad.Common.Int.{ℤ, int_eq, int_eq_iff}
use pyrad.Common.Dict.{Dict}
use pyrad.Bidict.{BiDict}

-- DATATYPES
pub data Datatype : Type 0 where
  string ipaddr integer date octets abinary ipv6addr ipv6prefix short byte : Datatype
  signed ifid ether tlv integer64 : Datatype

-- A Python value that identifies an attribute: its code, or a tuple: (vendor, code),
-- (parent, code) or (vendor, parent, code).
pub data Key : Type 0 where
  code : ℤ → Key
  pair : ℤ → ℤ → Key
  triple : ℤ → ℤ → ℤ → Key

abbrev pub key_eq : Key → Key → Bool
key_eq (code a) (code b) = int_eq a b
key_eq (pair a c) (pair b d) = int_eq a b && int_eq c d
key_eq (triple a c x) (triple b d y) = int_eq a b && int_eq c d && int_eq x y
key_eq _ _ = false

pub key_eq_iff : (a b : Key) → (key_eq a b ≡ true) ↔ (a ≡ b)
key_eq_iff (code a) (code b) = ground (arith, int_eq_iff a b)
key_eq_iff (pair a c) (pair b d) = ground (arith, int_eq_iff a b, int_eq_iff c d)
key_eq_iff (triple a c x) (triple b d y) =
    ground (arith, int_eq_iff a b, int_eq_iff c d, int_eq_iff x y)
key_eq_iff a b = ground arith

instance abbrev pub key_eq_instance : Eq Key
key_eq_instance = record { beq = key_eq; beq_iff = key_eq_iff }

pub record Attribute : Type 0 where
  pub name : Text
  pub code : ℤ
  pub type : Datatype
  pub vendor : Text
  pub encrypt : ℕ
  pub has_tag : Bool
  -- value name ↔ encoded value
  pub values : BiDict Text Bytes
  pub sub_attributes : Dict ℤ Text
  -- the place of the parent object
  pub parent : Option ℕ
  pub is_sub_attribute : Bool

pub record Dictionary : Type 0 where
  pub vendors : BiDict Text ℤ
  pub attrindex : BiDict Text Key
  pub attributes : Dict Text ℕ
  pub heap : List Attribute
