-- ===== src/Packet/Names.antt =====
-- Names of attributes and the dictionary, in pyrad/packet.py: `_encode_key`, `_decode_key`,
-- `_decode_value` and what `__getitem__` makes of the stored values.
use pyrad.Common.{Bool, false, Option, none, some, List, [], ◌∷◌, ◌++◌, Bytes, Text, if◌then◌else◌}
use pyrad.Common.Eq.{int_eq_instance, text_eq_instance}
use pyrad.Common.Int.{ℤ}
use pyrad.Common.Result.{
  Result, ok, raise, stuck, key_error, value_error, type_error, attribute_error, or_raise, ◌>>=◌,
}
use pyrad.Common.Dict.{Dict, lookup, insert, is_some}
use pyrad.Bidict.{get_forward}
use pyrad.Dictionary.{attribute, is_tlv_type}
use pyrad.Dictionary.Types.{Dictionary, Attribute, Datatype, Key, code, pair, key_eq_instance}
use pyrad.Externals.{Externals}
use pyrad.Encoding.{Value, int, str, decode_attr}
use pyrad.Packet.State.{Slot, values, subs, Packet}

-- `if attr.vendor and not attr.is_sub_attribute`
unfoldable pub key_of : Dictionary → Attribute → Text → Result Key
key_of d a [] = ok (code a.code)
key_of d a (c ∷ vendor) = do v ← get_forward d.vendors (c ∷ vendor); ok (pair v a.code)

-- `_encode_key` of a name
unfoldable pub encode_key : Dictionary → Text → Result Key
unfolding key_of
encode_key d name = do
  a ← attribute d name
  if a.is_sub_attribute then ok (code a.code) else key_of d a a.vendor

-- A key as the caller sees it: a name, or the raw key.
pub data Name : Type 0 where
  named : Text → Name
  raw : Key → Name

-- `_decode_key`
unfoldable pub decode_key : Dictionary → Key → Name
decode_key d key = elim (lookup key d.attrindex.backward) [
  | none ↦ raw key
  | some name ↦ named name
]

-- `keys()`
unfoldable pub keys_of : Dictionary → Dict Key Slot → List Name
unfolding decode_key
keys_of d [] = []
keys_of d ((key, slot) ∷ items) = decode_key d key ∷ keys_of d items

-- `__contains__` of a name
unfoldable pub contains_name : Packet → Text → Bool
contains_name p name = elim (encode_key p.dict name) [
  | ok key ↦ is_some (lookup key p.attrs)
  | _ ↦ false
]

-- what `__getitem__` returns: the list of values, or for a tlv those of each sub-attribute
pub data Item : Type 0 where
  list : List Value → Item
  nested : Dict Text (List Value) → Item

-- The keys of a dict that is read as a list of values, under another type than tlv: integers.
decode_int_key : Datatype → ℤ → Result Value
decode_int_key Datatype.string n = ok (int n)
decode_int_key Datatype.octets n = ok (int n)
decode_int_key Datatype.abinary n = ok (int n)
decode_int_key Datatype.ifid n = raise value_error
decode_int_key Datatype.ether n = raise value_error
decode_int_key Datatype.tlv n = raise value_error
decode_int_key _ n = raise type_error

decode_int_keys : Datatype → Dict ℤ (List Bytes) → Result (List Value)
unfolding decode_int_key
decode_int_keys t [] = ok []
decode_int_keys t ((n, vs) ∷ d) = do
  v ← decode_int_key t n
  rest ← decode_int_keys t d
  ok (v ∷ rest)

or_nil : Option (List Value) → List Value
or_nil none = []
or_nil (some vs) = vs

-- What a key stands for: the values of a name, or under a raw key what is stored.
pub data Found : Type 0 where
  item : Item → Found
  stored : Slot → Found

module _ (x : Externals) where
  unfoldable pub decode_value : Attribute → Bytes → Result Value
  decode_value a v = elim (lookup v a.values.backward) [
    | some name ↦ ok (str name)
    | none ↦ decode_attr x a.type v
  ]

  decode_values : Attribute → List Bytes → Result (List Value)
  unfolding decode_value
  decode_values a [] = ok []
  decode_values a (v ∷ vs) = do w ← decode_value a v; ws ← decode_values a vs; ok (w ∷ ws)

  -- `res.setdefault(sub_attr_name, []).append(...)` for each value of one sub-attribute; with no
  -- value the name gets no entry
  add_named : Text → List Value → Dict Text (List Value) → Dict Text (List Value)
  unfolding or_nil
  add_named name [] res = res
  add_named name (v ∷ vs) res = insert name (or_nil (lookup name res) ++ v ∷ vs) res

  decode_subs :
      Dictionary
      → Attribute
      → Dict ℤ (List Bytes)
      → Dict Text (List Value)
      → Result (Dict Text (List Value))
  unfolding decode_values add_named
  decode_subs d a [] res = ok res
  decode_subs d a ((c, vs) ∷ rest) res = do
    name ← or_raise key_error (lookup c a.sub_attributes)
    sub ← attribute d name
    ws ← decode_values sub vs
    decode_subs d a rest (add_named name ws res)

  read_slot : Dictionary → Attribute → Slot → Result Item
  unfolding decode_int_keys decode_subs
  read_slot d a (values vs) =
      if is_tlv_type a.type
      then raise attribute_error
      else (do ws ← decode_values a vs; ok (list ws))
  read_slot d a (subs s) =
      if is_tlv_type a.type
      then (do m ← decode_subs d a s []; ok (nested m))
      else (do ws ← decode_int_keys a.type s; ok (list ws))

  -- `__getitem__` of a name
  unfoldable pub get_item : Packet → Text → Result Item
  unfolding read_slot
  get_item p name = do
    key ← encode_key p.dict name
    slot ← or_raise key_error (lookup key p.attrs)
    a ← attribute p.dict name
    read_slot p.dict a slot

  found_item : Result Item → Result Found
  found_item (ok i) = ok (item i)
  found_item (raise e) = raise e
  found_item stuck = stuck

  -- `__getitem__` of any key
  unfoldable pub get_found : Packet → Name → Result Found
  unfolding found_item
  get_found p (named name) = found_item (get_item p name)
  get_found p (raw key) = elim (lookup key p.attrs) [
    | some slot ↦ ok (stored slot)
    | none ↦ raise key_error
  ]

  -- `except KeyError`
  or_default : Result Found → Result (Option Found)
  or_default (ok f) = ok (some f)
  or_default (raise key_error) = ok none
  or_default (raise e) = raise e
  or_default stuck = stuck

  -- `get`: none is `failobj`
  unfoldable pub get : Packet → Name → Result (Option Found)
  unfolding or_default
  get p key = or_default (get_found p key)
