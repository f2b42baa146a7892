-- ===== src/Packet/Access.antt =====
-- Writing attributes by name, in pyrad/packet.py: `_encode_value`, `_encode_key_values`,
-- `__setitem__`, `__delitem__` and `add_attribute`. Salt encryption can set the authenticator, so
-- these are actions on the packet. `draw` gives the random numbers of the salts in turn.
pub mod RoundTrip
pub mod Keeping
use pyrad.Common.{
  ℕ, ◌+◌, Bool, true, false, Option, none, some, List, [], ◌∷◌, ◌++◌, Bytes, Text, drop, get_elem?,
  ◌==◌, if◌then◌else◌,
}
use pyrad.Common.Eq.{int_eq_instance, text_eq_instance}
use pyrad.Common.Int.{ℤ}
use pyrad.Common.Struct.{pack_uint}
use pyrad.Common.Strs.{before, after, parse_int}
use pyrad.Common.Result.{Result, ok, raise, key_error, value_error, attribute_error}
use pyrad.Common.Exec.{Exec, pure, lift, ◌>>=◌}
use pyrad.Common.Dict.{Dict, lookup, insert, remove, contains}
use pyrad.Dictionary.{attribute}
use pyrad.Dictionary.Types.{Dictionary, Attribute, Datatype, Key, key_eq_instance}
use pyrad.Externals.{Externals}
use pyrad.Encoding.{Value, str, bytes, encode_attr}
use pyrad.Packet.State.{Slot, values, subs, Packet}
use pyrad.Packet.Crypt.{salt_crypt}
use pyrad.Packet.Names.{encode_key}

is_integer_type : Datatype → Bool
is_integer_type Datatype.integer = true
is_integer_type _ = false

-- the names of values are texts
named_value : Attribute → Value → Option Bytes
named_value a (str s) = lookup s a.values.forward
named_value a _ = none

-- the text behind the first colon, `0` if there is none
tag_text : Text → Text
tag_text [] = b'0' ∷ []
tag_text (c ∷ tag) = c ∷ tag

tag_number : Option ℤ → Result Bytes
tag_number none = raise value_error
tag_number (some n) = pack_uint 1 n

-- the tag of an attribute that has one, as its byte
tag_bytes : Bool → Text → Result Bytes
unfolding tag_text tag_number
tag_bytes false tag = ok []
tag_bytes true tag = tag_number (parse_int 10 (tag_text tag))

-- `tag + encoded[1:]` for an integer, `tag + encoded` for another type, `encoded` without a tag
tagged : Attribute → Bytes → Bytes → Bytes
unfolding is_integer_type
tagged a tag encoded =
    if a.has_tag
    then tag ++ (if is_integer_type a.type then drop 1 encoded else encoded)
    else encoded

extend_slot : Option Slot → Key → List Bytes → Exec Packet (Unit {0})
extend_slot none key vs p = (ok tt, record p { attrs = insert key (values vs) p.attrs })
extend_slot (some (values ws)) key vs p =
    (ok tt, record p { attrs = insert key (values (ws ++ vs)) p.attrs })
extend_slot (some (subs d)) key vs p = (raise attribute_error, p)

-- the code under which a sub-attribute stands in its parent's dict
extend_sub : ℤ → List Bytes → Option (List Bytes) → Dict ℤ (List Bytes) → Dict ℤ (List Bytes)
extend_sub c vs none d = insert c vs d
extend_sub c vs (some ws) d = insert c (ws ++ vs) d

extend_parent : Option Slot → Key → ℤ → List Bytes → Exec Packet (Unit {0})
unfolding extend_sub
extend_parent none parent c vs p =
    (ok tt, record p { attrs = insert parent (subs (extend_sub c vs none [])) p.attrs })
extend_parent (some (values ws)) parent c vs p = (raise attribute_error, p)
extend_parent (some (subs d)) parent c vs p =
    (ok tt, record p { attrs = insert parent (subs (extend_sub c vs (lookup c d) d)) p.attrs })

-- `attr.parent.name`
parent_name : Dictionary → Attribute → Result Text
parent_name d a = elim a.parent [
  | none ↦ raise attribute_error
  | some r ↦ elim (get_elem? d.heap r) [ none ↦ raise attribute_error | some o ↦ ok o.name ]
]

module _ (x : Externals) (draw : ℕ → ℕ) where
  plain_value : Attribute → Value → Result Bytes
  unfolding named_value
  plain_value a v = elim (named_value a v) [ some b ↦ ok b | none ↦ encode_attr x a.type v ]

  -- `_encode_value` of value number `i`
  encode_value : ℕ → Attribute → Value → Exec Packet Bytes
  unfolding plain_value
  encode_value i a v = do
    b ← lift (plain_value a v)
    if a.encrypt == 2 then salt_crypt x (draw i) (bytes b) else pure b

  encode_each : ℕ → Attribute → Bytes → List Value → Exec Packet (List Bytes)
  unfolding encode_value tagged
  encode_each i a tag [] = pure []
  encode_each i a tag (v ∷ vs) = do
    b ← encode_value i a v
    rest ← encode_each (i + 1) a tag vs
    pure (tagged a tag b ∷ rest)

  -- `_encode_key_values` of a name, which may carry a tag behind a colon
  unfoldable pub encode_key_values : Text → List Value → Exec Packet (Key × List Bytes)
  unfolding encode_each tag_bytes
  encode_key_values name vs p =
      (do
        a ← lift (attribute p.dict (before b':' name))
        key ← lift (encode_key p.dict (before b':' name))
        tag ← lift (tag_bytes a.has_tag (after b':' name))
        bs ← encode_each 0 a tag vs
        pure (key, bs))
        p

  -- `self[name] = vs`; a single value stands for the list of it
  unfoldable pub set_item : Text → List Value → Exec Packet (Unit {0})
  set_item name vs = do
    (key, bs) ← encode_key_values name vs
    λ p. (ok tt, record p { attrs = insert key (values bs) p.attrs })

  extend : Attribute → Key → List Bytes → Exec Packet (Unit {0})
  unfolding extend_slot extend_parent parent_name
  extend a key vs p =
      if a.is_sub_attribute
      then (do
        name ← lift (parent_name p.dict a)
        parent ← lift (encode_key p.dict name)
        λ q. extend_parent (lookup parent q.attrs) parent a.code vs q)
          p
      else extend_slot (lookup key p.attrs) key vs p

  -- `add_attribute`
  unfoldable pub add_attribute : Text → List Value → Exec Packet (Unit {0})
  unfolding extend
  add_attribute name vs p =
      (do
        a ← lift (attribute p.dict (before b':' name))
        (key, bs) ← encode_key_values name vs
        extend a key bs)
        p

-- `self[key] = slot` for a raw key
unfoldable pub set_raw : Key → Slot → Packet → Packet
set_raw key slot p = record p { attrs = insert key slot p.attrs }

-- `del self[name]`
unfoldable pub del_item : Text → Exec Packet (Unit {0})
del_item name p =
    (do
      key ← lift (encode_key p.dict name)
      λ q.
          if contains key q.attrs
          then (ok tt, record q { attrs = remove key q.attrs })
          else (raise key_error, q))
      p
