-- ===== src/Packet/Encode.antt =====
-- The wire form of the attributes: `_pkt_encode_attribute`, `_pkt_encode_tlv`,
-- `_pkt_encode_attributes` and `_encode_header` of pyrad/packet.py.
pub mod Tlv
use pyrad.Common.{
  ℕ, zero, suc, ◌+◌, none, some, List, [], ◌∷◌, ◌++◌, Bytes, length, ltb, if◌then◌else◌, get_elem?,
}
use pyrad.Common.Eq.{text_eq_instance, int_eq_instance}
use pyrad.Common.Int.{ℤ, pos}
use pyrad.Common.Struct.{pack_uint}
use pyrad.Common.Result.{
  Result, ok, raise, ◌>>=◌, key_error, type_error, attribute_error, value_error, or_raise,
}
use pyrad.Common.Dict.{Dict}
use pyrad.Bidict.{get_forward}
use pyrad.Dictionary.{attribute_for, is_tlv_key}
use pyrad.Dictionary.Types.{Dictionary, Attribute, Key, code, pair, triple}
use pyrad.Packet.State.{Slot, values, subs, Packet}

-- `struct.pack('!BB', key, len(value) + 2) + value`
unfoldable pub encode_avp : ℤ → Bytes → Result Bytes
unfolding pack_uint
encode_avp key value = do
  k ← pack_uint 1 key
  n ← pack_uint 1 (pos (length value + 2))
  ok (k ++ n ++ value)

encode_vendor_avp : ℤ → ℤ → Bytes → Result Bytes
encode_vendor_avp vendor key value = do
  head ← pack_uint 4 vendor
  inner ← encode_avp key value
  encode_avp (pos 26) (head ++ inner)

-- of a tuple only the first two items are read
unfoldable pub pkt_encode_attribute : Key → Bytes → Result Bytes
unfolding encode_vendor_avp
pkt_encode_attribute (code key) value = encode_avp key value
pkt_encode_attribute (pair vendor key) value = encode_vendor_avp vendor key value
pkt_encode_attribute (triple vendor key sub) value = encode_vendor_avp vendor key value

unfoldable pub encode_values : Key → List Bytes → Result Bytes
encode_values key [] = ok []
encode_values key (v ∷ vs) = do
  avp ← pkt_encode_attribute key v
  rest ← encode_values key vs
  ok (avp ++ rest)

-- The longest list of values, `max(map(len, ...))`; the maximum of nothing raises.
longest_from : ℕ → Dict ℤ (List Bytes) → ℕ
longest_from m [] = m
longest_from m ((c, vs) ∷ d) = longest_from (if ltb m (length vs) then length vs else m) d

pub longest : Dict ℤ (List Bytes) → Result ℕ
unfolding longest_from
longest [] = raise value_error
longest ((c, vs) ∷ d) = ok (longest_from (length vs) d)

-- The sub-attributes with number `i`: `for (code, datalst) in tlv_value.items(): if i < len(datalst)`
encode_subs_at : ℕ → Dict ℤ (List Bytes) → Result Bytes
encode_subs_at i [] = ok []
encode_subs_at i ((c, vs) ∷ d) = elim (get_elem? vs i) [
  | none ↦ encode_subs_at i d
  | some v ↦ do avp ← encode_avp c v; rest ← encode_subs_at i d; ok (avp ++ rest)
]

-- The loop over `range(max_sub_attribute_len)`: `curr` is `curr_avp`, and the result is `avps`.
group_subs : ℕ → ℕ → Dict ℤ (List Bytes) → Bytes → List Bytes → Result (List Bytes)
unfolding encode_subs_at
group_subs zero i d curr avps = ok (avps ++ curr ∷ [])
group_subs (suc n) i d curr avps = do
  enc ← encode_subs_at i d
  let fits = ltb (length enc + length curr) 245
  group_subs n (i + 1) d (if fits then curr ++ enc else enc)
      (if fits then avps else avps ++ curr ∷ [])

concat_avps : ℤ → List Bytes → Result (List Bytes)
concat_avps c [] = ok []
concat_avps c (avp ∷ avps) = do head ← encode_avp c avp; rest ← concat_avps c avps; ok (head ∷ rest)

join : List Bytes → Bytes
join [] = []
join (b ∷ bs) = b ++ join bs

-- `struct.pack('!BBL', 26, len(avp) + 6, vendor) + avp` for each
encode_vendor_avps : ℤ → List Bytes → Result Bytes
encode_vendor_avps vendor [] = ok []
encode_vendor_avps vendor (avp ∷ avps) = do
  n ← pack_uint 1 (pos (length avp + 6))
  v ← pack_uint 4 vendor
  rest ← encode_vendor_avps vendor avps
  ok (26 ∷ n ++ v ++ avp ++ rest)

encode_tlv_of : Dictionary → Attribute → List Bytes → Result Bytes
unfolding join encode_vendor_avps
encode_tlv_of d a tlv_avps = elim a.vendor [
  | [] ↦ ok (join tlv_avps)
  | c ∷ cs ↦ do vendor ← get_forward d.vendors a.vendor; encode_vendor_avps vendor tlv_avps
]

unfoldable pub pkt_encode_tlv : Dictionary → Key → Dict ℤ (List Bytes) → Result Bytes
unfolding longest group_subs concat_avps encode_tlv_of
pkt_encode_tlv d tlv_key tlv_value = do
  tlv_attr ← or_raise key_error (attribute_for d tlv_key)
  n ← longest tlv_value
  avps ← group_subs n 0 tlv_value [] []
  tlv_avps ← concat_avps tlv_attr.code avps
  encode_tlv_of d tlv_attr tlv_avps

-- One item of the packet. A tlv whose value is a list has no `items`; the keys of a dict that is
-- read as a list of values are integers, which have no length.
unfoldable pub encode_slot : Dictionary → Key → Slot → Result Bytes
encode_slot d key (values vs) =
    if is_tlv_key d key then raise attribute_error else encode_values key vs
encode_slot d key (subs s) =
    if is_tlv_key d key
    then pkt_encode_tlv d key s
    else elim s [ [] ↦ ok [] | x ∷ xs ↦ raise type_error ]

unfoldable pub pkt_encode_attributes : Dictionary → Dict Key Slot → Result Bytes
pkt_encode_attributes d [] = ok []
pkt_encode_attributes d ((key, slot) ∷ items) = do
  head ← encode_slot d key slot
  rest ← pkt_encode_attributes d items
  ok (head ++ rest)

-- `struct.pack('!BBH', self.code, self.id, 20 + len(attr))`
unfoldable pub encode_header : Packet → Bytes → Result Bytes
encode_header p attr = do
  c ← pack_uint 1 (pos p.code)
  i ← pack_uint 1 (pos p.id)
  n ← pack_uint 2 (pos (20 + length attr))
  ok (c ++ i ++ n)
