-- ===== src/Packet/Decode/Tlv/Item.antt =====
-- A whole tlv: its groups decode to its sub-attributes.
use pyrad.Common.{
  ℕ, zero, suc, ◌≡◌, ◌≢◌, refl, sym, ◌∙◌, ap, none, some, List, [], ◌∷◌, ◌++◌, Bytes, arith,
}
use pyrad.Common.Eq.{int_eq_instance}
use pyrad.Common.Int.{ℤ}
use pyrad.Common.Result.{ok}
use pyrad.Common.Dict.{Dict, lookup, HasDistinctKeys}
use pyrad.Dictionary.{attribute_for}
use pyrad.Dictionary.Types.{Dictionary, Attribute, Key, code, pair, triple, key_eq_instance}
use pyrad.Packet.State.{Slot, subs, Packet}
use pyrad.Packet.Names.{key_of}
use pyrad.Packet.Encode.{pkt_encode_tlv, encode_slot}
use pyrad.Packet.Encode.Tlv.{Subs, HaveValues, AreShort, rows}
use pyrad.Packet.Encode.Tlv.Written.{AreWritten, pkt_encode_tlv-AreWritten}
use pyrad.Packet.Decode.Attrs.{with_attrs, decode_all}
use pyrad.Packet.Decode.Tlv.{add_each}
use pyrad.Packet.Decode.Tlv.Rows.{rows_lem}
use pyrad.Packet.Decode.Tlv.Groups.{IsTlvKey, tlv_last, decode_new_groups}

-- A tlv under the key of an attribute of the dictionary (the code with the vendor's number, if it has
-- a vendor, and not code 26 or 80), with at least one sub-attribute, distinct codes, and at least one
-- value for each.
pub record IsTlvItem (d : Dictionary) (key : Key) (s : Subs) : Type 0 where
  pub attribute : Attribute
  pub found : attribute_for d key ≡ some attribute
  pub own : key_of d attribute attribute.vendor ≡ ok key
  pub tlv : IsTlvKey d key
  pub distinct : HasDistinctKeys s
  pub full : HaveValues s
  pub some_sub : s ≢ []

encode_slot-tlv :
    (d : Dictionary) (key : Key) (s : Subs) (bs : Bytes)
    → IsTlvKey d key
    → encode_slot d key (subs s) ≡ ok bs
    → pkt_encode_tlv d key s ≡ ok bs
unfolding encode_slot
encode_slot-tlv d (code z) s bs (a, b, t) h = rw t at h
encode_slot-tlv d (pair v z) s bs t h = rw t at h
encode_slot-tlv d (triple v z k) s bs t h = absurd t

-- A row at least, if there is a value.
rows_some :
    (n : ℕ) (s : Subs)
    → AreShort n s
    → HasDistinctKeys s
    → HaveValues s
    → s ≢ []
    → add_each (rows n 0 s) [] ≡ s
rows_some n [] short distinct full h = absurd (h refl)
rows_some n ((c, []) ∷ s) short distinct full h = absurd full
rows_some zero ((c, v ∷ vs) ∷ s) (here, short) distinct full h = absurd (omega (arith, here))
rows_some (suc n) ((c, v ∷ vs) ∷ s) short distinct full h =
    rows_lem n ((c, v ∷ vs) ∷ s) short distinct full

decode_written_item :
    (groups : List Bytes) (l : List (ℤ × Bytes)) (s : Subs) (bs more : Bytes) (a : Dict Key Slot)
    (key : Key) (p : Packet)
    → IsTlvKey p.dict key
    → lookup key a ≡ none
    → AreWritten key l groups bs
    → add_each l [] ≡ s
    → s ≢ []
    → decode_all (bs ++ more) (with_attrs a p) ≡ decode_all more (tlv_last a key s p)
decode_written_item [] l s bs more a key p tlv h (el, eb) added some_sub =
    absurd (some_sub (sym added ∙ rw el (unfold add_each in refl)))
decode_written_item (group ∷ groups) l s bs more a key p tlv h w added some_sub =
    decode_new_groups group groups l bs more a key p tlv h w
    ∙ ap (λ u. decode_all more (tlv_last a key u p)) added

-- The attributes that `_pkt_encode_tlv` wrote of a tlv that meets `IsTlvItem` decode to the tlv, behind
-- the attributes that are there, if none of these has its key.
pub decode_tlv_item :
    (key : Key) (s : Subs) (a : Dict Key Slot) (bs more : Bytes) (p : Packet)
    → IsTlvItem p.dict key s
    → lookup key a ≡ none
    → encode_slot p.dict key (subs s) ≡ ok bs
    → decode_all (bs ++ more) (with_attrs a p) ≡ decode_all more (tlv_last a key s p)
decode_tlv_item key s a bs more p i h e =
    let (n, groups, short, w) =
      pkt_encode_tlv-AreWritten p.dict i.attribute key s bs i.found i.own
        (encode_slot-tlv p.dict key s bs i.tlv e) in
    decode_written_item groups (rows n 0 s) s bs more a key p i.tlv h w
      (rows_some n s short i.distinct i.full i.some_sub) i.some_sub
