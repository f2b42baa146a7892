-- ===== src/Packet/Decode/RoundTrip.antt =====
-- Decoding what `_pkt_encode_attributes` wrote gives the attributes back.
use native.Mathlib.Nat.{le_refl}
use mathlib.Core.Path.{subst, ap₂}
use pyrad.Common.{
  ℕ, ◌≤◌, ◌≡◌, refl, sym, ◌∙◌, false, none, List, [], ◌∷◌, ◌++◌, append_assoc, append-nil, Bytes,
  length, arith,
}
use pyrad.Common.Eq.{int_eq_instance}
use pyrad.Common.Int.{pos}
use pyrad.Common.Result.{ok, >>=-eq-ok}
use pyrad.Common.Dict.{
  Dict, lookup, insert_fresh, lookup_last, insert_last, lookup_before, HasDistinctKeys,
}
use pyrad.Dictionary.{is_tlv_key}
use pyrad.Dictionary.Types.{Dictionary, Key, code, pair, triple, key_eq_instance}
use pyrad.Packet.State.{Slot, values, subs, Packet, append_value}
use pyrad.Packet.Encode.{pkt_encode_attribute, encode_values, encode_slot, pkt_encode_attributes}
use pyrad.Packet.Decode.{decode_loop}
use pyrad.Packet.Decode.Tlv.Groups.{IsTlvKey}
use pyrad.Packet.Decode.Tlv.Item.{IsTlvItem, decode_tlv_item}
use pyrad.Packet.Decode.Attrs.{
  IsPlainKey, mark, with_attrs, decode_all, decode_round, decode_loop_fuel,
}

-- An item as `add_attribute` makes it: a plain key with at least one value, or a tlv.
abbrev pub IsPlainItem : Dictionary → Key → Slot → Type 0
IsPlainItem d key (values []) = ⊥
IsPlainItem d key (values (v ∷ vs)) = IsPlainKey d key
IsPlainItem d key (subs s) = IsTlvItem d key s

abbrev pub IsPlain : Dictionary → Dict Key Slot → Type 0
IsPlain d [] = Unit
IsPlain d ((key, slot) ∷ items) = IsPlainItem d key slot × IsPlain d items

-- The marks that decoding the attributes leaves.
unfoldable pub marks : Dict Key Slot → Packet → Packet
unfolding mark
marks [] p = p
marks ((key, slot) ∷ items) p = marks items (mark key p)

-- Nothing else of the packet changes.
pub marks_keep :
    (items : Dict Key Slot) (p : Packet)
    → marks items p ≡ record p { message_authenticator = (marks items p).message_authenticator }
unfolding marks
marks_keep [] p = refl
marks_keep ((key, slot) ∷ items) p = marks_keep items (mark key p)

append_first :
    (key : Key) (v : Bytes) (a : Dict Key Slot) (p : Packet)
    → lookup key a ≡ none
    → append_value key v (with_attrs a p) ≡ (ok tt, with_attrs (a ++ (key, values (v ∷ [])) ∷ []) p)
unfolding append_value
append_first key v a p h = rw (h, insert_fresh key (values (v ∷ [])) a h)

append_next :
    (key : Key) (v : Bytes) (vs : List Bytes) (a : Dict Key Slot) (p : Packet)
    → lookup key a ≡ none
    → append_value key v (with_attrs (a ++ (key, values vs) ∷ []) p)
      ≡ (ok tt, with_attrs (a ++ (key, values (vs ++ v ∷ [])) ∷ []) p)
unfolding append_value
append_next key v vs a p h =
    rw (lookup_last key (values vs) a h, insert_last key (values (vs ++ v ∷ [])) (values vs) a h)

mark-with_attrs :
    (key : Key) (a : Dict Key Slot) (p : Packet)
    → mark key (with_attrs a p) ≡ with_attrs a (mark key p)
unfolding mark
mark-with_attrs key a p = refl

mark-mark : (key : Key) (p : Packet) → mark key (mark key p) ≡ mark key p
unfolding mark
mark-mark key p = ground arith

dict-mark : (key : Key) (p : Packet) → (mark key p).dict ≡ p.dict
unfolding mark
dict-mark key p = refl

-- One value, once its key is marked.
decode_value :
    (key : Key) (v avp more : Bytes) (a b : Dict Key Slot) (q : Packet)
    → IsPlainKey q.dict key
    → mark key q ≡ q
    → append_value key v (with_attrs a q) ≡ (ok tt, with_attrs b q)
    → pkt_encode_attribute key v ≡ ok avp
    → decode_all (avp ++ more) (with_attrs a q) ≡ decode_all more (with_attrs b q)
decode_value key v avp more a b q plain marked appended e =
    decode_round key v avp more (with_attrs a q) plain e ∙ rw (mark-with_attrs, marked, appended)

-- The later values of a key, behind those that are there.
decode_values :
    (key : Key) (vs ws : List Bytes) (a : Dict Key Slot) (bs more : Bytes) (q : Packet)
    → IsPlainKey q.dict key
    → mark key q ≡ q
    → lookup key a ≡ none
    → encode_values key vs ≡ ok bs
    → decode_all (bs ++ more) (with_attrs (a ++ (key, values ws) ∷ []) q)
      ≡ decode_all more (with_attrs (a ++ (key, values (ws ++ vs)) ∷ []) q)
unfolding encode_values
decode_values key [] ws a bs more q plain marked fresh h =
    let e : [] ≡ bs = cc in rw (← e, append-nil)
decode_values key (v ∷ vs) ws a bs more q plain marked fresh h =
    let (avp, e, h') = >>=-eq-ok (pkt_encode_attribute key v) _ h in
    let (rest, e', h'') = >>=-eq-ok (encode_values key vs) _ h' in
    let eb : avp ++ rest ≡ bs = cc h'' in
    rw (← eb, append_assoc avp rest more)
      (decode_value key v avp (rest ++ more) _ _ q plain marked (append_next key v ws a q fresh) e
        ∙ decode_values key vs (ws ++ v ∷ []) a rest more q plain marked fresh e'
        ∙ rw (append_assoc ws (v ∷ []) vs))

-- All values of a new key.
decode_slot :
    (key : Key) (v : Bytes) (vs : List Bytes) (a : Dict Key Slot) (bs more : Bytes) (p : Packet)
    → IsPlainKey p.dict key
    → lookup key a ≡ none
    → encode_values key (v ∷ vs) ≡ ok bs
    → decode_all (bs ++ more) (with_attrs a p)
      ≡ decode_all more (with_attrs (a ++ (key, values (v ∷ vs)) ∷ []) (mark key p))
unfolding encode_values
decode_slot key v vs a bs more p plain fresh h =
    let (avp, e, h') = >>=-eq-ok (pkt_encode_attribute key v) _ h in
    let (rest, e', h'') = >>=-eq-ok (encode_values key vs) _ h' in
    let eb : avp ++ rest ≡ bs = cc h'' in
    let q : Packet = mark key p in
    rw (← eb, append_assoc avp rest more)
      (decode_round key v avp (rest ++ more) (with_attrs a p) plain e
        ∙ rw (mark-with_attrs, append_first key v a q fresh)
            (decode_values key vs (v ∷ []) a rest more q (rw dict-mark plain) (mark-mark key p)
              fresh e'))

not_tlv : (d : Dictionary) (key : Key) → IsPlainKey d key → is_tlv_key d key ≡ false
not_tlv d (code z) h = h.1
not_tlv d (pair v z) h = h
not_tlv d (triple v z s) h = absurd h

encode_slot_plain :
    (d : Dictionary) (key : Key) (vs : List Bytes) (bs : Bytes)
    → IsPlainKey d key
    → encode_slot d key (values vs) ≡ ok bs
    → encode_values key vs ≡ ok bs
unfolding encode_slot
encode_slot_plain d key vs bs h e = rw (not_tlv d key h) at e

-- A tlv leaves no mark.
tlv-mark : (key : Key) (p : Packet) → IsTlvKey p.dict key → mark key p ≡ p
unfolding mark
tlv-mark (code z) p (a, b, tlv) = ground (arith, int_eq_instance.beq_iff z (pos 80))
tlv-mark (pair v z) p tlv = refl
tlv-mark (triple v z k) p tlv = absurd tlv

-- Decoding what was encoded from plain attributes with distinct keys gives these attributes in
-- their order, behind those that are there.
decode-encode :
    (items a : Dict Key Slot) (bs : Bytes) (p : Packet)
    → IsPlain p.dict items
    → HasDistinctKeys (a ++ items)
    → pkt_encode_attributes p.dict items ≡ ok bs
    → decode_all bs (with_attrs a p) ≡ (ok tt, with_attrs (a ++ items) (marks items p))
unfolding pkt_encode_attributes encode_slot marks
decode-encode [] a bs p plain distinct h =
    let e : [] ≡ bs = cc in rw (← e, append-nil) (unfold decode_loop in refl)
decode-encode ((key, values []) ∷ items) a bs p (pk, pi) distinct h = absurd pk
decode-encode ((key, subs d) ∷ items) a bs p (item, pi) distinct h =
    let (head, e, h') = >>=-eq-ok (encode_slot p.dict key (subs d)) _ h in
    let (rest, e', h'') = >>=-eq-ok (pkt_encode_attributes p.dict items) _ h' in
    let eb : head ++ rest ≡ bs = cc h'' in
    let fresh : lookup key a ≡ none = lookup_before key (subs d) a items distinct in
    let whole : a ++ (key, subs d) ∷ items ≡ (a ++ (key, subs d) ∷ []) ++ items =
      sym (append_assoc a ((key, subs d) ∷ []) items) in
    rw (← eb) (
      decode_tlv_item key d a head rest p item fresh e
      ∙ (decode-encode items (a ++ (key, subs d) ∷ []) rest p pi
            (subst (λ k. HasDistinctKeys k) whole distinct) e'
          ∙ ap₂ (λ k q. (ok tt, with_attrs k (marks items q))) (sym whole)
              (sym (tlv-mark key p item.tlv))))
decode-encode ((key, values (v ∷ vs)) ∷ items) a bs p (pk, pi) distinct h =
    let (head, e, h') = >>=-eq-ok (encode_slot p.dict key (values (v ∷ vs))) _ h in
    let (rest, e', h'') = >>=-eq-ok (pkt_encode_attributes p.dict items) _ h' in
    let eb : head ++ rest ≡ bs = cc h'' in
    let fresh : lookup key a ≡ none = lookup_before key (values (v ∷ vs)) a items distinct in
    rw (← eb) (
      decode_slot key v vs a head rest p pk fresh (encode_slot_plain p.dict key _ head pk e)
      ∙ decode-encode items (a ++ (key, values (v ∷ vs)) ∷ []) rest (mark key p) pi
          (rw (append_assoc a ((key, values (v ∷ vs)) ∷ []) items) distinct) e'
      ∙ rw (append_assoc a ((key, values (v ∷ vs)) ∷ []) items))

-- The same from the wire: the loop of `decode_packet` on a fresh packet, with any fuel that covers
-- the bytes.
pub decode_loop-encode :
    (items : Dict Key Slot) (bs : Bytes) (p : Packet) (fuel : ℕ)
    → IsPlain p.dict items
    → HasDistinctKeys items
    → pkt_encode_attributes p.dict items ≡ ok bs
    → length bs ≤ fuel
    → decode_loop fuel bs (with_attrs [] p) ≡ (ok tt, with_attrs items (marks items p))
decode_loop-encode items bs p fuel plain distinct h enough =
    decode_loop_fuel fuel (length bs) bs (with_attrs [] p) enough (le_refl _)
    ∙ decode-encode items [] bs p plain distinct h
