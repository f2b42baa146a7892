-- ===== src/Packet/Decode/Tlv/Groups.antt =====
-- The loops of the decoder over the groups of a tlv and over the sub-attributes in a group.
use native.Mathlib.Nat.{le_refl}
use pyrad.Common.{
  ℕ, zero, suc, ◌^◌, ◌≤◌, ◌<◌, ◌≡◌, ◌≢◌, refl, sym, ◌∙◌, ap, true, none, List, [], ◌∷◌, ◌++◌,
  append_assoc, Bytes, length, length-append, take-append, drop-append, take_of_length-le,
  drop_of_length-le, arith,
}
use pyrad.Common.Eq.{int_eq_instance}
use pyrad.Common.Int.{ℤ, pos}
use pyrad.Common.Struct.{be, unbe, unbe-be}
use pyrad.Common.Result.{Result, ok, >>=-eq-ok}
use pyrad.Common.Dict.{Dict, lookup, insert_fresh, lookup_last, insert_last}
use pyrad.Dictionary.{is_tlv_key}
use pyrad.Dictionary.Types.{Dictionary, Key, code, pair, triple, key_eq_instance}
use pyrad.Packet.State.{Slot, subs, Packet}
use pyrad.Packet.Encode.{encode_avp, pkt_encode_attribute}
use pyrad.Packet.Encode.Tlv.{Subs, encode_pairs}
use pyrad.Packet.Decode.{
  append_sub, append_sub_to, add_sub, default_subs, tlv_loop, pkt_decode_tlv_attribute,
  decode_attribute, pkt_decode_vendor_attribute, first_vendor_attribute, vendor_rest, vendor_loop,
  append_values,
}
use pyrad.Packet.Decode.Attrs.{
  with_attrs, decode_all, then_decode, encode_avp_shape, vendor_avp_shape, round, sub-two, four-add,
  vendor_value,
}
use pyrad.Packet.Encode.Tlv.Written.{AreWritten}
use pyrad.Packet.Decode.Tlv.{add_each}
use pyrad.Packet.Decode.Tlv.Rows.{add_each-append}

-- A key whose values the decoder takes for tlvs.
abbrev pub IsTlvKey : Dictionary → Key → Type 0
IsTlvKey d (code z) = (z ≢ pos 26) × (z ≢ pos 80) × (is_tlv_key d (code z) ≡ true)
IsTlvKey d (pair v z) = is_tlv_key d (pair v z) ≡ true
IsTlvKey d (triple v z s) = ⊥

-- A packet whose last item is a tlv.
abbrev pub tlv_last : Dict Key Slot → Key → Subs → Packet → Packet
tlv_last a key s p = with_attrs (a ++ (key, subs s) ∷ []) p

append_sub_last :
    (a : Dict Key Slot) (key : Key) (c : ℤ) (v : Bytes) (s : Subs) (p : Packet)
    → lookup key a ≡ none
    → append_sub key c v (tlv_last a key s p)
      ≡ (ok tt, tlv_last a key (add_sub c v (lookup c s) s) p)
unfolding append_sub append_sub_to
append_sub_last a key c v s p h =
    rw
      (
        lookup_last key (subs s) a h,
        insert_last key (subs (add_sub c v (lookup c s) s)) (subs s) a h,
      )
      refl

-- One round of the loop.
tlv_loop-suc :
    (fuel k : ℕ) (v rest : Bytes) (a : Dict Key Slot) (key : Key) (s : Subs) (p : Packet)
    → lookup key a ≡ none
    → tlv_loop (suc fuel) key (k ∷ suc (suc (length v)) ∷ (v ++ rest)) (tlv_last a key s p)
      ≡ tlv_loop fuel key rest (tlv_last a key (add_sub (pos k) v (lookup (pos k) s) s) p)
unfolding tlv_loop
tlv_loop-suc fuel k v rest a key s p h =
    rw
      (
        sub-two (length v),
        take-append (length v) v rest refl,
        drop-append (length v) v rest refl,
        append_sub_last a key (pos k) v s p h,
      )
      refl

-- The loop adds the sub-attributes of a group, with any fuel that covers its bytes.
tlv_loop-pairs :
    (l : List (ℤ × Bytes)) (bs : Bytes) (fuel : ℕ) (a : Dict Key Slot) (key : Key) (s : Subs)
    (p : Packet)
    → lookup key a ≡ none
    → encode_pairs l ≡ ok bs
    → length bs ≤ fuel
    → tlv_loop fuel key bs (tlv_last a key s p) ≡ (ok tt, tlv_last a key (add_each l s) p)
unfolding encode_pairs add_each
tlv_loop-pairs [] bs fuel a key s p h e enough =
    let nothing : [] ≡ bs = cc e in rw (← nothing) (unfold tlv_loop in refl)
tlv_loop-pairs ((c, v) ∷ l) bs fuel a key s p h e enough =
    let (avp, ea, e') = >>=-eq-ok (encode_avp c v) _ e in
    let (rest, er, e'') = >>=-eq-ok (encode_pairs l) _ e' in
    let (k, ck, shape) = encode_avp_shape c v avp ea in
    let whole : bs ≡ k ∷ suc (suc (length v)) ∷ (v ++ rest) =
      sym (cc e'') ∙ ap (λ (b : Bytes). b ++ rest) shape in
    elim fuel
        as (λ n.
          length bs ≤ n
          → tlv_loop n key bs (tlv_last a key s p)
            ≡ (ok tt, tlv_last a key (add_each l (add_sub c v (lookup c s) s)) p)) [
              | zero ↦ λ none_left. absurd (omega (arith, none_left, ap (length {A = ℕ}) whole))
              | suc n ↦ λ covers.
                  rw (whole, ck)
                    (tlv_loop-suc n k v rest a key s p h
                      ∙ tlv_loop-pairs l rest n a key _ p h er
                          (omega (arith, covers, ap (length {A = ℕ}) whole, length-append v rest)))
            ]
      enough

default_subs-last :
    (a : Dict Key Slot) (key : Key) (s : Subs) (p : Packet)
    → lookup key a ≡ none
    → default_subs key (tlv_last a key s p) ≡ tlv_last a key s p
unfolding default_subs
default_subs-last a key s p h = rw (default_subs, lookup_last key (subs s) a h) refl

default_subs-fresh :
    (a : Dict Key Slot) (key : Key) (p : Packet)
    → lookup key a ≡ none
    → default_subs key (with_attrs a p) ≡ tlv_last a key [] p
unfolding default_subs
default_subs-fresh a key p h = rw (default_subs, h, insert_fresh key (subs []) a h) refl

-- The group of a tlv that is there already, and that of a new one.
decode_group :
    (l : List (ℤ × Bytes)) (group : Bytes) (a : Dict Key Slot) (key : Key) (s : Subs) (p : Packet)
    → lookup key a ≡ none
    → encode_pairs l ≡ ok group
    → pkt_decode_tlv_attribute key group (tlv_last a key s p)
      ≡ (ok tt, tlv_last a key (add_each l s) p)
unfolding pkt_decode_tlv_attribute
decode_group l group a key s p h e =
    ap (tlv_loop (length group) key group) (default_subs-last a key s p h)
    ∙ tlv_loop-pairs l group (length group) a key s p h e (le_refl _)

decode_first_group :
    (l : List (ℤ × Bytes)) (group : Bytes) (a : Dict Key Slot) (key : Key) (p : Packet)
    → lookup key a ≡ none
    → encode_pairs l ≡ ok group
    → pkt_decode_tlv_attribute key group (with_attrs a p)
      ≡ (ok tt, tlv_last a key (add_each l []) p)
unfolding pkt_decode_tlv_attribute
decode_first_group l group a key p h e =
    ap (tlv_loop (length group) key group) (default_subs-fresh a key p h)
    ∙ tlv_loop-pairs l group (length group) a key [] p h e (le_refl _)

decode_attribute_code :
    (k : ℕ) (group : Bytes) (p : Packet)
    → IsTlvKey p.dict (code (pos k))
    → decode_attribute k group p ≡ pkt_decode_tlv_attribute (code (pos k)) group p
unfolding decode_attribute
decode_attribute_code k group p (a, b, tlv) = ground arith

decode_vendor_tlv :
    (a b c d t vendor : ℕ) (group : Bytes) (p q : Packet)
    → unbe (a ∷ b ∷ c ∷ d ∷ []) ≡ vendor
    → is_tlv_key p.dict (pair (pos vendor) (pos t)) ≡ true
    → pkt_decode_tlv_attribute (pair (pos vendor) (pos t)) group p ≡ (ok tt, q)
    → pkt_decode_vendor_attribute (a ∷ b ∷ c ∷ d ∷ t ∷ suc (suc (length group)) ∷ group) p
      ≡ (ok [], q)
unfolding pkt_decode_vendor_attribute first_vendor_attribute vendor_rest vendor_loop
decode_vendor_tlv a b c d t vendor group p q e tlv h = rw (
  e,
  tlv,
  vendor_value (length group),
  take_of_length-le (length group) group (le_refl _),
  h,
  four-add (length group),
  drop_of_length-le (length group) group (le_refl _),
)

decode_attribute_pair :
    (a t : ℕ) (group : Bytes) (p q : Packet)
    → a < 256 ^ 4
    → is_tlv_key p.dict (pair (pos a) (pos t)) ≡ true
    → pkt_decode_tlv_attribute (pair (pos a) (pos t)) group p ≡ (ok tt, q)
    → decode_attribute 26 (be 4 a ++ t ∷ suc (suc (length group)) ∷ group) p ≡ (ok tt, q)
unfolding be decode_attribute append_values
decode_attribute_pair a t group p q small tlv h =
    rw (decode_vendor_tlv _ _ _ _ t a group p q (unbe-be 4 a small) tlv h) refl

-- One attribute of a tlv, once its group decodes.
decode_written :
    (key : Key) (group avp more : Bytes) (p q : Packet)
    → IsTlvKey p.dict key
    → pkt_encode_attribute key group ≡ ok avp
    → pkt_decode_tlv_attribute key group p ≡ (ok tt, q)
    → decode_all (avp ++ more) p ≡ decode_all more q
decode_written (code z) group avp more p q tlv e h =
    let (k, zk, shape) = encode_avp_shape z group avp (unfold pkt_encode_attribute in e) in
    rw shape (
      round k group more p
      ∙ ap (λ (r : Result (Unit {0}) × Packet). then_decode r more)
          (decode_attribute_code k group p (rw zk at tlv) ∙ (rw zk at h)))
decode_written (pair z y) group avp more p q tlv e h =
    let (a, t, za, yt, small, shape) = vendor_avp_shape z y group avp e in
    rw shape (
      round 26 (be 4 a ++ t ∷ suc (suc (length group)) ∷ group) more p
      ∙ ap (λ (r : Result (Unit {0}) × Packet). then_decode r more)
          (decode_attribute_pair a t group p q small (rw (za, yt) at tlv) (rw (za, yt) at h)))
decode_written (triple z y k) group avp more p q tlv e h = absurd tlv

-- The further groups of a tlv.
decode_groups :
    (groups : List Bytes) (l : List (ℤ × Bytes)) (bs more : Bytes) (a : Dict Key Slot) (key : Key)
    (s : Subs) (p : Packet)
    → IsTlvKey p.dict key
    → lookup key a ≡ none
    → AreWritten key l groups bs
    → decode_all (bs ++ more) (tlv_last a key s p)
      ≡ decode_all more (tlv_last a key (add_each l s) p)
decode_groups [] l bs more a key s p tlv h (el, eb) = rw (el, eb) (unfold add_each in refl)
decode_groups (group ∷ groups) l bs more a key s p tlv h (m, rest, avp, bs', el, em, ea, eb, w) =
    rw (eb, append_assoc avp bs' more, el, add_each-append m rest s)
      (decode_written key group avp (bs' ++ more) (tlv_last a key s p) _ tlv ea
          (decode_group m group a key s p h em)
        ∙ decode_groups groups rest bs' more a key (add_each m s) p tlv h w)

-- All groups of a new tlv, of which there is at least one.
pub decode_new_groups :
    (group : Bytes) (groups : List Bytes) (l : List (ℤ × Bytes)) (bs more : Bytes)
    (a : Dict Key Slot) (key : Key) (p : Packet)
    → IsTlvKey p.dict key
    → lookup key a ≡ none
    → AreWritten key l (group ∷ groups) bs
    → decode_all (bs ++ more) (with_attrs a p) ≡ decode_all more (tlv_last a key (add_each l []) p)
decode_new_groups group groups l bs more a key p tlv h (m, rest, avp, bs', el, em, ea, eb, w) =
    rw (eb, append_assoc avp bs' more, el, add_each-append m rest [])
      (decode_written key group avp (bs' ++ more) (with_attrs a p) _ tlv ea
          (decode_first_group m group a key p h em)
        ∙ decode_groups groups rest bs' more a key (add_each m []) p tlv h w)
