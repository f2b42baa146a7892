-- ===== src/Packet/Encode/Tlv/Written.antt =====
-- The bytes of the groups of a tlv: each one an attribute of its own, under the key of the tlv.
use pyrad.Common.{
  ℕ, ◌+◌, ◌≡◌, refl, sym, ◌∙◌, some, List, [], ◌∷◌, ◌++◌, Text, append_assoc, Bytes, length,
  length-append, arith,
}
use mathlib.Core.Path.{subst, subst₂}
use pyrad.Common.Int.{ℤ, pos, negsuc}
use pyrad.Common.Struct.{be, pack_uint, length-be}
use pyrad.Common.Result.{ok, >>=-eq-ok, key_error, or_raise}
use pyrad.Common.Eq.{text_eq_instance, int_eq_instance}
use pyrad.Bidict.{get_forward}
use pyrad.Dictionary.{attribute_for}
use pyrad.Dictionary.Types.{Dictionary, Attribute, Key, code, pair}
use pyrad.Packet.Names.{key_of}
use pyrad.Packet.Encode.{
  encode_avp, longest, group_subs, concat_avps, join, encode_tlv_of, pkt_encode_tlv,
  encode_vendor_avp, encode_vendor_avps, pkt_encode_attribute,
}
use pyrad.Packet.Encode.Tlv.{
  Subs, AreShort, rows, encode_pairs, AreGrouped, group_subs-AreGrouped, longest-AreShort,
}

-- The bytes are those of the groups, and the sub-attributes those in the groups.
abbrev pub AreWritten : Key → List (ℤ × Bytes) → List Bytes → Bytes → Type 0
AreWritten key l [] bs = (l ≡ []) × (bs ≡ [])
AreWritten key l (group ∷ groups) bs =
    (m : List (ℤ × Bytes)) × (rest : List (ℤ × Bytes)) × (avp : Bytes) × (more : Bytes) × (l
      ≡ m ++ rest)
    × (encode_pairs m ≡ ok group)
    × (pkt_encode_attribute key group ≡ ok avp)
    × (bs ≡ avp ++ more)
    × AreWritten key rest groups more

written_code :
    (z : ℤ) (l : List (ℤ × Bytes)) (groups heads : List Bytes)
    → AreGrouped l groups
    → concat_avps z groups ≡ ok heads
    → AreWritten (code z) l groups (join heads)
unfolding concat_avps join AreGrouped pkt_encode_attribute
written_code z l [] heads h e = let none_left : [] ≡ heads = cc e in (h, rw (← none_left) refl)
written_code z l (group ∷ groups) heads (m, rest, el, em, h) e =
    let (avp, ea, e') = >>=-eq-ok (encode_avp z group) _ e in
    let (avps, es, e'') = >>=-eq-ok (concat_avps z groups) _ e' in
    let same : avp ∷ avps ≡ heads = cc e'' in
    (m, rest, avp, join avps, el, em, ea, rw (← same) refl, written_code z rest groups avps h es)

length-pack_uint : (w : ℕ) (z : ℤ) (bs : Bytes) → pack_uint w z ≡ ok bs → length bs ≡ w
unfolding pack_uint
length-pack_uint w (pos n) bs h = ground (arith, length-be w n)
length-pack_uint w (negsuc n) bs h = cc h

-- The length that the encoder of a vendor's tlv writes is that of `_pkt_encode_attribute`.
vendor_avp :
    (v z : ℤ) (group inner n vb : Bytes)
    → encode_avp z group ≡ ok inner
    → pack_uint 1 (pos (length inner + 6)) ≡ ok n
    → pack_uint 4 v ≡ ok vb
    → pkt_encode_attribute (pair v z) group ≡ ok (26 ∷ (n ++ (vb ++ inner)))
unfolding pkt_encode_attribute encode_vendor_avp encode_avp be
vendor_avp v z group inner n vb hi hn hv =
    let len : length (vb ++ inner) + 2 ≡ length inner + 6 =
      omega (arith, length-append vb inner, length-pack_uint 4 v vb hv) in
    rw (hv, hi, len, hn) (unfold pack_uint in refl)

-- The first of a vendor's attributes.
first_vendor_avp :
    (v : ℤ) (inner : Bytes) (avps : List Bytes) (bs : Bytes)
    → encode_vendor_avps v (inner ∷ avps) ≡ ok bs
    → (n : Bytes) × (vb : Bytes) × (more : Bytes) × (pack_uint 1 (pos (length inner + 6)) ≡ ok n)
      × (pack_uint 4 v ≡ ok vb)
      × (encode_vendor_avps v avps ≡ ok more)
      × (bs ≡ (26 ∷ (n ++ (vb ++ inner))) ++ more)
unfolding encode_vendor_avps
first_vendor_avp v inner avps bs h =
    let (n, en, h₁) = >>=-eq-ok (pack_uint 1 (pos (length inner + 6))) _ h in
    let (vb, ev, h₂) = >>=-eq-ok (pack_uint 4 v) _ h₁ in
    let (more, er, h₃) = >>=-eq-ok (encode_vendor_avps v avps) _ h₂ in
    (n, vb, more, en, ev, er, grouped n vb more (cc h₃))
  where
    grouped :
        (n vb more : Bytes)
        → 26 ∷ n ++ vb ++ inner ++ more ≡ bs
        → bs ≡ (26 ∷ (n ++ (vb ++ inner))) ++ more
    grouped n vb more h = sym h ∙ simp append_assoc refl

written_pair :
    (v z : ℤ) (l : List (ℤ × Bytes)) (groups heads : List Bytes) (bs : Bytes)
    → AreGrouped l groups
    → concat_avps z groups ≡ ok heads
    → encode_vendor_avps v heads ≡ ok bs
    → AreWritten (pair v z) l groups bs
unfolding concat_avps encode_vendor_avps AreGrouped
written_pair v z l [] heads bs h e e' =
    let none_left : [] ≡ heads = cc e in
    let nothing : [] ≡ bs = cc (rw (← none_left) at e') in (h, sym nothing)
written_pair v z l (group ∷ groups) heads bs (m, rest, el, em, h) e e' =
    let (inner, ea, e₁) = >>=-eq-ok (encode_avp z group) _ e in
    let (avps, es, e₂) = >>=-eq-ok (concat_avps z groups) _ e₁ in
    let same : inner ∷ avps ≡ heads = cc e₂ in
    let wrapped : encode_vendor_avps v (inner ∷ avps) ≡ ok bs =
      subst (λ k. encode_vendor_avps v k ≡ ok bs) (sym same) e' in
    let (n, vb, more, en, ev, er, whole) = first_vendor_avp v inner avps bs wrapped in
    (
      m,
      rest,
      26 ∷ (n ++ (vb ++ inner)),
      more,
      el,
      em,
      vendor_avp v z group inner n vb ea en ev,
      whole,
      written_pair v z rest groups avps more h es er,
    )

by_vendor :
    (d : Dictionary) (a : Attribute) (key : Key) (l : List (ℤ × Bytes)) (groups heads : List Bytes)
    (bs : Bytes) (vendor : Text)
    → a.vendor ≡ vendor
    → key_of d a vendor ≡ ok key
    → AreGrouped l groups
    → concat_avps a.code groups ≡ ok heads
    → encode_tlv_of d a heads ≡ ok bs
    → AreWritten key l groups bs
unfolding key_of encode_tlv_of
by_vendor d a key l groups heads bs [] ev ek h e e' =
    let same : code a.code ≡ key = cc ek in
    let joined : join heads ≡ bs = cc (rw ev at e') in
    subst₂ (λ k b. AreWritten k l groups b) same joined (written_code a.code l groups heads h e)
by_vendor d a key l groups heads bs (c ∷ vendor) ev ek h e e' =
    let (v, found, ek') = >>=-eq-ok (get_forward d.vendors (c ∷ vendor)) _ ek in
    let same : pair v a.code ≡ key = cc ek' in
    let wrapped : encode_vendor_avps v heads ≡ ok bs = rw (ev, found) at e' in
    subst (λ k. AreWritten k l groups bs) same (written_pair v a.code l groups heads bs h e wrapped)

-- What `_pkt_encode_tlv` writes for the tlv of a key that the dictionary has.
pub pkt_encode_tlv-AreWritten :
    (d : Dictionary) (a : Attribute) (key : Key) (s : Subs) (bs : Bytes)
    → attribute_for d key ≡ some a
    → key_of d a a.vendor ≡ ok key
    → pkt_encode_tlv d key s ≡ ok bs
    → (n : ℕ) × (groups : List Bytes) × AreShort n s × AreWritten key (rows n 0 s) groups bs
unfolding pkt_encode_tlv encode_pairs AreGrouped
pkt_encode_tlv-AreWritten d a key s bs found own h =
    let there : or_raise key_error (attribute_for d key) ≡ ok a = rw found refl in
    let h₁ = rw there at h in
    let (n, en, h₂) = >>=-eq-ok (longest s) _ h₁ in
    let (groups, eg, h₃) = >>=-eq-ok (group_subs n 0 s [] []) _ h₂ in
    let (heads, eh, h₄) = >>=-eq-ok (concat_avps a.code groups) _ h₃ in
    (
      n,
      groups,
      longest-AreShort n s en,
      by_vendor d a key (rows n 0 s) groups heads bs a.vendor refl own
          (group_subs-AreGrouped n 0 s [] [] [] [] groups refl refl eg) eh h₄,
    )
