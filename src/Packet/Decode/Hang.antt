-- ===== src/Packet/Decode/Hang.antt =====
-- Where the loops over sub-attributes in pyrad/packet.py end, and where they do not.
use pyrad.Common.{
  ℕ, zero, suc, ◌+◌, ◌≤◌, ◌≡◌, refl, sym, ap, ◌∙◌, some, List, [], ◌∷◌, ◌++◌, Bytes, length,
  length-append, length-drop, take, drop, drop-append, arith, Bool-cases, inl, inr,
}
use pyrad.Common.Int.{ℤ, pos}
use pyrad.Common.Struct.{unbe}
use pyrad.Common.Result.{stuck}
use pyrad.Dictionary.{is_tlv_key}
use pyrad.Dictionary.Types.{Key, pair, key_eq_instance}
use pyrad.Packet.State.{Packet}
use pyrad.Packet.Decode.{
  vendor_loop, tlv_loop, pkt_decode_vendor_attribute, pkt_decode_tlv_attribute, decode_attribute,
  decode_loop, decode_packet, first_vendor_attribute, vendor_rest,
}

pub vendor_loop_zero :
    (f : ℕ) (datum : Bytes) (vendor : ℤ) (tlvs : List (Key × Bytes)) (t : ℕ) (rest : Bytes)
    → vendor_loop f datum vendor tlvs (t ∷ 0 ∷ rest) ≡ stuck
unfolding vendor_loop
vendor_loop_zero zero datum vendor tlvs t rest = refl
vendor_loop_zero (suc f) datum vendor tlvs t rest = vendor_loop_zero f datum vendor _ t rest

-- The bound on the rounds of the loop over the sub-attributes of a vendor attribute, the number of
-- bytes that are left, is enough: with more rounds the result is the same, also where it is that the
-- loop does not end.
pub vendor_loop_fuel :
    (f g : ℕ) (datum : Bytes) (vendor : ℤ) (tlvs : List (Key × Bytes)) (bs : Bytes)
    → length bs ≤ f
    → length bs ≤ g
    → vendor_loop f datum vendor tlvs bs ≡ vendor_loop g datum vendor tlvs bs
unfolding vendor_loop
vendor_loop_fuel f g datum vendor tlvs [] hf hg = refl
vendor_loop_fuel zero g datum vendor tlvs (t ∷ bs) hf hg = absurd (omega arith)
vendor_loop_fuel (suc f) zero datum vendor tlvs (t ∷ bs) hf hg = absurd (omega arith)
vendor_loop_fuel (suc f) (suc g) datum vendor tlvs (t ∷ []) hf hg = refl
vendor_loop_fuel (suc f) (suc g) datum vendor tlvs (t ∷ zero ∷ rest) hf hg =
    vendor_loop_zero f datum vendor _ t rest ∙ sym (vendor_loop_zero g datum vendor _ t rest)
vendor_loop_fuel (suc f) (suc g) datum vendor tlvs (t ∷ suc n ∷ rest) hf hg =
    vendor_loop_fuel f g datum vendor _ (drop n (suc n ∷ rest))
      (omega (arith, length-drop n (suc n ∷ rest))) (omega (arith, length-drop n (suc n ∷ rest)))

-- A vendor attribute whose first sub-attribute has the length 0 is never decoded, whatever the
-- dictionary says of it.
vendor_hangs :
    (a b c d t : ℕ) (p : Packet)
    → (pkt_decode_vendor_attribute (a ∷ b ∷ c ∷ d ∷ t ∷ 0 ∷ []) p).0 ≡ stuck
unfolding pkt_decode_vendor_attribute pkt_decode_tlv_attribute tlv_loop first_vendor_attribute
    vendor_rest
vendor_hangs a b c d t p =
    elim (Bool-cases (is_tlv_key p.dict (pair (pos (unbe (a ∷ b ∷ c ∷ d ∷ []))) (pos t)))) [
      | inl tlv ↦ rw (tlv, vendor_loop_zero _ _ _ _ t [])
      | inr other ↦ rw (other, vendor_loop_zero _ _ _ _ t [])
    ]

-- For every packet object and every header with the length 28, the attribute 26 with a
-- sub-attribute of the length 0 makes `decode_packet` loop without end.
pub decode_packet_hangs :
    (k id a b c d t : ℕ) (auth : Bytes) (p : Packet)
    → length auth ≡ 16
    → (decode_packet (k ∷ id ∷ 0 ∷ 28 ∷ (auth ++ 26 ∷ 8 ∷ a ∷ b ∷ c ∷ d ∷ t ∷ 0 ∷ [])) p).0 ≡ stuck
unfolding decode_packet decode_loop decode_attribute
decode_packet_hangs k id a b c d t auth p h =
    let tail : Bytes = 26 ∷ 8 ∷ a ∷ b ∷ c ∷ d ∷ t ∷ 0 ∷ [] in
    let q : Packet = record p {
      code = k;
      id = id;
      authenticator = some (take 16 (auth ++ tail));
      attrs = [];
    } in
    let len : length (auth ++ tail) ≡ 24 = length-append auth tail ∙ ap (λ n. n + 8) h in
    rw (len, drop-append 16 auth tail h, vendor_hangs a b c d t q) refl
