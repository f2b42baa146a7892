-- ===== src/Packet/Decode/Attrs.antt =====
-- One round of the loop of `decode_packet` on an attribute that `_pkt_encode_attribute` wrote.
use native.Mathlib.Nat.{le_refl}
use pyrad.Common.{
  ℕ, zero, suc, ◌+◌, ◌-◌, ◌^◌, ◌≤◌, ◌<◌, ◌≡◌, ◌≢◌, refl, ap, ◌∙◌, true, false, some, [], ◌∷◌, ◌++◌,
  Bytes, length, length-append, length-drop, drop, slice, ltb, take-append, drop-append,
  take_of_length-le, drop_of_length-le, if◌then◌else◌, arith, Bool-cases, inl, inr,
}
use pyrad.Common.Int.{ℤ, pos, negsuc}
use pyrad.Common.Struct.{be, pack_uint, unbe, unbe-be}
use pyrad.Common.Result.{Result, ok, raise, stuck, attribute_too_small, >>=-eq-ok}
use pyrad.Common.Exec.{continue, pure}
use pyrad.Common.Dict.{Dict}
use pyrad.Dictionary.{is_tlv_key}
use pyrad.Dictionary.Types.{Dictionary, Key, code, pair, triple, key_eq, key_eq_instance}
use pyrad.Packet.State.{Slot, Packet, append_value}
use pyrad.Packet.Encode.{encode_avp, pkt_encode_attribute}
use pyrad.Packet.Decode.{decode_attribute, decode_loop, pkt_decode_vendor_attribute, vendor_loop}
use pyrad.Packet.Decode.{append_values}

-- A key that the decoder stores as it stands: not a vendor container, not a tlv, not a triple.
abbrev pub IsPlainKey : Dictionary → Key → Type 0
IsPlainKey d (code z) = (z ≢ pos 26) × (is_tlv_key d (code z) ≡ false)
IsPlainKey d (pair v z) = is_tlv_key d (pair v z) ≡ false
IsPlainKey d (triple v z s) = ⊥

-- Decoding attribute 80 leaves its mark on the packet.
unfoldable pub mark : Key → Packet → Packet
mark key p = record p {
  message_authenticator = if key_eq key (code (pos 80)) then some true else p.message_authenticator;
}

abbrev pub with_attrs : Dict Key Slot → Packet → Packet
with_attrs a p = record p { attrs = a }

-- The loop with as much fuel as there are bytes.
abbrev pub decode_all : Bytes → Packet → Result (Unit {0}) × Packet
decode_all bs = decode_loop (length bs) bs

abbrev pub then_decode : Result (Unit {0}) × Packet → Bytes → Result (Unit {0}) × Packet
then_decode r bs = continue r.0 (λ _. decode_all bs) r.1

continue-cong :
    (r : Result (Unit {0})) (f g : Packet → Result (Unit {0}) × Packet) (p : Packet)
    → f p ≡ g p
    → continue r (λ _. f) p ≡ continue r (λ _. g) p
continue-cong (ok a) f g p h = h
continue-cong (raise e) f g p h = refl
continue-cong stuck f g p h = refl

-- One round of the loop, the rest of the loop under a name that stays shut.
pub decode_loop-suc :
    (f k n : ℕ) (rest : Bytes) (p : Packet)
    → decode_loop (suc f) (k ∷ n ∷ rest) p ≡ (
        if ltb n 2
        then (raise attribute_too_small, p)
        else continue
            (decode_attribute k (slice 2 n (k ∷ n ∷ rest)) p).0
            (λ _. decode_loop f (drop n (k ∷ n ∷ rest)))
            (decode_attribute k (slice 2 n (k ∷ n ∷ rest)) p).1)
unfolding decode_loop
decode_loop-suc f k n rest p = refl

drop_shorter : (n k : ℕ) (rest : Bytes) → 2 ≤ n → length (drop n (k ∷ n ∷ rest)) ≤ length rest
drop_shorter n k rest h = omega (arith, length-drop n (k ∷ n ∷ rest))

-- Bounds on the rounds of the loop of `decode_packet` that are no less than the number of bytes give
-- the same result.
pub decode_loop_fuel :
    (f g : ℕ) (bs : Bytes) (p : Packet)
    → length bs ≤ f
    → length bs ≤ g
    → decode_loop f bs p ≡ decode_loop g bs p
decode_loop_fuel f g [] p hf hg = unfold decode_loop in refl
decode_loop_fuel zero g (k ∷ bs) p hf hg = absurd (omega arith)
decode_loop_fuel (suc f) zero (k ∷ bs) p hf hg = absurd (omega arith)
decode_loop_fuel (suc f) (suc g) (k ∷ []) p hf hg = unfold decode_loop in refl
decode_loop_fuel (suc f) (suc g) (k ∷ n ∷ rest) p hf hg = elim (Bool-cases (ltb n 2)) [
  | inl small ↦ rw (decode_loop-suc, decode_loop-suc, small) refl
  | inr big ↦
      let r : Result (Unit {0}) × Packet = decode_attribute k (slice 2 n (k ∷ n ∷ rest)) p in
      rw (decode_loop-suc, decode_loop-suc, big)
        (continue-cong r.0 _ _ r.1 (
          decode_loop_fuel f g (drop n (k ∷ n ∷ rest)) r.1
            (omega (arith, drop_shorter n k rest (ground arith)))
            (omega (arith, drop_shorter n k rest (ground arith)))))
]

pub encode_avp_shape :
    (z : ℤ) (v avp : Bytes)
    → encode_avp z v ≡ ok avp
    → (k : ℕ) × (z ≡ pos k) × (avp ≡ k ∷ suc (suc (length v)) ∷ v)
unfolding encode_avp be
encode_avp_shape (pos k) v avp h = (k, refl, ground arith)
encode_avp_shape (negsuc k) v avp h = cc

pub sub-two : (n : ℕ) → suc (suc n) - 2 ≡ n
sub-two n = omega arith

pub not_small : (n : ℕ) → ltb (suc (suc n)) 2 ≡ false
not_small n = ground arith

pub round :
    (k : ℕ) (v more : Bytes) (p : Packet)
    → decode_all (k ∷ suc (suc (length v)) ∷ (v ++ more)) p
      ≡ then_decode (decode_attribute k v p) more
round k v more p =
    decode_loop-suc _ k _ (v ++ more) p
    ∙ rw
        (
          not_small (length v),
          sub-two (length v),
          take-append (length v) v more refl,
          drop-append (length v) v more refl,
        )
        (let r = decode_attribute k v p in
          continue-cong r.0 _ _ r.1 (
            decode_loop_fuel _ (length more) more r.1 (omega (arith, length-append v more))
              (le_refl _)))

decode_attribute_plain :
    (k : ℕ) (v : Bytes) (p : Packet)
    → k ≢ 26
    → is_tlv_key p.dict (code (pos k)) ≡ false
    → decode_attribute k v p ≡ append_value (code (pos k)) v (mark (code (pos k)) p)
unfolding decode_attribute mark
decode_attribute_plain k v p ne h = ground arith

pub four-add : (n : ℕ) → 4 + suc (suc n) ≡ suc (suc (suc (suc (suc (suc n)))))
four-add n = omega arith

pub vendor_value : (n : ℕ) → suc (suc n) + 4 - 6 ≡ n
vendor_value n = omega arith

-- A vendor attribute with one value, over the bytes of its header.
decode_vendor_bytes :
    (a b c d t : ℕ) (v : Bytes) (p : Packet) (vendor : ℕ)
    → unbe (a ∷ b ∷ c ∷ d ∷ []) ≡ vendor
    → is_tlv_key p.dict (pair (pos vendor) (pos t)) ≡ false
    → pkt_decode_vendor_attribute (a ∷ b ∷ c ∷ d ∷ t ∷ suc (suc (length v)) ∷ v) p
      ≡ (ok ((pair (pos vendor) (pos t), v) ∷ []), p)
unfolding pkt_decode_vendor_attribute vendor_loop
decode_vendor_bytes a b c d t v p vendor e nt = rw (
  e,
  nt,
  vendor_value (length v),
  take_of_length-le (length v) v (le_refl _),
  four-add (length v),
  drop_of_length-le (length v) v (le_refl _),
)

continue-pure : (r : Result (Unit {0})) (p : Packet) → continue r (λ _. pure tt) p ≡ (r, p)
continue-pure (ok a) p = refl
continue-pure (raise e) p = refl
continue-pure stuck p = refl

decode_attribute_vendor :
    (a t : ℕ) (v : Bytes) (p : Packet)
    → a < 256 ^ 4
    → is_tlv_key p.dict (pair (pos a) (pos t)) ≡ false
    → decode_attribute 26 (be 4 a ++ t ∷ suc (suc (length v)) ∷ v) p
      ≡ append_value (pair (pos a) (pos t)) v p
unfolding be decode_attribute append_values
decode_attribute_vendor a t v p h nt =
    rw (decode_vendor_bytes _ _ _ _ t v p a (unbe-be 4 a h) nt) (continue-pure _ _)

pack_uint_shape :
    (w : ℕ) (z : ℤ) (bs : Bytes)
    → pack_uint w z ≡ ok bs
    → (a : ℕ) × (z ≡ pos a) × (bs ≡ be w a) × (a < 256 ^ w)
unfolding pack_uint
pack_uint_shape w (pos a) bs h = (a, refl, ground arith, ground arith)
pack_uint_shape w (negsuc a) bs h = cc

pub vendor_avp_shape :
    (z y : ℤ) (v avp : Bytes)
    → pkt_encode_attribute (pair z y) v ≡ ok avp
    → (a : ℕ) × (t : ℕ) × (z ≡ pos a)
      × (y ≡ pos t)
      × (a < 256 ^ 4)
      × (avp
          ≡ 26
            ∷ suc (suc (length (be 4 a ++ t ∷ suc (suc (length v)) ∷ v)))
            ∷ (be 4 a ++ t ∷ suc (suc (length v)) ∷ v))
unfolding pkt_encode_attribute
vendor_avp_shape z y v avp h =
    let (head, hh, h₁) = >>=-eq-ok (pack_uint 4 z) _ h in
    let (inner, hi, h₂) = >>=-eq-ok (encode_avp y v) _ h₁ in
    let (a, za, ea, la) = pack_uint_shape 4 z head hh in
    let (t, yt, et) = encode_avp_shape y v inner hi in
    let (k, kt, ek) = encode_avp_shape (pos 26) (head ++ inner) avp h₂ in
    (a, t, za, yt, la, cc (ek, ea, et, kt))

-- What the decoder makes of one attribute that `_pkt_encode_attribute` wrote for a plain key: it
-- appends the value under the key, and goes on with what follows.
pub decode_round :
    (key : Key) (v avp more : Bytes) (p : Packet)
    → IsPlainKey p.dict key
    → pkt_encode_attribute key v ≡ ok avp
    → decode_all (avp ++ more) p ≡ then_decode (append_value key v (mark key p)) more
unfolding mark
decode_round (code z) v avp more p (ne, nt) h =
    let (k, zk, e) = encode_avp_shape z v avp (unfold pkt_encode_attribute in h) in
    rw (e, zk)
      (round k v more p
        ∙ ap (λ (r : Result (Unit {0}) × Packet). then_decode r more)
            (decode_attribute_plain k v p (λ q. ne (zk ∙ ap pos q)) (rw zk at nt)))
decode_round (pair z y) v avp more p nt h =
    let (a, t, za, yt, la, e) = vendor_avp_shape z y v avp h in
    rw (e, za, yt)
      (round 26 (be 4 a ++ t ∷ suc (suc (length v)) ∷ v) more p
        ∙ ap (λ (r : Result (Unit {0}) × Packet). then_decode r more)
            (decode_attribute_vendor a t v p la (rw (za, yt) at nt)))
decode_round (triple z y s) v avp more p nt h = absurd nt
