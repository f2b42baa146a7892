-- ===== src/Packet/Decode/Subs.antt =====
-- The sub-attributes of a vendor attribute, as the loop of `_pkt_decode_vendor_attribute` in
-- pyrad/packet.py reads them.
use pyrad.Common.{
  ℕ, zero, suc, ◌-◌, ◌≤◌, ◌≡◌, refl, sym, ap, ◌∙◌, List, [], ◌∷◌, ◌++◌, Bytes, length,
  length-append, take, take-append, drop-append, append-nil, append_assoc, arith,
}
use mathlib.Core.Path.{ap₂}
use pyrad.Common.Int.{ℤ, pos}
use pyrad.Common.Result.{ok, stuck}
use pyrad.Dictionary.Types.{Key, code, pair}
use pyrad.Packet.Decode.{vendor_loop}
use pyrad.Packet.Decode.Hang.{vendor_loop_fuel, vendor_loop_zero}

-- Sub-attributes as RFC 2865 lays them out in section 5.26: the type, the length with these two
-- bytes, and the value.
unfoldable pub sub_bytes : List (ℕ × Bytes) → Bytes
sub_bytes [] = []
sub_bytes ((t, v) ∷ l) = t ∷ suc (suc (length v)) ∷ (v ++ sub_bytes l)

abbrev pub keyed : ℤ → List (ℕ × Bytes) → List (Key × Bytes)
keyed vendor [] = []
keyed vendor ((t, v) ∷ l) = (pair vendor (pos t), v) ∷ keyed vendor l

vendor_loop-sub :
    (t f : ℕ) (v more datum : Bytes) (vendor : ℤ) (tlvs : List (Key × Bytes))
    → vendor_loop (suc f) datum vendor tlvs (t ∷ suc (suc (length v)) ∷ (v ++ more))
      ≡ vendor_loop f datum vendor (tlvs ++ (pair vendor (pos t), v) ∷ []) more
unfolding vendor_loop
vendor_loop-sub t f v more datum vendor tlvs =
    let two : suc (suc (length v)) - 2 ≡ length v = omega arith in
    let value : take (suc (suc (length v)) - 2) (v ++ more) ≡ v =
      ap (λ (n : ℕ). take n (v ++ more)) two ∙ take-append (length v) v more refl in
    ap₂ (λ (u r : Bytes). vendor_loop f datum vendor (tlvs ++ (pair vendor (pos t), u) ∷ []) r)
      value (drop-append (length v) v more refl)

vendor_loop-subs :
    (l : List (ℕ × Bytes)) (f : ℕ) (datum tail : Bytes) (vendor : ℤ) (tlvs : List (Key × Bytes))
    → length (sub_bytes l ++ tail) ≤ f
    → vendor_loop f datum vendor tlvs (sub_bytes l ++ tail)
      ≡ vendor_loop (length tail) datum vendor (tlvs ++ keyed vendor l) tail
unfolding sub_bytes vendor_loop
vendor_loop-subs [] f datum tail vendor tlvs enough =
    vendor_loop_fuel f (length tail) datum vendor tlvs tail enough (omega arith)
    ∙ ap (λ k. vendor_loop (length tail) datum vendor k tail) (sym (append-nil tlvs))
vendor_loop-subs ((t, v) ∷ l) zero datum tail vendor tlvs enough = absurd (omega (arith, enough))
vendor_loop-subs ((t, v) ∷ l) (suc f) datum tail vendor tlvs enough =
    let more : Bytes = sub_bytes l ++ tail in
    let next : List (Key × Bytes) = tlvs ++ (pair vendor (pos t), v) ∷ [] in
    let few : length more ≤ f = omega (
      arith,
      enough,
      length-append v (sub_bytes l),
      length-append (v ++ sub_bytes l) tail,
      length-append (sub_bytes l) tail,
    ) in
    rw (append_assoc v (sub_bytes l) tail) (vendor_loop-sub t f v more datum vendor tlvs)
    ∙ (vendor_loop-subs l f datum tail vendor next few
        ∙ ap (λ k. vendor_loop (length tail) datum vendor k tail)
            (append_assoc tlvs ((pair vendor (pos t), v) ∷ []) (keyed vendor l)))

-- The loop over the sub-attributes of a vendor attribute, on the sub-attributes `l` laid out as the
-- RFC says, with any bound on the model's rounds that is no less than the number of bytes: where
-- nothing follows, it returns them all, each value whole and under the vendor with its own type;
-- where one byte follows, it returns the whole attribute under 26 instead; and where a
-- sub-attribute with the length 0 follows, it does not end.
pub vendor_loop_ends :
    (l : List (ℕ × Bytes)) (f t : ℕ) (datum rest : Bytes) (vendor : ℤ)
    → length (sub_bytes l ++ t ∷ 0 ∷ rest) ≤ f
    → (vendor_loop f datum vendor [] (sub_bytes l) ≡ ok (keyed vendor l))
      × (vendor_loop f datum vendor [] (sub_bytes l ++ t ∷ []) ≡ ok ((code (pos 26), datum) ∷ []))
      × (vendor_loop f datum vendor [] (sub_bytes l ++ t ∷ 0 ∷ rest) ≡ stuck)
unfolding vendor_loop
vendor_loop_ends l f t datum rest vendor enough =
    let size = length-append (sub_bytes l) (t ∷ 0 ∷ rest) in
    (
      ap (vendor_loop f datum vendor []) (sym (append-nil (sub_bytes l)))
          ∙ vendor_loop-subs l f datum [] vendor []
              (omega (arith, enough, size, length-append (sub_bytes l) [])),
      vendor_loop-subs l f datum (t ∷ []) vendor []
          (omega (arith, enough, size, length-append (sub_bytes l) (t ∷ []))),
      vendor_loop-subs l f datum (t ∷ 0 ∷ rest) vendor [] enough
          ∙ vendor_loop_zero (length (t ∷ 0 ∷ rest)) datum vendor (keyed vendor l) t rest,
    )
