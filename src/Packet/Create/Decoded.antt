-- ===== src/Packet/Create/Decoded.antt =====
-- What a constructor makes of a raw packet that this library wrote.
use pyrad.Common.{
  ℕ, ◌+◌, ◌/◌, ◌%◌, ◌≤◌, ◌≡◌, refl, ◌∙◌, ap, Option, none, some, ◌∷◌, ◌++◌, Bytes, Text, length,
  length-append, arith,
}
use pyrad.Common.Result.{ok}
use pyrad.Common.Dict.{HasDistinctKeys}
use pyrad.Dictionary.Types.{key_eq_instance}
use pyrad.Externals.{Externals}
use pyrad.Packet.State.{Kind, plain, Packet}
use pyrad.Packet.Decode.{decode_packet}
use pyrad.Packet.Decode.Attrs.{with_attrs}
use pyrad.Packet.Decode.RoundTrip.{IsPlain, marks, marks_keep}
use pyrad.Packet.Decode.Whole.{with_header, decode_packet-encode}
use pyrad.Packet.Raw.{encoded}
use pyrad.Packet.Create.{construct, from_wire, construct-from_wire, new_object}

-- The packet `r` of class `kind` has the parts of `q`, the authenticator of the raw packet, and the
-- secret that the constructor got.
pub record IsDecoded (q : Packet) (kind : Kind) (secret authenticator raw : Bytes)
    (auth_type : Text) (r : Packet) : Type 0 where
  pub kind_eq : r.kind ≡ kind
  pub dict : r.dict ≡ q.dict
  pub code : r.code ≡ q.code
  pub id : r.id ≡ q.id
  pub secret_eq : r.secret ≡ secret
  pub attrs : r.attrs ≡ q.attrs
  pub authenticator_eq : r.authenticator ≡ some authenticator
  pub auth_type_eq : r.auth_type ≡ auth_type
  pub raw_packet : r.raw_packet ≡ elim kind [ plain ↦ none | _ ↦ some raw ]

module _ (x : Externals) (draw : ℕ → ℕ) where
  -- A header, an authenticator and the attributes of `q` decode to a packet with the parts of `q`.
  pub construct-written :
      (q : Packet) (raw attr authenticator : Bytes) (kind : Kind) (c id : ℕ) (secret : Bytes)
      (own : Option Bytes) (auth_type : Text)
      → encoded q ≡ ok attr
      → raw
        ≡ q.code
          ∷ q.id
          ∷ ((20 + length attr) / 256)
          ∷ ((20 + length attr) % 256)
          ∷ (authenticator ++ attr)
      → length authenticator ≡ 16
      → IsPlain q.dict q.attrs
      → HasDistinctKeys q.attrs
      → length raw ≤ 4096
      → (r : Packet) × (construct x draw kind c id secret own q.dict auth_type (from_wire raw)
          ≡ ok r)
        × IsDecoded q kind secret authenticator raw auth_type r
  construct-written q raw attr authenticator kind c id secret own auth_type e whole len flat
        distinct short =
      let o : Packet = new_object kind c id secret own q.dict auth_type (some raw) in
      let h = with_header q.code q.id authenticator o in
      let decoded =
        ap (λ (b : Bytes). decode_packet b o) whole
        ∙ decode_packet-encode q.code q.id authenticator attr q.attrs o len
            (omega (arith, ap (length {A = ℕ}) whole, length-append authenticator attr, len)) flat
            distinct (unfold encoded in e) in
      let keep = marks_keep q.attrs h in
      let r = with_attrs q.attrs (marks q.attrs h) in
      (
        r,
        construct-from_wire x draw kind c id secret own q.dict auth_type raw r decoded,
        record {
          kind_eq = ap (λ (k : Packet). k.kind) keep;
          dict = ap (λ (k : Packet). k.dict) keep;
          code = ap (λ (k : Packet). k.code) keep;
          id = ap (λ (k : Packet). k.id) keep;
          secret_eq = ap (λ (k : Packet). k.secret) keep;
          attrs = refl;
          authenticator_eq = ap (λ (k : Packet). k.authenticator) keep;
          auth_type_eq = ap (λ (k : Packet). k.auth_type) keep;
          raw_packet = ap (λ (k : Packet). k.raw_packet) keep;
        },
      )
