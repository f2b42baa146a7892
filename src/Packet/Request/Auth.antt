-- ===== src/Packet/Request/Auth.antt =====
-- An access request that `create_raw_request` of AuthPacket wrote decodes to its parts.
use pyrad.Common.{
  ℕ, ◌+◌, ◌/◌, ◌%◌, ◌≤◌, ◌<◌, ◌≡◌, refl, sym, ◌∙◌, ap, false, none, some, ◌∷◌, ◌++◌, Bytes, Text,
  codes, length, take-append, arith,
}
use pyrad.Common.Eq.{text_eq}
use pyrad.Common.Result
use pyrad.Common.Result.{Result, ok, type_error, or_raise}
use pyrad.Common.Exec.{>>=-eq-ok}
use pyrad.Common.Dict.{HasDistinctKeys}
use pyrad.Common.Struct.{pack_uint, be}
use pyrad.Dictionary.Types.{key_eq_instance}
use pyrad.Externals.{Externals}
use pyrad.Packet.State.{Kind, Packet}
use pyrad.Packet.Decode.RoundTrip.{IsPlain}
use pyrad.Packet.Raw.{zeros16, field16, encoded, auth_header, raw_auth_request}
use pyrad.Packet.Crypt.{ensure_authenticator}
use pyrad.Packet.Authenticator.{create_raw_auth_request, refresh_if_set}
use pyrad.Packet.Create.{construct, from_wire}
use pyrad.Packet.Create.Decoded.{IsDecoded, construct-written}

-- The parts of a raw access request: header, authenticator and attributes.
pub record RawAuthRequest (q : Packet) (raw authenticator : Bytes) : Type 0 where
  pub attr : Bytes
  pub attr_eq : encoded q ≡ ok attr
  pub small_id : q.id < 256
  pub raw_eq :
      raw
      ≡ q.code
        ∷ q.id
        ∷ ((20 + length attr) / 256)
        ∷ ((20 + length attr) % 256)
        ∷ (authenticator ++ attr)

field16-full : (a : Bytes) → length a ≡ 16 → field16 a ≡ a
unfolding field16
field16-full a len = take-append 16 a zeros16 len

auth_header_shape :
    (n : ℕ) (q : Packet) (a header : Bytes)
    → q.authenticator ≡ some a
    → length a ≡ 16
    → auth_header n q ≡ ok header
    → (header ≡ q.code ∷ q.id ∷ (n / 256) ∷ (n % 256) ∷ a) × (q.id < 256)
unfolding auth_header pack_uint be
auth_header_shape n q a header there len h = (ground (arith, field16-full a len), ground arith)

module _ (x : Externals) (draw : ℕ → ℕ) where
  raw_auth_request_shape :
      (q : Packet) (raw a : Bytes)
      → raw_auth_request x q ≡ ok raw
      → q.auth_type ≡ codes "pap"
      → q.authenticator ≡ some a
      → length a ≡ 16
      → RawAuthRequest q raw a
  unfolding raw_auth_request
  raw_auth_request_shape q raw a h pap there len =
      let (attr, e, h') = Result.>>=-eq-ok (encoded q) _ h in
      let no_eap : text_eq q.auth_type (codes "eap-md5") ≡ false = rw pap refl in
      let written = rw no_eap at h' in
      let (header, e', h'') = Result.>>=-eq-ok (auth_header (20 + length attr) q) _ written in
      let (shape, small) = auth_header_shape (20 + length attr) q a header there len e' in
      record {
        attr = attr;
        attr_eq = unfold encoded in e;
        small_id = small;
        raw_eq = sym (cc h'') ∙ ap (λ (b : Bytes). b ++ attr) shape;
      }

  -- The bytes come from the packet as it is left.
  pub create_raw_auth_request_shape :
      (p q : Packet) (random raw a : Bytes)
      → create_raw_auth_request x draw random p ≡ (ok raw, q)
      → q.auth_type ≡ codes "pap"
      → q.authenticator ≡ some a
      → length a ≡ 16
      → RawAuthRequest q raw a
  unfolding create_raw_auth_request
  create_raw_auth_request_shape p q random raw a h pap there len =
      let (u, t, e, k) =
        >>=-eq-ok (refresh_if_set x draw) (λ (u : Unit {0}) (s : Packet). (raw_auth_request x s, s))
          (ensure_authenticator x random p) h in
      let same : t ≡ q = ap (λ (r : Result Bytes × Packet). r.1) k in
      raw_auth_request_shape q raw a (rw same at (ap (λ (r : Result Bytes × Packet). r.0) k)) pap
        there len

  pub auth_request_decodes :
      (q : Packet) (raw a : Bytes) (kind : Kind) (c id : ℕ) (secret : Bytes) (auth_type : Text)
      → RawAuthRequest q raw a
      → length a ≡ 16
      → IsPlain q.dict q.attrs
      → HasDistinctKeys q.attrs
      → length raw ≤ 4096
      → (r : Packet) × (construct x draw kind c id secret none q.dict auth_type (from_wire raw)
          ≡ ok r)
        × IsDecoded q kind secret a raw auth_type r
  auth_request_decodes q raw a kind c id secret auth_type w len flat distinct short =
      construct-written x draw q raw w.attr a kind c id secret none auth_type w.attr_eq w.raw_eq len
        flat distinct short
