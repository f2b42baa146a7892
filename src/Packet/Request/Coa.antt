-- ===== src/Packet/Request/Coa.antt =====
-- A CoA or disconnect request that `create_raw_request` wrote is verified by the receiver.
use mathlib.Core.Path.{subst}
use pyrad.Common.{
  sym, ◌≤◌, ◌≡◌, refl, ℕ, ◌∙◌, ap, true, false, none, ◌++◌, Bytes, Text, length, arith,
}
use pyrad.Common.Result.{Result, ok, raise, stuck}
use pyrad.Common.Dict.{HasDistinctKeys}
use pyrad.Dictionary.Types.{key_eq_instance}
use pyrad.Externals.{Externals}
use pyrad.Packet.State.{coa, Packet}
use pyrad.Packet.Encode.{encode_header}
use pyrad.Packet.Decode.RoundTrip.{IsPlain}
use pyrad.Packet.Raw.{encoded, request_authenticator}
use pyrad.Packet.Authenticator.{create_raw_coa_request, is_set}
use pyrad.Packet.Authenticator.Verify.{verify_coa_request, verify_acct_request}
use pyrad.Packet.Create.{construct, from_wire}
use pyrad.Packet.Request.{
  RawRequest, IsReceived, request_decodes, verify_by, raw_hash-raw, authenticated,
}

module _ (x : Externals) (draw : ℕ → ℕ) where
  coa_shape :
      (q q' : Packet) (raw attr header : Bytes)
      → encoded q ≡ ok attr
      → encode_header q attr ≡ ok header
      → authenticated x draw (request_authenticator x header attr q.secret) q ≡ q'
      → header ++ (request_authenticator x header attr q.secret ++ attr) ≡ raw
      → RawRequest x draw q' raw
  unfolding encoded encode_header
  coa_shape q q' raw attr header e e' same written =
      subst (λ k. RawRequest x draw k raw) same
        (record {
          attr = attr;
          header = header;
          attr_eq = e;
          header_eq = e';
          authenticator_eq = refl;
          raw_eq = sym written;
        })

  -- without a message authenticator: the bytes, by the attributes and the header
  raw_coa_request :
      (q : Packet) (attr header : Bytes)
      → is_set q.message_authenticator ≡ false
      → encoded q ≡ ok attr
      → encode_header q attr ≡ ok header
      → create_raw_coa_request x draw q ≡ (
        ok (header ++ (request_authenticator x header attr q.secret ++ attr)),
        authenticated x draw (request_authenticator x header attr q.secret) q,
      )
  unfolding create_raw_coa_request
  raw_coa_request q attr header unmarked e e' = rw (e, e', unmarked) refl

  by_header :
      (q q' : Packet) (raw attr : Bytes) (r : Result Bytes)
      → is_set q.message_authenticator ≡ false
      → encoded q ≡ ok attr
      → encode_header q attr ≡ r
      → create_raw_coa_request x draw q ≡ (ok raw, q')
      → RawRequest x draw q' raw
  unfolding create_raw_coa_request
  by_header q q' raw attr (ok header) unmarked e e' h =
      let same = sym (raw_coa_request q attr header unmarked e e') ∙ h in
      coa_shape q q' raw attr header e e' (ap (λ (r : Result Bytes × Packet). r.1) same) (cc same)
  by_header q q' raw attr (raise err) unmarked e e' h = absurd (ground arith)
  by_header q q' raw attr stuck unmarked e e' h = absurd (ground arith)

  by_attributes :
      (q q' : Packet) (raw : Bytes) (r : Result Bytes)
      → is_set q.message_authenticator ≡ false
      → encoded q ≡ r
      → create_raw_coa_request x draw q ≡ (ok raw, q')
      → RawRequest x draw q' raw
  unfolding create_raw_coa_request
  by_attributes q q' raw (ok attr) unmarked e h =
      by_header q q' raw attr (encode_header q attr) unmarked e refl h
  by_attributes q q' raw (raise err) unmarked e h = absurd (ground arith)
  by_attributes q q' raw stuck unmarked e h = absurd (ground arith)

  pub create_raw_coa_request_shape :
      (q q' : Packet) (raw : Bytes)
      → is_set q.message_authenticator ≡ false
      → create_raw_coa_request x draw q ≡ (ok raw, q')
      → RawRequest x draw q' raw
  create_raw_coa_request_shape q q' raw unmarked h =
      by_attributes q q' raw (encoded q) unmarked refl h

  -- the two verifications compute the same
  verify_coa_request-acct : (r : Packet) → verify_coa_request x r ≡ verify_acct_request x r
  unfolding verify_coa_request verify_acct_request
  verify_coa_request-acct r = refl

  -- A received request that was made with the receiver's secret passes the verification.
  pub verify_coa_request-received :
      (q : Packet) (raw : Bytes) (w : RawRequest x draw q raw) (auth_type : Text) (r : Packet)
      → IsReceived x draw q raw w coa q.secret auth_type r
      → verify_coa_request x r ≡ ok true
  verify_coa_request-received q raw w auth_type r v =
      verify_coa_request-acct r
      ∙ verify_by x draw r raw q.secret _ v.raw_packet v.secret_eq v.authenticator_eq
          (raw_hash-raw x draw q raw w)

  -- Let `create_raw_request` of the CoA packet `q`, which has no message authenticator to make,
  -- write `raw`. If the attributes of `q` are plain, with distinct keys, and `raw` has at most 4096
  -- bytes, then `CoAPacket(secret, dict, packet=raw)` with the same secret and dictionary makes a
  -- packet with the code, the identifier and the attributes of `q`, and `verify_coa_request`
  -- accepts it.
  pub coa_request_verified :
      (q q' : Packet) (raw : Bytes) (c id : ℕ) (auth_type : Text)
      → is_set q.message_authenticator ≡ false
      → create_raw_coa_request x draw q ≡ (ok raw, q')
      → IsPlain q'.dict q'.attrs
      → HasDistinctKeys q'.attrs
      → length raw ≤ 4096
      → (r : Packet) × (construct x draw coa c id q'.secret none q'.dict auth_type (from_wire raw)
          ≡ ok r)
        × (r.code ≡ q'.code)
        × (r.id ≡ q'.id)
        × (r.attrs ≡ q'.attrs)
        × (verify_coa_request x r ≡ ok true)
  coa_request_verified q q' raw c id auth_type unmarked h flat distinct short =
      let w = create_raw_coa_request_shape q q' raw unmarked h in
      let (r, made, v) =
        request_decodes x draw q' raw w coa c id q'.secret auth_type flat distinct short in
      (r, made, v.code, v.id, v.attrs, verify_coa_request-received q' raw w auth_type r v)
