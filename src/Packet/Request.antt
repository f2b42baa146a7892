-- ===== src/Packet/Request.antt =====
-- An accounting request that `create_raw_request` wrote is verified by the receiver.
pub mod Coa
pub mod Auth
use mathlib.Core.Path.{subst₂, ap₂}
use pyrad.Common.{
  ℕ, ◌≤◌, ◌≡◌, refl, sym, ◌∙◌, ap, true, none, some, [], ◌∷◌, ◌++◌, Bytes, Text, length,
  length-append, take, drop, drop-append, arith,
}
use pyrad.Common.Eq.{text_eq_iff}
use pyrad.Common.Result.{Result, ok, raise, stuck}
use pyrad.Common.Result
use pyrad.Common.Exec.{>>=-eq-ok}
use pyrad.Common.Dict.{HasDistinctKeys}
use pyrad.Dictionary.Types.{key_eq_instance}
use pyrad.Externals.{Externals}
use pyrad.Packet.State.{Kind, acct, Packet}
use pyrad.Packet.Encode.{encode_header, pkt_encode_attributes}
use pyrad.Packet.Decode.{decode_packet}
use pyrad.Packet.Decode.Attrs.{with_attrs}
use pyrad.Packet.Decode.RoundTrip.{IsPlain, marks, marks_keep}
use pyrad.Packet.Decode.Whole.{with_header, encode_header_shape, decode_packet-encode}
use pyrad.Packet.Raw.{zeros16, encoded, raw_acct_request, request_authenticator}
use pyrad.Packet.Authenticator.{create_raw_acct_request, refresh_if_set, keep_authenticator}
use pyrad.Packet.Authenticator.Verify.{raw_hash, verify_acct_request}
use pyrad.Packet.Create.Decoded.{IsDecoded, construct-written}
use pyrad.Packet.Create.{construct, from_wire, construct-from_wire, new_object}

-- An accounting request authenticator is a digest.
length-request_authenticator :
    (x : Externals) (header attr secret : Bytes)
    → length (request_authenticator x header attr secret) ≡ 16
unfolding request_authenticator
length-request_authenticator x header attr secret = x.length-md5 _

module _ (x : Externals) (draw : ℕ → ℕ) where
  -- The parts of a raw accounting request.
  pub record RawRequest (q : Packet) (raw : Bytes) : Type 0 where
    pub attr : Bytes
    pub header : Bytes
    pub attr_eq : encoded q ≡ ok attr
    pub header_eq : encode_header q attr ≡ ok header
    pub authenticator_eq : q.authenticator ≡ some (request_authenticator x header attr q.secret)
    pub raw_eq : raw ≡ header ++ (request_authenticator x header attr q.secret ++ attr)

  -- the packet with the authenticator that was just made
  abbrev authenticated : Bytes → Packet → Packet
  authenticated a t = record t { authenticator = some a }

  raw_shape :
      (t : Packet) (a raw : Bytes)
      → raw_acct_request x t ≡ ok (a, raw)
      → RawRequest (authenticated a t) raw
  unfolding raw_acct_request encoded encode_header
  raw_shape t a raw h =
      let (attr, e, h') = Result.>>=-eq-ok (encoded t) _ h in
      let (header, e', h'') = Result.>>=-eq-ok (encode_header t attr) _ h' in
      record {
        attr = attr;
        header = header;
        attr_eq = e;
        header_eq = e';
        authenticator_eq = cc h'';
        raw_eq = cc h'';
      }

  keep_shape :
      (t q' : Packet) (raw : Bytes) (r : Result (Bytes × Bytes))
      → raw_acct_request x t ≡ r
      → keep_authenticator x draw r t ≡ (ok raw, q')
      → RawRequest q' raw
  unfolding keep_authenticator
  keep_shape t q' raw (ok (a, b)) e h =
      subst₂ RawRequest (ap (λ (k : Result Bytes × Packet). k.1) h) (cc h) (raw_shape t a b e)
  keep_shape t q' raw (raise e) _ h = cc h
  keep_shape t q' raw stuck _ h = cc h

  pub create_raw_acct_request_shape :
      (q q' : Packet) (raw : Bytes)
      → create_raw_acct_request x draw q ≡ (ok raw, q')
      → RawRequest q' raw
  unfolding create_raw_acct_request
  create_raw_acct_request_shape q q' raw h =
      let (u, t, e, k) =
        >>=-eq-ok (refresh_if_set x draw)
          (λ (u : Unit {0}) (s : Packet). keep_authenticator x draw (raw_acct_request x s) s) q h in
      keep_shape t q' raw (raw_acct_request x t) refl k

  raw_hash-request :
      (raw header attr secret : Bytes) (c i u v : ℕ)
      → header ≡ c ∷ i ∷ u ∷ v ∷ []
      → raw ≡ c ∷ i ∷ u ∷ v ∷ (request_authenticator x header attr secret ++ attr)
      → raw_hash x raw secret ≡ request_authenticator x header attr secret
  unfolding raw_hash request_authenticator
  raw_hash-request raw header attr secret c i u v eh er =
      let a = request_authenticator x header attr secret in
      ap₂ (λ (front back : Bytes). x.md5 (front ++ (zeros16 ++ (back ++ secret))))
        (ap (take {A = ℕ} 4) er ∙ sym (ap (take {A = ℕ} 4) eh))
        (ap (drop {A = ℕ} 20) er
          ∙ drop-append 16 a attr (length-request_authenticator x header attr secret))

  verify_by :
      (r : Packet) (raw secret a : Bytes)
      → r.raw_packet ≡ some raw
      → r.secret ≡ secret
      → r.authenticator ≡ some a
      → raw_hash x raw secret ≡ a
      → verify_acct_request x r ≡ ok true
  unfolding verify_acct_request
  verify_by r raw secret a er es ea h = rw (er, es, ea, h) (ap ok ((text_eq_iff a a).1 refl))

  -- What a receiver's constructor makes of a raw request.
  abbrev pub IsReceived :
      (q : Packet) (raw : Bytes) → RawRequest q raw → Kind → Bytes → Text → Packet → Type 0
  IsReceived q raw w kind secret auth_type r =
      IsDecoded q kind secret (request_authenticator x w.header w.attr q.secret) raw auth_type r

  pub request_decodes :
      (q : Packet) (raw : Bytes) (w : RawRequest q raw) (kind : Kind) (c id : ℕ) (secret : Bytes)
      (auth_type : Text)
      → IsPlain q.dict q.attrs
      → HasDistinctKeys q.attrs
      → length raw ≤ 4096
      → (r : Packet) × (construct x draw kind c id secret none q.dict auth_type (from_wire raw)
          ≡ ok r)
        × IsReceived q raw w kind secret auth_type r
  request_decodes q raw w kind c id secret auth_type flat distinct short =
      let (shape, _, _, _) = encode_header_shape q w.attr w.header w.header_eq in
      let a = request_authenticator x w.header w.attr q.secret in
      construct-written x draw q raw w.attr a kind c id secret none auth_type w.attr_eq
        (w.raw_eq ∙ ap (λ (b : Bytes). b ++ (a ++ w.attr)) shape)
        (length-request_authenticator x w.header w.attr q.secret) flat distinct short

  -- the hash that a receiver computes of a raw request
  raw_hash-raw :
      (q : Packet) (raw : Bytes) (w : RawRequest q raw)
      → raw_hash x raw q.secret ≡ request_authenticator x w.header w.attr q.secret
  raw_hash-raw q raw w =
      let (shape, _, _, _) = encode_header_shape q w.attr w.header w.header_eq in
      let a = request_authenticator x w.header w.attr q.secret in
      raw_hash-request raw w.header w.attr q.secret _ _ _ _ shape
        (w.raw_eq ∙ ap (λ (b : Bytes). b ++ (a ++ w.attr)) shape)

  -- A received request that was made with the receiver's secret passes the verification.
  pub verify_acct_request-received :
      (q : Packet) (raw : Bytes) (w : RawRequest q raw) (auth_type : Text) (r : Packet)
      → IsReceived q raw w acct q.secret auth_type r
      → verify_acct_request x r ≡ ok true
  verify_acct_request-received q raw w auth_type r v =
      verify_by r raw q.secret _ v.raw_packet v.secret_eq v.authenticator_eq (raw_hash-raw q raw w)

  -- Let `create_raw_request` of the accounting packet `q` write `raw`. If the attributes of `q`
  -- are plain, with distinct keys, and `raw` has at most 4096 bytes, then `AcctPacket(secret,
  -- dict, packet=raw)` with the same secret and dictionary makes a packet with the code, the
  -- identifier and the attributes of `q`, and `verify_acct_request` accepts it.
  pub acct_request_verified :
      (q q' : Packet) (raw : Bytes) (c id : ℕ) (auth_type : Text)
      → create_raw_acct_request x draw q ≡ (ok raw, q')
      → IsPlain q'.dict q'.attrs
      → HasDistinctKeys q'.attrs
      → length raw ≤ 4096
      → (r : Packet) × (construct x draw acct c id q'.secret none q'.dict auth_type (from_wire raw)
          ≡ ok r)
        × (r.code ≡ q'.code)
        × (r.id ≡ q'.id)
        × (r.attrs ≡ q'.attrs)
        × (verify_acct_request x r ≡ ok true)
  acct_request_verified q q' raw c id auth_type h flat distinct short =
      let w = create_raw_acct_request_shape q q' raw h in
      let (r, made, v) =
        request_decodes q' raw w acct c id q'.secret auth_type flat distinct short in
      (r, made, v.code, v.id, v.attrs, verify_acct_request-received q' raw w auth_type r v)
