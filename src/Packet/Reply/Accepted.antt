-- ===== src/Packet/Reply/Accepted.antt =====
-- A reply that `create_raw_reply` wrote is accepted by the packet that it answers.
use pyrad.Common.{
  ℕ, ◌≤◌, ◌≡◌, refl, ◌∙◌, ap, true, Option, some, ◌++◌, Bytes, Text, length, take, take-append,
  drop-append, take_of_length-le, arith, inl, inr, Option-cases, ==_iff,
}
use pyrad.Common.Eq.{text_eq_iff}
use pyrad.Common.Result.{Result, ok, raise, value_error, type_error, or_raise, or_raise-eq-ok}
use pyrad.Common.Result
use pyrad.Common.Exec.{>>=-eq-ok}
use pyrad.Common.Dict.{HasDistinctKeys}
use pyrad.Dictionary.Types.{key_eq_instance}
use pyrad.Externals.{Externals}
use pyrad.Packet.State.{Kind, Packet}
use pyrad.Packet.Encode.{encode_header}
use pyrad.Packet.Decode.RoundTrip.{IsPlain}
use pyrad.Packet.Decode.Whole.{encode_header_shape}
use pyrad.Packet.Raw.{encoded, raw_reply}
use pyrad.Packet.Authenticator.{create_raw_reply, refresh_if_set}
use pyrad.Packet.Authenticator.Verify.{reply_matches}
use pyrad.Packet.Create.Decoded.{IsDecoded, construct-written}
use pyrad.Packet.Create.{construct, create_reply, from_wire, reply_code}
use pyrad.Packet.Reply.{verify_reply}

module _ (x : Externals) (draw : ℕ → ℕ) where
  -- The parts of a raw reply: the header, the response authenticator over the authenticator that
  -- the packet has, and the attributes.
  pub record RawReply (q : Packet) (raw : Bytes) : Type 0 where
    pub attr : Bytes
    pub header : Bytes
    pub authenticator : Bytes
    pub attr_eq : encoded q ≡ ok attr
    pub header_eq : encode_header q attr ≡ ok header
    pub authenticator_eq : q.authenticator ≡ some authenticator
    pub raw_eq :
        raw ≡ header ++ (x.md5 (take 4 header ++ (authenticator ++ (attr ++ q.secret))) ++ attr)

  raw_reply_shape : (q : Packet) (raw : Bytes) → raw_reply x q ≡ ok raw → RawReply q raw
  unfolding raw_reply
  raw_reply_shape q raw h =
      let (attr, e, h') = Result.>>=-eq-ok (encoded q) _ h in
      let (header, e', h'') = Result.>>=-eq-ok (encode_header q attr) _ h' in
      let (a, e'', h₃) = Result.>>=-eq-ok (or_raise type_error q.authenticator) _ h'' in
      record {
        attr = attr;
        header = header;
        authenticator = a;
        attr_eq = e;
        header_eq = e';
        authenticator_eq = or_raise-eq-ok type_error q.authenticator a e'';
        raw_eq = cc h₃;
      }

  -- Whatever `create_raw_reply` refreshed first, the bytes come from the packet as it is left.
  pub create_raw_reply_shape :
      (q q' : Packet) (raw : Bytes) → create_raw_reply x draw q ≡ (ok raw, q') → RawReply q' raw
  unfolding create_raw_reply
  create_raw_reply_shape q q' raw h = elim (Option-cases q.authenticator) [
    | inl missing ↦ ground arith
    | inr (a, there) ↦
        let (u, t, e, k) =
          >>=-eq-ok (refresh_if_set x draw) (λ (u : Unit {0}) (s : Packet). (raw_reply x s, s)) q
            (rw (there, create_raw_reply) at h) in
        raw_reply_shape q' raw (
          rw (ap (λ (r : Result Bytes × Packet). r.1) k) at
            (ap (λ (r : Result Bytes × Packet). r.0) k))
  ]

  -- The check of `verify_reply` on the bytes and the attributes of a raw reply, by a packet with its
  -- secret and its authenticator.
  reply_matches-raw :
      (p q : Packet) (raw : Bytes) (r : RawReply q raw)
      → q.secret ≡ p.secret
      → q.authenticator ≡ p.authenticator
      → reply_matches x p raw r.attr ≡ ok true
  unfolding reply_matches
  reply_matches-raw p q raw r hs ha =
      let (shape, _, _, _) = encode_header_shape q r.attr r.header r.header_eq in
      let response = x.md5 (take 4 r.header ++ (r.authenticator ++ (r.attr ++ q.secret))) in
      rw
        (
          r.raw_eq,
          ← ha,
          r.authenticator_eq,
          ← hs,
          take-append 4 r.header (response ++ r.attr) (ap (length {A = ℕ}) shape),
          drop-append 4 r.header (response ++ r.attr) (ap (length {A = ℕ}) shape),
          take-append 16 response r.attr (x.length-md5 _),
        )
        (rw (take_of_length-le 4 r.header (omega (arith, ap (length {A = ℕ}) shape))) (
          ap ok (
            (text_eq_iff (x.md5 (r.header ++ (r.authenticator ++ (r.attr ++ q.secret)))) _).1
              refl)))

  -- A reply with the identifier and the encoding of the raw reply passes the verification.
  verify_reply_by :
      (p r : Packet) (raw attr : Bytes)
      → r.id ≡ p.id
      → encoded r ≡ ok attr
      → reply_matches x p raw attr ≡ ok true
      → verify_reply x draw p (some raw) r ≡ (ok true, r)
  unfolding verify_reply
  verify_reply_by p r raw attr hi he hm = rw ((==_iff r.id p.id).1 hi, he, hm)

  pub verify_reply-raw :
      (p q r : Packet) (raw : Bytes)
      → RawReply q raw
      → q.secret ≡ p.secret
      → q.authenticator ≡ p.authenticator
      → r.id ≡ p.id
      → r.dict ≡ q.dict
      → r.attrs ≡ q.attrs
      → verify_reply x draw p (some raw) r ≡ (ok true, r)
  unfolding encoded
  verify_reply-raw p q r raw w hs ha hi hd hat =
      verify_reply_by p r raw w.attr hi (rw (hd, hat) w.attr_eq) (reply_matches-raw p q raw w hs ha)

  pub written_reply_decodes :
      (q : Packet) (raw : Bytes) (kind : Kind) (c id : ℕ) (secret : Bytes)
      (authenticator : Option Bytes) (auth_type : Text) (w : RawReply q raw)
      → IsPlain q.dict q.attrs
      → HasDistinctKeys q.attrs
      → length raw ≤ 4096
      → (r : Packet) × (construct x draw kind c id secret authenticator q.dict auth_type
            (from_wire raw)
          ≡ ok r)
        × IsDecoded q kind secret
            (x.md5 (take 4 w.header ++ (w.authenticator ++ (w.attr ++ q.secret))))
            raw
            auth_type
            r
  written_reply_decodes q raw kind c id secret authenticator auth_type w flat distinct short =
      let (shape, _, _, _) = encode_header_shape q w.attr w.header w.header_eq in
      let response = x.md5 (take 4 w.header ++ (w.authenticator ++ (w.attr ++ q.secret))) in
      construct-written x draw q raw w.attr response kind c id secret authenticator auth_type
        w.attr_eq (w.raw_eq ∙ ap (λ (b : Bytes). b ++ (response ++ w.attr)) shape) (x.length-md5 _)
        flat distinct short

  -- Let `create_raw_reply` of `q` write `raw`, and let `p` have the identifier, the secret, the
  -- authenticator and the dictionary of `q`. If the attributes of `q` are plain (each a list of at
  -- least one value under a code other than 26 or a pair, and no tlv, or a tlv under the key of an
  -- attribute of the dictionary other than 26 and 80, with distinct codes and at least one value
  -- for each) with distinct keys, and `raw` has at most 4096 bytes, then
  -- `create_reply(packet=raw)` of `p` makes a packet with the code, the identifier and the
  -- attributes of `q`, and `verify_reply` accepts it.
  pub reply_accepted :
      (p q q' : Packet) (raw : Bytes)
      → create_raw_reply x draw q ≡ (ok raw, q')
      → q'.id ≡ p.id
      → q'.secret ≡ p.secret
      → q'.authenticator ≡ p.authenticator
      → q'.dict ≡ p.dict
      → IsPlain q'.dict q'.attrs
      → HasDistinctKeys q'.attrs
      → length raw ≤ 4096
      → (r : Packet) × (create_reply x draw p (from_wire raw) ≡ ok r)
        × (r.code ≡ q'.code)
        × (r.id ≡ q'.id)
        × (r.attrs ≡ q'.attrs)
        × (verify_reply x draw p (some raw) r ≡ (ok true, r))
  unfolding create_reply
  reply_accepted p q q' raw h hi hs ha hd plain distinct short =
      let w = create_raw_reply_shape q q' raw h in
      let (r, made, v) =
        written_reply_decodes q' raw p.kind (reply_code p.kind) p.id p.secret p.authenticator
          p.auth_type w plain distinct short in
      (
        r,
        rw (← hd) made,
        v.code,
        v.id,
        v.attrs,
        verify_reply-raw p q' r raw w hs ha (v.id ∙ hi) v.dict v.attrs,
      )
