-- ===== src/Packet/Reply/Empty.antt =====
-- Replies without attributes, as `create_reply` makes them without keyword arguments.
use pyrad.Common.{
  ℕ, ◌≤◌, ◌<◌, ◌≡◌, refl, none, some, [], ◌∷◌, ◌++◌, Bytes, length, length-append, take, arith,
}
use pyrad.Common.Struct.{be, pack_uint}
use pyrad.Common.Result.{ok}
use pyrad.Externals.{Externals}
use pyrad.Packet.State.{Packet}
use pyrad.Packet.Encode.{pkt_encode_attributes, encode_header}
use pyrad.Packet.Raw.{encoded, raw_reply}
use pyrad.Packet.Authenticator.{create_raw_reply, refresh_if_set}
use pyrad.Packet.Create.{create_reply, construct, initialize, new_object, reply_code, no_args}

-- the header of a packet without attributes
empty_header :
    (q : Packet) → q.code < 256 → q.id < 256 → encode_header q [] ≡ ok (q.code ∷ q.id ∷ 0 ∷ 20 ∷ [])
unfolding encode_header pack_uint be
empty_header q c i = ground arith

module _ (x : Externals) (draw : ℕ → ℕ) where
  -- the reply that `create_reply()` makes
  abbrev pub empty_reply : Packet → Packet
  empty_reply p =
      new_object p.kind (reply_code p.kind) p.id p.secret p.authenticator p.dict p.auth_type none

  pub create_reply-no_args : (p : Packet) → create_reply x draw p no_args ≡ ok (empty_reply p)
  unfolding create_reply construct initialize
  create_reply-no_args p = refl

  -- A packet without attributes and without a message authenticator to make is written as twenty
  -- bytes, and stays as it is.
  pub create_raw_reply-empty :
      (q : Packet) (a : Bytes)
      → q.authenticator ≡ some a
      → q.message_authenticator ≡ none
      → q.attrs ≡ []
      → q.code < 256
      → q.id < 256
      → (raw : Bytes) × (create_raw_reply x draw q ≡ (ok raw, q)) × (length raw ≤ 4096)
  unfolding create_raw_reply refresh_if_set raw_reply encoded pkt_encode_attributes encode_header
  create_raw_reply-empty q a ha hm hat hc hi =
      let header = q.code ∷ q.id ∷ 0 ∷ 20 ∷ [] in
      let response = x.md5 (take 4 header ++ (a ++ ([] ++ q.secret))) in
      (
        header ++ (response ++ []),
        rw (ha, hm, hat, empty_header q hc hi) refl,
        omega (
          arith,
          length-append response [],
          x.length-md5 (take 4 header ++ (a ++ ([] ++ q.secret))),
        ),
      )
