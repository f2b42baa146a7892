-- ===== src/Packet/Authenticator.antt =====
-- Message authenticators, request and reply authenticators of pyrad/packet.py, and the raw packets
-- that carry them.
pub mod Verify
pub mod Message
pub mod Keeping
use pyrad.Common.{
  ℕ, ◌≡◌, refl, ◌+◌, Bool, true, false, ◌||◌, Option, none, some, List, [], ◌∷◌, ◌++◌, Bytes, Text,
  codes, length, take, drop, slice, replicate, ◌==◌, if◌then◌else◌,
}
use pyrad.Common.Eq.{text_eq}
use pyrad.Common.Int.{ℤ, pos}
use pyrad.Common.Struct.{pack_uint}
use pyrad.Common.Result.{
  Result, ok, raise, stuck, value_error, type_error, attribute_error, no_authenticator,
  not_implemented, or_raise,
}
use pyrad.Common.Exec.{Exec, pure, lift, fail, modify, ◌>>=◌, ◌>>◌}
use pyrad.Externals.{Externals}
use pyrad.Encoding.{Value, bytes}
use pyrad.Packet.PacketCode
use pyrad.Packet.State.{Kind, plain, auth, acct, coa, Packet}
use pyrad.Packet.Encode.{encode_header}
use pyrad.Packet.Raw.{
  zeros16, encoded, raw_reply, raw_auth_request, raw_acct_request, request_authenticator,
}
use pyrad.Packet.Crypt.{ensure_authenticator}
use pyrad.Packet.Access.{set_item}

-- the codes whose message authenticator is made over sixteen zeros
unfoldable pub has_zero_authenticator : ℕ → Bool
has_zero_authenticator c =
    c == PacketCode.accounting_request
    || c == PacketCode.disconnect_request
    || c == PacketCode.coa_request
    || c == PacketCode.accounting_response

-- a truth test of `self.message_authenticator`, which is None or a bool
abbrev pub is_set : Option Bool → Bool
is_set none = false
is_set (some b) = b

abbrev set_authenticator : Bytes → Packet → Packet
set_authenticator a p = record p { authenticator = some a }

module _ (x : Externals) (draw : ℕ → ℕ) where
  set_message_authenticator : Bytes → Exec Packet (Unit {0})
  set_message_authenticator b = set_item x draw (codes "Message-Authenticator") (bytes b ∷ [])

  refresh_authenticator : Packet → Result Bytes
  unfolding has_zero_authenticator
  refresh_authenticator p =
      if has_zero_authenticator p.code
      then ok zeros16
      else or_raise no_authenticator p.authenticator

  -- `_refresh_message_authenticator`
  unfoldable pub refresh_message_authenticator : Exec Packet (Unit {0})
  unfolding set_message_authenticator refresh_authenticator
  refresh_message_authenticator = do
    set_message_authenticator zeros16
    attr ← λ p. (encoded p, p)
    header ← λ p. (encode_header p attr, p)
    a ← λ p. (refresh_authenticator p, p)
    λ p. set_message_authenticator (x.hmac_md5 p.secret (take 4 header ++ (a ++ attr))) p

  -- `if self.message_authenticator: self._refresh_message_authenticator()`
  unfoldable pub refresh_if_set : Exec Packet (Unit {0})
  refresh_if_set p =
      if is_set p.message_authenticator then refresh_message_authenticator p else (ok tt, p)

  -- `add_message_authenticator`; `random` is what `create_authenticator` returns
  unfoldable pub add_message_authenticator : Bytes → Exec Packet (Unit {0})
  unfolding set_message_authenticator
  add_message_authenticator random = do
    modify (λ p. record p { message_authenticator = some true })
    set_message_authenticator zeros16
    λ p. elim p.authenticator [
      | some a ↦ (ok tt, p)
      | none ↦
          if p.code == PacketCode.access_request
          then refresh_message_authenticator (set_authenticator random p)
          else (ok tt, p)
    ]

  -- `get_message_authenticator`: the value of the field, which is True or None
  unfoldable pub get_message_authenticator : Exec Packet (Option Bool)
  get_message_authenticator = do refresh_message_authenticator; λ p. (ok p.message_authenticator, p)

  unfoldable pub create_raw_reply : Exec Packet Bytes
  create_raw_reply p = elim p.authenticator [
    | none ↦ (raise value_error, p)
    | some a ↦ (do refresh_if_set; λ q. (raw_reply x q, q)) p
  ]

  -- `AuthPacket.create_raw_request`; `random` is what `create_authenticator` returns
  unfoldable pub create_raw_auth_request : Bytes → Exec Packet Bytes
  create_raw_auth_request random p =
      (do refresh_if_set; λ q. (raw_auth_request x q, q)) (ensure_authenticator x random p)

  unfoldable pub keep_authenticator : Result (Bytes × Bytes) → Exec Packet Bytes
  keep_authenticator (ok (a, raw)) p = (ok raw, set_authenticator a p)
  keep_authenticator (raise e) p = (raise e, p)
  keep_authenticator stuck p = (stuck, p)

  -- `AcctPacket.create_raw_request`
  unfoldable pub create_raw_acct_request : Exec Packet Bytes
  create_raw_acct_request = do refresh_if_set; λ q. keep_authenticator (raw_acct_request x q) q

  -- `CoAPacket.create_raw_request`: the header is that of the first encoding
  unfoldable pub create_raw_coa_request : Exec Packet Bytes
  create_raw_coa_request = do
    attr ← λ p. (encoded p, p)
    header ← λ p. (encode_header p attr, p)
    modify (λ p. set_authenticator (request_authenticator x header attr p.secret) p)
    attr' ← λ p.
        if is_set p.message_authenticator
        then (do
          refresh_message_authenticator
          attr' ← λ q. (encoded q, q)
          modify (λ q. set_authenticator (request_authenticator x header attr' q.secret) q)
          pure attr')
            p
        else (ok attr, p)
    λ p. elim p.authenticator [
      | none ↦ (raise type_error, p)
      | some a ↦ (ok (header ++ (a ++ attr')), p)
    ]

  request_of : Kind → Bytes → Exec Packet Bytes
  request_of plain random = fail not_implemented
  request_of auth random = create_raw_auth_request random
  request_of acct random = create_raw_acct_request
  request_of coa random = create_raw_coa_request

  -- `pkt.create_raw_request()`, by the class of the packet
  unfoldable pub create_raw_request : Bytes → Exec Packet Bytes
  unfolding request_of
  create_raw_request random p = request_of p.kind random p

  pub create_raw_request-acct :
      (random : Bytes) (p : Packet)
      → p.kind ≡ acct
      → create_raw_request random p ≡ create_raw_acct_request p
  unfolding create_raw_request request_of
  create_raw_request-acct random p h = rw h refl

  pub create_raw_request-coa :
      (random : Bytes) (p : Packet)
      → p.kind ≡ coa
      → create_raw_request random p ≡ create_raw_coa_request p
  unfolding create_raw_request request_of
  create_raw_request-coa random p h = rw h refl

  pub create_raw_request-auth :
      (random : Bytes) (p : Packet)
      → p.kind ≡ auth
      → create_raw_request random p ≡ create_raw_auth_request random p
  unfolding create_raw_request request_of
  create_raw_request-auth random p h = rw h refl
