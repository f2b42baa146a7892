-- ===== src/Packet/Raw.antt =====
-- The parts of `create_raw_reply` and of the `create_raw_request`s of pyrad/packet.py that change
-- nothing: the bytes of a packet whose fields are set.
use pyrad.Common.{ℕ, ◌+◌, ◌∷◌, ◌++◌, Bytes, codes, length, take, replicate, if◌then◌else◌}
use pyrad.Common.Eq.{text_eq}
use pyrad.Common.Int.{pos}
use pyrad.Common.Struct.{pack_uint}
use pyrad.Common.Result.{Result, ok, type_error, or_raise, ◌>>=◌}
use pyrad.Externals.{Externals}
use pyrad.Packet.State.{Packet}
use pyrad.Packet.Encode.{pkt_encode_attributes, encode_header}

abbrev pub zeros16 : Bytes
zeros16 = replicate 16 0

-- `self._pkt_encode_attributes()`
unfoldable pub encoded : Packet → Result Bytes
encoded p = pkt_encode_attributes p.dict p.attrs

-- `struct.pack('16s', b)`: cut or filled with zeros
unfoldable pub field16 : Bytes → Bytes
field16 b = take 16 (b ++ zeros16)

-- `struct.pack('!BBH16s', self.code, self.id, n, self.authenticator)`
unfoldable pub auth_header : ℕ → Packet → Result Bytes
unfolding field16
auth_header n p = do
  c ← pack_uint 1 (pos p.code)
  i ← pack_uint 1 (pos p.id)
  l ← pack_uint 2 (pos n)
  a ← or_raise type_error p.authenticator
  ok (c ++ (i ++ (l ++ field16 a)))

module _ (x : Externals) where
  -- the end of `create_raw_reply`
  unfoldable pub raw_reply : Packet → Result Bytes
  raw_reply q = do
    attr ← encoded q
    header ← encode_header q attr
    a ← or_raise type_error q.authenticator
    ok (header ++ (x.md5 (take 4 header ++ (a ++ (attr ++ q.secret))) ++ attr))

  -- the request of `AuthPacket`; for EAP a message authenticator stands behind the attributes
  unfoldable pub raw_auth_request : Packet → Result Bytes
  raw_auth_request q = do
    attr ← encoded q
    if text_eq q.auth_type (codes "eap-md5")
        then (do
          header ← auth_header (20 + 18 + length attr) q
          ok (
              header
              ++ (attr ++ (80 ∷ 18 ∷ x.hmac_md5 q.secret (header ++ (attr ++ 80 ∷ 18 ∷ zeros16))))))
        else (do header ← auth_header (20 + length attr) q; ok (header ++ attr))

  -- `md5(header[0:4] + 16 * b'\x00' + attr + self.secret).digest()`
  unfoldable pub request_authenticator : Bytes → Bytes → Bytes → Bytes
  request_authenticator header attr secret = x.md5 (take 4 header ++ (zeros16 ++ (attr ++ secret)))

  -- the request of `AcctPacket`: its authenticator and the raw packet
  unfoldable pub raw_acct_request : Packet → Result (Bytes × Bytes)
  unfolding request_authenticator
  raw_acct_request q = do
    attr ← encoded q
    header ← encode_header q attr
    let a = request_authenticator header attr q.secret
    ok (a, header ++ (a ++ attr))
