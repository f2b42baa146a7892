-- ===== src/Examples/FakeServerAsync/Silent.antt =====
-- Genuine accounting requests to the server of example/server_async.py.
use pyrad.Common.{ℕ, ◌≤◌, ◌≡◌, refl, none, some, Bytes, Text, length}
use pyrad.Common.Result.{ok, verification_failed}
use pyrad.Common.Dict.{Dict, HasDistinctKeys}
use pyrad.Dictionary.Types.{key_eq_instance}
use pyrad.Externals.{Externals}
use pyrad.Packet.PacketCode
use pyrad.Packet.State.{Packet}
use pyrad.Packet.Decode.RoundTrip.{IsPlain}
use pyrad.Packet.Authenticator.{create_raw_acct_request}
use pyrad.Host.{RemoteHost}
use pyrad.ServerAsync.{Protocol, for_acct, rejected, find_host, datagram_received}
use pyrad.ServerAsync.Verification.{genuine_request_rejected}
use pyrad.Examples.FakeServerAsync.{make_protocol, respond, answer_to}

module _ (x : Externals) (draw : ℕ → ℕ) (id : ℕ) where
  respond-rejected :
      (s : Protocol) (datum : Bytes) (addr : Text)
      → datagram_received x draw id s datum addr ≡ rejected verification_failed
      → respond x draw id s datum addr ≡ ok none
  unfolding respond answer_to
  respond-rejected s datum addr h = rw h refl

  -- The server of example/server_async.py answers nothing to a genuine accounting request: code 4,
  -- written by `create_raw_request` with plain attributes and distinct keys in at most 4096 bytes,
  -- with the dictionary of the server and the secret that it has for the sender.
  pub genuine_request_unanswered :
      (q q' : Packet) (raw : Bytes) (hosts : Dict Text RemoteHost) (addr : Text) (h : RemoteHost)
      → create_raw_acct_request x draw q ≡ (ok raw, q')
      → q'.code ≡ PacketCode.accounting_request
      → IsPlain q'.dict q'.attrs
      → HasDistinctKeys q'.attrs
      → length raw ≤ 4096
      → find_host hosts addr ≡ some h
      → h.secret ≡ q'.secret
      → respond x draw id (make_protocol for_acct hosts q'.dict) raw addr ≡ ok none
  unfolding make_protocol
  genuine_request_unanswered q q' raw hosts addr h written code flat distinct short host secret =
      respond-rejected (make_protocol for_acct hosts q'.dict) raw addr
        (genuine_request_rejected x draw id q q' raw (make_protocol for_acct hosts q'.dict) addr h
          written code flat distinct short refl refl host secret refl).0
