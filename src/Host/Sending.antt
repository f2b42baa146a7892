-- ===== src/Host/Sending.antt =====
-- `send_packet` and `send_reply_packet` of pyrad/host.py: what they give to `fd.sendto`.
use pyrad.Common.{ℕ, ◌≡◌, refl, Bytes, Text}
use pyrad.Common.Result.{ok, attribute_error}
use pyrad.Common.Exec.{Exec, pure, fail, ◌>>=◌}
use pyrad.Externals.{Externals}
use pyrad.Packet.State.{Packet}
use pyrad.Packet.Authenticator.{create_raw_reply}

-- A datagram and the address that it goes to.
pub record Datagram : Type 0 where
  pub raw : Bytes
  pub address : Text

-- `pkt.Packet()`: packets have no such method
unfoldable pub send_packet : Exec Packet Datagram
send_packet = fail attribute_error

module _ (x : Externals) (draw : ℕ → ℕ) where
  unfoldable pub send_reply_packet : Text → Exec Packet Datagram
  send_reply_packet source = do
    raw ← create_raw_reply x draw
    pure (record { raw = raw; address = source })

  pub send_reply_packet-ok :
      (source : Text) (p q : Packet) (raw : Bytes)
      → create_raw_reply x draw p ≡ (ok raw, q)
      → send_reply_packet source p ≡ (ok (record { raw = raw; address = source }), q)
  unfolding send_reply_packet
  send_reply_packet-ok source p q raw h = rw h refl
