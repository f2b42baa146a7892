-- ===== src/ServerAsync/Sending.antt =====
-- What the handlers of pyrad/server_async.py call: `create_reply_packet` and `send_response`.
use pyrad.Common.{ℕ, Text}
use pyrad.Common.Result.{Result}
use pyrad.Common.Exec.{Exec, pure, ◌>>=◌}
use pyrad.Externals.{Externals}
use pyrad.Packet.State.{Packet}
use pyrad.Packet.Authenticator.{create_raw_reply}
use pyrad.Packet.Create.{Args, create_reply}
use pyrad.Host.Sending.{Datagram}

module _ (x : Externals) (draw : ℕ → ℕ) where
  unfoldable pub create_reply_packet : Packet → Args → Result Packet
  create_reply_packet pkt args = create_reply x draw pkt args

  -- what `send_response` gives to the transport
  unfoldable pub send_response : Text → Exec Packet Datagram
  send_response addr = do raw ← create_raw_reply x draw; pure (record { raw = raw; address = addr })
