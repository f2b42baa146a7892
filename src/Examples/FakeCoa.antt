-- ===== src/Examples/FakeCoa.antt =====
-- example/client-coa.py: the handlers of `FakeCoA`, a server for CoA and disconnect requests.
use pyrad.Common.{ℕ, Option, none, some, Text}
use pyrad.Common.Result.{Result, ok, ◌>>=◌}
use pyrad.Externals.{Externals}
use pyrad.Packet.PacketCode
use pyrad.Packet.State.{Packet}
use pyrad.Packet.Create.{no_args}
use pyrad.Host.Sending.{Datagram, send_reply_packet}
use pyrad.Server.{
  Server, Event, Handler, handle_auth, handle_acct, handle_coa, handle_disconnect, process_input,
}
use pyrad.Server.Sockets.{create_reply_packet}
use pyrad.Examples.{print_attributes}
use pyrad.Packet.Reply.Created.{with_code}

module _ (x : Externals) (draw : ℕ → ℕ) where
  -- what both handlers do, with their codes
  acknowledge : ℕ → Text → Packet → Result Datagram
  acknowledge c source pkt = do
    shown ← print_attributes x pkt
    (reply, address) ← create_reply_packet x draw pkt no_args source
    (send_reply_packet x draw address (with_code c reply)).0

  unfoldable pub handle_coa_packet : Text → Packet → Result Datagram
  unfolding acknowledge
  handle_coa_packet source pkt = acknowledge PacketCode.coa_ack source pkt

  unfoldable pub handle_disconnect_packet : Text → Packet → Result Datagram
  unfolding acknowledge
  handle_disconnect_packet source pkt = acknowledge PacketCode.disconnect_ack source pkt

  -- the handlers of `Server` itself do nothing
  unfoldable pub handle : Handler → Text → Packet → Result (Option Datagram)
  handle handle_auth source pkt = ok none
  handle handle_acct source pkt = ok none
  handle handle_coa source pkt = do d ← handle_coa_packet source pkt; ok (some d)
  handle handle_disconnect source pkt = do d ← handle_disconnect_packet source pkt; ok (some d)

  -- `_process_input` with these handlers: the datagram that is sent, if one is
  unfoldable pub respond : ℕ → Server → Event → Result (Option Datagram)
  respond id s e = do (handler, pkt) ← process_input x draw id s e; handle handler e.source pkt
