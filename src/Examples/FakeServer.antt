-- ===== src/Examples/FakeServer.antt =====
-- example/server.py: the handlers of `FakeServer`, and what the server answers to a datagram.
use pyrad.Common.{ℕ, Text}
use pyrad.Common.Result.{Result, ◌>>=◌}
use pyrad.Externals.{Externals}
use pyrad.Packet.PacketCode
use pyrad.Packet.State.{Packet}
use pyrad.Packet.Create.{no_args}
use pyrad.Host.Sending.{Datagram, send_reply_packet}
use pyrad.Server.{
  Server, Event, Handler, handle_auth, handle_acct, handle_coa, handle_disconnect, process_input,
}
use pyrad.Server.Sockets.{create_reply_packet}
use pyrad.Packet.Reply.Created.{with_code}
use pyrad.Examples.{framed_user, print_attributes}

module _ (x : Externals) (draw : ℕ → ℕ) where
  -- `handle_auth_packet`; `source` is the address that the packet came from
  unfoldable pub handle_auth_packet : Text → Packet → Result Datagram
  handle_auth_packet source pkt = do
    shown ← print_attributes x pkt
    (reply, address) ← create_reply_packet x draw pkt framed_user source
    (send_reply_packet x draw address (with_code PacketCode.access_accept reply)).0

  unfoldable pub handle_acct_packet : Text → Packet → Result Datagram
  handle_acct_packet source pkt = do
    shown ← print_attributes x pkt
    (reply, address) ← create_reply_packet x draw pkt no_args source
    (send_reply_packet x draw address reply).0

  unfoldable pub handle_coa_packet : Text → Packet → Result Datagram
  handle_coa_packet source pkt = do
    shown ← print_attributes x pkt
    (reply, address) ← create_reply_packet x draw pkt no_args source
    (send_reply_packet x draw address reply).0

  unfoldable pub handle_disconnect_packet : Text → Packet → Result Datagram
  handle_disconnect_packet source pkt = do
    shown ← print_attributes x pkt
    (reply, address) ← create_reply_packet x draw pkt no_args source
    (send_reply_packet x draw address (with_code 45 reply)).0

  unfoldable pub handle : Handler → Text → Packet → Result Datagram
  handle handle_auth source pkt = handle_auth_packet source pkt
  handle handle_acct source pkt = handle_acct_packet source pkt
  handle handle_coa source pkt = handle_coa_packet source pkt
  handle handle_disconnect source pkt = handle_disconnect_packet source pkt

  -- `_process_input` with these handlers: the datagram that is sent
  unfoldable pub respond : ℕ → Server → Event → Result Datagram
  respond id s e = do (handler, pkt) ← process_input x draw id s e; handle handler e.source pkt
