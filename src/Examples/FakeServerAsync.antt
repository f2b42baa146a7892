-- ===== src/Examples/FakeServerAsync.antt =====
-- example/server_async.py: the handlers of its `FakeServer`, which verifies packets.
pub mod Silent
use pyrad.Common.{ℕ, true, Option, none, some, Bytes, Text}
use pyrad.Common.Result.{Result, ok, raise, stuck, ◌>>=◌}
use pyrad.Externals.{Externals}
use pyrad.Dictionary.Types.{Dictionary}
use pyrad.Packet.PacketCode
use pyrad.Packet.State.{Packet}
use pyrad.Packet.Create.{Args, no_args}
use pyrad.Common.Dict.{Dict}
use pyrad.Host.{RemoteHost}
use pyrad.Host.Sending.{Datagram}
use pyrad.ServerAsync.{
  ServerType, Protocol, Outcome, request, hangs, Handler, handle_auth, handle_acct, handle_coa,
  handle_disconnect, unexpected, request_handler, datagram_received,
}
use pyrad.ServerAsync.Sending.{create_reply_packet, send_response}
use pyrad.Examples.{framed_user, print_attributes}
use pyrad.Packet.Reply.Created.{with_code}

-- The protocols of the server: `enable_pkt_verify=True`.
unfoldable pub make_protocol : ServerType → Dict Text RemoteHost → Dictionary → Protocol
make_protocol server_type hosts dict = record {
  server_type = server_type;
  hosts = hosts;
  dict = dict;
  enable_pkt_verify = true;
}

-- `except Exception` of the request handler: the error is logged
sent_if : Result Datagram → Result (Option Datagram)
sent_if (ok d) = ok (some d)
sent_if (raise e) = ok none
sent_if stuck = stuck

module _ (x : Externals) (draw : ℕ → ℕ) where
  unfoldable pub handle_auth_packet : Text → Packet → Result Datagram
  handle_auth_packet addr pkt = do
    shown ← print_attributes x pkt
    reply ← create_reply_packet x draw pkt framed_user
    (send_response x draw addr (with_code PacketCode.access_accept reply)).0

  unfoldable pub handle_acct_packet : Text → Packet → Result Datagram
  handle_acct_packet addr pkt = do
    shown ← print_attributes x pkt
    reply ← create_reply_packet x draw pkt no_args
    (send_response x draw addr reply).0

  unfoldable pub handle_coa_packet : Text → Packet → Result Datagram
  handle_coa_packet addr pkt = do
    shown ← print_attributes x pkt
    reply ← create_reply_packet x draw pkt no_args
    (send_response x draw addr reply).0

  unfoldable pub handle_disconnect_packet : Text → Packet → Result Datagram
  handle_disconnect_packet addr pkt = do
    shown ← print_attributes x pkt
    reply ← create_reply_packet x draw pkt no_args
    (send_response x draw addr (with_code 45 reply)).0

  handle : Handler → Text → Packet → Result (Option Datagram)
  unfolding sent_if
  handle handle_auth addr pkt = sent_if (handle_auth_packet addr pkt)
  handle handle_acct addr pkt = sent_if (handle_acct_packet addr pkt)
  handle handle_coa addr pkt = sent_if (handle_coa_packet addr pkt)
  handle handle_disconnect addr pkt = sent_if (handle_disconnect_packet addr pkt)
  handle unexpected addr pkt = ok none

  answer_to : Protocol → Text → Outcome → Result (Option Datagram)
  unfolding handle
  answer_to s addr (request pkt) = handle (request_handler s.server_type pkt.code) addr pkt
  answer_to s addr hangs = stuck
  answer_to s addr _ = ok none

  -- `datagram_received` with these handlers: the datagram that is sent, if one is
  unfoldable pub respond : ℕ → Protocol → Bytes → Text → Result (Option Datagram)
  unfolding answer_to
  respond id s datum addr = answer_to s addr (datagram_received x draw id s datum addr)
