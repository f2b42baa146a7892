-- ===== src/Proxy.antt =====
-- pyrad/proxy.py: a server that also takes replies from other servers, on a socket of its own.
pub mod Dispatch
use pyrad.Common.{ℕ, ◌||◌, [], Text, ◌==◌, if◌then◌else◌}
use pyrad.Common.Eq.{text_eq_instance}
use pyrad.Common.Result.{Result, ok, raise, unknown_host, not_response, or_raise, ◌>>=◌}
use pyrad.Common.Dict.{lookup}
use pyrad.Externals.{Externals}
use pyrad.Packet.PacketCode
use pyrad.Packet.State.{plain, Packet}
use pyrad.Packet.Create.{from_wire}
use pyrad.Host.{create}
use pyrad.Server.{Server, Event, Handler, process_input}

-- a reply on the proxy socket is only checked; other input goes to a handler of the server
pub data Taken : Type 0 where
  reply : Packet → Taken
  request : Handler → Packet → Taken

unfoldable pub handle_proxy_packet : Server → Text → Packet → Result Packet
handle_proxy_packet s source pkt = do
  h ← or_raise unknown_host (lookup source s.hosts)
  if pkt.code == PacketCode.access_accept
        || pkt.code == PacketCode.access_reject
        || pkt.code == PacketCode.accounting_response
      then ok (record pkt { secret = h.secret })
      else raise not_response

module _ (x : Externals) (draw : ℕ → ℕ) (id proxyfd : ℕ) where
  unfoldable pub process_proxy_input : Server → Event → Result Taken
  process_proxy_input s e =
      if e.fd == proxyfd
      then (do
        pkt ← create x draw plain [] id s.dict (from_wire e.datum)
        p ← handle_proxy_packet s e.source pkt
        ok (reply p))
      else (do (h, p) ← process_input x draw id s e; ok (request h p))
