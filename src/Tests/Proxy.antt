-- ===== src/Tests/Proxy.antt =====
-- A reply on the proxy's socket.
use pyrad.Common.{◌≡◌, refl, some, [], ◌∷◌, replicate, codes}
use pyrad.Common.Dict.{lookup}
use pyrad.Common.Eq.{text_eq_instance}
use pyrad.Common.Result.{ok}
use pyrad.Externals.{constant_digests}
use pyrad.Packet.State.{Packet, Kind}
use pyrad.Packet.Decode.{decode_packet, decode_loop}
use pyrad.Packet.Create.{construct, initialize}
use pyrad.Host.{create, default_code}
use pyrad.Server.{Server, Event}
use pyrad.Proxy.{reply, handle_proxy_packet, process_proxy_input}
use pyrad.Proxy.Dispatch.{IsTaken, process_proxy_input_takes}
use pyrad.Tests.Data
use pyrad.Tests.Packet.{draw}

abbrev knows_sender : Server
knows_sender = record Data.server { hosts = (codes "10.0.0.1", Data.host) ∷ [] }

abbrev accept_event : Event
accept_event = Data.event 9 (2 ∷ 9 ∷ 0 ∷ 20 ∷ replicate 16 0)

abbrev taken_packet : Packet
taken_packet = record (Data.packet_with Kind.plain 2 (some (replicate 16 0)) []) { id = 9 }

reply_taken :
    process_proxy_input constant_digests draw 0 9 knows_sender accept_event
    ≡ ok (reply taken_packet)
unfolding process_proxy_input handle_proxy_packet create default_code construct initialize
    decode_packet decode_loop lookup
reply_taken = refl

process_proxy_input_takes_example : IsTaken 9 knows_sender accept_event (reply taken_packet)
process_proxy_input_takes_example =
    process_proxy_input_takes constant_digests draw 0 9 knows_sender accept_event
      (reply taken_packet) reply_taken
