-- ===== src/Tests/ClientAsync.antt =====
-- A pending access request, and what the timer and the network do to it.
use pyrad.Common.{◌+◌, ◌<◌, ◌≡◌, ◌≢◌, refl, true, false, some, [], ◌∷◌, Bytes, arith, replicate}
use pyrad.Common.Result.{ok}
use pyrad.Common.Eq.{nat_eq}
use pyrad.Common.Dict.{contains, lookup}
use pyrad.Externals.{constant_digests}
use pyrad.Packet.State.{Packet, plain}
use pyrad.Packet.Decode.{decode_packet, decode_loop}
use pyrad.Common.Struct.{unbe_from}
use pyrad.Packet.Create.{construct, initialize, from_wire}
use pyrad.Host.{create}
use pyrad.ClientAsync.{
  Request, Protocol, running, create_id, make_protocol, datagram_received, check_pending,
  send_packet,
}
use pyrad.ClientAsync.Replies.{Effect, datagram_received-Effect}
use pyrad.ClientAsync.Invariant.{IsValid}
use pyrad.ClientAsync.Events.{Steps, start, then, draws_id, sends, Steps-IsValid}
use pyrad.ClientAsync.Timing.{after_ids, create_id_distinct, early_retry}
use pyrad.Tests.Packet.{draw}
use pyrad.Tests.Client.{request, request_made}
use pyrad.Tests.Data

abbrev pub pending : Request
pending = record {
  packet = Data.access_request;
  creation_date = 0;
  retries = 0;
  future = 1;
  send_date = 0;
}

abbrev pub protocol : Protocol
protocol = record {
  is_open = true;
  retries = 3;
  timeout = 30;
  dict = Data.no_dictionary;
  pending_requests = (5, pending) ∷ [];
  packet_id = 5;
  timer = running;
  sent = [];
  completed = [];
}

-- an access accept without attributes
abbrev empty_accept : Bytes
empty_accept = 2 ∷ 5 ∷ 0 ∷ 20 ∷ replicate 16 7

abbrev empty_reply : Packet
empty_reply = record Data.access_accept {
  kind = plain;
  secret = [];
  authenticator = some (replicate 16 7);
  attrs = [];
}

decoded :
    create constant_digests draw plain [] 9 Data.no_dictionary (from_wire empty_accept)
    ≡ ok empty_reply
unfolding create construct initialize decode_packet decode_loop unbe_from
decoded = refl

datagram_received-Effect_example :
    Effect constant_digests draw Data.access_accept_raw protocol
      (create constant_digests draw plain [] 9 protocol.dict (from_wire Data.access_accept_raw))
      (datagram_received constant_digests draw 9 Data.access_accept_raw protocol)
datagram_received-Effect_example =
    datagram_received-Effect constant_digests draw 9 Data.access_accept_raw protocol

-- a thousandth of a second after the request
early_retry_example : check_pending constant_digests draw 1000 (λ id. []) protocol ≡ (
  ok 30,
  record protocol {
    pending_requests = (5, record pending { send_date = 1000; retries = 1 }) ∷ [];
    sent = request ∷ [];
  },
)
early_retry_example =
    early_retry constant_digests draw 1000 (λ id. []) 5 pending protocol request Data.access_request
      refl refl refl (omega arith) (omega arith) request_made

create_id_distinct_example :
    ((after_ids 3 protocol).packet_id < 256)
    × ((after_ids (3 + 255) protocol).packet_id ≢ (after_ids 3 protocol).packet_id)
create_id_distinct_example =
    create_id_distinct 3 255 protocol (omega arith) (omega arith) (omega arith)

abbrev fresh : Protocol
fresh = make_protocol 3 30 Data.no_dictionary 4

not_pending : contains Data.access_request.id (create_id fresh).1.pending_requests ≡ false
unfolding create_id make_protocol lookup
not_pending = refl

abbrev events :
    Steps constant_digests draw fresh 1
      (send_packet constant_digests draw 0 [] Data.access_request 1 (create_id fresh).1).1
events = then (then start draws_id) (sends 0 [] Data.access_request 1 not_pending)

Steps-IsValid_example :
    IsValid 3 1 (send_packet constant_digests draw 0 [] Data.access_request 1 (create_id fresh).1).1
Steps-IsValid_example =
    Steps-IsValid constant_digests draw 3 30 Data.no_dictionary 4 1
      (send_packet constant_digests draw 0 [] Data.access_request 1 (create_id fresh).1).1 events
