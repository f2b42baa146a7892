-- ===== src/Examples/Exchange/Coa.antt =====
-- The exchange of a CoA request between the programs example/coa.py and example/client-coa.py.
use pyrad.Common.{
  ℕ, suc, ◌≤◌, ◌<◌, ◌≡◌, refl, sym, ◌∙◌, ap, true, false, ◌&&◌, some, List, [], ◌∷◌, Bytes, Text,
  length, arith,
}
use pyrad.Common.Eq.{text_eq_instance}
use pyrad.Common.Result.{Result, ok}
use pyrad.Common.Dict.{lookup, HasDistinctKeys}
use pyrad.Dictionary.Types.{key_eq_instance}
use pyrad.Externals.{Externals}
use pyrad.Packet.PacketCode
use pyrad.Packet.State.{coa, Packet}
use pyrad.Packet.Names.{Name, Found}
use pyrad.Packet.Decode.RoundTrip.{IsPlain}
use pyrad.Packet.Decode.Whole.{encode_header_shape}
use pyrad.Packet.Authenticator.{
  create_raw_request, create_raw_reply, is_set, create_raw_request-coa,
}
use pyrad.Packet.Create.{no_args}
use pyrad.Packet.Reply.Empty.{empty_reply, create_reply-no_args}
use pyrad.Packet.Request.Coa.{create_raw_coa_request_shape}
use pyrad.Host.{RemoteHost}
use pyrad.Host.Sending.{Datagram, send_reply_packet-ok}
use pyrad.Server.{Server, Event, handle_coa, mem}
use pyrad.Server.Sockets.{create_reply_packet-ok}
use pyrad.Server.Genuine.{coa_delivered}
use pyrad.Client.{Client, Poll, Attempt, Sender, send_packet_to}
use pyrad.Examples.{print_attributes, print_attributes-same}
use pyrad.Packet.Reply.Created.{with_code}
use pyrad.Examples.FakeCoa
use pyrad.Examples.Exchange.{replied_attempt, after_sending, empty_answer, empty_answer_returned}

module _ (x : Externals) (draw : ℕ → ℕ) where
  -- what the CoA handler of example/client-coa.py sends
  coa_ack :
      (pkt r : Packet) (source : Text) (shown : List (Name × Found)) (raw' : Bytes)
      → print_attributes x pkt ≡ ok shown
      → create_raw_reply x draw (with_code PacketCode.coa_ack (empty_reply x draw pkt))
        ≡ (ok raw', r)
      → FakeCoa.handle x draw handle_coa source pkt
        ≡ ok (some (record { raw = raw'; address = source }))
  unfolding FakeCoa.handle FakeCoa.handle_coa_packet
  coa_ack pkt r source shown raw' printed written =
      let sent =
        send_reply_packet-ok x draw source (with_code PacketCode.coa_ack (empty_reply x draw pkt)) r
          raw' written in
      rw
        (
          printed,
          create_reply_packet-ok x draw pkt _ no_args source (create_reply-no_args x draw pkt),
          ap (λ (o : Result Datagram × Packet). o.0) sent,
        )
        refl

  -- The client of example/coa.py and the server of example/client-coa.py. Let the client write a CoA
  -- request with code 43 and no message authenticator to make, with plain attributes, distinct keys
  -- and at most 4096 bytes, whose attributes can be printed; let it get, as the event `e`, to a
  -- socket of the server that is not for access or accounting requests, where the server takes CoA
  -- requests, has the client's dictionary and knows the client's address with its secret; and let the
  -- client have at least one try and a timeout of at least a second. Then the server sends one
  -- datagram, to the client's address, and if the first call of `poll` brings it, `_send_packet`
  -- returns a reply with code 44, the identifier of the request and no attributes, having sent the
  -- request once.
  pub coa_exchange :
      (client : Client) (srv : Server) (e : Event) (port n start time id : ℕ) (random : Bytes)
      (polls : List Poll) (trace : List Attempt) (s : Sender) (q : Packet) (h : RemoteHost)
      (shown : List (Name × Found))
      → s.pkt.kind ≡ coa
      → is_set s.pkt.message_authenticator ≡ false
      → create_raw_request x draw random s.pkt ≡ (ok e.datum, q)
      → q.code ≡ PacketCode.coa_request
      → IsPlain q.dict q.attrs
      → HasDistinctKeys q.attrs
      → length e.datum ≤ 4096
      → print_attributes x q ≡ ok shown
      → srv.dict ≡ q.dict
      → (srv.auth_enabled && mem e.fd srv.authfds) ≡ false
      → (srv.acct_enabled && mem e.fd srv.acctfds) ≡ false
      → srv.coa_enabled ≡ true
      → lookup e.source srv.hosts ≡ some h
      → h.secret ≡ q.secret
      → client.retries ≡ suc n
      → 0 < client.timeout_seconds
      → (raw' : Bytes) × (FakeCoa.respond x draw id srv e
          ≡ ok (some (record { raw = raw'; address = e.source })))
        × (r : Packet) × (send_packet_to x draw client port
              (replied_attempt start random raw' time polls ∷ trace)
              s
            ≡ (ok r, after_sending port e.datum q s))
        × (r.code ≡ PacketCode.coa_ack)
        × (r.id ≡ q.id)
        × (r.attrs ≡ [])
  unfolding FakeCoa.respond
  coa_exchange client srv e port n start time id random polls trace s q h shown kind unmarked
        written code flat distinct short printed dict na nc on found secret some_try some_time =
      let w =
        create_raw_coa_request_shape x draw s.pkt q e.datum unmarked
          (sym (create_raw_request-coa x draw random s.pkt kind) ∙ written) in
      let (_, _, small, _) = encode_header_shape q w.attr w.header w.header_eq in
      let (pkt, delivered, v) =
        coa_delivered x draw id srv e q h w code flat distinct short dict na nc on found secret in
      let (raw', replied, short') =
        empty_answer x draw q pkt coa PacketCode.coa_ack _ e.source v w.authenticator_eq small
          (omega arith) in
      let (r, returned, code', id', attrs) =
        empty_answer_returned x draw client port n start time random e.datum raw' polls trace s q
          pkt coa PacketCode.coa_ack v some_try some_time written replied short' in
      (
        raw',
        rw delivered (
            coa_ack pkt _ e.source shown raw'
              (print_attributes-same x pkt q v.dict v.attrs ∙ printed) replied),
        r,
        returned,
        code',
        id',
        attrs,
      )
