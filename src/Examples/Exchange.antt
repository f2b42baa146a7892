-- ===== src/Examples/Exchange.antt =====
-- A client of pyrad/client.py and the servers of example/: the whole exchange of a request and its
-- answer.
pub mod Auth
pub mod Coa
use pyrad.Common.{
  ℕ, suc, ◌≤◌, ◌<◌, ◌≡◌, refl, sym, ◌∙◌, ap, Bool, true, false, ◌&&◌, none, some, List, [], ◌∷◌,
  ◌++◌, Bytes, Text, length, arith,
}
use pyrad.Common.Eq.{text_eq_instance}
use pyrad.Common.Result.{Result, ok}
use pyrad.Common.Dict.{lookup, HasDistinctKeys}
use pyrad.Dictionary.Types.{key_eq_instance}
use pyrad.Externals.{Externals}
use pyrad.Packet.PacketCode
use pyrad.Packet.State.{Kind, acct, coa, Packet}
use pyrad.Packet.Names.{Name, Found}
use pyrad.Packet.Decode.RoundTrip.{IsPlain}
use pyrad.Packet.Decode.Whole.{encode_header_shape}
use pyrad.Packet.Raw.{request_authenticator}
use pyrad.Packet.Authenticator.{
  create_raw_request, create_raw_reply, is_set, create_raw_request-acct, create_raw_request-coa,
}
use pyrad.Packet.Create.{create_reply, no_args, from_wire, reply_code}
use pyrad.Packet.Reply.{verify_reply}
use pyrad.Packet.Reply.Accepted.{reply_accepted}
use pyrad.Packet.Reply.Empty.{empty_reply, create_reply-no_args, create_raw_reply-empty}
use pyrad.Packet.Request.{RawRequest, create_raw_acct_request_shape}
use pyrad.Packet.Request.Coa.{create_raw_coa_request_shape}
use pyrad.Host.{RemoteHost}
use pyrad.Host.Sending.{Datagram, send_reply_packet-ok}
use pyrad.Server.{Server, Event, handle_acct, handle_coa, mem, process_input}
use pyrad.Server.Sockets.{create_reply_packet-ok}
use pyrad.Server.Genuine.{IsGenuine, acct_delivered, coa_delivered}
use pyrad.Client.{Client, Poll, Attempt, Sender, send_packet_to}
use pyrad.Client.Waiting.{genuine_reply_returned}
use pyrad.Examples.{print_attributes, print_attributes-same}
use pyrad.Examples.FakeServer
use pyrad.Packet.Reply.Created.{with_code}
use pyrad.Examples.FakeCoa

-- An attempt whose first call of `poll` brings the datagram `raw`.
abbrev pub replied_attempt : ℕ → Bytes → Bytes → ℕ → List Poll → Attempt
replied_attempt start random raw time polls = record {
  start = start;
  random = random;
  polls = record { ready = some raw; time = time } ∷ polls;
}

-- The sender when the packet became `p` and `raw` went to `port`.
abbrev pub after_sending : ℕ → Bytes → Packet → Sender → Sender
after_sending port raw p s = record { pkt = p; sent = s.sent ++ (port, raw) ∷ [] }

module _ (x : Externals) (draw : ℕ → ℕ) where
  -- what a handler writes without attributes
  empty_answer :
      (q pkt : Packet) (kind : Kind) (c : ℕ) (a : Bytes) (source : Text)
      → IsGenuine kind q pkt
      → q.authenticator ≡ some a
      → q.id < 256
      → c < 256
      → (raw' : Bytes) × (create_raw_reply x draw (with_code c (empty_reply x draw pkt))
          ≡ (ok raw', with_code c (empty_reply x draw pkt)))
        × (length raw' ≤ 4096)
  empty_answer q pkt kind c a source v there small byte =
      create_raw_reply-empty x draw (with_code c (empty_reply x draw pkt)) a
        (v.authenticator ∙ there) refl refl byte (omega (arith, v.id))

  -- what the accounting handler of example/server.py sends
  server_acct :
      (pkt r : Packet) (source : Text) (shown : List (Name × Found)) (raw' : Bytes)
      → print_attributes x pkt ≡ ok shown
      → create_raw_reply x draw (empty_reply x draw pkt) ≡ (ok raw', r)
      → FakeServer.handle x draw handle_acct source pkt
        ≡ ok (record { raw = raw'; address = source })
  unfolding FakeServer.handle FakeServer.handle_acct_packet
  server_acct pkt r source shown raw' printed written =
      let sent = send_reply_packet-ok x draw source (empty_reply x draw pkt) r raw' written in
      rw
        (
          printed,
          create_reply_packet-ok x draw pkt _ no_args source (create_reply-no_args x draw pkt),
          ap (λ (o : Result Datagram × Packet). o.0) sent,
        )
        refl

  -- From the delivered request `pkt` to what the client returns: `raw` is what the client wrote,
  -- which leaves the packet `q`, and the reply is without attributes.
  empty_answer_returned :
      (client : Client) (port n start time : ℕ) (random raw raw' : Bytes) (polls : List Poll)
      (trace : List Attempt) (s : Sender) (q pkt : Packet) (kind : Kind) (c : ℕ)
      → IsGenuine kind q pkt
      → client.retries ≡ suc n
      → 0 < client.timeout_seconds
      → create_raw_request x draw random s.pkt ≡ (ok raw, q)
      → create_raw_reply x draw (with_code c (empty_reply x draw pkt))
        ≡ (ok raw', with_code c (empty_reply x draw pkt))
      → length raw' ≤ 4096
      → (r : Packet) × (send_packet_to x draw client port
            (replied_attempt start random raw' time polls ∷ trace)
            s
          ≡ (ok r, after_sending port raw q s))
        × (r.code ≡ c)
        × (r.id ≡ q.id)
        × (r.attrs ≡ [])
  empty_answer_returned client port n start time random raw raw' polls trace s q pkt kind c v
        some_try some_time written replied short =
      let a = with_code c (empty_reply x draw pkt) in
      let (r, returned, code, id, attrs) =
        genuine_reply_returned x draw client port n (replied_attempt start random raw' time polls)
          trace s raw' raw q a a time polls some_try some_time written refl replied v.id v.secret
          v.authenticator v.dict tt tt short in
      (r, returned, code, id ∙ v.id, attrs)

  -- The client of pyrad/client.py and the server of example/server.py. Let the client write an
  -- accounting request with code 4, with plain attributes, distinct keys and at most 4096 bytes, whose
  -- attributes can be printed; let it get, as the event `e`, to the accounting socket of the server,
  -- which has the client's dictionary and knows the client's address with its secret; and let the
  -- client have at least one try and a timeout of at least a second. Then the server sends one
  -- datagram, to the client's address, and if the first call of `poll` brings it, `_send_packet`
  -- returns a reply with code 5, the identifier of the request and no attributes, having sent the
  -- request once.
  pub acct_exchange :
      (client : Client) (srv : Server) (e : Event) (port n start time id : ℕ) (random : Bytes)
      (polls : List Poll) (trace : List Attempt) (s : Sender) (q : Packet) (h : RemoteHost)
      (shown : List (Name × Found))
      → s.pkt.kind ≡ acct
      → create_raw_request x draw random s.pkt ≡ (ok e.datum, q)
      → q.code ≡ PacketCode.accounting_request
      → IsPlain q.dict q.attrs
      → HasDistinctKeys q.attrs
      → length e.datum ≤ 4096
      → print_attributes x q ≡ ok shown
      → srv.dict ≡ q.dict
      → (srv.auth_enabled && mem e.fd srv.authfds) ≡ false
      → (srv.acct_enabled && mem e.fd srv.acctfds) ≡ true
      → lookup e.source srv.hosts ≡ some h
      → h.secret ≡ q.secret
      → client.retries ≡ suc n
      → 0 < client.timeout_seconds
      → (raw' : Bytes) × (FakeServer.respond x draw id srv e
          ≡ ok (record { raw = raw'; address = e.source }))
        × (r : Packet) × (send_packet_to x draw client port
              (replied_attempt start random raw' time polls ∷ trace)
              s
            ≡ (ok r, after_sending port e.datum q s))
        × (r.code ≡ PacketCode.accounting_response)
        × (r.id ≡ q.id)
        × (r.attrs ≡ [])
  unfolding FakeServer.respond
  acct_exchange client srv e port n start time id random polls trace s q h shown kind written code
        flat distinct short printed dict na here found secret some_try some_time =
      let w =
        create_raw_acct_request_shape x draw s.pkt q e.datum
          (sym (create_raw_request-acct x draw random s.pkt kind) ∙ written) in
      let (_, _, small, _) = encode_header_shape q w.attr w.header w.header_eq in
      let (pkt, delivered, v) =
        acct_delivered x draw id srv e q h w code flat distinct short dict na here found secret in
      let (raw', replied, short') =
        empty_answer q pkt acct (reply_code pkt.kind) _ e.source v w.authenticator_eq small
          (omega (arith, ap reply_code v.kind_eq)) in
      let (r, returned, code', id', attrs) =
        empty_answer_returned client port n start time random e.datum raw' polls trace s q pkt acct
          (reply_code pkt.kind) v some_try some_time written replied short' in
      (
        raw',
        rw delivered (
            server_acct pkt _ e.source shown raw'
              (print_attributes-same x pkt q v.dict v.attrs ∙ printed) replied),
        r,
        returned,
        code' ∙ ap reply_code v.kind_eq,
        id',
        attrs,
      )
