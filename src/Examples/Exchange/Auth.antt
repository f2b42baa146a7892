-- ===== src/Examples/Exchange/Auth.antt =====
-- The exchange of an access request between a client and the server of example/server.py.
use pyrad.Common.{
  ℕ, suc, ◌≤◌, ◌<◌, ◌≡◌, refl, sym, ◌∙◌, ap, true, ◌&&◌, some, List, ◌∷◌, Bytes, Text, codes,
  length,
}
use pyrad.Common.Eq.{text_eq_instance}
use pyrad.Common.Result.{Result, ok}
use pyrad.Common.Dict.{lookup, HasDistinctKeys}
use pyrad.Dictionary.Types.{key_eq_instance}
use pyrad.Externals.{Externals}
use pyrad.Packet.PacketCode
use pyrad.Packet.State.{auth, Packet}
use pyrad.Packet.Names.{Name, Found}
use pyrad.Packet.Decode.RoundTrip.{IsPlain}
use pyrad.Packet.Authenticator.{create_raw_request, create_raw_reply, create_raw_request-auth}
use pyrad.Packet.Create.{create_reply}
use pyrad.Host.{RemoteHost}
use pyrad.Host.Sending.{Datagram, send_reply_packet-ok}
use pyrad.Server.{Server, Event, handle_auth, mem}
use pyrad.Server.Sockets.{create_reply_packet-ok}
use pyrad.Client.{Client, Poll, Attempt, Sender, send_packet_to}
use pyrad.Examples.{print_attributes, print_attributes-same}
use pyrad.Examples.FakeServer
use pyrad.Client.Waiting.{genuine_reply_returned}
use pyrad.Packet.Reply.Created.{with_code, created_reply-IsReplyTo}
use pyrad.Packet.Create.Keeping.{create_reply-same}
use pyrad.Packet.Request.Auth.{create_raw_auth_request_shape}
use pyrad.Server.Genuine.{auth_delivered}
use pyrad.Examples.{framed_user}
use pyrad.Examples.Exchange.{replied_attempt, after_sending}

module _ (x : Externals) (draw : ℕ → ℕ) where
  -- what the handler sends
  server_auth :
      (pkt reply r : Packet) (source : Text) (shown : List (Name × Found)) (raw' : Bytes)
      → print_attributes x pkt ≡ ok shown
      → create_reply x draw pkt framed_user ≡ ok reply
      → create_raw_reply x draw (with_code PacketCode.access_accept reply) ≡ (ok raw', r)
      → FakeServer.handle x draw handle_auth source pkt
        ≡ ok (record { raw = raw'; address = source })
  unfolding FakeServer.handle FakeServer.handle_auth_packet
  server_auth pkt reply r source shown raw' printed made written =
      let a : Packet = with_code PacketCode.access_accept reply in
      rw
        (
          printed,
          create_reply_packet-ok x draw pkt reply framed_user source made,
          ap (λ (o : Result Datagram × Packet). o.0)
              (send_reply_packet-ok x draw source a r raw' written),
        )
        refl

  -- The client of pyrad/client.py and the server of example/server.py. Let the client write an access
  -- request with code 1, of the type pap and with an authenticator of sixteen bytes, with plain
  -- attributes, distinct keys and at most 4096 bytes, whose attributes can be printed; let it get, as
  -- the event `e`, to the socket of the server for access requests, where the server has the client's
  -- dictionary and knows the client's address with its secret; let the reply with the attributes of
  -- the handler be made and written as `raw'`, with plain attributes, distinct keys and at most 4096
  -- bytes; and let the client have at least one try and a timeout of at least a second. Then the
  -- server sends `raw'` to the client's address, and if the first call of `poll` brings it,
  -- `_send_packet` returns a reply with code 2, the identifier of the request and the attributes that
  -- the server wrote, having sent the request once.
  pub auth_exchange :
      (client : Client) (srv : Server) (e : Event) (port n start time id : ℕ) (random : Bytes)
      (polls : List Poll) (trace : List Attempt) (s : Sender) (q : Packet) (h : RemoteHost)
      (shown : List (Name × Found)) (a raw' : Bytes) (reply reply' : Packet)
      → create_raw_request x draw random s.pkt ≡ (ok e.datum, q)
      → s.pkt.kind ≡ auth
      → q.kind ≡ auth
      → q.auth_type ≡ codes "pap"
      → q.authenticator ≡ some a
      → length a ≡ 16
      → q.code ≡ PacketCode.access_request
      → IsPlain q.dict q.attrs
      → HasDistinctKeys q.attrs
      → length e.datum ≤ 4096
      → print_attributes x q ≡ ok shown
      → srv.dict ≡ q.dict
      → (srv.auth_enabled && mem e.fd srv.authfds) ≡ true
      → lookup e.source srv.hosts ≡ some h
      → h.secret ≡ q.secret
      → create_reply x draw q framed_user ≡ ok reply
      → create_raw_reply x draw (with_code PacketCode.access_accept reply) ≡ (ok raw', reply')
      → IsPlain reply'.dict reply'.attrs
      → HasDistinctKeys reply'.attrs
      → length raw' ≤ 4096
      → client.retries ≡ suc n
      → 0 < client.timeout_seconds
      → (FakeServer.respond x draw id srv e ≡ ok (record { raw = raw'; address = e.source }))
        × (r : Packet) × (send_packet_to x draw client port
              (replied_attempt start random raw' time polls ∷ trace)
              s
            ≡ (ok r, after_sending port e.datum q s))
        × (r.code ≡ PacketCode.access_accept)
        × (r.id ≡ q.id)
        × (r.attrs ≡ reply'.attrs)
  unfolding FakeServer.respond
  auth_exchange client srv e port n start time id random polls trace s q h shown a raw' reply reply'
        written kind kind' pap there len code flat distinct short printed dict here found secret
        made replied flat' distinct' short' some_try some_time =
      let w =
        create_raw_auth_request_shape x draw s.pkt q random e.datum a
          (sym (create_raw_request-auth x draw random s.pkt kind) ∙ written) pap there len in
      let (pkt, delivered, v) =
        auth_delivered x draw id srv e q a h w there len code flat distinct short dict here found
          secret in
      let same =
        create_reply-same x draw pkt q framed_user (v.kind_eq ∙ sym kind') v.id v.secret
          v.authenticator v.dict (v.auth_type ∙ sym pap) in
      let (k, code') =
        created_reply-IsReplyTo x draw q reply reply' framed_user PacketCode.access_accept raw' refl
          made replied in
      let (r, returned, code'', id', attrs) =
        genuine_reply_returned x draw client port n (replied_attempt start random raw' time polls)
          trace s raw' e.datum q (with_code PacketCode.access_accept reply) reply' time polls
          some_try some_time written refl replied k.id k.secret
          (k.authenticator a there ∙ sym there) k.dict flat' distinct' short' in
      (
        rw delivered (
            server_auth pkt reply reply' e.source shown raw'
              (print_attributes-same x pkt q v.dict v.attrs ∙ printed) (same ∙ made) replied),
        r,
        returned,
        code'' ∙ code',
        id' ∙ k.id,
        attrs,
      )
