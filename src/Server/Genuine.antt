-- ===== src/Server/Genuine.antt =====
-- Genuine requests that come to pyrad/server.py.
use pyrad.Common.{ℕ, ◌≤◌, ◌≡◌, refl, sym, ◌∙◌, true, false, ◌&&◌, some, [], Bytes, codes, length}
use pyrad.Common.Eq.{text_eq_instance}
use pyrad.Common.Result.{ok}
use pyrad.Common.Dict.{lookup, HasDistinctKeys}
use pyrad.Dictionary.Types.{key_eq_instance}
use pyrad.Externals.{Externals}
use pyrad.Packet.PacketCode
use pyrad.Packet.State.{Kind, auth, acct, coa, Packet}
use pyrad.Packet.Decode.RoundTrip.{IsPlain}
use pyrad.Packet.Create.{from_wire}
use pyrad.Packet.Create.Decoded.{IsDecoded}
use pyrad.Packet.Request.{RawRequest, request_decodes}
use pyrad.Packet.Request.Auth.{RawAuthRequest, auth_request_decodes}
use pyrad.Host.{RemoteHost, create, default_code}
use pyrad.Server.{
  Server, Event, handle_auth, handle_acct, handle_coa, process_input, auth_input,
  handle_auth_packet, acct_input, coa_input, add_secret, handle_acct_packet, handle_coa_packet, mem,
}

-- What a handler gets of the request `q`.
pub record IsGenuine (kind : Kind) (q pkt : Packet) : Type 0 where
  pub kind_eq : pkt.kind ≡ kind
  pub dict : pkt.dict ≡ q.dict
  pub code : pkt.code ≡ q.code
  pub id : pkt.id ≡ q.id
  pub secret : pkt.secret ≡ q.secret
  pub authenticator : pkt.authenticator ≡ q.authenticator
  pub auth_type : pkt.auth_type ≡ codes "pap"
  pub attrs : pkt.attrs ≡ q.attrs

module _ (x : Externals) (draw : ℕ → ℕ) where
  -- what `_add_secret` makes of the decoded packet
  genuine :
      (kind : Kind) (q r : Packet) (raw a : Bytes)
      → q.authenticator ≡ some a
      → IsDecoded q kind [] a raw (codes "pap") r
      → IsGenuine kind q (record r { secret = q.secret })
  genuine kind q r raw a there v = record {
    kind_eq = v.kind_eq;
    dict = v.dict;
    code = v.code;
    id = v.id;
    secret = refl;
    authenticator = v.authenticator_eq ∙ sym there;
    auth_type = v.auth_type_eq;
    attrs = v.attrs;
  }

  -- what the server's constructor makes of the datagram, before the secret is known
  grabbed :
      (id : ℕ) (kind : Kind) (q : Packet) (raw : Bytes)
      → RawRequest x draw q raw
      → IsPlain q.dict q.attrs
      → HasDistinctKeys q.attrs
      → length raw ≤ 4096
      → (r : Packet) × (create x draw kind [] id q.dict (from_wire raw) ≡ ok r)
        × IsGenuine kind q (record r { secret = q.secret })
  unfolding create
  grabbed id kind q raw w flat distinct short =
      let (r, made, v) =
        request_decodes x draw q raw w kind (default_code kind) id [] (codes "pap") flat distinct
          short in
      (r, made, genuine kind q r raw _ w.authenticator_eq v)

  -- An access request on the socket for access requests, from a host that the server knows by its
  -- address and with its secret, gets to the handler.
  pub auth_delivered :
      (id : ℕ) (s : Server) (e : Event) (q : Packet) (a : Bytes) (h : RemoteHost)
      → RawAuthRequest q e.datum a
      → q.authenticator ≡ some a
      → length a ≡ 16
      → q.code ≡ PacketCode.access_request
      → IsPlain q.dict q.attrs
      → HasDistinctKeys q.attrs
      → length e.datum ≤ 4096
      → s.dict ≡ q.dict
      → (s.auth_enabled && mem e.fd s.authfds) ≡ true
      → lookup e.source s.hosts ≡ some h
      → h.secret ≡ q.secret
      → (pkt : Packet) × (process_input x draw id s e ≡ ok (handle_auth, pkt))
        × IsGenuine auth q pkt
  unfolding process_input auth_input handle_auth_packet add_secret create
  auth_delivered id s e q a h w there len code flat distinct short dict here found secret =
      let (r, made, v) =
        auth_request_decodes x draw q e.datum a auth (default_code auth) id [] (codes "pap") w len
          flat distinct short in
      let made' : create x draw auth [] id s.dict (from_wire e.datum) ≡ ok r = rw dict made in
      (
        record r { secret = q.secret },
        rw (here, made', handle_auth_packet, add_secret, found, secret, v.code, code) refl,
        genuine auth q r e.datum a there v,
      )

  -- An accounting request on the accounting socket, from a host that the server knows by its address
  -- and with its secret, gets to the handler.
  pub acct_delivered :
      (id : ℕ) (s : Server) (e : Event) (q : Packet) (h : RemoteHost)
      → RawRequest x draw q e.datum
      → q.code ≡ PacketCode.accounting_request
      → IsPlain q.dict q.attrs
      → HasDistinctKeys q.attrs
      → length e.datum ≤ 4096
      → s.dict ≡ q.dict
      → (s.auth_enabled && mem e.fd s.authfds) ≡ false
      → (s.acct_enabled && mem e.fd s.acctfds) ≡ true
      → lookup e.source s.hosts ≡ some h
      → h.secret ≡ q.secret
      → (pkt : Packet) × (process_input x draw id s e ≡ ok (handle_acct, pkt))
        × IsGenuine acct q pkt
  unfolding process_input acct_input handle_acct_packet add_secret
  acct_delivered id s e q h w code flat distinct short dict na here found secret =
      let (r, made, v) = grabbed id acct q e.datum w flat distinct short in
      let made' : create x draw acct [] id s.dict (from_wire e.datum) ≡ ok r = rw dict made in
      (
        record r { secret = q.secret },
        rw (na, here, made', handle_acct_packet, add_secret, found, secret, v.code, code) refl,
        v,
      )

  -- The same for a CoA request on the CoA socket.
  pub coa_delivered :
      (id : ℕ) (s : Server) (e : Event) (q : Packet) (h : RemoteHost)
      → RawRequest x draw q e.datum
      → q.code ≡ PacketCode.coa_request
      → IsPlain q.dict q.attrs
      → HasDistinctKeys q.attrs
      → length e.datum ≤ 4096
      → s.dict ≡ q.dict
      → (s.auth_enabled && mem e.fd s.authfds) ≡ false
      → (s.acct_enabled && mem e.fd s.acctfds) ≡ false
      → s.coa_enabled ≡ true
      → lookup e.source s.hosts ≡ some h
      → h.secret ≡ q.secret
      → (pkt : Packet) × (process_input x draw id s e ≡ ok (handle_coa, pkt)) × IsGenuine coa q pkt
  unfolding process_input coa_input handle_coa_packet add_secret
  coa_delivered id s e q h w code flat distinct short dict na nc on found secret =
      let (r, made, v) = grabbed id coa q e.datum w flat distinct short in
      let made' : create x draw coa [] id s.dict (from_wire e.datum) ≡ ok r = rw dict made in
      (
        record r { secret = q.secret },
        rw (na, nc, on, made', handle_coa_packet, add_secret, found, secret, v.code, code) refl,
        v,
      )
