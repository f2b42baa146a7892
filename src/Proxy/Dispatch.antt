-- ===== src/Proxy/Dispatch.antt =====
-- What the proxy of pyrad/proxy.py takes from its sockets.
use pyrad.Common.{ℕ, ◌≡◌, ◌≢◌, ◌⊎◌, inl, inr, some, [], Text, ◌==◌, ==_iff, Bool-cases, arith}
use mathlib.Core.Path.{subst}
use pyrad.Common.Eq.{text_eq_instance}
use pyrad.Common.Result.{Result, ok, unknown_host, or_raise, or_raise-eq-ok, ◌>>=◌, >>=-eq-ok}
use pyrad.Common.Dict.{lookup}
use pyrad.Externals.{Externals}
use pyrad.Packet.PacketCode
use pyrad.Packet.State.{plain, Packet}
use pyrad.Packet.Create.{from_wire}
use pyrad.Host.{RemoteHost, create}
use pyrad.Server.{Server, Event, Handler, process_input}
use pyrad.Server.Dispatch.{IsDelivered, process_input_delivers}
use pyrad.Proxy.{Taken, reply, request, handle_proxy_packet, process_proxy_input}

-- the codes that `_handle_proxy_packet` lets through
abbrev pub IsResponse : ℕ → Type 0
IsResponse c =
    (c ≡ PacketCode.access_accept)
    ⊎ ((c ≡ PacketCode.access_reject) ⊎ (c ≡ PacketCode.accounting_response))

-- A reply came on the proxy's socket, from a host with an entry of its own, and has its secret. All
-- else came on another socket, and is what a server's handler may see.
abbrev pub IsTaken : ℕ → Server → Event → Taken → Type 0
IsTaken proxyfd s e (reply p) =
    (e.fd ≡ proxyfd)
    × IsResponse p.code
    × ((h : RemoteHost) × (lookup e.source s.hosts ≡ some h) × (p.secret ≡ h.secret))
IsTaken proxyfd s e (request k p) = (e.fd ≢ proxyfd) × IsDelivered s e.source (k, p)

handle_proxy_packet_lem :
    (s : Server) (source : Text) (pkt p : Packet)
    → handle_proxy_packet s source pkt ≡ ok p
    → IsResponse p.code
      × ((h : RemoteHost) × (lookup source s.hosts ≡ some h) × (p.secret ≡ h.secret))
unfolding handle_proxy_packet
handle_proxy_packet_lem s source pkt p e =
    let (h, found, e') = >>=-eq-ok (or_raise unknown_host (lookup source s.hosts)) _ e in
    (ground arith, (h, or_raise-eq-ok unknown_host (lookup source s.hosts) h found, ground arith))

module _ (x : Externals) (draw : ℕ → ℕ) (id proxyfd : ℕ) where
  abbrev take_reply : Server → Event → Result Taken
  take_reply s e = do
    pkt ← create x draw plain [] id s.dict (from_wire e.datum)
    p ← handle_proxy_packet s e.source pkt
    ok (reply p)

  -- Whatever datagram comes on whatever socket of a proxy: a packet that is taken for a reply came on
  -- the proxy's socket, has the code of a reply, and the secret of its sender's own entry in `hosts`;
  -- any other came on another socket, with a code of its handler and the secret of the sender's entry
  -- or of the wildcard's.
  pub process_proxy_input_takes :
      (s : Server) (e : Event) (t : Taken)
      → process_proxy_input x draw id proxyfd s e ≡ ok t
      → IsTaken proxyfd s e t
  unfolding process_proxy_input
  process_proxy_input_takes s e t h = elim (Bool-cases (e.fd == proxyfd)) [
    | inl on_proxy ↦
        let taken : take_reply s e ≡ ok t = rw on_proxy at h in
        let (pkt, made, h') =
          >>=-eq-ok (create x draw plain [] id s.dict (from_wire e.datum))
            (λ pkt. handle_proxy_packet s e.source pkt >>= λ p. ok (reply p)) taken in
        let (p, handled, h'') =
          >>=-eq-ok (handle_proxy_packet s e.source pkt) (λ p. ok (reply p)) h' in
        let (response, known) = handle_proxy_packet_lem s e.source pkt p handled in
        let same : reply p ≡ t = cc h'' in
        subst (IsTaken proxyfd s e) same ((==_iff e.fd proxyfd).0 on_proxy, response, known)
    | inr other ↦
        let (o, taken, h') =
          >>=-eq-ok (process_input x draw id s e) (λ (o : Handler × Packet). ok (request o.0 o.1))
            (rw other at h) in
        let same : request o.0 o.1 ≡ t = cc h' in
        subst (IsTaken proxyfd s e) same
          (ground arith, process_input_delivers x draw id s e o taken)
  ]
