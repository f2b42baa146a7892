-- ===== src/ServerAsync/Verification.antt =====
-- The verification of accounting requests by the asynchronous server.
use pyrad.Common.{ℕ, ◌≤◌, ◌≡◌, true, false, some, [], Bytes, Text, codes, length, arith}
use pyrad.Common.Result.{ok, verification_failed}
use pyrad.Common.Dict.{HasDistinctKeys}
use pyrad.Dictionary.Types.{key_eq_instance}
use pyrad.Externals.{Externals}
use pyrad.Packet.PacketCode
use pyrad.Packet.State.{plain, acct, Packet}
use pyrad.Packet.Decode.RoundTrip.{IsPlain}
use pyrad.Packet.Authenticator.{create_raw_acct_request}
use pyrad.Packet.Authenticator.Verify.{verify_acct_request}
use pyrad.Packet.Create.{from_wire}
use pyrad.Packet.Request.{
  create_raw_acct_request_shape, request_decodes, verify_acct_request-received,
}
use pyrad.Host.{RemoteHost, create, default_code}
use pyrad.ServerAsync.{
  Protocol, for_acct, rejected, request, find_host, datagram_received, accept, is_response, takes,
}

module _ (x : Externals) (draw : ℕ → ℕ) (id : ℕ) where
  -- Let an accounting client with code 4 write `raw`, with plain attributes, distinct keys and at most
  -- 4096 bytes, to an accounting server that knows the sender, with the client's secret and dictionary.
  -- If the server verifies packets, it rejects this genuine request as "Packet verification failed",
  -- although the packet that it decodes passes `verify_acct_request`.
  pub genuine_request_rejected :
      (q q' : Packet) (raw : Bytes) (s : Protocol) (addr : Text) (h : RemoteHost)
      → create_raw_acct_request x draw q ≡ (ok raw, q')
      → q'.code ≡ PacketCode.accounting_request
      → IsPlain q'.dict q'.attrs
      → HasDistinctKeys q'.attrs
      → length raw ≤ 4096
      → s.server_type ≡ for_acct
      → s.dict ≡ q'.dict
      → find_host s.hosts addr ≡ some h
      → h.secret ≡ q'.secret
      → s.enable_pkt_verify ≡ true
      → (datagram_received x draw id s raw addr ≡ rejected verification_failed)
        × ((r : Packet) × (create x draw acct q'.secret id s.dict (from_wire raw) ≡ ok r)
            × (verify_acct_request x r ≡ ok true))
  unfolding datagram_received accept create is_response takes default_code
  genuine_request_rejected q q' raw s addr h written code flat distinct short type dict host secret
        on =
      let w = create_raw_acct_request_shape x draw q q' raw written in
      let (p, made, v) =
        request_decodes x draw q' raw w plain 0 id [] (codes "pap") flat distinct short in
      let (r, made', v') =
        request_decodes x draw q' raw w acct 4 id q'.secret (codes "pap") flat distinct short in
      let verified = verify_acct_request-received x draw q' raw w (codes "pap") r v' in
      (ground (arith, made, v.code, made', verified), (r, rw (dict, made'), verified))

  -- Let an accounting client with code 4 write `raw`, with plain attributes, distinct keys and at
  -- most 4096 bytes, to an accounting server that knows the sender, with the client's secret and
  -- dictionary. If the server does not verify packets, it passes the request on to the handler,
  -- with the client's code, identifier and attributes.
  pub genuine_request_received :
      (q q' : Packet) (raw : Bytes) (s : Protocol) (addr : Text) (h : RemoteHost)
      → create_raw_acct_request x draw q ≡ (ok raw, q')
      → q'.code ≡ PacketCode.accounting_request
      → IsPlain q'.dict q'.attrs
      → HasDistinctKeys q'.attrs
      → length raw ≤ 4096
      → s.server_type ≡ for_acct
      → s.dict ≡ q'.dict
      → find_host s.hosts addr ≡ some h
      → h.secret ≡ q'.secret
      → s.enable_pkt_verify ≡ false
      → (r : Packet) × (datagram_received x draw id s raw addr ≡ request r)
        × (r.code ≡ q'.code)
        × (r.id ≡ q'.id)
        × (r.attrs ≡ q'.attrs)
  unfolding datagram_received accept create is_response takes default_code
  genuine_request_received q q' raw s addr h written code flat distinct short type dict host secret
        off =
      let w = create_raw_acct_request_shape x draw q q' raw written in
      let (p, made, v) =
        request_decodes x draw q' raw w plain 0 id [] (codes "pap") flat distinct short in
      let (r, made', v') =
        request_decodes x draw q' raw w acct 4 id q'.secret (codes "pap") flat distinct short in
      (r, ground (arith, made, v.code, made'), v'.code, v'.id, v'.attrs)
