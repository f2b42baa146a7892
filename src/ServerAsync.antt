-- ===== src/ServerAsync.antt =====
-- pyrad/server_async.py: what `DatagramProtocolServer` does with a datagram, and the dispatch of
-- `ServerAsync.__request_handler__`.
pub mod Sending
pub mod Transports
pub mod Verification
use pyrad.Common.{
  ℕ, Bool, true, false, ◌&&◌, ◌||◌, not, Option, none, some, [], Bytes, Text, codes, ◌==◌,
  if◌then◌else◌,
}
use pyrad.Common.Eq.{text_eq_instance}
use pyrad.Common.Result.{
  Error, Result, ok, raise, stuck, response_packet, wrong_port, verification_failed, ◌>>=◌, ◌>>◌,
  guard,
}
use pyrad.Common.Dict.{Dict, lookup}
use pyrad.Dictionary.Types.{Dictionary}
use pyrad.Externals.{Externals}
use pyrad.Packet.PacketCode
use pyrad.Packet.State.{Kind, plain, auth, acct, coa, Packet}
use pyrad.Packet.Authenticator.Verify.{verify_auth_request, verify_acct_request, verify_coa_request}
use pyrad.Packet.Create.{from_wire}
use pyrad.Host.{RemoteHost, create}

pub data ServerType : Type 0 where
  for_auth for_acct for_coa : ServerType

pub record Protocol : Type 0 where
  pub server_type : ServerType
  pub hosts : Dict Text RemoteHost
  pub dict : Dictionary
  pub enable_pkt_verify : Bool

-- What becomes of a datagram: it comes from an unknown source, it cannot be decoded, an exception
-- ends its processing, or the request goes to the callback. `hangs` is a decoder that does not end.
pub data Outcome : Type 0 where
  unknown_source : Outcome
  undecodable : Error → Outcome
  rejected : Error → Outcome
  request : Packet → Outcome
  hangs : Outcome

-- `if addr[0] in self.hosts: ... elif '0.0.0.0' in self.hosts: ...`
unfoldable pub find_host : Dict Text RemoteHost → Text → Option RemoteHost
find_host hosts addr = elim (lookup addr hosts) [
  | some h ↦ some h
  | none ↦ lookup (codes "0.0.0.0") hosts
]

unfoldable pub is_response : ℕ → Bool
is_response c =
    c == PacketCode.accounting_response
    || c == PacketCode.access_accept
    || c == PacketCode.access_reject
    || c == PacketCode.coa_nak
    || c == PacketCode.coa_ack
    || c == PacketCode.disconnect_nak
    || c == PacketCode.disconnect_ack

-- the codes that a server of the type takes
unfoldable pub takes : ServerType → ℕ → Bool
takes for_auth c = c == PacketCode.access_request
takes for_acct c = c == PacketCode.accounting_request
takes for_coa c = c == PacketCode.disconnect_request || c == PacketCode.coa_request

abbrev pub kind_of : ServerType → Kind
kind_of for_auth = auth
kind_of for_acct = acct
kind_of for_coa = coa

module _ (x : Externals) (draw : ℕ → ℕ) (id : ℕ) where
  -- `verify_auth_request`, `verify_acct_request` or `verify_coa_request`
  verify : ServerType → Packet → Result Bool
  verify for_auth = verify_auth_request x
  verify for_acct = verify_acct_request x
  verify for_coa = verify_coa_request x

  -- `if req.verify_...(): raise PacketError('Packet verification failed')`
  check : Bool → ServerType → Packet → Result Packet
  unfolding verify
  check false t req = ok req
  check true t req = do
    verified ← verify t req
    if verified then raise verification_failed else ok req

  -- the `try` block up to the callback, for a datagram whose first decoding has the code `c`
  unfoldable pub accept : Protocol → Bytes → Bytes → ℕ → Result Packet
  unfolding check
  accept s secret datum c =
      if is_response c
      then raise response_packet
      else if not (takes s.server_type c)
      then raise wrong_port
      else (do
        req ← create x draw (kind_of s.server_type) secret id s.dict (from_wire datum)
        check s.enable_pkt_verify s.server_type req)

  processed : Result Packet → Outcome
  processed (ok req) = request req
  processed (raise e) = rejected e
  processed stuck = hangs

  decoded : Protocol → Bytes → Bytes → Result Packet → Outcome
  unfolding processed
  decoded s secret datum (ok req) = processed (accept s secret datum req.code)
  decoded s secret datum (raise e) = undecodable e
  decoded s secret datum stuck = hangs

  -- `datagram_received`
  unfoldable pub datagram_received : Protocol → Bytes → Text → Outcome
  unfolding decoded
  datagram_received s datum addr = elim (find_host s.hosts addr) [
    | none ↦ unknown_source
    | some h ↦ decoded s h.secret datum (create x draw plain [] id s.dict (from_wire datum))
  ]

-- the handlers that a derived class implements
pub data Handler : Type 0 where
  handle_auth handle_acct handle_coa handle_disconnect unexpected : Handler

-- `__request_handler__`
unfoldable pub request_handler : ServerType → ℕ → Handler
request_handler for_acct c = handle_acct
request_handler for_auth c = handle_auth
request_handler for_coa c =
    if c == PacketCode.coa_request
    then handle_coa
    else if c == PacketCode.disconnect_request
    then handle_disconnect
    else unexpected
