-- ===== src/Server.antt =====
-- pyrad/server.py: the dispatch of received packets and the main loop.
pub mod Dispatch
pub mod Survival
pub mod Genuine
pub mod Hang
pub mod Sockets
use pyrad.Common.{
  ℕ, Bool, true, false, ◌&&◌, ◌||◌, not, Option, none, some, List, [], ◌∷◌, ◌++◌, Bytes, Text,
  codes, ◌==◌, if◌then◌else◌,
}
use pyrad.Common.Eq.{text_eq_instance}
use pyrad.Common.Result.{
  Error, Result, ok, raise, stuck, key_error, unknown_host, wrong_port, unknown_handler,
  is_packet_error, is_server_packet_error, or_raise, ◌>>=◌,
}
use pyrad.Common.Dict.{Dict, lookup, contains}
use pyrad.Dictionary.Types.{Dictionary}
use pyrad.Externals.{Externals}
use pyrad.Packet.PacketCode
use pyrad.Packet.State.{Kind, auth, acct, coa, Packet}
use pyrad.Packet.Create.{from_wire}
use pyrad.Host.{RemoteHost, create}

-- The fields that the main loop reads. Sockets are named by their file numbers.
pub record Server : Type 0 where
  pub hosts : Dict Text RemoteHost
  pub dict : Dictionary
  pub auth_enabled : Bool
  pub acct_enabled : Bool
  pub coa_enabled : Bool
  pub authfds : List ℕ
  pub acctfds : List ℕ
  pub coafds : List ℕ

-- the method of a derived class that gets the packet
pub data Handler : Type 0 where
  handle_auth handle_acct handle_coa handle_disconnect : Handler

unfoldable pub mem : ℕ → List ℕ → Bool
mem fd [] = false
mem fd (x ∷ xs) = fd == x || mem fd xs

abbrev pub with_secret : Packet → RemoteHost → Packet
with_secret pkt h = record pkt { secret = h.secret }

-- `_add_secret`; `source` is the address of the sender
unfoldable pub add_secret : Server → Text → Packet → Result Packet
add_secret s source pkt = elim (lookup source s.hosts) [
  | some h ↦ ok (with_secret pkt h)
  | none ↦ elim (lookup (codes "0.0.0.0") s.hosts) [
    | some h ↦ ok (with_secret pkt h)
    | none ↦ raise unknown_host
  ]
]

unfoldable pub handle_auth_packet : Server → Text → Packet → Result (Handler × Packet)
handle_auth_packet s source pkt = do
  p ← add_secret s source pkt
  if p.code == PacketCode.access_request then ok (handle_auth, p) else raise wrong_port

unfoldable pub handle_acct_packet : Server → Text → Packet → Result (Handler × Packet)
handle_acct_packet s source pkt = do
  p ← add_secret s source pkt
  if p.code == PacketCode.accounting_request || p.code == PacketCode.accounting_response
      then ok (handle_acct, p)
      else raise wrong_port

-- the secret is looked up a second time, now without the wildcard
unfoldable pub handle_coa_packet : Server → Text → Packet → Result (Handler × Packet)
handle_coa_packet s source pkt = do
  p ← add_secret s source pkt
  h ← or_raise key_error (lookup source s.hosts)
  let q = with_secret p h
  if q.code == PacketCode.coa_request
      then ok (handle_coa, q)
      else (if q.code == PacketCode.disconnect_request
          then ok (handle_disconnect, q)
          else raise wrong_port)

-- An event of `poll`: the file number, whether it is plain input, and the datagram that is waiting
-- with the address of its sender.
pub record Event : Type 0 where
  pub fd : ℕ
  pub is_input : Bool
  pub datum : Bytes
  pub source : Text

module _ (x : Externals) (draw : ℕ → ℕ) (id : ℕ) where
  -- `_grab_packet` with the constructor of the class
  grab : Server → Kind → Event → Result Packet
  grab s kind e = create x draw kind [] id s.dict (from_wire e.datum)

  -- the three branches of `_process_input`
  unfoldable pub auth_input : Server → Event → Result (Handler × Packet)
  unfolding grab
  auth_input s e = do pkt ← grab s auth e; handle_auth_packet s e.source pkt

  unfoldable pub acct_input : Server → Event → Result (Handler × Packet)
  unfolding grab
  acct_input s e = do pkt ← grab s acct e; handle_acct_packet s e.source pkt

  unfoldable pub coa_input : Server → Event → Result (Handler × Packet)
  unfolding grab
  coa_input s e = do pkt ← grab s coa e; handle_coa_packet s e.source pkt

  unfoldable pub process_input : Server → Event → Result (Handler × Packet)
  process_input s e =
      if s.auth_enabled && mem e.fd s.authfds
      then auth_input s e
      else if s.acct_enabled && mem e.fd s.acctfds
      then acct_input s e
      else if s.coa_enabled
      then coa_input s e
      else raise unknown_handler

-- what the main loop has done with an event
pub data Step : Type 0 where
  handled : Handler → Packet → Step
  dropped : Error → Step
  unexpected_event : Step

-- `except ServerPacketError ... except packet.PacketError`; any other exception leaves the loop
unfoldable pub caught : Result (Handler × Packet) → Result Step
caught (ok (h, p)) = ok (handled h p)
caught (raise e) = if is_server_packet_error e || is_packet_error e then ok (dropped e) else raise e
caught stuck = stuck

-- The main loop over the events that `poll` reports, for the class whose `_process_input` is the
-- argument; `fds` are the keys of `_fdmap`.
unfoldable pub run_event : (Event → Result (Handler × Packet)) → List ℕ → Event → Result Step
run_event process fds e =
    if not e.is_input
    then ok unexpected_event
    else if mem e.fd fds
    then caught (process e)
    else raise key_error

unfoldable pub run : (Event → Result (Handler × Packet)) → List ℕ → List Event → Result (List Step)
run process fds [] = ok []
run process fds (e ∷ es) = do
  step ← run_event process fds e
  steps ← run process fds es
  ok (step ∷ steps)
