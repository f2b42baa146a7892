-- ===== src/ClientAsync/Transports.antt =====
-- The class ClientAsync of pyrad/client_async.py: three protocols, each of which may be missing. The
-- endpoints that asyncio opens are taken to open, and to call `connection_made`.
use pyrad.Common.{ℕ, Bool, true, false, not, ◌&&◌, Option, none, some, Bytes, ◌==◌, if◌then◌else◌}
use pyrad.Common.Result.{
  Result, ok, raise, attribute_error, no_transports, transport_not_initialized, missing_id,
  unsupported_packet,
}
use pyrad.Common.Exec.{Exec, pure, fail, modify, ◌>>=◌, ◌>>◌}
use pyrad.Externals.{Externals}
use pyrad.Dictionary.Types.{Dictionary}
use pyrad.Packet.State.{Kind, plain, auth, acct, coa, Packet}
use pyrad.Packet.Create.{Args}
use pyrad.Host.{create}
use pyrad.ClientAsync.{
  Protocol, make_protocol, create_id, send_packet, connection_made, close_transport,
}

pub record Client : Type 0 where
  pub secret : Bytes
  pub retries : ℕ
  pub timeout : ℕ
  pub dict : Dictionary
  pub protocol_acct : Option Protocol
  pub protocol_auth : Option Protocol
  pub protocol_coa : Option Protocol

-- The protocol of a class of packets, and a write to it; there is none for a plain packet.
unfoldable pub protocol_for : Kind → Client → Option Protocol
protocol_for acct c = c.protocol_acct
protocol_for auth c = c.protocol_auth
protocol_for coa c = c.protocol_coa
protocol_for plain c = none

unfoldable pub set_protocol : Kind → Option Protocol → Client → Client
set_protocol acct o c = record c { protocol_acct = o }
set_protocol auth o c = record c { protocol_auth = o }
set_protocol coa o c = record c { protocol_coa = o }
set_protocol plain o c = c

-- a new protocol, if it is enabled and there is none
opened : Bool → ℕ → Client → Option Protocol → Option Protocol
opened false random c o = o
opened true random c (some p) = some p
opened true random c none = some (connection_made (make_protocol c.retries c.timeout c.dict random))

-- `initialize_transports`; `random` is what each new protocol draws
unfoldable pub initialize_transports : Bool → Bool → Bool → (Kind → ℕ) → Exec Client (Unit {0})
unfolding opened
initialize_transports enable_acct enable_auth enable_coa random c =
    if not enable_acct && not enable_auth && not enable_coa then (raise no_transports, c) else (
      ok tt,
      record c {
        protocol_acct = opened enable_acct (random acct) c c.protocol_acct;
        protocol_auth = opened enable_auth (random auth) c c.protocol_auth;
        protocol_coa = opened enable_coa (random coa) c c.protocol_coa;
      },
    )

-- an action on a protocol that is there
with_protocol : {A : Type 0} → Kind → Exec Protocol A → Protocol → Exec Client A
with_protocol k m p c = let (r, p') = m p in (r, set_protocol k (some p') c)

-- one of the three parts of `deinitialize_transports`
close_protocol : Kind → Option Protocol → Exec Client (Unit {0})
unfolding with_protocol
close_protocol k none = pure tt
close_protocol k (some p) = do with_protocol k close_transport p; modify (set_protocol k none)

close_if : Bool → Kind → Exec Client (Unit {0})
unfolding close_protocol
close_if false k c = (ok tt, c)
close_if true k c = close_protocol k (protocol_for k c) c

-- `deinitialize_transports`
unfoldable pub deinitialize_transports : Bool → Bool → Bool → Exec Client (Unit {0})
unfolding close_if
deinitialize_transports deinit_coa deinit_auth deinit_acct = do
  close_if deinit_coa coa
  close_if deinit_auth auth
  close_if deinit_acct acct

next_id : Kind → Option Protocol → Exec Client ℕ
unfolding with_protocol
next_id k none = fail attribute_error
next_id k (some p) = with_protocol k create_id p

module _ (x : Externals) (draw : ℕ → ℕ) where
  -- The three methods that make a packet: the protocol that each of them looks for, and the one
  -- whose identifier it takes.
  create_for : Kind → Option Protocol → Args → Exec Client Packet
  unfolding next_id
  create_for k none args = fail transport_not_initialized
  create_for k (some p) args = do
    id ← λ c. next_id k (protocol_for k c) c
    λ c. (create x draw k c.secret id c.dict args, c)

  unfoldable pub create_auth_packet : Args → Exec Client Packet
  unfolding create_for
  create_auth_packet args c = create_for auth c.protocol_auth args c

  unfoldable pub create_acct_packet : Args → Exec Client Packet
  unfolding create_for
  create_acct_packet args c = create_for acct c.protocol_acct args c

  -- it looks for the protocol of accounting
  unfoldable pub create_coa_packet : Args → Exec Client Packet
  unfolding create_for
  create_coa_packet args c = create_for coa c.protocol_acct args c

  -- `create_packet`
  unfoldable pub create_packet : ℕ → Args → Client → Result Packet
  create_packet id args c =
      if id == 0 then raise missing_id else create x draw plain c.secret id c.dict args

  send_by : Kind → Option Protocol → ℕ → Bytes → Packet → ℕ → Exec Client (Unit {0})
  unfolding with_protocol
  send_by k none now random pkt future = fail transport_not_initialized
  send_by k (some p) now random pkt future =
      with_protocol k (send_packet x draw now random pkt future) p

  -- `send_packet`, with a new future
  unfoldable pub send : ℕ → Bytes → Packet → ℕ → Exec Client (Unit {0})
  unfolding send_by
  send now random pkt future c = elim pkt.kind [
    | plain ↦ (raise unsupported_packet, c)
    | auth ↦ send_by auth c.protocol_auth now random pkt future c
    | acct ↦ send_by acct c.protocol_acct now random pkt future c
    | coa ↦ send_by coa c.protocol_coa now random pkt future c
  ]
