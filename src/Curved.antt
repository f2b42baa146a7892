-- ===== src/Curved.antt =====
-- pyrad/curved.py: the two protocols for Twisted. What `log.msg` would print is left out.
pub mod Dropping
use pyrad.Common.{
  ℕ, Bool, true, false, not, Option, none, some, List, [], Bytes, Text, ◌==◌, if◌then◌else◌,
}
use pyrad.Common.Eq.{text_eq_instance}
use pyrad.Common.Result.{
  Error, Result, ok, raise, stuck, attribute_error, not_implemented, is_packet_error,
}
use pyrad.Common.Dict.{Dict, contains}
use pyrad.Dictionary.Types.{Dictionary}
use pyrad.Externals.{Externals}
use pyrad.Packet.State.{Kind, plain, auth, acct, coa, Packet}
use pyrad.Packet.PacketCode
use pyrad.Packet.Create.{from_wire}
use pyrad.Host.{RemoteHost, create}

-- RADIUS, RADIUSAccess and RADIUSAccounting
pub data Protocol : Type 0 where
  base access accounting : Protocol

-- `self.hosts` and `self.dict`
pub record Radius : Type 0 where
  pub protocol : Protocol
  pub hosts : Dict Text RemoteHost
  pub dict : Dictionary

-- what becomes of a datagram
pub data Fate : Type 0 where
  invalid_packet unknown_source wrong_code processed : Fate

-- A function without `return` gives None, whatever it has made.
no_return : Result Packet → Result (Option Packet)
no_return (ok pkt) = ok none
no_return (raise e) = raise e
no_return stuck = stuck

-- `process_packet`: whether it raises PacketError, the class of this file
unfoldable pub rejects : Protocol → Packet → Bool
rejects base pkt = false
rejects access pkt = not (pkt.code == PacketCode.access_request)
rejects accounting pkt = not (pkt.code == PacketCode.accounting_request)

-- the end of `datagramReceived`, from `pkt.source = ...` on
process : Protocol → Option Packet → Result Fate
unfolding rejects
process p none = raise attribute_error
process p (some pkt) = ok (if rejects p pkt then wrong_code else processed)

-- what follows `create_packet`
dispatch : Radius → Text → Result (Option Packet) → Result Fate
unfolding process
dispatch r host (raise e) = if is_packet_error e then ok invalid_packet else raise e
dispatch r host stuck = stuck
dispatch r host (ok pkt) =
    if contains host r.hosts then process r.protocol pkt else ok unknown_source

module _ (x : Externals) (draw : ℕ → ℕ) (id : ℕ) where
  -- `create_packet(packet=datagram)`; `id` is what the constructor draws
  create_by : Protocol → Radius → Bytes → Result (Option Packet)
  unfolding no_return
  create_by base r datagram = raise not_implemented
  create_by access r datagram = no_return (create x draw auth [] id r.dict (from_wire datagram))
  create_by accounting r datagram = no_return (create x draw acct [] id r.dict (from_wire datagram))

  unfoldable pub create_packet : Radius → Bytes → Result (Option Packet)
  unfolding create_by
  create_packet r datagram = create_by r.protocol r datagram

  -- `datagramReceived`, of a datagram from a host
  unfoldable pub datagram_received : Radius → Bytes → Text → Result Fate
  unfolding dispatch
  datagram_received r datagram host = dispatch r host (create_packet r datagram)
