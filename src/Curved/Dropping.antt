-- ===== src/Curved/Dropping.antt =====
-- What becomes of the packets that pyrad/curved.py receives.
use pyrad.Common.{ℕ, [], ◌≡◌, refl, ◌⊎◌, inl, inr, true, Option, none, Bytes, Text, Bool-cases}
use pyrad.Common.Eq.{text_eq_instance}
use pyrad.Common.Result.{Result, ok, raise, stuck, attribute_error, is_packet_error}
use pyrad.Common.Dict.{contains}
use pyrad.Externals.{Externals}
use pyrad.Packet.State.{Packet, auth, acct}
use pyrad.Packet.Create.{from_wire}
use pyrad.Host.{create}
use pyrad.Curved.{
  Protocol, base, access, accounting, Radius, Fate, invalid_packet, unknown_source, no_return,
  process, dispatch, create_by, create_packet, datagram_received,
}

module _ (x : Externals) (draw : ℕ → ℕ) (id : ℕ) where
  no_return-eq-ok : (r : Result Packet) (o : Option Packet) → no_return r ≡ ok o → o ≡ none
  unfolding no_return
  no_return-eq-ok (ok pkt) o h = cc h
  no_return-eq-ok (raise e) o h = cc h
  no_return-eq-ok stuck o h = cc h

  create_by-eq-ok :
      (p : Protocol) (r : Radius) (datagram : Bytes) (o : Option Packet)
      → create_by x draw id p r datagram ≡ ok o
      → o ≡ none
  unfolding create_by
  create_by-eq-ok base r datagram o h = cc h
  create_by-eq-ok access r datagram o h = no_return-eq-ok _ o h
  create_by-eq-ok accounting r datagram o h = no_return-eq-ok _ o h

  dispatch-eq-ok :
      (r : Radius) (host : Text) (made : Result (Option Packet)) (f : Fate)
      → ((o : Option Packet) → made ≡ ok o → o ≡ none)
      → dispatch r host made ≡ ok f
      → (f ≡ invalid_packet) ⊎ (f ≡ unknown_source)
  unfolding dispatch process
  dispatch-eq-ok r host (raise e) f empty h = elim (Bool-cases (is_packet_error e)) [
    | inl broken ↦ inl (cc (rw broken at h))
    | inr other ↦ cc (rw other at h)
  ]
  dispatch-eq-ok r host stuck f empty h = cc h
  dispatch-eq-ok r host (ok o) f empty h = elim (Bool-cases (contains host r.hosts)) [
    | inr stranger ↦ inr (cc (rw stranger at h))
    | inl known ↦ cc (rw (known, empty o refl) at h)
  ]

  -- No packet is processed: whatever the datagram, its sender and the protocol are, if
  -- `datagramReceived` returns, then it has dropped the datagram as an invalid packet or because its
  -- sender is unknown.
  pub never_processed :
      (r : Radius) (datagram : Bytes) (host : Text) (f : Fate)
      → datagram_received x draw id r datagram host ≡ ok f
      → (f ≡ invalid_packet) ⊎ (f ≡ unknown_source)
  unfolding datagram_received create_packet
  never_processed r datagram host f h =
      dispatch-eq-ok r host (create_packet x draw id r datagram) f
        (create_by-eq-ok r.protocol r datagram) h

  made_nothing :
      (k : Protocol) (r : Radius) (datagram : Bytes) (pkt : Packet)
      → ((k ≡ access) × (create x draw auth [] id r.dict (from_wire datagram) ≡ ok pkt))
        ⊎ ((k ≡ accounting) × (create x draw acct [] id r.dict (from_wire datagram) ≡ ok pkt))
      → create_by x draw id k r datagram ≡ ok none
  unfolding create_by no_return
  made_nothing access r datagram pkt (inl (same, h)) = rw h
  made_nothing accounting r datagram pkt (inr (same, h)) = rw h
  made_nothing base r datagram pkt (inl (same, h)) = cc same
  made_nothing base r datagram pkt (inr (same, h)) = cc same
  made_nothing access r datagram pkt (inr (same, h)) = cc same
  made_nothing accounting r datagram pkt (inl (same, h)) = cc same

  -- A packet that decodes, from a host that is known, stops both protocols: `create_packet` does not
  -- return the packet, and to set the source of None raises AttributeError.
  pub known_host_raises :
      (r : Radius) (datagram : Bytes) (host : Text) (pkt : Packet)
      → ((r.protocol ≡ access) × (create x draw auth [] id r.dict (from_wire datagram) ≡ ok pkt))
        ⊎ ((r.protocol ≡ accounting)
            × (create x draw acct [] id r.dict (from_wire datagram) ≡ ok pkt))
      → contains host r.hosts ≡ true
      → datagram_received x draw id r datagram host ≡ raise attribute_error
  unfolding datagram_received create_packet dispatch process
  known_host_raises r datagram host pkt made known =
      rw (made_nothing r.protocol r datagram pkt made, known) refl
