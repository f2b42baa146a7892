-- ===== src/ClientAsync/Events.antt =====
-- The events of a protocol of pyrad/client_async.py as steps, in whatever order they come.
use pyrad.Common.{ℕ, suc, ◌≡◌, sym, Bool, true, false, Bytes}
use mathlib.Core.Path.{subst}
use pyrad.Common.Dict.{contains}
use pyrad.Common.Eq.{nat_eq}
use pyrad.Dictionary.Types.{Dictionary}
use pyrad.Externals.{Externals}
use pyrad.Packet.State.{Packet}
use pyrad.ClientAsync.{
  running, Protocol, make_protocol, create_id, send_packet, timer_round, datagram_received,
  connection_made, close_transport,
}
use pyrad.ClientAsync.Invariant.{IsValid, create_id-IsValid}
use pyrad.ClientAsync.Preservation.{
  send_packet-IsValid, send_packet_refused, datagram_received-IsValid, with_timer-IsValid,
  timer_by-IsValid, close_by-IsValid, make_protocol-IsValid,
}

abbrev pub count : Bool → ℕ → ℕ
count true k = suc k
count false k = k

module _ (x : Externals) (draw : ℕ → ℕ) where
  -- One event, with whatever arguments, and whether or not it raises, and whether it takes over
  -- a request: a call of `send_packet` does, unless a request with the identifier of the packet is
  -- pending.
  pub data Step (s : Protocol) : Bool → Protocol → Type 0 where
    draws_id : Step s false (create_id s).1
    sends :
        (now : ℕ) (random : Bytes) (packet : Packet) (future : ℕ)
        → contains packet.id s.pending_requests ≡ false
        → Step s true (send_packet x draw now random packet future s).1
    refuses :
        (now : ℕ) (random : Bytes) (packet : Packet) (future : ℕ)
        → contains packet.id s.pending_requests ≡ true
        → Step s false (send_packet x draw now random packet future s).1
    receives : (id : ℕ) (datum : Bytes) → Step s false (datagram_received x draw id datum s).1
    ticks : (now : ℕ) (randoms : ℕ → Bytes) → Step s false (timer_round x draw now randoms s)
    connects : Step s false (connection_made s)
    closes : Step s false (close_transport s).1

  -- The events up to a state, and the number of requests taken over.
  pub data Steps (s : Protocol) : ℕ → Protocol → Type 0 where
    start : Steps s 0 s
    then : {k : ℕ} {b : Bool} {t u : Protocol} → Steps s k t → Step t b u → Steps s (count b k) u

  Step-IsValid :
      (n k : ℕ) {b : Bool} {s t : Protocol} → Step s b t → IsValid n k s → IsValid n (count b k) t
  unfolding timer_round connection_made close_transport
  Step-IsValid n k {s = s} draws_id v = create_id-IsValid n k s v
  Step-IsValid n k {s = s} (sends now random packet future new) v =
      send_packet-IsValid n x draw k now random packet future s new v
  Step-IsValid n k {s = s} (refuses now random packet future there) v =
      subst (IsValid n k) (sym (send_packet_refused n x draw now random packet future s there)) v
  Step-IsValid n k {s = s} (receives id datum) v = datagram_received-IsValid n x draw k id datum s v
  Step-IsValid n k {s = s} (ticks now randoms) v =
      timer_by-IsValid n x draw k s.timer now randoms s v
  Step-IsValid n k {s = s} connects v = with_timer-IsValid n x draw k running true s v
  Step-IsValid n k {s = s} closes v = close_by-IsValid n x draw k s.timer s v

  -- In whatever order the events of a new protocol come, and whether or not they raise: the protocol
  -- has sent at most `retries + 1` datagrams for each request that it took over, those included that
  -- the pending requests may still cost, where a call of `send_packet` takes a request over unless
  -- one with its identifier is pending. Each pending request has been sent again at most `retries`
  -- times, each future has been completed at most once, and the last identifier is a byte.
  pub Steps-IsValid :
      (retries timeout : ℕ) (dict : Dictionary) (random k : ℕ) (s : Protocol)
      → Steps (make_protocol retries timeout dict random) k s
      → IsValid retries k s
  Steps-IsValid retries timeout dict random _ s start =
      make_protocol-IsValid retries x draw timeout dict random
  Steps-IsValid retries timeout dict random _ s (then {k = k} {t = t} before step) =
      Step-IsValid retries k step (Steps-IsValid retries timeout dict random k t before)
