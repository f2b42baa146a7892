-- ===== src/Client.antt =====
-- pyrad/client.py: sending a request, with retries and timeouts, and the two rounds of EAP-MD5.
-- The clock, the socket and the random numbers are a trace: what the calls of an attempt return.
pub mod Eap
pub mod Sending
pub mod Replies
pub mod Waiting
pub mod Delay
pub mod Retries
pub mod Sockets
use pyrad.Common.{
  ℕ, zero, suc, ◌+◌, ◌-◌, ◌*◌, Bool, true, false, not, ◌&&◌, Option, none, some, List, [], ◌∷◌,
  ◌++◌, Bytes, Text, codes, length, drop, ltb, leb, ◌==◌, if◌then◌else◌,
}
use pyrad.Common.Eq.{text_eq}
use pyrad.Common.Int.{ℤ, pos, negsuc}
use pyrad.Common.Struct.{pack_uint}
use pyrad.Common.Result.{
  Result, ok, raise, stuck, key_error, type_error, index_error, attribute_error, struct_error,
  timeout, or_raise,
}
use pyrad.Common.Exec.{Exec, pure, lift, modify, fail, ◌>>=◌, ◌>>◌}
use pyrad.Common.Dict.{lookup, contains, is_some}
use pyrad.Externals.{Externals}
use pyrad.Encoding.{Value, int, str, bytes}
use pyrad.Dictionary.Types.{Dictionary, code, key_eq_instance}
use pyrad.Packet.PacketCode
use pyrad.Packet.State.{Slot, values, subs, Kind, plain, auth, acct, coa, Packet}
use pyrad.Packet.Names.{Item, list, nested, contains_name, get_item}
use pyrad.Packet.Access.{set_item, set_raw}
use pyrad.Packet.Authenticator.{create_raw_request}
use pyrad.Packet.Create.{Args, create_reply, from_wire}
use pyrad.Packet.Reply.{verify_reply}
use pyrad.Host.{Host, create}
use Eap.{add_identity, add_response, is_challenge}

-- The fields of the object that sending reads. The timeout is a whole number of seconds.
pub record Client : Type 0 where
  pub host : Host
  pub secret : Bytes
  pub retries : ℕ
  pub timeout_seconds : ℕ

-- A call of `poll`: the datagram that is there then, if one is, and the clock after it, in microseconds.
pub record Poll : Type 0 where
  pub ready : Option Bytes
  pub time : ℕ

-- A round of the loop over the attempts: the clock at its start, what `create_authenticator` would
-- return, and the calls of `poll`.
pub record Attempt : Type 0 where
  pub start : ℕ
  pub random : Bytes
  pub polls : List Poll

-- The packet, which the caller sees too, and what was sent: the ports and the datagrams.
pub record Sender : Type 0 where
  pub pkt : Packet
  pub sent : List (ℕ × Bytes)

-- `create_auth_packet`, `create_acct_packet` and `create_coa_packet`, by the class
unfoldable pub create_packet : Externals → (ℕ → ℕ) → Client → Kind → ℕ → Args → Result Packet
create_packet x draw c kind id args = create x draw kind c.secret id c.host.dict args

plus : ℤ → ℕ → ℤ
plus (pos n) k = pos (n + k)
plus (negsuc n) k = if leb (n + 1) k then pos (k - (n + 1)) else negsuc (n - k)

-- `pkt["Acct-Delay-Time"][0] + self.timeout`
plus_timeout : ℕ → Item → Result Value
unfolding plus
plus_timeout seconds (list (int n ∷ vs)) = ok (int (plus n seconds))
plus_timeout seconds (list (str s ∷ vs)) = raise type_error
plus_timeout seconds (list (bytes b ∷ vs)) = raise type_error
plus_timeout seconds (list []) = raise index_error
plus_timeout seconds (nested d) = raise key_error

-- an action on the packet
on_packet : {A : Type 0} → Exec Packet A → Exec Sender A
on_packet m s = let (r, p) = m s.pkt in (r, record s { pkt = p })

-- `self._socket.sendto`
send_to : ℕ → Bytes → Exec Sender (Unit {0})
send_to port raw s = (ok tt, record s { sent = s.sent ++ (port, raw) ∷ [] })

-- `if pkt.verify_reply(reply, rawreply): return reply`
if_verified : Result Bool × Packet → Result (Option Packet)
if_verified (ok true, reply) = ok (some reply)
if_verified (ok false, reply) = ok none
if_verified (raise e, reply) = raise e
if_verified (stuck, reply) = stuck

-- `except PacketCode.PacketError`: an exception makes Python look up this name, which PacketCode does
-- not have
handler_missing : {A : Type 0} → Result A → Result A
handler_missing (ok a) = ok a
handler_missing (raise e) = raise attribute_error
handler_missing stuck = stuck

or_listen : Result (Option Packet) → Result (Option Packet) → Result (Option Packet)
or_listen (ok (some reply)) more = ok (some reply)
or_listen (ok none) more = more
or_listen (raise e) more = raise e
or_listen stuck more = stuck

or_retry : Option Packet → Exec Sender (Option Packet) → Exec Sender (Option Packet)
or_retry (some reply) more = pure (some reply)
or_retry none more = more

or_timeout : Option Packet → Exec Sender Packet
or_timeout none = fail timeout
or_timeout (some reply) = pure reply

module _ (x : Externals) (draw : ℕ → ℕ) where
  -- the `try` block for what a call of `poll` brought
  checked : Packet → Bytes → Result Packet → Result (Option Packet)
  unfolding if_verified
  checked p raw (ok reply) = if_verified (verify_reply x draw p (some raw) reply)
  checked p raw (raise e) = raise e
  checked p raw stuck = stuck

  unfoldable pub answer : Packet → Option Bytes → Result (Option Packet)
  unfolding checked handler_missing
  answer p none = ok none
  answer p (some raw) = handler_missing (checked p raw (create_reply x draw p (from_wire raw)))

  -- `while now < waitto`; a call of `poll` that is not in the trace has not come back
  unfoldable pub listen : Packet → ℕ → ℕ → List Poll → Result (Option Packet)
  unfolding or_listen
  listen p waitto now [] = if ltb now waitto then stuck else ok none
  listen p waitto now (t ∷ ts) =
      if ltb now waitto then or_listen (answer p t.ready) (listen p waitto t.time ts) else ok none

  -- A retransmitted accounting request says how long it has been tried.
  unfoldable pub add_delay : ℕ → Exec Packet (Unit {0})
  unfolding plus_timeout
  add_delay seconds p =
      if contains_name p (codes "Acct-Delay-Time")
      then (do
        item ← lift (get_item x p (codes "Acct-Delay-Time"))
        delay ← lift (plus_timeout seconds item)
        set_item x draw (codes "Acct-Delay-Time") (delay ∷ []))
          p
      else set_item x draw (codes "Acct-Delay-Time") (int (pos seconds) ∷ []) p

  -- the first statement of the loop, by the number of the attempt
  unfoldable pub delay_retry : ℕ → ℕ → Exec Packet (Unit {0})
  delay_retry seconds zero p = (ok tt, p)
  delay_retry seconds (suc n) p =
      if p.code == PacketCode.accounting_request then add_delay seconds p else (ok tt, p)

  -- One attempt: it sends the packet and waits for a reply.
  unfoldable pub attempt : Client → ℕ → ℕ → Attempt → Exec Sender (Option Packet)
  unfolding on_packet send_to
  attempt c port number a = do
    on_packet (delay_retry c.timeout_seconds number)
    raw ← on_packet (create_raw_request x draw a.random)
    send_to port raw
    λ s. (listen s.pkt (a.start + c.timeout_seconds * 1000000) a.start a.polls, s)

  -- `for attempt in range(self.retries)`, with the rounds that are left
  unfoldable pub attempts : Client → ℕ → ℕ → ℕ → List Attempt → Exec Sender (Option Packet)
  unfolding or_retry
  attempts c port zero number trace s = (ok none, s)
  attempts c port (suc n) number [] s = (stuck, s)
  attempts c port (suc n) number (a ∷ trace) s =
      (do r ← attempt c port number a; or_retry r (attempts c port n (number + 1) trace)) s

  -- `_send_packet`
  unfoldable pub send_packet_to : Client → ℕ → List Attempt → Exec Sender Packet
  unfolding or_timeout
  send_packet_to c port trace = do r ← attempts c port c.retries 0 trace; or_timeout r

  -- The two calls of `_send_packet` for an AuthPacket; the second answers a challenge.
  send_auth : Client → ℕ → List Attempt → List Attempt → Exec Sender Packet
  send_auth c current trace trace' = do
    λ s. on_packet (add_identity current) s
    reply ← send_packet_to c c.host.authport trace
    λ s.
        if is_challenge reply s.pkt
        then (do on_packet (add_response x reply); send_packet_to c c.host.authport trace') s
        else (ok reply, s)

  send_by : Kind → Client → ℕ → List Attempt → List Attempt → Exec Sender Packet
  unfolding send_auth
  send_by auth c current trace trace' = send_auth c current trace trace'
  send_by coa c current trace trace' = send_packet_to c c.host.coaport trace
  send_by acct c current trace trace' = send_packet_to c c.host.acctport trace
  send_by plain c current trace trace' = send_packet_to c c.host.acctport trace

  -- `send_packet`; `current` is `packet.current_id`
  unfoldable pub send_packet : Client → ℕ → List Attempt → List Attempt → Exec Sender Packet
  unfolding send_by on_packet
  send_packet c current trace trace' s = send_by s.pkt.kind c current trace trace' s
