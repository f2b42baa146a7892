-- ===== src/ClientAsync.antt =====
-- pyrad/client_async.py: the table of pending requests of a datagram protocol, its timer, and the
-- client with its three protocols. A future is a number; what asyncio does with it, the clock and the
-- random numbers are arguments. The clock counts microseconds. Pending packets are different objects.
pub mod Transports
pub mod Replies
pub mod Budget
pub mod Invariant
pub mod Visiting
pub mod Preservation
pub mod Events
pub mod Genuine
pub mod Timing
use pyrad.Common.{
  ℕ, zero, suc, ◌+◌, ◌-◌, ◌*◌, ◌/◌, ◌%◌, Bool, true, false, not, ◌&&◌, ◌||◌, Option, none, some,
  List, [], ◌∷◌, ◌++◌, Bytes, codes, ltb, leb, ◌==◌, if◌then◌else◌,
}
use pyrad.Common.Eq.{nat_eq}
use pyrad.Common.Result.{
  Error, Result, ok, raise, stuck, attribute_error, already_present, invalid_state,
}
use pyrad.Common.Exec.{Exec, pure, fail, modify, ◌>>=◌, ◌>>◌}
use pyrad.Common.Dict.{Dict, lookup, insert, remove, contains}
use pyrad.Externals.{Externals}
use pyrad.Dictionary.Types.{Dictionary}
use pyrad.Packet.State.{Kind, plain, Packet}
use pyrad.Packet.Authenticator.{create_raw_request}
use pyrad.Packet.Create.{from_wire}
use pyrad.Packet.Reply.{verify_reply}
use pyrad.Host.{create}

-- an entry of `pending_requests`
pub record Request : Type 0 where
  pub packet : Packet
  pub creation_date : ℕ
  pub retries : ℕ
  pub future : ℕ
  pub send_date : ℕ

-- what completes a future
pub data Outcome : Type 0 where
  replied : Packet → Outcome
  timed_out : Outcome

-- `timeout_future`: the task of `_timeout_handler`, which only an exception ends
pub data Timer : Type 0 where
  no_timer running : Timer
  failed : Error → Timer

-- A DatagramProtocolClient; `is_open` says whether it has a transport. `sent` are the datagrams
-- that the transport got, `completed` the futures that have an outcome.
pub record Protocol : Type 0 where
  pub is_open : Bool
  pub retries : ℕ
  pub timeout : ℕ
  pub dict : Dictionary
  pub pending_requests : Dict ℕ Request
  pub packet_id : ℕ
  pub timer : Timer
  pub sent : List Bytes
  pub completed : Dict ℕ Outcome

-- `__init__`; `random` is what the random generator gives
unfoldable pub make_protocol : ℕ → ℕ → Dictionary → ℕ → Protocol
make_protocol retries timeout dict random = record {
  is_open = false;
  retries = retries;
  timeout = timeout;
  dict = dict;
  pending_requests = [];
  packet_id = random % 256;
  timer = no_timer;
  sent = [];
  completed = [];
}

abbrev pub day : ℕ
day = 86400000000

-- `(send_date - now).seconds`: of a timedelta that is normalized to days and a positive rest
unfoldable pub seconds_until : ℕ → ℕ → ℕ
seconds_until send_date now =
    if leb now send_date
    then ((send_date - now) % day) / 1000000
    else ((day - (now - send_date) % day) % day) / 1000000

-- `future.set_result` and `future.set_exception`
unfoldable pub complete : ℕ → Outcome → Exec Protocol (Unit {0})
complete future outcome s =
    if contains future s.completed
    then (raise invalid_state, s)
    else (ok tt, record s { completed = s.completed ++ (future, outcome) ∷ [] })

-- `del self.pending_requests[id]`, for an entry that is there
abbrev pub forget : ℕ → Protocol → Protocol
forget id s = record s { pending_requests = remove id s.pending_requests }

abbrev pub store : ℕ → Request → Protocol → Protocol
store id req s = record s { pending_requests = insert id req s.pending_requests }

-- the deletions behind the loop
pub forget_all : List ℕ → Protocol → Protocol
forget_all [] s = s
forget_all (id ∷ ids) s = forget_all ids (forget id s)

-- `create_id`
unfoldable pub create_id : Exec Protocol ℕ
create_id s = let next : ℕ = (s.packet_id + 1) % 256 in (ok next, record s { packet_id = next })

-- the end of `send_packet` and of a retry: the packet of the entry is changed, also where it raises
pub keep_packet : ℕ → Request → Result Bytes × Packet → Exec Protocol (Unit {0})
keep_packet id req (ok raw, p) s =
    let stored : Protocol = store id (record req { packet = p }) s in
    (ok tt, record stored { sent = s.sent ++ raw ∷ [] })
keep_packet id req (raise e, p) s = (raise e, store id (record req { packet = p }) s)
keep_packet id req (stuck, p) s = (stuck, store id (record req { packet = p }) s)

-- An object without attributes is false.
truth : Packet → Bool
truth p = elim p.attrs [ [] ↦ false | item ∷ items ↦ true ]

-- what `verify_reply` says, and the reply that it leaves
pub complete_if : ℕ → Request → Result Bool × Packet → Exec Protocol (Unit {0})
complete_if id req (ok true, reply) = do complete req.future (replied reply); modify (forget id)
complete_if id req (ok false, reply) = pure tt
complete_if id req (raise e, reply) = fail e
complete_if id req (stuck, reply) = λ s. (stuck, s)

-- `except Exception`: the error is logged
pub logged : Result (Unit {0}) × Protocol → Result (Unit {0}) × Protocol
logged (ok a, s) = (ok tt, s)
logged (raise e, s) = (ok tt, s)
logged (stuck, s) = (stuck, s)

fail_timer : Result ℕ × Protocol → Protocol
fail_timer (ok next, s) = s
fail_timer (raise e, s) = record s { timer = failed e }
fail_timer (stuck, s) = s

module _ (x : Externals) (draw : ℕ → ℕ) where
  -- `self.transport.sendto(packet.create_raw_request())`
  pub transmit : Bytes → ℕ → Request → Exec Protocol (Unit {0})
  unfolding keep_packet
  transmit random id req s =
      if s.is_open
      then keep_packet id req (create_raw_request x draw random req.packet) s
      else (raise attribute_error, s)

  -- `send_packet`; `random` is what `create_authenticator` returns
  unfoldable pub send_packet : ℕ → Bytes → Packet → ℕ → Exec Protocol (Unit {0})
  unfolding transmit
  send_packet now random packet future s =
      if contains packet.id s.pending_requests
      then (raise already_present, s)
      else (let req : Request = record {
        packet = packet;
        creation_date = now;
        retries = 0;
        future = future;
        send_date = now;
      } in
          transmit random packet.id req (store packet.id req s))

  -- a request whose time is over: whether it is given up, or sent again
  pub expired : ℕ → Bytes → ℕ → Request → List ℕ → Exec Protocol (List ℕ)
  unfolding transmit
  expired now random id req req2delete s =
      if req.retries == s.retries
      then (do complete req.future timed_out; pure (req2delete ++ id ∷ [])) s
      else (let again : Request = record req { send_date = now; retries = req.retries + 1 } in
          (do transmit random id again; pure req2delete) (store id again s))

  -- The loop over the items; `next` is `next_weak_up`, `randoms` what `create_authenticator` returns
  -- for each.
  unfoldable pub check_items :
      ℕ → (ℕ → Bytes) → Dict ℕ Request → ℕ → List ℕ → Exec Protocol (ℕ × List ℕ)
  unfolding expired
  check_items now randoms [] next req2delete s = (ok (next, req2delete), s)
  check_items now randoms ((id, req) ∷ items) next req2delete s =
      let secs : ℕ = seconds_until req.send_date now in
      let later : Exec Protocol (ℕ × List ℕ) =
        check_items now randoms items (if ltb secs next then secs else next) req2delete in
      if ltb s.timeout secs
      then (do
        ids ← expired now (randoms id) id req req2delete
        check_items now randoms items next ids)
          s
      else later s

  -- One round of `_timeout_handler`: it returns how long to sleep.
  unfoldable pub check_pending : ℕ → (ℕ → Bytes) → Exec Protocol ℕ
  unfolding forget_all
  check_pending now randoms s =
      (do
        (next, req2delete) ← check_items now randoms s.pending_requests s.timeout []
        modify (forget_all req2delete)
        pure next)
        s

  pub timer_by : Timer → ℕ → (ℕ → Bytes) → Protocol → Protocol
  unfolding fail_timer
  timer_by running now randoms s = fail_timer (check_pending now randoms s)
  timer_by no_timer now randoms s = s
  timer_by (failed e) now randoms s = s

  -- the round, if the task is running
  unfoldable pub timer_round : ℕ → (ℕ → Bytes) → Protocol → Protocol
  unfolding timer_by
  timer_round now randoms s = timer_by s.timer now randoms s

  matched : Bytes → Packet → Option Request → Exec Protocol (Unit {0})
  unfolding complete_if
  matched datum reply none = pure tt
  matched datum reply (some req) = complete_if reply.id req (
      verify_reply x draw req.packet (some datum)
        (record reply { dict = req.packet.dict; secret = req.packet.secret }))

  reply_for : Bytes → Result Packet → Exec Protocol (Unit {0})
  unfolding matched truth
  reply_for datum (ok reply) s =
      if truth reply then matched datum reply (lookup reply.id s.pending_requests) s else (ok tt, s)
  reply_for datum (raise e) s = (raise e, s)
  reply_for datum stuck s = (stuck, s)

  -- `datagram_received`; `id` is what the constructor draws for the new packet
  unfoldable pub datagram_received : ℕ → Bytes → Exec Protocol (Unit {0})
  unfolding reply_for logged
  datagram_received id datum s =
      logged (reply_for datum (create x draw plain [] id s.dict (from_wire datum)) s)

-- `connection_made` and `close_transport`
unfoldable pub connection_made : Protocol → Protocol
connection_made s = record s { is_open = true; timer = running }

-- Cancelling ends a running task; awaiting one that has failed raises its exception.
pub close_by : Timer → Exec Protocol (Unit {0})
close_by no_timer s = (ok tt, record s { is_open = false })
close_by running s = (ok tt, record s { is_open = false; timer = no_timer })
close_by (failed e) s = (raise e, record s { is_open = false })

unfoldable pub close_transport : Exec Protocol (Unit {0})
unfolding close_by
close_transport s = close_by s.timer s
