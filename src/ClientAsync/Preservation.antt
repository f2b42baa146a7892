-- ===== src/ClientAsync/Preservation.antt =====
-- Every event of a protocol of pyrad/client_async.py keeps its state valid.
use pyrad.Common.{
  ℕ, suc, ◌+◌, ◌*◌, ◌≤◌, ◌≡◌, length, refl, Bool, true, false, Option, none, some, List, [], ◌∷◌,
  Bytes, All, ltb, ◌==◌, arith, Bool-cases, inl, inr,
}
use pyrad.Common.Eq.{nat_eq}
use pyrad.Common.Result.{Result, ok, raise, stuck}
use pyrad.Common.Dict.{Dict, lookup, contains, HasDistinctKeys}
use pyrad.Dictionary.Types.{Dictionary}
use pyrad.Externals.{Externals}
use pyrad.Packet.State.{Packet, plain}
use pyrad.Packet.Create.{from_wire}
use pyrad.Host.{create}
use pyrad.Packet.Authenticator.{create_raw_request}
use pyrad.Common.Dict.Entries.{IsFound, IsFound-others, All-IsFound}
use pyrad.ClientAsync.Budget.{owed, owed-insert_new, owed-insert_old}
use pyrad.ClientAsync.Visiting.{found_stored, expired_others}
use pyrad.ClientAsync.{
  Request, timed_out, Timer, running, no_timer, failed, Protocol, make_protocol, seconds_until,
  complete, store, truth, transmit, send_packet, expired, check_items, check_pending, fail_timer,
  timer_by, matched, reply_for, datagram_received, close_by,
}
use pyrad.ClientAsync.Invariant.{
  is_some-none, IsBounded, IsValid, Keeps, continue-IsValid, if-IsValid, complete-IsValid,
  store-IsValid, forget_all-IsValid, keep_packet-IsValid, complete_if-IsValid, logged-IsValid,
}

module _ (n : ℕ) (x : Externals) (draw : ℕ → ℕ) where
  module _ (k : ℕ) where
    transmit-IsValid :
        (random : Bytes) (id : ℕ) (req : Request) (s : Protocol)
        → req.retries ≤ n
        → lookup id s.pending_requests ≡ some req
        → length s.sent + owed n s.pending_requests + 1 ≤ k * suc n
        → IsValid n k s
        → IsValid n k (transmit x draw random id req s).1
    unfolding transmit
    transmit-IsValid random id req s few found spare v =
        if-IsValid n k s.is_open _ _
          (keep_packet-IsValid n k id req (create_raw_request x draw random req.packet) s few found
            spare v)
          v

  -- A request that is taken over may be sent `n + 1` times.
  pub send_packet-IsValid :
      (k now : ℕ) (random : Bytes) (packet : Packet) (future : ℕ) (s : Protocol)
      → contains packet.id s.pending_requests ≡ false
      → IsValid n k s
      → IsValid n (suc k) (send_packet x draw now random packet future s).1
  unfolding send_packet
  send_packet-IsValid k now random packet future s new v =
      let req : Request = record {
        packet = packet;
        creation_date = now;
        retries = 0;
        future = future;
        send_date = now;
      } in
      let cost = owed-insert_new n packet.id req s.pending_requests (is_some-none _ new) in
      let w : IsValid n (suc k) s = record {
        same_retries = v.same_retries;
        one_request = v.one_request;
        bounded = v.bounded;
        budget = omega (arith, v.budget);
        completed_once = v.completed_once;
        id_bound = v.id_bound;
      } in
      rw new (
        transmit-IsValid (suc k) random packet.id req (store packet.id req s) (omega arith)
          (found_stored packet.id req s) (omega (arith, cost, v.budget))
          (store-IsValid n (suc k) packet.id req s (omega arith) (omega (arith, cost, v.budget)) w))

  pub send_packet_refused :
      (now : ℕ) (random : Bytes) (packet : Packet) (future : ℕ) (s : Protocol)
      → contains packet.id s.pending_requests ≡ true
      → (send_packet x draw now random packet future s).1 ≡ s
  unfolding send_packet
  send_packet_refused now random packet future s there = rw there refl

  module _ (k : ℕ) where
    expired-IsValid :
        (now : ℕ) (random : Bytes) (id : ℕ) (req : Request) (ids : List ℕ) (s : Protocol)
        → lookup id s.pending_requests ≡ some req
        → req.retries ≤ n
        → IsValid n k s
        → IsValid n k (expired x draw now random id req ids s).1
    unfolding expired
    expired-IsValid now random id req ids s found few v =
        elim (Bool-cases (req.retries == s.retries)) [
          | inl all ↦ rw all (
              continue-IsValid n k (complete req.future timed_out s).0 _
                (complete req.future timed_out s).1 (complete-IsValid n k req.future timed_out s v)
                (λ _. complete-IsValid n k req.future timed_out s v))
          | inr some_left ↦
              let again : Request = record req { send_date = now; retries = req.retries + 1 } in
              let fewer : again.retries ≤ n = ground (arith, few, v.same_retries, some_left) in
              let stored : Protocol = store id again s in
              let cost = owed-insert_old n id again req s.pending_requests found in
              let w = store-IsValid n k id again s fewer (omega (arith, cost, fewer, v.budget)) v in
              let sent =
                transmit-IsValid k random id again stored fewer (found_stored id again s)
                  (omega (arith, cost, fewer, v.budget)) w in
              rw some_left (
                continue-IsValid n k (transmit x draw random id again stored).0 _
                  (transmit x draw random id again stored).1 sent (λ _. sent))
        ]

    check_items-IsValid :
        (now : ℕ) (randoms : ℕ → Bytes) (items : Dict ℕ Request) (next : ℕ) (ids : List ℕ)
        (s : Protocol)
        → All (IsBounded n) items
        → HasDistinctKeys items
        → All (IsFound s.pending_requests) items
        → IsValid n k s
        → IsValid n k (check_items x draw now randoms items next ids s).1
    unfolding check_items
    check_items-IsValid now randoms [] next ids s few distinct found v = v
    check_items-IsValid now randoms ((id, req) ∷ items) next ids s (first, few) (fresh, distinct)
          (here, found) v =
        elim (Bool-cases (ltb s.timeout (seconds_until req.send_date now))) [
          | inl late ↦
              let visited = expired x draw now (randoms id) id req ids s in
              let w = expired-IsValid now (randoms id) id req ids s here first v in
              let found' =
                IsFound-others id items s.pending_requests visited.1.pending_requests fresh
                  (expired_others x draw now (randoms id) id req ids s) found in
              rw late (
                continue-IsValid n k visited.0
                  (λ (more : List ℕ). check_items x draw now randoms items next more) visited.1 w
                  (λ more.
                    check_items-IsValid now randoms items next more visited.1 few distinct found'
                      w))
          | inr early ↦
              rw early (check_items-IsValid now randoms items _ ids s few distinct found v)
        ]

    check_pending-IsValid :
        (now : ℕ) (randoms : ℕ → Bytes) → Keeps n k (check_pending x draw now randoms)
    unfolding check_pending
    check_pending-IsValid now randoms s v =
        let o = check_items x draw now randoms s.pending_requests s.timeout [] s in
        let w =
          check_items-IsValid now randoms s.pending_requests s.timeout [] s v.bounded v.one_request
            (All-IsFound s.pending_requests v.one_request) v in
        continue-IsValid n k o.0 _ o.1 w (λ (a : ℕ × List ℕ). forget_all-IsValid n k a.1 o.1 w)

  module _ (k : ℕ) where
    pub with_timer-IsValid :
        (t : Timer) (is_open : Bool) (s : Protocol)
        → IsValid n k s
        → IsValid n k (record s { timer = t; is_open = is_open })
    with_timer-IsValid t is_open s v = record {
      same_retries = v.same_retries;
      one_request = v.one_request;
      bounded = v.bounded;
      budget = v.budget;
      completed_once = v.completed_once;
      id_bound = v.id_bound;
    }

    fail_timer-IsValid : (o : Result ℕ × Protocol) → IsValid n k o.1 → IsValid n k (fail_timer o)
    unfolding fail_timer
    fail_timer-IsValid (ok next, s) v = v
    fail_timer-IsValid (raise e, s) v = with_timer-IsValid (failed e) s.is_open s v
    fail_timer-IsValid (stuck, s) v = v

    pub timer_by-IsValid :
        (t : Timer) (now : ℕ) (randoms : ℕ → Bytes) (s : Protocol)
        → IsValid n k s
        → IsValid n k (timer_by x draw t now randoms s)
    unfolding timer_by
    timer_by-IsValid running now randoms s v =
        fail_timer-IsValid (check_pending x draw now randoms s)
          (check_pending-IsValid k now randoms s v)
    timer_by-IsValid no_timer now randoms s v = v
    timer_by-IsValid (failed e) now randoms s v = v

    matched-IsValid :
        (datum : Bytes) (reply : Packet) (o : Option Request)
        → Keeps n k (matched x draw datum reply o)
    unfolding matched
    matched-IsValid datum reply none s v = v
    matched-IsValid datum reply (some req) s v = complete_if-IsValid n k reply.id req _ s v

    reply_for-IsValid : (datum : Bytes) (r : Result Packet) → Keeps n k (reply_for x draw datum r)
    unfolding reply_for
    reply_for-IsValid datum (ok reply) s v = elim (Bool-cases (truth reply)) [
      | inl t ↦ rw t (matched-IsValid datum reply (lookup reply.id s.pending_requests) s v)
      | inr t ↦ rw t v
    ]
    reply_for-IsValid datum (raise e) s v = v
    reply_for-IsValid datum stuck s v = v

    pub datagram_received-IsValid :
        (id : ℕ) (datum : Bytes) → Keeps n k (datagram_received x draw id datum)
    unfolding datagram_received
    datagram_received-IsValid id datum s v =
        logged-IsValid n k _
          (reply_for-IsValid datum (create x draw plain [] id s.dict (from_wire datum)) s v)

    pub close_by-IsValid : (t : Timer) → Keeps n k (close_by t)
    unfolding close_by
    close_by-IsValid running s v = with_timer-IsValid no_timer false s v
    close_by-IsValid no_timer s v = with_timer-IsValid s.timer false s v
    close_by-IsValid (failed e) s v = with_timer-IsValid s.timer false s v

  pub make_protocol-IsValid :
      (timeout : ℕ) (dict : Dictionary) (random : ℕ)
      → IsValid n 0 (make_protocol n timeout dict random)
  unfolding make_protocol owed
  make_protocol-IsValid timeout dict random = record {
    same_retries = refl;
    one_request = tt;
    bounded = tt;
    budget = omega arith;
    completed_once = tt;
    id_bound = omega arith;
  }
