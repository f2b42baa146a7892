-- ===== src/ClientAsync/Timing.antt =====
-- The identifiers and the timer of pyrad/client_async.py.
use pyrad.Common.{
  ℕ, zero, suc, ◌+◌, ◌-◌, ◌*◌, ◌/◌, ◌%◌, ◌≤◌, ◌<◌, ◌≡◌, ◌≢◌, refl, true, false, [], ◌∷◌, ◌++◌,
  Bytes, ltb, leb, ◌==◌, arith,
}
use pyrad.Common.Eq.{nat_eq, beq_refl}
use pyrad.Common.Result.{ok}
use pyrad.Common.Dict.{insert}
use pyrad.Externals.{Externals}
use pyrad.Packet.State.{Packet}
use pyrad.Packet.Authenticator.{create_raw_request}
use pyrad.ClientAsync.{
  Request, Protocol, day, seconds_until, create_id, store, keep_packet, transmit, expired,
  check_items, check_pending, forget_all,
}

-- the state after `n` calls of `create_id`
unfoldable pub after_ids : ℕ → Protocol → Protocol
after_ids zero s = s
after_ids (suc n) s = (create_id (after_ids n s)).1

after_ids_id :
    (n : ℕ) (s : Protocol) → s.packet_id < 256 → (after_ids n s).packet_id ≡ (s.packet_id + n) % 256
unfolding after_ids create_id
after_ids_id zero s h = omega arith
after_ids_id (suc n) s h = omega (arith, after_ids_id n s h)

-- Identifiers are bytes, and two of them that are less than 256 calls apart differ, from any
-- identifier that is a byte on.
pub create_id_distinct :
    (n k : ℕ) (s : Protocol)
    → s.packet_id < 256
    → 0 < k
    → k < 256
    → ((after_ids n s).packet_id < 256)
      × ((after_ids (n + k) s).packet_id ≢ (after_ids n s).packet_id)
create_id_distinct n k s h some_more less = (
  omega (arith, after_ids_id n s h),
  λ e. omega (arith, after_ids_id n s h, after_ids_id (n + k) s h, e),
)

-- A date in the past, by less than a day: the seconds count back from the day.
seconds_until_past :
    (sent now : ℕ)
    → sent < now
    → now - sent < day
    → seconds_until sent now ≡ (day - (now - sent)) / 1000000
unfolding seconds_until
seconds_until_past sent now late near =
    let behind : leb now sent ≡ false = ground arith in rw behind (omega arith)

early : (t secs : ℕ) → t < secs → ltb t secs ≡ true
early t secs h = ground arith

module _ (x : Externals) (draw : ℕ → ℕ) where
  transmit_made :
      (random : Bytes) (id : ℕ) (req : Request) (s : Protocol) (raw : Bytes) (p : Packet)
      → s.is_open ≡ true
      → create_raw_request x draw random req.packet ≡ (ok raw, p)
      → transmit x draw random id req s ≡ (
        ok tt,
        record s {
          pending_requests = insert id (record req { packet = p }) s.pending_requests;
          sent = s.sent ++ raw ∷ [];
        },
      )
  unfolding transmit keep_packet
  transmit_made random id req s raw p up made = ground (arith, up, made)

  -- A request is sent again in any round of the timer that comes a little later than the request,
  -- however long the timeout is: `(send_date - now).seconds` of a date in the past counts back from a
  -- day. The request is the only one, has retries left, was sent before the round, by less than a day
  -- less the timeout and a second, and the transport is open.
  pub early_retry :
      (now : ℕ) (randoms : ℕ → Bytes) (id : ℕ) (req : Request) (s : Protocol) (raw : Bytes)
      (p : Packet)
      → s.pending_requests ≡ (id, req) ∷ []
      → s.is_open ≡ true
      → (req.retries == s.retries) ≡ false
      → req.send_date < now
      → now - req.send_date + (s.timeout + 1) * 1000000 ≤ day
      → create_raw_request x draw (randoms id) req.packet ≡ (ok raw, p)
      → check_pending x draw now randoms s ≡ (
        ok s.timeout,
        record s {
          pending_requests =
              (id, record req { packet = p; send_date = now; retries = req.retries + 1 }) ∷ [];
          sent = s.sent ++ raw ∷ [];
        },
      )
  unfolding check_pending check_items expired forget_all insert
  early_retry now randoms id req s raw p alone up left past near made =
      let secs : seconds_until req.send_date now ≡ (day - (now - req.send_date)) / 1000000 =
        seconds_until_past req.send_date now past (omega arith) in
      let late : ltb s.timeout (seconds_until req.send_date now) ≡ true =
        early s.timeout (seconds_until req.send_date now) (omega (arith, secs)) in
      let again : Request = record req { send_date = now; retries = req.retries + 1 } in
      let stored : Protocol = store id again (record s { pending_requests = (id, req) ∷ [] }) in
      let sent_again = transmit_made (randoms id) id again stored raw p up made in
      rw (alone, late, left, sent_again) (rw (beq_refl id, beq_refl id) refl)
