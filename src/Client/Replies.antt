-- ===== src/Client/Replies.antt =====
-- What `Client.send_packet` of pyrad/client.py returns.
use pyrad.Common.{
  ℕ, zero, suc, ◌+◌, ◌≡◌, refl, ap, ◌∙◌, Bool, true, false, Option, none, some, List, [], ◌∷◌,
  Bytes, ltb, ◌⊎◌, inl, inr, Bool-cases,
}
use pyrad.Common.Result.{Result, ok, raise, stuck}
use pyrad.Common.Exec.{Exec, continue}
use pyrad.Externals.{Externals}
use pyrad.Packet.State.{Kind, plain, auth, acct, coa, Packet}
use pyrad.Packet.Authenticator.{create_raw_request}
use pyrad.Packet.Create.{create_reply, from_wire}
use pyrad.Packet.Reply.{verify_reply}
use pyrad.Client.{
  Client, Poll, Attempt, Sender, on_packet, send_to, delay_retry, answer, checked, handler_missing,
  if_verified, listen, or_listen, attempt, attempts, or_retry, or_timeout, send_packet_to,
  send_auth, send_by, send_packet,
}
use pyrad.Client.Eap.{add_identity, add_response, is_challenge}

-- A call of `poll` brought the datagram.
abbrev pub IsPolled : Bytes → List Poll → Type 0
IsPolled raw [] = ⊥
IsPolled raw (t ∷ ts) = (t.ready ≡ some raw) ⊎ IsPolled raw ts

abbrev pub IsReceived : Bytes → List Attempt → Type 0
IsReceived raw [] = ⊥
IsReceived raw (a ∷ trace) = IsPolled raw a.polls ⊎ IsReceived raw trace

-- the first or the second round brought the datagram
abbrev pub Came : List Attempt → List Attempt → Bytes → Type 0
Came trace trace' raw = IsReceived raw trace ⊎ IsReceived raw trace'

module _ (x : Externals) (draw : ℕ → ℕ) where
  -- The reply is what `create_reply` of the packet makes of a datagram, and passes `verify_reply`.
  pub record IsVerified (p : Packet) (Came : Bytes → Type 0) (reply : Packet) : Type 0 where
    pub raw : Bytes
    pub fresh : Packet
    pub came : Came raw
    pub created : create_reply x draw p (from_wire raw) ≡ ok fresh
    pub accepted : verify_reply x draw p (some raw) fresh ≡ (ok true, reply)

  if_verified-eq-ok :
      (r : Result Bool × Packet) (reply : Packet)
      → if_verified r ≡ ok (some reply)
      → r ≡ (ok true, reply)
  unfolding if_verified
  if_verified-eq-ok (ok true, q) reply h = cc h
  if_verified-eq-ok (ok false, q) reply h = cc h
  if_verified-eq-ok (raise e, q) reply h = cc h
  if_verified-eq-ok (stuck, q) reply h = cc h

  handler_missing-eq-ok : {A : Type 0} (r : Result A) (a : A) → handler_missing r ≡ ok a → r ≡ ok a
  unfolding handler_missing
  handler_missing-eq-ok (ok b) a h = h
  handler_missing-eq-ok (raise e) a h = cc h
  handler_missing-eq-ok stuck a h = cc h

  checked-eq-ok :
      (p : Packet) (raw : Bytes) (r : Result Packet) (reply : Packet)
      → checked x draw p raw r ≡ ok (some reply)
      → (q : Packet) × (r ≡ ok q) × (verify_reply x draw p (some raw) q ≡ (ok true, reply))
  unfolding checked
  checked-eq-ok p raw (ok q) reply h = (q, refl, if_verified-eq-ok _ reply h)
  checked-eq-ok p raw (raise e) reply h = cc h
  checked-eq-ok p raw stuck reply h = cc h

  answer-IsVerified :
      (p : Packet) (o : Option Bytes) (reply : Packet)
      → answer x draw p o ≡ ok (some reply)
      → IsVerified p (λ raw. o ≡ some raw) reply
  unfolding answer
  answer-IsVerified p none reply h = cc h
  answer-IsVerified p (some raw) reply h =
      let (q, made, passed) =
        checked-eq-ok p raw (create_reply x draw p (from_wire raw)) reply
          (handler_missing-eq-ok _ (some reply) h) in
      record { raw = raw; fresh = q; came = refl; created = made; accepted = passed }

  or_listen-eq-ok :
      (r more : Result (Option Packet)) (reply : Packet)
      → or_listen r more ≡ ok (some reply)
      → (r ≡ ok (some reply)) ⊎ (more ≡ ok (some reply))
  unfolding or_listen
  or_listen-eq-ok (ok none) more reply h = inr h
  or_listen-eq-ok (ok (some q)) more reply h = inl h
  or_listen-eq-ok (raise e) more reply h = cc h
  or_listen-eq-ok stuck more reply h = cc h

  came_as :
      {p reply : Packet} {C D : Bytes → Type 0}
      → ((raw : Bytes) → C raw → D raw)
      → IsVerified p C reply
      → IsVerified p D reply
  came_as f v = record {
    raw = v.raw;
    fresh = v.fresh;
    came = f v.raw v.came;
    created = v.created;
    accepted = v.accepted;
  }

  listen-IsVerified :
      (p : Packet) (waitto now : ℕ) (ts : List Poll) (reply : Packet)
      → listen x draw p waitto now ts ≡ ok (some reply)
      → IsVerified p (λ raw. IsPolled raw ts) reply
  unfolding listen
  listen-IsVerified p waitto now [] reply h = elim (Bool-cases (ltb now waitto)) [
    | inl more ↦ cc (h, more)
    | inr over ↦ cc (h, over)
  ]
  listen-IsVerified p waitto now (t ∷ ts) reply h = elim (Bool-cases (ltb now waitto)) [
    | inr over ↦ cc (h, over)
    | inl more ↦
        elim (or_listen-eq-ok (answer x draw p t.ready) (listen x draw p waitto t.time ts) reply
          (rw more at h)) [
            | inl here ↦ came_as (λ raw e. inl e) (answer-IsVerified p t.ready reply here)
            | inr later ↦
                came_as (λ raw e. inr e) (listen-IsVerified p waitto t.time ts reply later)
          ]
  ]

  -- What an action returns, if it returns a reply, is verified under the packet that it leaves.
  abbrev Replies : {B : Type 0} → (Packet → B) → (Bytes → Type 0) → Result B × Sender → Type 0
  Replies {B} wrap Came o = (reply : Packet) → o.0 ≡ ok (wrap reply) → IsVerified o.1.pkt Came reply

  continue-Replies :
      {A B : Type 0} {wrap : Packet → B} {Came : Bytes → Type 0} (r : Result A)
      (f : A → Exec Sender B) (t : Sender)
      → ((a : A) → r ≡ ok a → Replies wrap Came (f a t))
      → Replies wrap Came (continue r f t)
  continue-Replies (ok a) f t g = g a refl
  continue-Replies (raise e) f t g = λ reply h. cc h
  continue-Replies stuck f t g = λ reply h. cc h

  module _ (c : Client) where
    attempt-Replies :
        (port number : ℕ) (a : Attempt) (s : Sender)
        → Replies some (λ raw. IsPolled raw a.polls) (attempt x draw c port number a s)
    unfolding attempt send_to
    attempt-Replies port number a s =
        let delayed = on_packet (delay_retry x draw c.timeout_seconds number) s in
        continue-Replies delayed.0 _ delayed.1 (λ _ _.
          let made = on_packet (create_raw_request x draw a.random) delayed.1 in
          continue-Replies made.0 _ made.1
            (λ raw _ reply h. listen-IsVerified made.1.pkt _ a.start a.polls reply h))

    or_retry-Replies :
        (r : Option Packet) (more : Exec Sender (Option Packet)) (t : Sender) {C D : Bytes → Type 0}
        → ((reply : Packet) → r ≡ some reply → IsVerified t.pkt C reply)
        → Replies some D (more t)
        → Replies some (λ raw. C raw ⊎ D raw) (or_retry r more t)
    unfolding or_retry
    or_retry-Replies (some q) more t here later reply h =
        came_as (λ raw e. inl e) (here reply (cc h))
    or_retry-Replies none more t here later reply h = came_as (λ raw e. inr e) (later reply h)

    attempts-Replies :
        (port n number : ℕ) (trace : List Attempt) (s : Sender)
        → Replies some (λ raw. IsReceived raw trace) (attempts x draw c port n number trace s)
    unfolding attempts
    attempts-Replies port zero number trace s = λ reply h. cc h
    attempts-Replies port (suc n) number [] s = λ reply h. cc h
    attempts-Replies port (suc n) number (a ∷ trace) s =
        let first = attempt x draw c port number a s in
        continue-Replies first.0 _ first.1 (λ r e.
          or_retry-Replies r (attempts x draw c port n (number + 1) trace) first.1
            (λ reply same. attempt-Replies port number a s reply (e ∙ ap ok same))
            (attempts-Replies port n (number + 1) trace first.1))

    or_timeout-Replies :
        (r : Option Packet) (t : Sender) {C : Bytes → Type 0}
        → ((reply : Packet) → r ≡ some reply → IsVerified t.pkt C reply)
        → Replies (λ reply. reply) C (or_timeout r t)
    unfolding or_timeout
    or_timeout-Replies none t here reply h = cc h
    or_timeout-Replies (some q) t here reply h = here reply (cc h)

    send_packet_to-Replies :
        (port : ℕ) (trace : List Attempt) (s : Sender)
        → Replies
            (λ reply. reply)
            (λ raw. IsReceived raw trace)
            (send_packet_to x draw c port trace s)
    unfolding send_packet_to
    send_packet_to-Replies port trace s =
        let tried = attempts x draw c port c.retries 0 trace s in
        continue-Replies tried.0 _ tried.1 (λ r e.
          or_timeout-Replies r tried.1
            (λ reply same. attempts-Replies port c.retries 0 trace s reply (e ∙ ap ok same)))

    weaken :
        {B : Type 0} {wrap : Packet → B} {C D : Bytes → Type 0} (o : Result B × Sender)
        → ((raw : Bytes) → C raw → D raw)
        → Replies wrap C o
        → Replies wrap D o
    weaken o f h reply e = came_as f (h reply e)

    send_auth-Replies :
        (current : ℕ) (trace trace' : List Attempt) (s : Sender)
        → Replies (λ reply. reply) (Came trace trace') (send_auth x draw c current trace trace' s)
    unfolding send_auth
    send_auth-Replies current trace trace' s =
        let port = c.host.authport in
        let named = on_packet (add_identity current) s in
        continue-Replies named.0 _ named.1 (λ _ _.
          let first = send_packet_to x draw c port trace named.1 in
          continue-Replies first.0 _ first.1 (λ reply e.
            elim (Bool-cases (is_challenge reply first.1.pkt)) [
              | inr over ↦ rw over (λ q same.
                  came_as (λ raw r. inl r) (send_packet_to-Replies port trace named.1 q (e ∙ same)))
              | inl challenge ↦
                  let answered = on_packet (add_response x reply) first.1 in
                  rw challenge (
                    continue-Replies answered.0 (λ _. send_packet_to x draw c port trace')
                      answered.1
                      (λ _ _.
                        weaken (send_packet_to x draw c port trace' answered.1) (λ raw r. inr r)
                          (send_packet_to-Replies port trace' answered.1)))
            ]))

    send_to_port-Replies :
        (port : ℕ) (trace trace' : List Attempt) (s : Sender)
        → Replies (λ reply. reply) (Came trace trace') (send_packet_to x draw c port trace s)
    send_to_port-Replies port trace trace' s =
        weaken (send_packet_to x draw c port trace s) (λ raw r. inl r)
          (send_packet_to-Replies port trace s)

    send_by-Replies :
        (k : Kind) (current : ℕ) (trace trace' : List Attempt) (s : Sender)
        → Replies (λ reply. reply) (Came trace trace') (send_by x draw k c current trace trace' s)
    unfolding send_by
    send_by-Replies auth current trace trace' s = send_auth-Replies current trace trace' s
    send_by-Replies coa current trace trace' s = send_to_port-Replies c.host.coaport trace trace' s
    send_by-Replies acct current trace trace' s =
        send_to_port-Replies c.host.acctport trace trace' s
    send_by-Replies plain current trace trace' s =
        send_to_port-Replies c.host.acctport trace trace' s

    -- Whatever datagrams come: if `send_packet` returns a reply, one of them was received in one of
    -- its attempts, `create_reply` of the packet that the call leaves decodes it, and `verify_reply`
    -- of that packet accepts the reply that is returned.
    pub send_packet-IsVerified :
        (current : ℕ) (trace trace' : List Attempt) (s s' : Sender) (reply : Packet)
        → send_packet x draw c current trace trace' s ≡ (ok reply, s')
        → IsVerified s'.pkt (Came trace trace') reply
    unfolding send_packet
    send_packet-IsVerified current trace trace' s s' reply h =
        let same : (send_by x draw s.pkt.kind c current trace trace' s).1 ≡ s' =
          ap (λ (r : Result Packet × Sender). r.1) h in
        rw (← same) (
          send_by-Replies s.pkt.kind current trace trace' s reply
            (ap (λ (r : Result Packet × Sender). r.0) h))
