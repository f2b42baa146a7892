-- ===== src/Client/Waiting.antt =====
-- How `Client._send_packet` of pyrad/client.py ends: with the server's reply, with Timeout, or with the
-- exception that its handler of exceptions raises.
use pyrad.Common.{
  ℕ, zero, suc, ◌+◌, ◌*◌, ◌≤◌, ◌<◌, ◌≡◌, refl, ap, ◌∙◌, true, false, none, some, List, [], ◌∷◌,
  ◌++◌, Bytes, length, replicate, All, append_assoc, append-nil, ltb, ◌==◌, arith, Bool-cases, inl,
  inr,
}
use pyrad.Common.Dict.{HasDistinctKeys}
use pyrad.Common.Result.{Error, ok, raise, timeout, attribute_error}
use pyrad.Externals.{Externals}
use pyrad.Dictionary.Types.{key_eq_instance}
use pyrad.Packet.PacketCode
use pyrad.Packet.State.{auth, Packet}
use pyrad.Packet.Decode.RoundTrip.{IsPlain}
use pyrad.Packet.Raw.{raw_auth_request}
use pyrad.Packet.Crypt.{ensure_authenticator}
use pyrad.Packet.Authenticator.{
  create_raw_reply, create_raw_request, create_raw_auth_request, refresh_if_set,
}
use pyrad.Packet.Create.{create_reply, from_wire}
use pyrad.Packet.Reply.Accepted.{reply_accepted}
use pyrad.Client.{
  Client, Poll, Attempt, Sender, on_packet, send_to, delay_retry, answer, listen, or_listen,
  attempt, attempts, or_retry, or_timeout, send_packet_to,
}

-- The calls of `poll` bring nothing until the clock has reached the time.
pub data IsSilent (waitto : ℕ) : ℕ → List Poll → Type 0 where
  over : {now : ℕ} {ts : List Poll} → waitto ≤ now → IsSilent waitto now ts
  silent :
      {now : ℕ} {t : Poll} {ts : List Poll}
      → t.ready ≡ none
      → IsSilent waitto t.time ts
      → IsSilent waitto now (t ∷ ts)

module _ (x : Externals) (draw : ℕ → ℕ) where
  listen_over :
      (p : Packet) (waitto now : ℕ) (ts : List Poll)
      → waitto ≤ now
      → listen x draw p waitto now ts ≡ ok none
  unfolding listen
  listen_over p waitto now [] h = ground arith
  listen_over p waitto now (t ∷ ts) h = ground arith

  listen_silent :
      (p : Packet) (waitto now : ℕ) (ts : List Poll)
      → IsSilent waitto now ts
      → listen x draw p waitto now ts ≡ ok none
  unfolding listen answer or_listen
  listen_silent p waitto now ts (over h) = listen_over p waitto now ts h
  listen_silent p waitto now _ (silent {t = t} {ts = ts} none_ready quiet) =
      elim (Bool-cases (ltb now waitto)) [
        | inl more ↦ rw (more, none_ready) (listen_silent p waitto t.time ts quiet)
        | inr late ↦ rw late refl
      ]

  -- A packet that makes the same request each time, and stays as it is.
  abbrev IsStable : Packet → Bytes → Type 0
  IsStable p raw =
      (number seconds : ℕ) (random : Bytes)
      → (delay_retry x draw seconds number p ≡ (ok tt, p))
        × (create_raw_request x draw random p ≡ (ok raw, p))

  auth-IsStable :
      (p : Packet) (a raw : Bytes)
      → p.kind ≡ auth
      → p.authenticator ≡ some a
      → p.message_authenticator ≡ none
      → (p.code == PacketCode.accounting_request) ≡ false
      → raw_auth_request x p ≡ ok raw
      → IsStable p raw
  unfolding create_raw_request create_raw_auth_request ensure_authenticator refresh_if_set
      delay_retry
  auth-IsStable p a raw hk ha hm hc hr zero seconds random = (refl, ground (arith, hk, ha, hm, hr))
  auth-IsStable p a raw hk ha hm hc hr (suc number) seconds random =
      (rw hc, ground (arith, hk, ha, hm, hr))

  module _ (c : Client) where
    abbrev log : Sender → List (ℕ × Bytes) → Sender
    log s more = record s { sent = s.sent ++ more }

    abbrev deadline : Attempt → ℕ
    deadline a = a.start + c.timeout_seconds * 1000000

    attempt_silent :
        (port number : ℕ) (a : Attempt) (s : Sender) (raw : Bytes)
        → IsStable s.pkt raw
        → IsSilent (deadline a) a.start a.polls
        → attempt x draw c port number a s ≡ (ok none, log s ((port, raw) ∷ []))
    unfolding attempt on_packet send_to
    attempt_silent port number a s raw stable quiet =
        let (delayed, made) = stable number c.timeout_seconds a.random in
        rw (delayed, made, listen_silent s.pkt (deadline a) a.start a.polls quiet)

    attempts_silent :
        (port n number : ℕ) (trace : List Attempt) (s : Sender) (raw : Bytes)
        → IsStable s.pkt raw
        → All (λ a. IsSilent (deadline a) a.start a.polls) trace
        → n ≤ length trace
        → attempts x draw c port n number trace s ≡ (ok none, log s (replicate n (port, raw)))
    unfolding attempts or_retry
    attempts_silent port zero number trace s raw stable quiet enough = rw (append-nil s.sent)
    attempts_silent port (suc n) number [] s raw stable quiet enough = absurd (omega arith)
    attempts_silent port (suc n) number (a ∷ trace) s raw stable (now, later) enough =
        rw (attempt_silent port number a s raw stable now) (
          attempts_silent port n (number + 1) trace (log s ((port, raw) ∷ [])) raw stable later
            (omega arith)
          ∙ ap (λ (l : List (ℕ × Bytes)). (ok none, record s { sent = l }))
              (append_assoc s.sent ((port, raw) ∷ []) (replicate n (port, raw))))

    -- Nothing comes back: an AuthPacket that has its authenticator, no Message-Authenticator and not
    -- the code of an accounting request is sent `retries` times, the same datagram each time, and then
    -- Timeout is raised. The trace has an attempt for each retry, and in each of them the clock
    -- reaches the end of the wait.
    pub send_packet_to_silent :
        (port : ℕ) (trace : List Attempt) (s : Sender) (a raw : Bytes)
        → s.pkt.kind ≡ auth
        → s.pkt.authenticator ≡ some a
        → s.pkt.message_authenticator ≡ none
        → (s.pkt.code == PacketCode.accounting_request) ≡ false
        → raw_auth_request x s.pkt ≡ ok raw
        → All (λ a. IsSilent (deadline a) a.start a.polls) trace
        → c.retries ≤ length trace
        → send_packet_to x draw c port trace s
          ≡ (raise timeout, record s { sent = s.sent ++ replicate c.retries (port, raw) })
    unfolding send_packet_to or_timeout
    send_packet_to_silent port trace s a raw hk ha hm hc hr quiet enough =
        rw
          (attempts_silent port c.retries 0 trace s raw (auth-IsStable s.pkt a raw hk ha hm hc hr)
            quiet enough)
          refl

    -- The state after the first datagram is sent.
    abbrev sent_once : ℕ → Bytes → Packet → Sender → Sender
    sent_once port req p s = record s { pkt = p; sent = s.sent ++ (port, req) ∷ [] }

    first_attempt :
        (port : ℕ) (a : Attempt) (s : Sender) (raw req : Bytes) (p : Packet) (time : ℕ)
        (ts : List Poll)
        → 0 < c.timeout_seconds
        → create_raw_request x draw a.random s.pkt ≡ (ok req, p)
        → a.polls ≡ record { ready = some raw; time = time } ∷ ts
        → attempt x draw c port 0 a s ≡ (
          or_listen (answer x draw p (some raw)) (listen x draw p (deadline a) time ts),
          sent_once port req p s,
        )
    unfolding attempt on_packet send_to delay_retry listen
    first_attempt port a s raw req p time ts some_time made polled =
        let early : ltb a.start (deadline a) ≡ true = ground arith in rw (made, polled, early) refl

    -- A datagram that the packet cannot decode ends the call: if the first one that comes is such, no
    -- Timeout and no retry follows, but an AttributeError, since `except PacketCode.PacketError` names
    -- something that is not there. The timeout and the number of retries are not 0.
    pub undecodable_reply :
        (port n : ℕ) (a : Attempt) (trace : List Attempt) (s : Sender) (raw req : Bytes)
        (p : Packet) (e : Error) (time : ℕ) (ts : List Poll)
        → c.retries ≡ suc n
        → 0 < c.timeout_seconds
        → create_raw_request x draw a.random s.pkt ≡ (ok req, p)
        → a.polls ≡ record { ready = some raw; time = time } ∷ ts
        → create_reply x draw p (from_wire raw) ≡ raise e
        → send_packet_to x draw c port (a ∷ trace) s
          ≡ (raise attribute_error, record s { pkt = p; sent = s.sent ++ (port, req) ∷ [] })
    unfolding send_packet_to attempts answer or_listen attempt
    undecodable_reply port n a trace s raw req p e time ts retries some_time made polled broken =
        rw (retries, first_attempt port a s raw req p time ts some_time made polled, broken) refl

    -- The first datagram that comes, before the timeout, is the answer of the server: what
    -- `create_raw_reply` of `q` writes, with the identifier, the secret, the authenticator and the
    -- dictionary that the packet has when it is sent, plain attributes with distinct keys and at most
    -- 4096 bytes. Then `_send_packet` returns a reply with the code, the identifier and the attributes
    -- of `q`, after one datagram. The timeout and the number of retries are not 0.
    pub genuine_reply_returned :
        (port n : ℕ) (a : Attempt) (trace : List Attempt) (s : Sender) (raw req : Bytes)
        (p q q' : Packet) (time : ℕ) (ts : List Poll)
        → c.retries ≡ suc n
        → 0 < c.timeout_seconds
        → create_raw_request x draw a.random s.pkt ≡ (ok req, p)
        → a.polls ≡ record { ready = some raw; time = time } ∷ ts
        → create_raw_reply x draw q ≡ (ok raw, q')
        → q'.id ≡ p.id
        → q'.secret ≡ p.secret
        → q'.authenticator ≡ p.authenticator
        → q'.dict ≡ p.dict
        → IsPlain q'.dict q'.attrs
        → HasDistinctKeys q'.attrs
        → length raw ≤ 4096
        → (r : Packet) × (send_packet_to x draw c port (a ∷ trace) s
            ≡ (ok r, record s { pkt = p; sent = s.sent ++ (port, req) ∷ [] }))
          × (r.code ≡ q'.code)
          × (r.id ≡ q'.id)
          × (r.attrs ≡ q'.attrs)
    unfolding send_packet_to attempts answer or_listen attempt
    genuine_reply_returned port n a trace s raw req p q q' time ts retries some_time made polled
          written hi hs ha hd plain distinct short =
        let (r, created, same_code, same_id, same_attrs, accepted) =
          reply_accepted x draw p q q' raw written hi hs ha hd plain distinct short in
        (
          r,
          rw
              (
                retries,
                first_attempt port a s raw req p time ts some_time made polled,
                created,
                accepted,
              )
              refl,
          same_code,
          same_id,
          same_attrs,
        )
