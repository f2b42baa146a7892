-- ===== src/Client/Retries.antt =====
-- Which Acct-Delay-Time the retransmitted accounting requests of pyrad/client.py carry.
use pyrad.Common.{
  ℕ, zero, suc, ◌+◌, ◌*◌, ◌<◌, ◌≡◌, refl, sym, ◌∙◌, false, Option, none, some, [], ◌∷◌, ◌++◌, Bytes,
  arith, ap,
}
use mathlib.Core.Path.{subst}
use pyrad.Common.Eq.{int_eq_instance, text_eq_instance}
use pyrad.Common.Int.{pos}
use pyrad.Common.Struct.{be}
use pyrad.Common.Result.{Result, ok, raise, stuck}
use pyrad.Common.Dict.{lookup}
use pyrad.Externals.{Externals}
use pyrad.Dictionary.Types.{Key, key_eq_instance}
use pyrad.Encoding.{int}
use pyrad.Packet.PacketCode
use pyrad.Packet.State.{Slot, values, acct, Packet}
use pyrad.Packet.Names.{list, get_item}
use pyrad.Packet.Raw.{raw_acct_request}
use pyrad.Packet.Authenticator.{
  is_set, refresh_if_set, keep_authenticator, create_raw_acct_request, create_raw_request,
  create_raw_request-acct,
}
use pyrad.Packet.Access.RoundTrip.{get_item_number}
use pyrad.Client.{Client, Attempt, Sender, on_packet, send_to, delay_retry, attempt}
use pyrad.Client.Delay.{
  HasDelay, delay_name, with_delay, found_delay, add_delay_first, add_delay_next,
  encode_integer_lem,
}

module _ (x : Externals) (draw : ℕ → ℕ) (c : Client) (port : ℕ) where
  -- The state after `n` attempts that brought no reply, as `_send_packet` makes them.
  pub data Tried (s : Sender) : ℕ → Sender → Type 0 where
    start : Tried s 0 s
    again :
        {n : ℕ} {t u : Sender} (a : Attempt)
        → Tried s n t
        → attempt x draw c port n a t ≡ (ok none, u)
        → Tried s (suc n) u

  -- the delay that the packet has when attempt `n` writes it, and before that
  abbrev said : ℕ → Option Slot
  said zero = none
  said (suc n) = some (values (be 4 (suc n * c.timeout_seconds) ∷ []))

  abbrev said_before : ℕ → Option Slot
  said_before zero = none
  said_before (suc n) = said n

  -- what the attempts keep of the packet `p`
  record Same (p q : Packet) : Type 0 where
    dict : q.dict ≡ p.dict
    code : q.code ≡ p.code
    kind : q.kind ≡ p.kind
    unmarked : is_set q.message_authenticator ≡ is_set p.message_authenticator

  delayed :
      (n : ℕ) (p q : Packet) (key : Key)
      → HasDelay p.dict key
      → p.code ≡ PacketCode.accounting_request
      → Same p q
      → lookup key q.attrs ≡ said_before n
      → n * c.timeout_seconds < 4294967296
      → (r : Packet) × (delay_retry x draw c.timeout_seconds n q ≡ (ok tt, r))
        × Same p r
        × (lookup key r.attrs ≡ said n)
  unfolding delay_retry
  delayed zero p q key has acct_code same before small = (q, refl, same, before)
  delayed (suc zero) p q key has acct_code same before small =
      let has' : HasDelay q.dict key = subst (λ d. HasDelay d key) (sym same.dict) has in
      let test : q.code ≡ PacketCode.accounting_request = same.code ∙ acct_code in
      let once : c.timeout_seconds ≡ 1 * c.timeout_seconds = omega arith in
      (
        with_delay x draw c.timeout_seconds key c.timeout_seconds q,
        ground (
          arith,
          test,
          add_delay_first x draw c.timeout_seconds key q has' before (omega (arith, small)),
        ),
        record { dict = same.dict; code = same.code; kind = same.kind; unmarked = same.unmarked },
        rw (← once) (found_delay x draw c.timeout_seconds key c.timeout_seconds q),
      )
  delayed (suc (suc n)) p q key has acct_code same before small =
      let has' : HasDelay q.dict key = subst (λ d. HasDelay d key) (sym same.dict) has in
      let test : q.code ≡ PacketCode.accounting_request = same.code ∙ acct_code in
      let m : ℕ = suc n * c.timeout_seconds in
      let more : m + c.timeout_seconds ≡ suc (suc n) * c.timeout_seconds = omega arith in
      (
        with_delay x draw c.timeout_seconds key (m + c.timeout_seconds) q,
        ground (
          arith,
          test,
          add_delay_next x draw c.timeout_seconds key m q has' before (omega (arith, more, small)),
        ),
        record { dict = same.dict; code = same.code; kind = same.kind; unmarked = same.unmarked },
        rw (← more) (found_delay x draw c.timeout_seconds key (m + c.timeout_seconds) q),
      )

  create_raw_request-unmarked :
      (random : Bytes) (q : Packet)
      → q.kind ≡ acct
      → is_set q.message_authenticator ≡ false
      → create_raw_request x draw random q ≡ keep_authenticator x draw (raw_acct_request x q) q
  unfolding create_raw_acct_request refresh_if_set
  create_raw_request-unmarked random q is_acct unmarked =
      create_raw_request-acct x draw random q is_acct ∙ rw unmarked refl

  -- what an attempt that goes on to listen has written and sent
  record Wrote (q : Packet) (t u : Sender) : Type 0 where
    raw : Bytes
    authenticator : Bytes
    packet : u.pkt ≡ record q { authenticator = some authenticator }
    sent : u.sent ≡ t.sent ++ (port, raw) ∷ []
    written : keep_authenticator x draw (raw_acct_request x q) q ≡ (ok raw, u.pkt)

  attempt_by :
      (n : ℕ) (a : Attempt) (q : Packet) (r : Result (Bytes × Bytes)) (t u : Sender)
      (o : Option Packet)
      → delay_retry x draw c.timeout_seconds n t.pkt ≡ (ok tt, q)
      → create_raw_request x draw a.random q ≡ keep_authenticator x draw r q
      → r ≡ raw_acct_request x q
      → attempt x draw c port n a t ≡ (ok o, u)
      → Wrote q t u
  unfolding attempt on_packet send_to keep_authenticator
  attempt_by n a q (ok (b, raw)) t u o late made same h =
      let h' = rw (late, made) at h in
      record {
        raw = raw;
        authenticator = b;
        packet = ap (λ (w : Result (Option Packet) × Sender). w.1.pkt) (sym h');
        sent = ap (λ (w : Result (Option Packet) × Sender). w.1.sent) (sym h');
        written = rw (← same) (ap (λ (w : Result (Option Packet) × Sender). (ok raw, w.1.pkt)) h');
      }
  attempt_by n a q (raise e) t u o late made same h = absurd (cc (rw (late, made) at h))
  attempt_by n a q stuck t u o late made same h = absurd (cc (rw (late, made) at h))

  -- An attempt that goes on to listen, from the packet before it.
  record Visit (p : Packet) (key : Key) (n : ℕ) (t u : Sender) : Type 0 where
    ready : Packet
    same : Same p ready
    delay : lookup key ready.attrs ≡ said n
    wrote : Wrote ready t u

  visit :
      (n : ℕ) (a : Attempt) (p : Packet) (key : Key) (t u : Sender) (o : Option Packet)
      → HasDelay p.dict key
      → p.code ≡ PacketCode.accounting_request
      → p.kind ≡ acct
      → is_set p.message_authenticator ≡ false
      → Same p t.pkt
      → lookup key t.pkt.attrs ≡ said_before n
      → n * c.timeout_seconds < 4294967296
      → attempt x draw c port n a t ≡ (ok o, u)
      → Visit p key n t u
  visit n a p key t u o has acct_code is_acct unmarked same before small h =
      let (q, late, same', delay) = delayed n p t.pkt key has acct_code same before small in
      record {
        ready = q;
        same = same';
        delay = delay;
        wrote =
            attempt_by n a q (raw_acct_request x q) t u o late
              (create_raw_request-unmarked a.random q (same'.kind ∙ is_acct)
                (same'.unmarked ∙ unmarked))
              refl h;
      }

  after-Visit :
      (p : Packet) (key : Key) (n : ℕ) (t u : Sender)
      → Visit p key n t u
      → Same p u.pkt × (lookup key u.pkt.attrs ≡ said n)
  after-Visit p key n t u v =
      let e = v.wrote.packet in
      (
        record {
          dict = ap (λ (q : Packet). q.dict) e ∙ v.same.dict;
          code = ap (λ (q : Packet). q.code) e ∙ v.same.code;
          kind = ap (λ (q : Packet). q.kind) e ∙ v.same.kind;
          unmarked = ap (λ (q : Packet). is_set q.message_authenticator) e ∙ v.same.unmarked;
        },
        ap (λ (q : Packet). lookup key q.attrs) e ∙ v.delay,
      )

  tried :
      (key : Key) (s : Sender) (n : ℕ) (t : Sender)
      → Tried s n t
      → HasDelay s.pkt.dict key
      → s.pkt.code ≡ PacketCode.accounting_request
      → s.pkt.kind ≡ acct
      → is_set s.pkt.message_authenticator ≡ false
      → lookup key s.pkt.attrs ≡ none
      → n * c.timeout_seconds < 4294967296
      → Same s.pkt t.pkt × (lookup key t.pkt.attrs ≡ said_before n)
  tried key s _ t start has acct_code is_acct unmarked new small =
      (record { dict = refl; code = refl; kind = refl; unmarked = refl }, new)
  tried key s _ u (again {n = n} {t = t} a before h) has acct_code is_acct unmarked new small =
      let few : n * c.timeout_seconds < 4294967296 = omega (arith, small) in
      let (same, delay) = tried key s n t before has acct_code is_acct unmarked new few in
      after-Visit s.pkt key n t u
        (visit n a s.pkt key t u none has acct_code is_acct unmarked same delay few h)

  -- An accounting request without Acct-Delay-Time, whose Message-Authenticator is not to be made, is
  -- sent by `_send_packet` in attempts that bring no reply. Then in attempt `n`, counted from 0, if
  -- nothing is raised, the one datagram that is sent is the request that `create_raw_request` writes
  -- of a packet that says a delay of `n` timeouts, with the code it had: the raw request is written
  -- after the delay. The dictionary has the attribute as an integer without names, tag or
  -- encryption; `n` is not 0, and the product fits into 32 bits.
  pub delay_of_retries :
      (n : ℕ) (key : Key) (s t u : Sender) (a : Attempt) (o : Option Packet)
      → Tried s n t
      → attempt x draw c port n a t ≡ (ok o, u)
      → HasDelay s.pkt.dict key
      → s.pkt.code ≡ PacketCode.accounting_request
      → s.pkt.kind ≡ acct
      → is_set s.pkt.message_authenticator ≡ false
      → lookup key s.pkt.attrs ≡ none
      → 0 < n
      → n * c.timeout_seconds < 4294967296
      → (q : Packet) × (raw : Bytes) × (create_raw_request x draw a.random q ≡ (ok raw, u.pkt))
        × (u.sent ≡ t.sent ++ (port, raw) ∷ [])
        × (get_item x q delay_name ≡ ok (list (int (pos (n * c.timeout_seconds)) ∷ [])))
        × (q.code ≡ s.pkt.code)
  delay_of_retries zero key s t u a o before h has acct_code is_acct unmarked new some_retry small =
      absurd (omega (arith, some_retry))
  delay_of_retries (suc n) key s t u a o before h has acct_code is_acct unmarked new some_retry
        small =
      let (same, delay) = tried key s (suc n) t before has acct_code is_acct unmarked new small in
      let v = visit (suc n) a s.pkt key t u o has acct_code is_acct unmarked same delay small h in
      let q : Packet = v.ready in
      let has' : HasDelay q.dict key = subst (λ d. HasDelay d key) (sym v.same.dict) has in
      let seconds : ℕ = suc n * c.timeout_seconds in
      (
        q,
        v.wrote.raw,
        create_raw_request-unmarked a.random q (v.same.kind ∙ is_acct) (v.same.unmarked ∙ unmarked)
            ∙ v.wrote.written,
        v.wrote.sent,
        get_item_number x draw delay_name has'.object key (pos seconds) (be 4 seconds) q has'.known
            has'.keyed has'.number
            (encode_integer_lem x draw c.timeout_seconds has'.object.type seconds has'.is_integer
              small)
            v.delay,
        v.same.code,
      )
