-- ===== src/Client/Sending.antt =====
-- What `Client.send_packet` of pyrad/client.py sends.
use pyrad.Common.{
  ℕ, zero, suc, ◌+◌, ◌≤◌, ◌≡◌, refl, sym, ap, ◌∙◌, Option, none, some, List, [], ◌∷◌, ◌++◌, Bytes,
  length, length-append, All, All-append, append_assoc, append-nil, arith, inl, inr, Bool-cases,
}
use pyrad.Common.Result.{Result, ok, raise, stuck}
use pyrad.Common.Exec.{Exec, continue}
use pyrad.Externals.{Externals}
use pyrad.Packet.State.{Kind, plain, auth, acct, coa, Packet}
use pyrad.Packet.Authenticator.{create_raw_request}
use pyrad.Client.{
  Client, Attempt, Sender, on_packet, send_to, delay_retry, attempt, attempts, or_retry, or_timeout,
  send_packet_to, send_auth, send_by, send_packet,
}
use pyrad.Client.Eap.{add_identity, add_response, is_challenge}

-- From `s` to `s'` at most `n` datagrams are sent, all of them to `port`.
pub record Sends (port n : ℕ) (s s' : Sender) : Type 0 where
  pub new : List (ℕ × Bytes)
  pub log : s'.sent ≡ s.sent ++ new
  pub bound : length new ≤ n
  pub ports : All (λ (d : ℕ × Bytes). d.0 ≡ port) new

Sends-none : (port n : ℕ) (s s' : Sender) → s'.sent ≡ s.sent → Sends port n s s'
Sends-none port n s s' e = record {
  new = [];
  log = e ∙ sym (append-nil s.sent);
  bound = omega arith;
  ports = tt;
}

Sends-trans :
    {port n k m : ℕ} {s t u : Sender}
    → n + k ≤ m
    → Sends port n s t
    → Sends port k t u
    → Sends port m s u
Sends-trans {port = port} {s = s} {u = u} enough a b = record {
  new = a.new ++ b.new;
  log = b.log ∙ (ap (λ l. l ++ b.new) a.log ∙ append_assoc s.sent a.new b.new);
  bound = omega (arith, a.bound, b.bound, length-append a.new b.new);
  ports = All-append (λ (d : ℕ × Bytes). d.0 ≡ port) a.new b.new a.ports b.ports;
}

continue-Sends :
    {A B : Type 0} {port : ℕ} (n k m : ℕ) (r : Result A) (f : A → Exec Sender B) (s t : Sender)
    → n + k ≤ m
    → Sends port n s t
    → ((a : A) → Sends port k t (f a t).1)
    → Sends port m s (continue r f t).1
continue-Sends n k m (ok a) f s t enough h g = Sends-trans enough h (g a)
continue-Sends {port = port} n k m (raise e) f s t enough h g =
    Sends-trans enough h (Sends-none port k t t refl)
continue-Sends {port = port} n k m stuck f s t enough h g =
    Sends-trans enough h (Sends-none port k t t refl)

on_packet-Sends :
    {A : Type 0} (port : ℕ) (m : Exec Packet A) (s : Sender) → Sends port 0 s (on_packet m s).1
unfolding on_packet
on_packet-Sends port m s = Sends-none port 0 s (on_packet m s).1 refl

send_to-Sends : (port : ℕ) (raw : Bytes) (s : Sender) → Sends port 1 s (send_to port raw s).1
unfolding send_to
send_to-Sends port raw s = record {
  new = (port, raw) ∷ [];
  log = refl;
  bound = omega arith;
  ports = (refl, tt);
}

module _ (x : Externals) (draw : ℕ → ℕ) (c : Client) where
  attempt-Sends :
      (port number : ℕ) (a : Attempt) (s : Sender)
      → Sends port 1 s (attempt x draw c port number a s).1
  unfolding attempt
  attempt-Sends port number a s =
      let delayed = on_packet (delay_retry x draw c.timeout_seconds number) s in
      continue-Sends 0 1 1 delayed.0 _ s delayed.1 (omega arith)
        (on_packet-Sends port (delay_retry x draw c.timeout_seconds number) s)
        (λ _.
          let made = on_packet (create_raw_request x draw a.random) delayed.1 in
          continue-Sends 0 1 1 made.0 _ delayed.1 made.1 (omega arith)
            (on_packet-Sends port (create_raw_request x draw a.random) delayed.1)
            (λ raw. unfold send_to in send_to-Sends port raw made.1))

  or_retry-Sends :
      (port n : ℕ) (r : Option Packet) (more : Exec Sender (Option Packet)) (s : Sender)
      → Sends port n s (more s).1
      → Sends port n s (or_retry r more s).1
  unfolding or_retry
  or_retry-Sends port n none more s h = h
  or_retry-Sends port n (some reply) more s h = Sends-none port n s s refl

  attempts-Sends :
      (port n number : ℕ) (trace : List Attempt) (s : Sender)
      → Sends port n s (attempts x draw c port n number trace s).1
  unfolding attempts
  attempts-Sends port zero number trace s = Sends-none port 0 s s refl
  attempts-Sends port (suc n) number [] s = Sends-none port (suc n) s s refl
  attempts-Sends port (suc n) number (a ∷ trace) s =
      let first = attempt x draw c port number a s in
      continue-Sends 1 n (suc n) first.0 _ s first.1 (omega arith) (attempt-Sends port number a s)
        (λ r.
          or_retry-Sends port n r (attempts x draw c port n (number + 1) trace) first.1
            (attempts-Sends port n (number + 1) trace first.1))

  or_timeout-Sends : (port : ℕ) (r : Option Packet) (s : Sender) → Sends port 0 s (or_timeout r s).1
  unfolding or_timeout
  or_timeout-Sends port none s = Sends-none port 0 s s refl
  or_timeout-Sends port (some reply) s = Sends-none port 0 s s refl

  send_packet_to-Sends :
      (port : ℕ) (trace : List Attempt) (s : Sender)
      → Sends port c.retries s (send_packet_to x draw c port trace s).1
  unfolding send_packet_to
  send_packet_to-Sends port trace s =
      let tried = attempts x draw c port c.retries 0 trace s in
      continue-Sends c.retries 0 c.retries tried.0 _ s tried.1 (omega arith)
        (attempts-Sends port c.retries 0 trace s) (λ r. or_timeout-Sends port r tried.1)

  -- the port of the class
  abbrev pub port_of : Kind → ℕ
  port_of auth = c.host.authport
  port_of coa = c.host.coaport
  port_of acct = c.host.acctport
  port_of plain = c.host.acctport

  send_auth-Sends :
      (current : ℕ) (trace trace' : List Attempt) (s : Sender)
      → Sends c.host.authport
          (c.retries + c.retries)
          s
          (send_auth x draw c current trace trace' s).1
  unfolding send_auth
  send_auth-Sends current trace trace' s =
      let port = c.host.authport in
      let named = on_packet (add_identity current) s in
      continue-Sends 0 (c.retries + c.retries) (c.retries + c.retries) named.0 _ s named.1
        (omega arith) (on_packet-Sends port (add_identity current) s)
        (λ _.
          let first = send_packet_to x draw c port trace named.1 in
          continue-Sends c.retries c.retries (c.retries + c.retries) first.0 _ named.1 first.1
            (omega arith) (send_packet_to-Sends port trace named.1)
            (λ reply. elim (Bool-cases (is_challenge reply first.1.pkt)) [
              | inr over ↦ rw over (Sends-none port c.retries first.1 first.1 refl)
              | inl challenge ↦
                  let answered = on_packet (add_response x reply) first.1 in
                  rw challenge (
                    continue-Sends 0 c.retries c.retries answered.0
                      (λ _. send_packet_to x draw c port trace') first.1 answered.1 (omega arith)
                      (on_packet-Sends port (add_response x reply) first.1)
                      (λ _. send_packet_to-Sends port trace' answered.1))
            ]))

  -- the most that a class of packets may send: an AuthPacket has two rounds
  abbrev pub budget : Kind → ℕ
  budget auth = c.retries + c.retries
  budget _ = c.retries

  send_by-Sends :
      (k : Kind) (current : ℕ) (trace trace' : List Attempt) (s : Sender)
      → Sends (port_of k) (budget k) s (send_by x draw k c current trace trace' s).1
  unfolding send_by
  send_by-Sends auth current trace trace' s = send_auth-Sends current trace trace' s
  send_by-Sends coa current trace trace' s = send_packet_to-Sends c.host.coaport trace s
  send_by-Sends acct current trace trace' s = send_packet_to-Sends c.host.acctport trace s
  send_by-Sends plain current trace trace' s = send_packet_to-Sends c.host.acctport trace s

  -- Whatever comes back, and however the call ends: `send_packet` only adds to what was sent, at most
  -- `retries` datagrams, or twice as many for an AuthPacket, and all of them to the port of the
  -- packet's class.
  pub send_packet-Sends :
      (current : ℕ) (trace trace' : List Attempt) (s : Sender)
      → Sends
          (port_of s.pkt.kind)
          (budget s.pkt.kind)
          s
          (send_packet x draw c current trace trace' s).1
  unfolding send_packet
  send_packet-Sends current trace trace' s = send_by-Sends s.pkt.kind current trace trace' s
