-- ===== src/Server/Survival.antt =====
-- Which datagrams the main loop of pyrad/server.py survives.
use pyrad.Common.{
  ℕ, suc, ◌≡◌, ◌⊎◌, refl, ap, Bool, true, false, ◌||◌, ◌&&◌, some, none, List, [], ◌∷◌, codes, Text,
  length, All, arith, Bool-cases, Option-cases, inl, inr, if◌then◌else◌, ◌==◌,
}
use pyrad.Common.Eq.{text_eq_instance}
use pyrad.Common.Result.{
  Result, ok, raise, stuck, Error, unknown_host, wrong_port, is_packet_error,
  is_server_packet_error, ◌>>=◌,
}
use pyrad.Common.Dict.{lookup}
use pyrad.Externals.{Externals}
use pyrad.Packet.PacketCode
use pyrad.Packet.State.{Kind, auth, acct, coa, Packet}
use pyrad.Packet.Create.{from_wire}
use pyrad.Host.{RemoteHost, create}
use pyrad.Server.{
  Server, Handler, Event, Step, handled, dropped, mem, add_secret, handle_auth_packet,
  handle_acct_packet, handle_coa_packet, auth_input, acct_input, coa_input, process_input, caught,
  run_event, run, with_secret, handle_auth, handle_acct, handle_coa, handle_disconnect,
}

-- The exceptions that the main loop catches.
abbrev IsCaught : Result (Handler × Packet) → Type 0
IsCaught (ok o) = Unit
IsCaught (raise e) = (is_server_packet_error e || is_packet_error e) ≡ true
IsCaught stuck = ⊥

caught_ok : (r : Result (Handler × Packet)) → IsCaught r → (step : Step) × (caught r ≡ ok step)
unfolding caught
caught_ok (ok (h, p)) f = (handled h p, refl)
caught_ok (raise e) f = (dropped e, rw f)
caught_ok stuck f = absurd f

run_event_survives :
    (process : Event → Result (Handler × Packet)) (fds : List ℕ) (e : Event)
    → mem e.fd fds ≡ true
    → IsCaught (process e)
    → (step : Step) × (run_event process fds e ≡ ok step)
unfolding run_event
run_event_survives process fds e k f =
    let (step, done) = caught_ok (process e) f in
    elim (Bool-cases e.is_input) [
      | inl input ↦ (step, ground (arith, done))
      | inr other ↦ (Step.unexpected_event, ground arith)
    ]

-- The datagram decodes, or the decoder raises `PacketError`.
abbrev pub IsTame : Result Packet → Type 0
IsTame (ok p) = Unit
IsTame (raise e) = is_packet_error e ≡ true
IsTame stuck = ⊥

-- A sender without an entry of its own, where there is an entry 0.0.0.0, is the case that
-- `_handle_coa_packet` does not expect.
abbrev pub IsExpected : Server → Event → Type 0
IsExpected s e =
    ((s.auth_enabled && mem e.fd s.authfds) ≡ true)
    ⊎ (((s.acct_enabled && mem e.fd s.acctfds) ≡ true)
        ⊎ ((lookup (codes "0.0.0.0") s.hosts ≡ none)
            ⊎ ((h : RemoteHost) × (lookup e.source s.hosts ≡ some h))))

if-IsCaught :
    (b : Bool) (m n : Result (Handler × Packet))
    → (b ≡ true → IsCaught m)
    → (b ≡ false → IsCaught n)
    → IsCaught (if b then m else n)
if-IsCaught true m n h k = h refl
if-IsCaught false m n h k = k refl

raise-IsCaught : (e : Error) → is_packet_error e ≡ true → IsCaught (raise e)
raise-IsCaught e h = ground (arith, h)

>>=-IsCaught :
    (r : Result Packet) (f : Packet → Result (Handler × Packet))
    → IsTame r
    → ((p : Packet) → IsCaught (f p))
    → IsCaught (r >>= f)
>>=-IsCaught (ok p) f h k = k p
>>=-IsCaught (raise e) f h k = raise-IsCaught e h
>>=-IsCaught stuck f h k = absurd h

-- `_add_secret` raises ServerPacketError where no entry fits.
add_secret_cases :
    (s : Server) (source : Text) (pkt : Packet)
    → ((p : Packet) × (add_secret s source pkt ≡ ok p))
      ⊎ (add_secret s source pkt ≡ raise unknown_host)
unfolding add_secret
add_secret_cases s source pkt = elim (Option-cases (lookup source s.hosts)) [
  | inr (h, found) ↦ inl (with_secret pkt h, ground (arith, found))
  | inl missing ↦ elim (Option-cases (lookup (codes "0.0.0.0") s.hosts)) [
    | inr (h, wild) ↦ inl (with_secret pkt h, ground (arith, missing, wild))
    | inl none_at_all ↦ inr (ground (arith, missing, none_at_all))
  ]
]

add_secret-IsCaught :
    (s : Server) (source : Text) (pkt : Packet) (f : Packet → Result (Handler × Packet))
    → ((p : Packet) → IsCaught (f p))
    → IsCaught (add_secret s source pkt >>= f)
add_secret-IsCaught s source pkt f k = elim (add_secret_cases s source pkt) [
  | inl (p, known) ↦ rw known (k p)
  | inr unknown ↦ rw unknown refl
]

handle_auth-IsCaught :
    (s : Server) (source : Text) (pkt : Packet) → IsCaught (handle_auth_packet s source pkt)
unfolding handle_auth_packet
handle_auth-IsCaught s source pkt = add_secret-IsCaught s source pkt _ (λ p.
    if-IsCaught (p.code == PacketCode.access_request) (ok (handle_auth, p)) (raise wrong_port)
      (λ h. tt) (λ h. refl))

handle_acct-IsCaught :
    (s : Server) (source : Text) (pkt : Packet) → IsCaught (handle_acct_packet s source pkt)
unfolding handle_acct_packet
handle_acct-IsCaught s source pkt = add_secret-IsCaught s source pkt _ (λ p.
    if-IsCaught
      (p.code == PacketCode.accounting_request || p.code == PacketCode.accounting_response)
      (ok (handle_acct, p)) (raise wrong_port) (λ h. tt) (λ h. refl))

coa_code-IsCaught :
    (q : Packet)
    → IsCaught (
        if q.code == PacketCode.coa_request
        then ok (handle_coa, q)
        else (if q.code == PacketCode.disconnect_request
            then ok (handle_disconnect, q)
            else raise wrong_port))
coa_code-IsCaught q =
    if-IsCaught (q.code == PacketCode.coa_request) (ok (handle_coa, q))
      (if q.code == PacketCode.disconnect_request
        then ok (handle_disconnect, q)
        else raise wrong_port)
      (λ h. tt)
      (λ h.
        if-IsCaught (q.code == PacketCode.disconnect_request) (ok (handle_disconnect, q))
          (raise wrong_port) (λ k. tt) (λ k. refl))

handle_coa_known :
    (s : Server) (source : Text) (pkt : Packet) (h : RemoteHost)
    → lookup source s.hosts ≡ some h
    → IsCaught (handle_coa_packet s source pkt)
unfolding handle_coa_packet
handle_coa_known s source pkt h found =
    add_secret-IsCaught s source pkt _ (λ p. rw found (coa_code-IsCaught (with_secret p h)))

add_secret_unknown :
    (s : Server) (source : Text) (pkt : Packet)
    → lookup source s.hosts ≡ none
    → lookup (codes "0.0.0.0") s.hosts ≡ none
    → add_secret s source pkt ≡ raise unknown_host
unfolding add_secret
add_secret_unknown s source pkt missing wild = ground (arith, missing, wild)

handle_coa_unknown :
    (s : Server) (source : Text) (pkt : Packet)
    → lookup source s.hosts ≡ none
    → lookup (codes "0.0.0.0") s.hosts ≡ none
    → IsCaught (handle_coa_packet s source pkt)
unfolding handle_coa_packet
handle_coa_unknown s source pkt missing wild =
    rw (add_secret_unknown s source pkt missing wild) refl

module _ (x : Externals) (draw : ℕ → ℕ) (id : ℕ) where
  -- Each of the constructors makes a packet of the datagram, or raises PacketError.
  abbrev pub IsHarmless : Server → List ℕ → Event → Type 0
  IsHarmless s fds e =
      (mem e.fd fds ≡ true)
      × IsExpected s e
      × ((kind : Kind) → IsTame (create x draw kind [] id s.dict (from_wire e.datum)))

  coa_input-IsCaught :
      (s : Server) (e : Event)
      → (lookup (codes "0.0.0.0") s.hosts ≡ none)
        ⊎ ((h : RemoteHost) × (lookup e.source s.hosts ≡ some h))
      → IsTame (create x draw coa [] id s.dict (from_wire e.datum))
      → IsCaught (coa_input x draw id s e)
  unfolding coa_input
  coa_input-IsCaught s e w tame = >>=-IsCaught _ (handle_coa_packet s e.source) tame (λ p.
      elim (Option-cases (lookup e.source s.hosts)) [
        | inr (h, found) ↦ handle_coa_known s e.source p h found
        | inl missing ↦ elim w [
          | inl wild ↦ handle_coa_unknown s e.source p missing wild
          | inr (h, found) ↦ handle_coa_known s e.source p h found
        ]
      ])

  process_input-IsCaught :
      (s : Server) (fds : List ℕ) (e : Event)
      → IsHarmless s fds e
      → IsCaught (process_input x draw id s e)
  unfolding process_input auth_input acct_input
  process_input-IsCaught s fds e (known, expected, tame) =
      if-IsCaught (s.auth_enabled && mem e.fd s.authfds) _ _
        (λ h. >>=-IsCaught _ _ (tame auth) (handle_auth-IsCaught s e.source))
        (λ not_auth.
          if-IsCaught (s.acct_enabled && mem e.fd s.acctfds) _ _
            (λ h. >>=-IsCaught _ _ (tame acct) (handle_acct-IsCaught s e.source))
            (λ not_acct.
              if-IsCaught s.coa_enabled _ _
                (λ on.
                  coa_input-IsCaught s e
                    (elim expected [
                      | inl h ↦ absurd (cc (h, not_auth))
                      | inr (inl h) ↦ absurd (cc (h, not_acct))
                      | inr (inr w) ↦ w
                    ])
                    (tame coa))
                (λ off. refl)))

  -- The main loop goes on through any events on sockets that it polls whose datagrams decode or are
  -- refused by the decoder with `PacketError`, whatever their senders and codes are, on access and
  -- accounting sockets; on CoA sockets if the sender has an entry of its own in `hosts` or there is
  -- no entry 0.0.0.0. It makes one step for each event.
  pub run_survives :
      (s : Server) (fds : List ℕ) (es : List Event)
      → All (IsHarmless s fds) es
      → (steps : List Step) × (run (process_input x draw id s) fds es ≡ ok steps)
        × (length steps ≡ length es)
  unfolding run
  run_survives s fds [] h = ([], refl, refl)
  run_survives s fds (e ∷ es) (first, h) =
      let (steps, ran, len) = run_survives s fds es h in
      let (step, done) =
        run_event_survives (process_input x draw id s) fds e first.0
          (process_input-IsCaught s fds e first) in
      (step ∷ steps, rw (done, ran), ap suc len)
