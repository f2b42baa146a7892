-- ===== src/Server/Dispatch.antt =====
-- What the handlers of the server get, and which exceptions leave the main loop.
use pyrad.Common.{
  ℕ, ◌≡◌, ◌≢◌, refl, ◌⊎◌, inl, inr, Bool, true, false, ◌&&◌, none, some, List, [], ◌∷◌, Text, codes,
  ◌==◌, if◌then◌else◌, Option-cases, arith,
}
use mathlib.Core.Path.{subst}
use pyrad.Common.Eq.{text_eq_instance}
use pyrad.Common.Result.{
  Error, Result, ok, raise, key_error, unknown_handler, wrong_port, >>=-eq-ok, or_raise,
  or_raise-eq-ok,
}
use pyrad.Common.Dict.{lookup}
use pyrad.Externals.{Externals}
use pyrad.Packet.PacketCode
use pyrad.Packet.State.{auth, acct, coa, Packet}
use pyrad.Packet.Create.{from_wire}
use pyrad.Host.{RemoteHost, create}
use pyrad.Server.{
  Server, Event, Handler, handle_auth, handle_acct, handle_coa, handle_disconnect, add_secret,
  handle_auth_packet, handle_acct_packet, handle_coa_packet, mem, auth_input, acct_input, coa_input,
  process_input, caught, run_event, run,
}

-- The codes that a handler may see.
abbrev pub AllowedCode : Handler → ℕ → Type 0
AllowedCode handle_auth c = c ≡ PacketCode.access_request
AllowedCode handle_acct c =
    (c ≡ PacketCode.accounting_request) ⊎ (c ≡ PacketCode.accounting_response)
AllowedCode handle_coa c = c ≡ PacketCode.coa_request
AllowedCode handle_disconnect c = c ≡ PacketCode.disconnect_request

-- The secret is that of the sender's entry in `hosts`, or of the wildcard if the sender has none.
abbrev pub KnownSecret : Server → Text → Packet → Type 0
KnownSecret s source p =
    (h : RemoteHost) × (p.secret ≡ h.secret)
    × ((lookup source s.hosts ≡ some h)
        ⊎ ((lookup source s.hosts ≡ none) × (lookup (codes "0.0.0.0") s.hosts ≡ some h)))

add_secret_known :
    (s : Server) (source : Text) (pkt p : Packet)
    → add_secret s source pkt ≡ ok p
    → KnownSecret s source p
unfolding add_secret
add_secret_known s source pkt p e = elim (Option-cases (lookup source s.hosts)) [
  | inr (h, found) ↦ (h, ground arith, inl found)
  | inl missing ↦ elim (Option-cases (lookup (codes "0.0.0.0") s.hosts)) [
    | inr (h, wild) ↦ (h, ground arith, inr (missing, wild))
    | inl none_at_all ↦ absurd (ground arith)
  ]
]

-- What is true of a packet that a handler gets.
abbrev pub IsDelivered : Server → Text → Handler × Packet → Type 0
IsDelivered s source (k, p) = AllowedCode k p.code × KnownSecret s source p

-- for a test whose other branch raises
if_ok :
    (b : Bool) (a c : Handler × Packet) (e : Error)
    → (if b then ok a else raise e) ≡ ok c
    → (b ≡ true) × (a ≡ c)
if_ok true a c e h = (refl, cc h)
if_ok false a c e h = cc h

raise-ne-ok : (e : Error) (o : Handler × Packet) → raise e ≢ ok o
raise-ne-ok e o h = cc h

if_cases :
    (b : Bool) (m n : Result (Handler × Packet)) (o : Handler × Packet)
    → (if b then m else n) ≡ ok o
    → (m ≡ ok o) ⊎ (n ≡ ok o)
if_cases true m n o h = inl h
if_cases false m n o h = inr h

if_true :
    (b : Bool) (a c : Handler × Packet) (n : Result (Handler × Packet))
    → (if b then ok a else n) ≡ ok c
    → ((b ≡ true) × (a ≡ c)) ⊎ (n ≡ ok c)
if_true true a c n h = inl (refl, cc h)
if_true false a c n h = inr h

handle_auth_lem :
    (s : Server) (source : Text) (pkt : Packet) (o : Handler × Packet)
    → handle_auth_packet s source pkt ≡ ok o
    → IsDelivered s source o
unfolding handle_auth_packet
handle_auth_lem s source pkt o e =
    let (q, known, e') = >>=-eq-ok (add_secret s source pkt) _ e in
    let (test, same) = if_ok _ _ _ _ e' in
    subst (IsDelivered s source) same (ground arith, add_secret_known s source pkt q known)

handle_acct_lem :
    (s : Server) (source : Text) (pkt : Packet) (o : Handler × Packet)
    → handle_acct_packet s source pkt ≡ ok o
    → IsDelivered s source o
unfolding handle_acct_packet
handle_acct_lem s source pkt o e =
    let (q, known, e') = >>=-eq-ok (add_secret s source pkt) _ e in
    let (test, same) = if_ok _ _ _ _ e' in
    subst (IsDelivered s source) same (ground arith, add_secret_known s source pkt q known)

handle_coa_lem :
    (s : Server) (source : Text) (pkt : Packet) (o : Handler × Packet)
    → handle_coa_packet s source pkt ≡ ok o
    → IsDelivered s source o
unfolding handle_coa_packet
handle_coa_lem s source pkt o e =
    let (q, known, e') = >>=-eq-ok (add_secret s source pkt) _ e in
    let (h, found, e'') = >>=-eq-ok (or_raise key_error (lookup source s.hosts)) _ e' in
    let there = or_raise-eq-ok key_error (lookup source s.hosts) h found in
    let q' : Packet = record q { secret = h.secret } in
    let rest : Result (Handler × Packet) =
      if q.code == PacketCode.disconnect_request
      then ok (handle_disconnect, q')
      else raise wrong_port in
    elim (if_true (q.code == PacketCode.coa_request) (handle_coa, q') o rest e'') [
      | inl (test, same) ↦ subst (IsDelivered s source) same (ground arith, (h, refl, inl there))
      | inr other ↦
          let (test, same) = if_ok _ _ _ _ other in
          subst (IsDelivered s source) same (ground arith, (h, refl, inl there))
    ]

module _ (x : Externals) (draw : ℕ → ℕ) (id : ℕ) where
  auth_input_lem :
      (s : Server) (e : Event) (o : Handler × Packet)
      → auth_input x draw id s e ≡ ok o
      → IsDelivered s e.source o
  unfolding auth_input
  auth_input_lem s e o h =
      let (pkt, made, k) =
        >>=-eq-ok (create x draw auth [] id s.dict (from_wire e.datum))
          (handle_auth_packet s e.source) h in
      handle_auth_lem s e.source pkt o k

  acct_input_lem :
      (s : Server) (e : Event) (o : Handler × Packet)
      → acct_input x draw id s e ≡ ok o
      → IsDelivered s e.source o
  unfolding acct_input
  acct_input_lem s e o h =
      let (pkt, made, k) =
        >>=-eq-ok (create x draw acct [] id s.dict (from_wire e.datum))
          (handle_acct_packet s e.source) h in
      handle_acct_lem s e.source pkt o k

  coa_input_lem :
      (s : Server) (e : Event) (o : Handler × Packet)
      → coa_input x draw id s e ≡ ok o
      → IsDelivered s e.source o
  unfolding coa_input
  coa_input_lem s e o h =
      let (pkt, made, k) =
        >>=-eq-ok (create x draw coa [] id s.dict (from_wire e.datum))
          (handle_coa_packet s e.source) h in
      handle_coa_lem s e.source pkt o k

  -- Whatever datagram comes on whatever socket: a packet that `_process_input` gives to a handler has
  -- a code of that handler, and the secret of the sender's entry in `hosts`, or of the entry 0.0.0.0
  -- where the sender has none.
  pub process_input_delivers :
      (s : Server) (e : Event) (o : Handler × Packet)
      → process_input x draw id s e ≡ ok o
      → IsDelivered s e.source o
  unfolding process_input
  process_input_delivers s e o h =
      let on_coa : Result (Handler × Packet) =
        if s.coa_enabled then coa_input x draw id s e else raise unknown_handler in
      let on_acct : Result (Handler × Packet) =
        if s.acct_enabled && mem e.fd s.acctfds then acct_input x draw id s e else on_coa in
      elim (if_cases (s.auth_enabled && mem e.fd s.authfds) (auth_input x draw id s e) on_acct o
        h) [
          | inl first ↦ auth_input_lem s e o first
          | inr other ↦
              elim (if_cases (s.acct_enabled && mem e.fd s.acctfds) (acct_input x draw id s e)
                on_coa o other) [
                  | inl second ↦ acct_input_lem s e o second
                  | inr third ↦
                      elim (if_cases s.coa_enabled (coa_input x draw id s e) (raise unknown_handler)
                        o third) [
                          | inl last ↦ coa_input_lem s e o last
                          | inr unknown ↦ absurd (raise-ne-ok unknown_handler o unknown)
                        ]
                ]
        ]

  -- On the CoA socket the entry 0.0.0.0 does not help: a packet that decodes, from a sender without an
  -- entry, raises `KeyError`, which the main loop does not catch. The server stops, whatever events
  -- come after it.
  pub coa_wildcard_stops :
      (s : Server) (e : Event) (es : List Event) (fds : List ℕ) (pkt : Packet) (h : RemoteHost)
      → create x draw coa [] id s.dict (from_wire e.datum) ≡ ok pkt
      → lookup e.source s.hosts ≡ none
      → lookup (codes "0.0.0.0") s.hosts ≡ some h
      → s.coa_enabled ≡ true
      → mem e.fd s.authfds ≡ false
      → mem e.fd s.acctfds ≡ false
      → e.is_input ≡ true
      → mem e.fd fds ≡ true
      → run (process_input x draw id s) fds (e ∷ es) ≡ raise key_error
  unfolding run run_event process_input coa_input handle_coa_packet add_secret caught
  coa_wildcard_stops s e es fds pkt h made absent wild enabled na nc input known =
      ground (arith, made)
