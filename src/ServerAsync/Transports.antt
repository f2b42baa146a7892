-- ===== src/ServerAsync/Transports.antt =====
-- The transports of ServerAsync in pyrad/server_async.py: the protocols that listen, by the address
-- and the port. The endpoints that asyncio opens are taken to open, and to call `connection_made`.
pub mod Distinct
use pyrad.Common.{
  ℕ, ◌≡◌, ◌≢◌, refl, Bool, true, false, not, ◌&&◌, ◌||◌, List, [], ◌∷◌, ◌++◌, Text, codes, ◌==◌,
  if◌then◌else◌, Bool-cases, inl, inr, arith,
}
use pyrad.Common.Eq.{text_eq, text_eq_iff}
use pyrad.Common.Result.{Result, ok, raise, no_transports}
use pyrad.Common.Exec.{Exec}
use pyrad.ServerAsync.{ServerType, for_auth, for_acct, for_coa}

-- The fields of a DatagramProtocolServer that the transports use.
pub record Listener : Type 0 where
  pub ip : Text
  pub port : ℕ
  pub is_open : Bool

-- `connection_made` and `close_transport`
unfoldable pub connection_made : Listener → Listener
connection_made l = record l { is_open = true }

unfoldable pub close_transport : Listener → Listener
close_transport l = record l { is_open = false }

-- `closed` are the protocols that were closed and dropped.
pub record Server : Type 0 where
  pub auth_port : ℕ
  pub acct_port : ℕ
  pub coa_port : ℕ
  pub auth_protocols : List Listener
  pub acct_protocols : List Listener
  pub coa_protocols : List Listener
  pub closed : List Listener

abbrev pub port_for : ServerType → Server → ℕ
port_for for_auth s = s.auth_port
port_for for_acct s = s.acct_port
port_for for_coa s = s.coa_port

abbrev pub protocols_for : ServerType → Server → List Listener
protocols_for for_auth s = s.auth_protocols
protocols_for for_acct s = s.acct_protocols
protocols_for for_coa s = s.coa_protocols

abbrev pub set_protocols : ServerType → List Listener → Server → Server
set_protocols for_auth ls s = record s { auth_protocols = ls }
set_protocols for_acct ls s = record s { acct_protocols = ls }
set_protocols for_coa ls s = record s { coa_protocols = ls }

pub has_ip : Text → List Listener → Bool
has_ip ip [] = false
has_ip ip (l ∷ ls) = text_eq l.ip ip || has_ip ip ls

-- `__is_present_proto__`: the first port that is the given one decides which protocols are looked at
unfoldable pub is_present_proto : Text → ℕ → Server → Bool
unfolding has_ip
is_present_proto ip port s =
    if port == s.auth_port
    then has_ip ip s.auth_protocols
    else if port == s.acct_port
    then has_ip ip s.acct_protocols
    else if port == s.coa_port
    then has_ip ip s.coa_protocols
    else false

abbrev new_listener : Text → ℕ → Listener
new_listener ip port = record { ip = ip; port = port; is_open = false }

-- one of the three parts of the loop over the addresses
add_protocol : Bool → ServerType → Text → Server → Server
add_protocol enable t addr s =
    if enable && not (is_present_proto addr (port_for t s) s)
    then set_protocols t
        (protocols_for t s ++ connection_made (new_listener addr (port_for t s)) ∷ []) s
    else s

add_all : Bool → Bool → Bool → List Text → Server → Server
unfolding add_protocol
add_all enable_acct enable_auth enable_coa [] s = s
add_all enable_acct enable_auth enable_coa (addr ∷ addresses) s =
    add_all enable_acct enable_auth enable_coa addresses (
      add_protocol enable_coa for_coa addr
        (add_protocol enable_auth for_auth addr (add_protocol enable_acct for_acct addr s)))

-- `['127.0.0.1']` if there are no addresses
or_local : List Text → List Text
or_local [] = codes "127.0.0.1" ∷ []
or_local (addr ∷ addresses) = addr ∷ addresses

unfoldable pub initialize_transports : Bool → Bool → Bool → List Text → Exec Server (Unit {0})
unfolding add_all or_local
initialize_transports enable_acct enable_auth enable_coa addresses s =
    if not enable_acct && not enable_auth && not enable_coa
    then (raise no_transports, s)
    else (ok tt, add_all enable_acct enable_auth enable_coa (or_local addresses) s)

close_each : List Listener → List Listener
close_each [] = []
close_each (l ∷ ls) = close_transport l ∷ close_each ls

close_if : Bool → ServerType → Server → Server
unfolding close_each
close_if false t s = s
close_if true t s =
    set_protocols t [] (record s { closed = s.closed ++ close_each (protocols_for t s) })

unfoldable pub deinitialize_transports : Bool → Bool → Bool → Server → Server
unfolding close_if
deinitialize_transports deinit_coa deinit_auth deinit_acct s =
    close_if deinit_acct for_acct (close_if deinit_auth for_auth (close_if deinit_coa for_coa s))
