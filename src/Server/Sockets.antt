-- ===== src/Server/Sockets.antt =====
-- The sockets of pyrad/server.py and of pyrad/proxy.py. Sockets are named by the file numbers that the
-- system gives them; they are taken to open.
use pyrad.Common.{ℕ, ◌≡◌, refl, Bool, true, false, List, [], ◌∷◌, ◌++◌, Text}
use pyrad.Common.Result.{Result, ok, raise, stuck}
use pyrad.Common.Dict.{Dict}
use pyrad.Dictionary.Types.{Dictionary}
use pyrad.Externals.{Externals}
use pyrad.Packet.State.{Packet}
use pyrad.Packet.Create.{Args, create_reply}
use pyrad.Host.{RemoteHost}
use pyrad.Server.{Server}

-- the file numbers of the new sockets for one address
pub record NewSockets : Type 0 where
  pub authfd : ℕ
  pub acctfd : ℕ
  pub coafd : ℕ

add_if : Bool → ℕ → List ℕ → List ℕ
add_if false fd fds = fds
add_if true fd fds = fds ++ fd ∷ []

-- `bind_to_address`, for the addresses that `getaddrinfo` gives
unfoldable pub bind_to_address : List NewSockets → Server → Server
unfolding add_if
bind_to_address [] s = s
bind_to_address (n ∷ new) s = bind_to_address new (record s {
  authfds = add_if s.auth_enabled n.authfd s.authfds;
  acctfds = add_if s.acct_enabled n.acctfd s.acctfds;
  coafds = add_if s.coa_enabled n.coafd s.coafds;
})

bind_each : List (List NewSockets) → Server → Server
bind_each [] s = s
bind_each (new ∷ more) s = bind_each more (bind_to_address new s)

-- `__init__`, with what `bind_to_address` opens for each address
unfoldable pub make_server :
    Dict Text RemoteHost → Dictionary → Bool → Bool → Bool → List (List NewSockets) → Server
unfolding bind_each
make_server hosts dict auth_enabled acct_enabled coa_enabled addresses =
    bind_each addresses (record {
      hosts = hosts;
      dict = dict;
      auth_enabled = auth_enabled;
      acct_enabled = acct_enabled;
      coa_enabled = coa_enabled;
      authfds = [];
      acctfds = [];
      coafds = [];
    })

-- `_prepare_sockets`: the keys of `_fdmap`; a proxy adds its own socket
unfoldable pub prepare_sockets : Server → List ℕ
prepare_sockets s = s.authfds ++ (s.acctfds ++ s.coafds)

unfoldable pub prepare_proxy_sockets : Server → ℕ → List ℕ
prepare_proxy_sockets s proxyfd = prepare_sockets s ++ proxyfd ∷ []

-- `create_reply_packet`, with the address that the request came from
unfoldable pub create_reply_packet :
    Externals → (ℕ → ℕ) → Packet → Args → Text → Result (Packet × Text)
create_reply_packet x draw pkt args source = elim (create_reply x draw pkt args) [
  | ok reply ↦ ok (reply, source)
  | raise e ↦ raise e
  | stuck ↦ stuck
]

pub create_reply_packet-ok :
    (x : Externals) (draw : ℕ → ℕ) (pkt reply : Packet) (args : Args) (source : Text)
    → create_reply x draw pkt args ≡ ok reply
    → create_reply_packet x draw pkt args source ≡ ok (reply, source)
unfolding create_reply_packet
create_reply_packet-ok x draw pkt reply args source h = rw (create_reply_packet, h) refl
