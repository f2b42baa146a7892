-- ===== src/Client/Sockets/Tidy.antt =====
-- A Client of pyrad/client.py never loses a socket.
use pyrad.Common.{
  ℕ, ◌≡◌, refl, ap, Bool, true, false, Option, none, some, List, [], ◌∷◌, Text, ==_iff,
}
use pyrad.Common.Result.{Result, ok}
use pyrad.Client.Sockets.{
  Endpoint, no_socket, without, watched, open_by, open_socket, close_by, close_socket, bind_by,
  bind, Call, opens, closes, binds, step, after_calls,
}

abbrev pub to_list : Option ℕ → List ℕ
to_list none = []
to_list (some fd) = fd ∷ []

-- The client has no socket but the one it names, and watches exactly that.
pub record IsTidy (s : Endpoint) : Type 0 where
  pub registered : s.registered ≡ to_list s.socket
  pub opened : s.opened ≡ to_list s.socket

open_by-IsTidy :
    (o : Option ℕ) (fd : ℕ) (s : Endpoint)
    → s.registered ≡ to_list o
    → s.opened ≡ to_list o
    → IsTidy s
    → IsTidy (open_by o fd s)
unfolding open_by
open_by-IsTidy none fd s r p t = record { registered = rw r refl; opened = rw p refl }
open_by-IsTidy (some old) fd s r p t = t

-- Closing returns, and leaves nothing.
close_by-lem :
    (o : Option ℕ) (s : Endpoint)
    → s.socket ≡ o
    → s.registered ≡ to_list o
    → s.opened ≡ to_list o
    → close_by o s ≡ (ok tt, record s { socket = none; registered = []; opened = [] })
unfolding close_by without watched
close_by-lem none s e r p = cc (e, r, p)
close_by-lem (some fd) s e r p = rw (r, p, (==_iff fd fd).1 refl) refl

close_socket_lem :
    (s : Endpoint)
    → IsTidy s
    → close_socket s ≡ (ok tt, record s { socket = none; registered = []; opened = [] })
unfolding close_socket
close_socket_lem s t = close_by-lem s.socket s refl t.registered t.opened

bind_by-IsTidy :
    (accepted : Bool) (addr : Text) (o : Option ℕ) (s : Endpoint)
    → IsTidy s
    → IsTidy (bind_by accepted addr o s).1
unfolding bind_by
bind_by-IsTidy false addr o s t = t
bind_by-IsTidy true addr none s t = t
bind_by-IsTidy true addr (some fd) s t = record { registered = t.registered; opened = t.opened }

closed-IsTidy : (s : Endpoint) → IsTidy (record s { socket = none; registered = []; opened = [] })
closed-IsTidy s = record { registered = refl; opened = refl }

open_socket-IsTidy : (fd : ℕ) (s : Endpoint) → IsTidy s → IsTidy (open_socket fd s).1
unfolding open_socket
open_socket-IsTidy fd s t = open_by-IsTidy s.socket fd s t.registered t.opened t

step-IsTidy : (c : Call) (s : Endpoint) → IsTidy s → IsTidy (step c s).1
unfolding step bind open_socket
step-IsTidy (opens fd) s t = open_socket-IsTidy fd s t
step-IsTidy closes s t = rw (close_socket_lem s t) (closed-IsTidy s)
step-IsTidy (binds fd accepted addr) s t =
    let u : Endpoint = record s { socket = none; registered = []; opened = [] } in
    let v = open_socket-IsTidy fd u (closed-IsTidy s) in
    rw (close_socket_lem s t)
      (bind_by-IsTidy accepted addr (open_socket fd u).1.socket (open_socket fd u).1 v)

after_calls-IsTidy : (cs : List Call) (s : Endpoint) → IsTidy s → IsTidy (after_calls cs s)
unfolding after_calls
after_calls-IsTidy [] s t = t
after_calls-IsTidy (c ∷ cs) s t = after_calls-IsTidy cs (step c s).1 (step-IsTidy c s t)

-- Whatever calls of `bind`, `_open_socket` and `_close_socket` a new client makes, also if the system
-- refuses an address: it has no open socket but the one that `_socket` names, `_poll` watches exactly
-- that one, and `_close_socket` never raises.
pub sockets-IsTidy :
    (cs : List Call)
    → IsTidy (after_calls cs no_socket) × ((close_socket (after_calls cs no_socket)).0 ≡ ok tt)
unfolding no_socket
sockets-IsTidy cs =
    let t = after_calls-IsTidy cs no_socket (record { registered = refl; opened = refl }) in
    (
      t,
      ap (λ (o : Result (Unit {0}) × Endpoint). o.0)
          (close_socket_lem (after_calls cs no_socket) t),
    )
