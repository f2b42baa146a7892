-- ===== src/Client/Sockets.antt =====
-- The socket of a Client of pyrad/client.py: `_open_socket`, `_close_socket` and `bind`. Sockets are
-- named by the file numbers that the system gives them.
pub mod Tidy
use pyrad.Common.{
  ℕ, ◌≡◌, refl, Bool, true, false, Option, none, some, List, [], ◌∷◌, ◌++◌, Text, ◌==◌, ==_iff,
  if◌then◌else◌,
}
use pyrad.Common.Result.{Result, ok, raise, key_error, attribute_error, os_error}
use pyrad.Common.Exec.{Exec, pure, ◌>>◌}

-- The client's `_socket` and what its `_poll` watches; `opened` are the sockets that the client has
-- from the system, `bound` the addresses that they were bound to.
pub record Endpoint : Type 0 where
  pub socket : Option ℕ
  pub registered : List ℕ
  pub opened : List ℕ
  pub bound : List (ℕ × Text)

-- `__init__`
unfoldable pub no_socket : Endpoint
no_socket = record { socket = none; registered = []; opened = []; bound = [] }

without : ℕ → List ℕ → List ℕ
without fd [] = []
without fd (x ∷ xs) = if x == fd then xs else x ∷ without fd xs

watched : ℕ → List ℕ → Bool
watched fd [] = false
watched fd (x ∷ xs) = if x == fd then true else watched fd xs

open_by : Option ℕ → ℕ → Endpoint → Endpoint
open_by none fd s = record s {
  socket = some fd;
  registered = s.registered ++ fd ∷ [];
  opened = s.opened ++ fd ∷ [];
}
open_by (some old) fd s = s

-- `_open_socket`; `fd` is what the system would give a new socket
unfoldable pub open_socket : ℕ → Exec Endpoint (Unit {0})
unfolding open_by
open_socket fd s = (ok tt, open_by s.socket fd s)

-- `unregister` of a socket that is not watched raises KeyError
close_by : Option ℕ → Exec Endpoint (Unit {0})
unfolding without watched
close_by none s = (ok tt, s)
close_by (some fd) s =
    if watched fd s.registered
    then (
      ok tt,
      record s {
        socket = none;
        registered = without fd s.registered;
        opened = without fd s.opened;
      },
    )
    else (raise key_error, s)

unfoldable pub close_socket : Exec Endpoint (Unit {0})
unfolding close_by
close_socket s = close_by s.socket s

-- `self._socket.bind(addr)`, which the system may refuse; None has no `bind`, but it does not stand
-- here
bind_by : Bool → Text → Option ℕ → Exec Endpoint (Unit {0})
bind_by false addr o s = (raise os_error, s)
bind_by true addr none s = (raise attribute_error, s)
bind_by true addr (some fd) s = (ok tt, record s { bound = s.bound ++ (fd, addr) ∷ [] })

-- `bind`; `accepted` is what the system says
unfoldable pub bind : ℕ → Bool → Text → Exec Endpoint (Unit {0})
unfolding bind_by
bind fd accepted addr = do close_socket; open_socket fd; λ s. bind_by accepted addr s.socket s

-- The calls that change the socket; sending opens it.
pub data Call : Type 0 where
  opens : ℕ → Call
  closes : Call
  binds : ℕ → Bool → Text → Call

unfoldable pub step : Call → Exec Endpoint (Unit {0})
step (opens fd) = open_socket fd
step closes = close_socket
step (binds fd accepted addr) = bind fd accepted addr

-- The state after calls, whose exceptions the caller catches.
unfoldable pub after_calls : List Call → Endpoint → Endpoint
after_calls [] s = s
after_calls (c ∷ cs) s = after_calls cs (step c s).1

abbrev pub to_list : Option ℕ → List ℕ
to_list none = []
to_list (some fd) = fd ∷ []
