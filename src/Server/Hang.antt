-- ===== src/Server/Hang.antt =====
-- A datagram that stops the server.
use pyrad.Common.{ℕ, ◌≡◌, refl, true, List, [], ◌∷◌, ◌++◌, Bytes, length}
use pyrad.Common.Result.{stuck}
use pyrad.Externals.{Externals}
use pyrad.Packet.State.{Packet, Kind}
use pyrad.Packet.Decode.{decode_packet}
use pyrad.Packet.Decode.Hang.{decode_packet_hangs}
use pyrad.Packet.Create.{from_wire, construct, initialize}
use pyrad.Host.{create, default_code}
use pyrad.Server.{Server, Event, auth_input, process_input, mem, caught, run_event, run}

module _ (x : Externals) (draw : ℕ → ℕ) (id : ℕ) where
  construct_hangs :
      (s : Server) (kind : Kind) (datum : Bytes)
      → ((p : Packet) → (decode_packet datum p).0 ≡ stuck)
      → create x draw kind [] id s.dict (from_wire datum) ≡ stuck
  unfolding create construct initialize default_code
  construct_hangs s kind datum h = rw (h _)

  -- Whatever host sends it, known or not, and whatever the dictionary has: one datagram of 28 bytes
  -- on an authentication socket, an attribute 26 with a sub-attribute of the length 0, keeps the main
  -- loop busy for ever, so that no later event is handled.
  pub run_hangs :
      (s : Server) (e : Event) (es : List Event) (fds : List ℕ) (k i a b c d t : ℕ) (auth : Bytes)
      → length auth ≡ 16
      → e.datum ≡ k ∷ i ∷ 0 ∷ 28 ∷ (auth ++ 26 ∷ 8 ∷ a ∷ b ∷ c ∷ d ∷ t ∷ 0 ∷ [])
      → s.auth_enabled ≡ true
      → mem e.fd s.authfds ≡ true
      → e.is_input ≡ true
      → mem e.fd fds ≡ true
      → run (process_input x draw id s) fds (e ∷ es) ≡ stuck
  unfolding run run_event process_input auth_input caught
  run_hangs s e es fds k i a b c d t auth len datum enabled on_auth input known =
      let made =
        construct_hangs s Kind.auth (k ∷ i ∷ 0 ∷ 28 ∷ (auth ++ 26 ∷ 8 ∷ a ∷ b ∷ c ∷ d ∷ t ∷ 0 ∷ []))
          (λ p. decode_packet_hangs k i a b c d t auth p len) in
      rw (input, known, enabled, on_auth, datum, made) refl
