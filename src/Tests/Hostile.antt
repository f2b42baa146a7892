-- ===== src/Tests/Hostile.antt =====
-- A datagram that stops the decoder, and the server.
use pyrad.Common.{ℕ, List, arith, ◌≡◌, refl, true, [], ◌∷◌, ◌++◌, replicate, Bytes}
use pyrad.Common.Result.{ok, stuck}
use pyrad.Common.Int.{pos}
use pyrad.Dictionary.Types.{code, pair}
use pyrad.Packet.Decode.{vendor_loop}
use pyrad.Packet.Decode.Subs.{sub_bytes, vendor_loop_ends}
use pyrad.Externals.{constant_digests}
use pyrad.Server.{mem, process_input, run}
use pyrad.Server.Hang.{run_hangs}
use pyrad.Tests.Data
use pyrad.Tests.Packet.{draw}

abbrev hostile : Bytes
hostile = 1 ∷ 7 ∷ 0 ∷ 28 ∷ (replicate 16 0 ++ 26 ∷ 8 ∷ 0 ∷ 0 ∷ 0 ∷ 9 ∷ 1 ∷ 0 ∷ [])

abbrev two_subs : List (ℕ × Bytes)
two_subs = (1, 7 ∷ 8 ∷ []) ∷ (2, []) ∷ []

vendor_loop_ends_example :
    (vendor_loop 9 (0 ∷ []) (pos 9) [] (1 ∷ 4 ∷ 7 ∷ 8 ∷ 2 ∷ 2 ∷ [])
      ≡ ok ((pair (pos 9) (pos 1), 7 ∷ 8 ∷ []) ∷ (pair (pos 9) (pos 2), []) ∷ []))
    × (vendor_loop 9 (0 ∷ []) (pos 9) [] (1 ∷ 4 ∷ 7 ∷ 8 ∷ 2 ∷ 2 ∷ 3 ∷ [])
        ≡ ok ((code (pos 26), 0 ∷ []) ∷ []))
    × (vendor_loop 9 (0 ∷ []) (pos 9) [] (1 ∷ 4 ∷ 7 ∷ 8 ∷ 2 ∷ 2 ∷ 3 ∷ 0 ∷ 5 ∷ []) ≡ stuck)
unfolding sub_bytes
vendor_loop_ends_example = vendor_loop_ends two_subs 9 3 (0 ∷ []) (5 ∷ []) (pos 9) (omega arith)

three : mem 3 Data.server.authfds ≡ true
unfolding mem
three = refl

run_hangs_example :
    run
      (process_input constant_digests draw 0 Data.server)
      (3 ∷ [])
      (Data.event 3 hostile ∷ Data.event 4 [] ∷ [])
    ≡ stuck
run_hangs_example =
    run_hangs constant_digests draw 0 Data.server (Data.event 3 hostile) (Data.event 4 [] ∷ [])
      (3 ∷ []) 1 7 0 0 0 9 1 (replicate 16 0) refl refl refl three refl three
