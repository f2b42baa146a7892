-- ===== src/Tests/Server.antt =====
-- The server on single events.
use pyrad.Common.{ℕ, ◌≡◌, ◌&&◌, inl, inr, refl, true, false, none, some, [], ◌∷◌, codes, length}
use pyrad.Common.{replicate, Bytes, List}
use pyrad.Common.Dict.{lookup}
use pyrad.Common.Eq.{text_eq_instance}
use pyrad.Common.Result.{ok, raise, key_error}
use pyrad.Externals.{constant_digests}
use pyrad.Packet.State.{Packet, Kind}
use pyrad.Packet.Decode.{decode_packet, decode_loop}
use pyrad.Packet.Create.{construct, initialize, from_wire}
use pyrad.Host.{create, default_code}
use pyrad.Server.{
  handle_acct, add_secret, handle_acct_packet, mem, acct_input, process_input, run, Step,
}
use pyrad.Server.Survival.{IsTame, run_survives}
use pyrad.Server.Dispatch.{IsDelivered, process_input_delivers, coa_wildcard_stops}
use pyrad.Tests.Data
use pyrad.Tests.Packet.{draw}

-- an accounting request of the bare header, and a disconnect request
abbrev bare : ℕ → Bytes
bare c = c ∷ 9 ∷ 0 ∷ 20 ∷ replicate 16 0

abbrev made : Kind → ℕ → Bytes → Packet
made kind c secret = record (Data.packet_with kind c (some (replicate 16 0)) []) {
  id = 9;
  secret = secret;
  raw_packet = some (bare c);
}

acct_delivered :
    process_input constant_digests draw 0 Data.server (Data.event 4 (bare 4))
    ≡ ok (handle_acct, made Kind.acct 4 (codes "secret"))
unfolding process_input acct_input create default_code construct initialize decode_packet
    decode_loop handle_acct_packet add_secret mem lookup
acct_delivered = refl

process_input_delivers_example :
    IsDelivered Data.server (codes "10.0.0.1") (handle_acct, made Kind.acct 4 (codes "secret"))
process_input_delivers_example =
    process_input_delivers constant_digests draw 0 Data.server (Data.event 4 (bare 4))
      (handle_acct, made Kind.acct 4 (codes "secret")) acct_delivered

coa_decoded :
    create constant_digests draw Kind.coa [] 0 Data.no_dictionary (from_wire (bare 40))
    ≡ ok (made Kind.coa 40 [])
unfolding create default_code construct initialize decode_packet decode_loop
coa_decoded = refl

no_entry : lookup (codes "10.0.0.1") Data.server.hosts ≡ none
unfolding lookup
no_entry = refl

wildcard : lookup (codes "0.0.0.0") Data.server.hosts ≡ some Data.host
unfolding lookup
wildcard = refl

not_three : mem 5 Data.server.authfds ≡ false
unfolding mem
not_three = refl

not_four : mem 5 Data.server.acctfds ≡ false
unfolding mem
not_four = refl

abbrev fds : List ℕ
fds = 3 ∷ 4 ∷ 5 ∷ []

five : mem 5 fds ≡ true
unfolding mem
five = refl

coa_wildcard_stops_example :
    run
      (process_input constant_digests draw 0 Data.server)
      fds
      (Data.event 5 (bare 40) ∷ Data.event 4 (bare 4) ∷ [])
    ≡ raise key_error
coa_wildcard_stops_example =
    coa_wildcard_stops constant_digests draw 0 Data.server (Data.event 5 (bare 40))
      (Data.event 4 (bare 4) ∷ []) fds (made Kind.coa 40 []) Data.host coa_decoded no_entry wildcard
      refl not_three not_four refl five

bare-IsTame :
    (kind : Kind)
    → IsTame (create constant_digests draw kind [] 0 Data.server.dict (from_wire (bare 4)))
unfolding create default_code construct initialize decode_packet decode_loop
bare-IsTame Kind.plain = tt
bare-IsTame Kind.auth = tt
bare-IsTame Kind.acct = tt
bare-IsTame Kind.coa = tt

on_acct : (Data.server.acct_enabled && mem 4 Data.server.acctfds) ≡ true
unfolding mem
on_acct = refl

four : mem 4 fds ≡ true
unfolding mem
four = refl

run_survives_example :
    (steps : List Step) × (run
        (process_input constant_digests draw 0 Data.server)
        fds
        (Data.event 4 (bare 4) ∷ [])
      ≡ ok steps)
    × (length steps ≡ 1)
run_survives_example =
    run_survives constant_digests draw 0 Data.server fds (Data.event 4 (bare 4) ∷ [])
      ((four, inr (inl on_acct), bare-IsTame), tt)
