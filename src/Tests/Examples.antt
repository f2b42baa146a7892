-- ===== src/Tests/Examples.antt =====
-- The exchange of a request between the programs of example/.
use pyrad.Common.{◌≡◌, refl, some, List, [], ◌∷◌, Bytes, codes, arith, ◌&&◌, true, false}
use pyrad.Common.Dict.{lookup}
use pyrad.Common.Eq.{text_eq_instance}
use pyrad.Common.Int.{pos}
use pyrad.Common.Result.{ok}
use pyrad.Externals.{constant_digests}
use pyrad.Dictionary.Types.{code, pair, key_eq_instance}
use pyrad.Packet.State.{Packet, values}
use pyrad.Packet.Names.{Name, raw, Found, stored, keys_of, get_found}
use pyrad.Packet.Authenticator.{create_raw_request}
use pyrad.Server.{Server, mem}
use pyrad.Client.{Sender, send_packet_to}
use pyrad.Examples.{print_attributes}
use pyrad.Examples.Exchange.{replied_attempt, after_sending, acct_exchange}
use pyrad.Examples.Exchange.Coa.{coa_exchange}
use pyrad.Examples.FakeServer
use pyrad.Examples.FakeCoa
use pyrad.Tests.Client.{client}
use pyrad.Tests.Genuine.{coa_request, coa_request', coa_request_raw, coa_written}
use pyrad.Tests.Packet.{draw, is_plain, distinct, request_written}
use pyrad.Tests.Data

abbrev server : Server
server = record Data.server { hosts = (codes "10.0.0.1", Data.host) ∷ [] }

abbrev acct_sender : Sender
acct_sender = record { pkt = Data.accounting_request; sent = [] }

abbrev coa_sender : Sender
coa_sender = record { pkt = coa_request; sent = [] }

-- without a dictionary the keys and what is stored
abbrev shown : List (Name × Found)
shown =
    (raw (code (pos 1)), stored (values (codes "ab" ∷ [])))
    ∷ (raw (pair (pos 9) (pos 1)), stored (values ((1 ∷ []) ∷ [])))
    ∷ []

acct_written :
    create_raw_request constant_digests draw [] Data.accounting_request
    ≡ (ok Data.accounting_request_raw, Data.accounting_request')
unfolding create_raw_request
acct_written = request_written

coa_made :
    create_raw_request constant_digests draw [] coa_request ≡ (ok coa_request_raw, coa_request')
unfolding create_raw_request
coa_made = coa_written

acct_shown : print_attributes constant_digests Data.accounting_request' ≡ ok shown
unfolding print_attributes keys_of get_found lookup
acct_shown = refl

coa_shown : print_attributes constant_digests coa_request' ≡ ok shown
unfolding print_attributes keys_of get_found lookup
coa_shown = refl

known : lookup (codes "10.0.0.1") server.hosts ≡ some Data.host
unfolding lookup
known = refl

not_auth : (server.auth_enabled && mem 4 server.authfds) ≡ false
unfolding mem
not_auth = refl

on_acct : (server.acct_enabled && mem 4 server.acctfds) ≡ true
unfolding mem
on_acct = refl

coa_not_auth : (server.auth_enabled && mem 5 server.authfds) ≡ false
unfolding mem
coa_not_auth = refl

coa_not_acct : (server.acct_enabled && mem 5 server.acctfds) ≡ false
unfolding mem
coa_not_acct = refl

acct_exchange_example :
    (raw' : Bytes) × (FakeServer.respond constant_digests draw 0 server
        (Data.event 4 Data.accounting_request_raw)
      ≡ ok (record { raw = raw'; address = codes "10.0.0.1" }))
    × (r : Packet) × (send_packet_to constant_digests draw client 1813
          (replied_attempt 0 [] raw' 1000000 [] ∷ [])
          acct_sender
        ≡ (
          ok r,
          after_sending 1813 Data.accounting_request_raw Data.accounting_request' acct_sender,
        ))
    × (r.code ≡ 5)
    × (r.id ≡ 5)
    × (r.attrs ≡ [])
acct_exchange_example =
    acct_exchange constant_digests draw client server (Data.event 4 Data.accounting_request_raw)
      1813 1 0 1000000 0 [] [] [] acct_sender Data.accounting_request' Data.host shown refl
      acct_written refl is_plain distinct (omega arith) acct_shown refl not_auth on_acct known refl
      refl (omega arith)

coa_exchange_example :
    (raw' : Bytes) × (FakeCoa.respond constant_digests draw 0 server (Data.event 5 coa_request_raw)
      ≡ ok (some (record { raw = raw'; address = codes "10.0.0.1" })))
    × (r : Packet) × (send_packet_to constant_digests draw client 3799
          (replied_attempt 0 [] raw' 1000000 [] ∷ [])
          coa_sender
        ≡ (ok r, after_sending 3799 coa_request_raw coa_request' coa_sender))
    × (r.code ≡ 44)
    × (r.id ≡ 5)
    × (r.attrs ≡ [])
coa_exchange_example =
    coa_exchange constant_digests draw client server (Data.event 5 coa_request_raw) 3799 1 0 1000000
      0 [] [] [] coa_sender coa_request' Data.host shown refl refl coa_made refl is_plain distinct
      (omega arith) coa_shown refl coa_not_auth coa_not_acct refl known refl refl (omega arith)
