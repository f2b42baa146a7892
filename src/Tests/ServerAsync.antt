-- ===== src/Tests/ServerAsync.antt =====
-- The asynchronous server and a genuine accounting request.
use pyrad.Common.{◌≡◌, refl, true, false, some, codes, arith}
use pyrad.Common.Dict.{lookup}
use pyrad.Common.Eq.{text_eq_instance}
use pyrad.Common.Result.{ok, verification_failed}
use pyrad.Externals.{constant_digests}
use pyrad.Packet.State.{Packet, acct}
use pyrad.Packet.Authenticator.Verify.{verify_acct_request}
use pyrad.Packet.Create.{from_wire}
use pyrad.Host.{create}
use pyrad.ServerAsync.{Protocol, find_host, datagram_received, rejected, request}
use pyrad.ServerAsync.Verification.{genuine_request_rejected, genuine_request_received}
use pyrad.Tests.Data
use pyrad.Tests.Packet.{draw, is_plain, distinct, request_written}

pub host_found : find_host Data.protocol.hosts (codes "10.0.0.1") ≡ some Data.host
unfolding find_host lookup
host_found = refl

genuine_request_rejected_example :
    (datagram_received constant_digests draw 0 Data.protocol Data.accounting_request_raw
        (codes "10.0.0.1")
      ≡ rejected verification_failed)
    × ((r : Packet) × (create constant_digests draw acct
            (codes "secret")
            0
            Data.no_dictionary
            (from_wire Data.accounting_request_raw)
          ≡ ok r)
        × (verify_acct_request constant_digests r ≡ ok true))
genuine_request_rejected_example =
    genuine_request_rejected constant_digests draw 0 Data.accounting_request
      Data.accounting_request' Data.accounting_request_raw Data.protocol (codes "10.0.0.1")
      Data.host request_written refl is_plain distinct (omega arith) refl refl host_found refl refl

abbrev trusting : Protocol
trusting = record Data.protocol { enable_pkt_verify = false }

genuine_request_received_example :
    (r : Packet) × (datagram_received constant_digests draw 0 trusting Data.accounting_request_raw
        (codes "10.0.0.1")
      ≡ request r)
    × (r.code ≡ 4)
    × (r.id ≡ 5)
    × (r.attrs ≡ Data.two_attributes)
genuine_request_received_example =
    genuine_request_received constant_digests draw 0 Data.accounting_request
      Data.accounting_request' Data.accounting_request_raw trusting (codes "10.0.0.1") Data.host
      request_written refl is_plain distinct (omega arith) refl refl host_found refl refl
