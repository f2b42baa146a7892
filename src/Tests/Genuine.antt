-- ===== src/Tests/Genuine.antt =====
-- The genuine reply to a pending request, a CoA request, and an address.
use pyrad.Common.{◌≡◌, refl, Bool, none, some, [], ◌∷◌, ◌++◌, Bytes, codes, arith, replicate}
use pyrad.Common.Dict.{lookup, remove}
use pyrad.Common.Eq.{nat_eq}
use pyrad.Common.Result.{ok}
use pyrad.Common.Struct.{pack_uint, be}
use pyrad.Externals.{constant_digests}
use pyrad.Dictionary.Types.{key_eq_instance}
use pyrad.Dictionary.{attribute_for}
use pyrad.Encoding.{Value, encode_ipv4_address, decode_ipv4_address}
use pyrad.Encoding.Ipv4.{encode_ipv4_address-decode_ipv4_address}
use pyrad.Packet.State.{Packet, Kind}
use pyrad.Packet.Raw.{encoded, request_authenticator}
use pyrad.Packet.Encode.{
  encode_avp, pkt_encode_attribute, encode_values, encode_slot, pkt_encode_attributes,
  encode_header,
}
use pyrad.Packet.Authenticator.{create_raw_coa_request}
use pyrad.ClientAsync.{replied, datagram_received}
use pyrad.Client.Sockets.{opens, closes, binds, after_calls, no_socket, close_socket}
use pyrad.Client.Sockets.Tidy.{IsTidy, sockets-IsTidy}
use pyrad.ClientAsync.Genuine.{genuine_reply_completes}
use pyrad.Tests.ClientAsync.{pending, protocol}
use pyrad.Tests.Packet.{draw, is_plain, distinct, reply_written}
use pyrad.Tests.Data

is_pending : lookup 5 protocol.pending_requests ≡ some pending
unfolding lookup
is_pending = refl

no_outcome : lookup 1 protocol.completed ≡ none
unfolding lookup
no_outcome = refl

genuine_reply_completes_example :
    (r : Packet) × (datagram_received constant_digests draw 9 Data.access_accept_raw protocol
      ≡ (ok tt, record protocol { completed = (1, replied r) ∷ []; pending_requests = [] }))
    × (r.code ≡ 2)
    × (r.id ≡ 5)
    × (r.attrs ≡ Data.two_attributes)
unfolding remove
genuine_reply_completes_example =
    genuine_reply_completes constant_digests draw 9 protocol pending Data.access_accept
      Data.access_accept Data.access_accept_raw reply_written is_pending refl no_outcome refl refl
      refl refl (λ h. cc h) is_plain distinct (omega arith)

-- a CoA request before and after its authenticator is made
abbrev pub coa_request : Packet
coa_request = Data.packet_with Kind.coa 43 none Data.two_attributes

abbrev pub coa_request' : Packet
coa_request' = record coa_request { authenticator = some (replicate 16 7) }

abbrev pub coa_request_raw : Bytes
coa_request_raw = 43 ∷ 5 ∷ 0 ∷ 33 ∷ (replicate 16 7 ++ Data.two_attributes_raw)

pub coa_written :
    create_raw_coa_request constant_digests draw coa_request ≡ (ok coa_request_raw, coa_request')
unfolding create_raw_coa_request encoded request_authenticator pkt_encode_attributes encode_slot
    encode_values pkt_encode_attribute encode_avp encode_header pack_uint be lookup attribute_for
coa_written = refl

encode_ipv4_address-decode_ipv4_address_example :
    (v : Value) × (decode_ipv4_address (192 ∷ 168 ∷ 0 ∷ 255 ∷ []) ≡ ok v)
    × (encode_ipv4_address v ≡ ok (192 ∷ 168 ∷ 0 ∷ 255 ∷ []))
encode_ipv4_address-decode_ipv4_address_example =
    encode_ipv4_address-decode_ipv4_address 192 168 0 255 (omega arith) (omega arith) (omega arith)
      (omega arith)

sockets-IsTidy_example :
    IsTidy (
      after_calls
        (opens 7
          ∷ binds 8 Bool.false (codes "10.0.0.1")
          ∷ closes
          ∷ binds 9 Bool.true (codes "10.0.0.1")
          ∷ [])
        no_socket)
    × ((close_socket (
          after_calls
            (opens 7
              ∷ binds 8 Bool.false (codes "10.0.0.1")
              ∷ closes
              ∷ binds 9 Bool.true (codes "10.0.0.1")
              ∷ [])
            no_socket)).0
        ≡ ok tt)
sockets-IsTidy_example = sockets-IsTidy (
    opens 7
    ∷ binds 8 Bool.false (codes "10.0.0.1")
    ∷ closes
    ∷ binds 9 Bool.true (codes "10.0.0.1")
    ∷ [])
