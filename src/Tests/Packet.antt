-- ===== src/Tests/Packet.antt =====
-- Packets on their way.
use pyrad.Common.{ℕ, ◌≡◌, refl, true, none, some, ◌∷◌, codes, arith, replicate, ◌++◌}
use pyrad.Common.Dict.{lookup, HasDistinctKeys}
use pyrad.Common.Result.{ok}
use pyrad.Common.Struct.{pack_uint, be}
use pyrad.Externals.{constant_digests}
use pyrad.Dictionary.Types.{key_eq_instance}
use pyrad.Dictionary.{attribute_for}
use pyrad.Packet.State.{Packet, acct}
use pyrad.Packet.Raw.{encoded, raw_reply, raw_acct_request}
use pyrad.Packet.Encode.{
  encode_avp, pkt_encode_attribute, encode_values, encode_slot, pkt_encode_attributes,
  encode_header,
}
use pyrad.Packet.Authenticator.{
  create_raw_reply, refresh_if_set, create_raw_acct_request, keep_authenticator,
}
use pyrad.Packet.Authenticator.Verify.{verify_acct_request}
use pyrad.Packet.Reply.{verify_reply}
use pyrad.Packet.Create.{construct, create_reply, from_wire}
use pyrad.Packet.Reply.Accepted.{reply_accepted}
use pyrad.Packet.Request.{acct_request_verified}
use pyrad.Packet.Decode.{decode_packet}
use pyrad.Packet.Decode.Attrs.{with_attrs}
use pyrad.Packet.Decode.RoundTrip.{IsPlain, marks}
use pyrad.Packet.Decode.Whole.{with_header, decode_packet-encode}
use pyrad.Tests.Data

abbrev pub draw : ℕ → ℕ
draw n = n

pub reply_written :
    create_raw_reply constant_digests draw Data.access_accept
    ≡ (ok Data.access_accept_raw, Data.access_accept)
unfolding create_raw_reply refresh_if_set raw_reply encoded pkt_encode_attributes encode_slot
    encode_values pkt_encode_attribute encode_avp encode_header pack_uint be lookup attribute_for
reply_written = refl

pub request_written :
    create_raw_acct_request constant_digests draw Data.accounting_request
    ≡ (ok Data.accounting_request_raw, Data.accounting_request')
unfolding create_raw_acct_request keep_authenticator raw_acct_request refresh_if_set encoded
    pkt_encode_attributes encode_slot encode_values pkt_encode_attribute encode_avp encode_header
    pack_uint be lookup attribute_for
request_written = refl

pub is_plain : IsPlain Data.no_dictionary Data.two_attributes
unfolding attribute_for lookup
is_plain = ((λ h. cc h, refl), (refl, tt))

pub distinct : HasDistinctKeys Data.two_attributes
unfolding lookup
distinct = (refl, (refl, tt))

reply_accepted_example :
    (r : Packet) × (create_reply constant_digests draw Data.access_request
        (from_wire Data.access_accept_raw)
      ≡ ok r)
    × (r.code ≡ 2)
    × (r.id ≡ 5)
    × (r.attrs ≡ Data.two_attributes)
    × (verify_reply constant_digests draw Data.access_request (some Data.access_accept_raw) r
        ≡ (ok true, r))
reply_accepted_example =
    reply_accepted constant_digests draw Data.access_request Data.access_accept Data.access_accept
      Data.access_accept_raw reply_written refl refl refl refl is_plain distinct (omega arith)

acct_request_verified_example :
    (r : Packet) × (construct constant_digests draw acct 4 0
        (codes "secret")
        none
        Data.no_dictionary
        (codes "pap")
        (from_wire Data.accounting_request_raw)
      ≡ ok r)
    × (r.code ≡ 4)
    × (r.id ≡ 5)
    × (r.attrs ≡ Data.two_attributes)
    × (verify_acct_request constant_digests r ≡ ok true)
acct_request_verified_example =
    acct_request_verified constant_digests draw Data.accounting_request Data.accounting_request'
      Data.accounting_request_raw 4 0 (codes "pap") request_written is_plain distinct (omega arith)

encoding_written :
    pkt_encode_attributes Data.no_dictionary Data.two_attributes ≡ ok Data.two_attributes_raw
unfolding pkt_encode_attributes encode_slot encode_values pkt_encode_attribute encode_avp pack_uint
    be lookup attribute_for
encoding_written = refl

decode_packet-encode_example :
    decode_packet (2 ∷ 5 ∷ 0 ∷ 33 ∷ (replicate 16 7 ++ Data.two_attributes_raw)) Data.access_request
    ≡ (
      ok tt,
      with_attrs Data.two_attributes
          (marks Data.two_attributes (with_header 2 5 (replicate 16 7) Data.access_request)),
    )
decode_packet-encode_example =
    decode_packet-encode 2 5 (replicate 16 7) Data.two_attributes_raw Data.two_attributes
      Data.access_request refl (omega arith) is_plain distinct encoding_written
