-- ===== src/Tests/Auth.antt =====
-- The exchange of an access request between a client and the server of example/server.py.
use pyrad.Common.Strs.{before, parse_int, split_on}
use pyrad.Common.Struct.{be, pack_uint}
use pyrad.Dictionary.{attribute, attribute_for, find_attribute}
use pyrad.Encoding.{encode_attr, encode_ipv4_address, encode_ipv6_prefix}
use pyrad.Packet.Access.{add_attribute, encode_key_values}
use pyrad.Packet.Authenticator.{create_raw_auth_request, refresh_if_set}
use pyrad.Packet.Create.{initialize}
use pyrad.Packet.Crypt.{ensure_authenticator}
use pyrad.Packet.Encode.{
  encode_avp, encode_header, encode_slot, encode_values, pkt_encode_attribute,
  pkt_encode_attributes,
}
use pyrad.Packet.Names.{encode_key, keys_of}
use pyrad.Packet.Raw.{auth_header, encoded, raw_auth_request, raw_reply}
use pyrad.Common.{
  ◌≡◌, refl, none, some, [], ◌∷◌, ◌++◌, Bytes, codes, arith, replicate, ◌&&◌, true, false, Text,
}
use pyrad.Common.Dict.{Dict, lookup, insert, HasDistinctKeys}
use pyrad.Common.Eq.{text_eq_instance}
use pyrad.Common.Int.{ℤ, pos}
use pyrad.Common.Result.{ok}
use pyrad.Bidict.{BiDict, empty}
use pyrad.Externals.{Externals, constant_digests}
use pyrad.Dictionary.Types.{Dictionary, Attribute, Datatype, Key, code, key_eq_instance}
use pyrad.Packet.State.{Packet, Slot, values}
use pyrad.Packet.Decode.RoundTrip.{IsPlain}
use pyrad.Packet.Authenticator.{create_raw_request, create_raw_reply}
use pyrad.Packet.Create.{create_reply, from_wire}
use pyrad.Packet.Reply.{verify_reply}
use pyrad.Packet.Reply.Created.{with_code, created_reply_accepted}
use pyrad.Server.{Server, mem}
use pyrad.Client.{Sender, send_packet_to}
use pyrad.Examples.{framed_user, print_attributes}
use pyrad.Examples.Exchange.{replied_attempt, after_sending}
use pyrad.Examples.Exchange.Auth.{auth_exchange}
use pyrad.Examples.FakeServer
use pyrad.Tests.Client.{client, request}
use pyrad.Tests.Packet.{draw}
use pyrad.Tests.Data

-- every IPv6 network is the same
abbrev one_network : Externals
one_network = record constant_digests { ipv6_network = λ t. some (64, replicate 16 1) }

abbrev entry : Text → ℤ → Datatype → BiDict Text Bytes → Attribute
entry name c type names = record {
  name = name;
  code = c;
  type = type;
  vendor = [];
  encrypt = 0;
  has_tag = false;
  values = names;
  sub_attributes = [];
  parent = none;
  is_sub_attribute = false;
}

abbrev dictionary : Dictionary
dictionary = record {
  vendors = empty;
  attrindex = record {
    forward =
        (codes "Service-Type", code (pos 6))
        ∷ (codes "Framed-IP-Address", code (pos 8))
        ∷ (codes "Framed-IPv6-Prefix", code (pos 97))
        ∷ [];
    backward =
        (code (pos 6), codes "Service-Type")
        ∷ (code (pos 8), codes "Framed-IP-Address")
        ∷ (code (pos 97), codes "Framed-IPv6-Prefix")
        ∷ [];
  };
  attributes =
      (codes "Service-Type", 0)
      ∷ (codes "Framed-IP-Address", 1)
      ∷ (codes "Framed-IPv6-Prefix", 2)
      ∷ [];
  heap =
      entry (codes "Service-Type") (pos 6) Datatype.integer (record {
        forward = (codes "Framed-User", 0 ∷ 0 ∷ 0 ∷ 2 ∷ []) ∷ [];
        backward = (0 ∷ 0 ∷ 0 ∷ 2 ∷ [], codes "Framed-User") ∷ [];
      })
      ∷ entry (codes "Framed-IP-Address") (pos 8) Datatype.ipaddr empty
      ∷ entry (codes "Framed-IPv6-Prefix") (pos 97) Datatype.ipv6prefix empty
      ∷ [];
}

abbrev access_request : Packet
access_request = record Data.access_request { dict = dictionary }

abbrev three_attributes : Dict Key Slot
three_attributes =
    (code (pos 6), values ((0 ∷ 0 ∷ 0 ∷ 2 ∷ []) ∷ []))
    ∷ (code (pos 8), values ((192 ∷ 168 ∷ 0 ∷ 1 ∷ []) ∷ []))
    ∷ (code (pos 97), values ((0 ∷ 64 ∷ replicate 16 1) ∷ []))
    ∷ []

abbrev framed_reply : Packet
framed_reply = record access_request { code = 2; attrs = three_attributes }

abbrev framed_reply_raw : Bytes
framed_reply_raw =
    2
    ∷ 5
    ∷ 0
    ∷ 52
    ∷ (replicate 16 7
        ++ (6 ∷ 6 ∷ 0 ∷ 0 ∷ 0 ∷ 2 ∷ 8 ∷ 6 ∷ 192 ∷ 168 ∷ 0 ∷ 1 ∷ 97 ∷ 20 ∷ 0 ∷ 64 ∷ replicate 16 1))

abbrev server : Server
server = record Data.server { hosts = (codes "10.0.0.1", Data.host) ∷ []; dict = dictionary }

abbrev sender : Sender
sender = record { pkt = access_request; sent = [] }

request_written :
    create_raw_request one_network draw [] access_request ≡ (ok request, access_request)
unfolding create_raw_request create_raw_auth_request refresh_if_set ensure_authenticator
    raw_auth_request encoded pkt_encode_attributes auth_header pack_uint be
request_written = refl

reply_made : create_reply one_network draw access_request framed_user ≡ ok framed_reply
unfolding create_reply initialize add_attribute attribute find_attribute lookup before
    encode_key_values encode_key encode_attr encode_ipv4_address split_on parse_int insert
    encode_ipv6_prefix
reply_made = refl

reply_written :
    create_raw_reply one_network draw (with_code 2 framed_reply)
    ≡ (ok framed_reply_raw, framed_reply)
unfolding create_raw_reply refresh_if_set raw_reply encoded pkt_encode_attributes encode_slot
    attribute_for lookup find_attribute encode_values pkt_encode_attribute encode_avp encode_header
    be
reply_written = refl

is_plain : IsPlain dictionary three_attributes
unfolding lookup attribute_for find_attribute
is_plain = ((λ h. cc h, refl), ((λ h. cc h, refl), ((λ h. cc h, refl), tt)))

distinct : HasDistinctKeys three_attributes
unfolding lookup
distinct = (refl, (refl, (refl, tt)))

none_shown : print_attributes one_network access_request ≡ ok []
unfolding print_attributes keys_of
none_shown = refl

known : lookup (codes "10.0.0.1") server.hosts ≡ some Data.host
unfolding lookup
known = refl

on_auth : (server.auth_enabled && mem 3 server.authfds) ≡ true
unfolding mem
on_auth = refl

auth_exchange_example :
    (FakeServer.respond one_network draw 0 server (Data.event 3 request)
      ≡ ok (record { raw = framed_reply_raw; address = codes "10.0.0.1" }))
    × (r : Packet) × (send_packet_to one_network draw client 1812
          (replied_attempt 0 [] framed_reply_raw 1000000 [] ∷ [])
          sender
        ≡ (ok r, after_sending 1812 request access_request sender))
    × (r.code ≡ 2)
    × (r.id ≡ 5)
    × (r.attrs ≡ three_attributes)
auth_exchange_example =
    auth_exchange one_network draw client server (Data.event 3 request) 1812 1 0 1000000 0 [] [] []
      sender access_request Data.host [] (replicate 16 3) framed_reply_raw framed_reply framed_reply
      request_written refl refl refl refl refl refl tt tt (omega arith) none_shown refl on_auth
      known refl reply_made reply_written is_plain distinct (omega arith) refl (omega arith)

created_reply_accepted_example :
    (r : Packet) × (create_reply one_network draw access_request (from_wire framed_reply_raw)
      ≡ ok r)
    × (r.code ≡ 2)
    × (r.id ≡ 5)
    × (r.attrs ≡ three_attributes)
    × (verify_reply one_network draw access_request (some framed_reply_raw) r ≡ (ok true, r))
created_reply_accepted_example =
    created_reply_accepted one_network draw access_request framed_reply framed_reply framed_user 2
      (replicate 16 3) framed_reply_raw refl refl reply_made reply_written is_plain distinct
      (omega arith)
