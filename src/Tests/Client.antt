-- ===== src/Tests/Client.antt =====
-- An access request on its way: answered, unanswered, and answered with two bytes of nonsense.
use pyrad.Common.{◌≡◌, refl, Option, none, some, [], ◌∷◌, Bytes, codes, arith, replicate}
use pyrad.Common.Dict.{lookup, insert}
use pyrad.Common.Result.{ok, raise, timeout, attribute_error, header_corrupt}
use pyrad.Common.Struct.{pack_uint, be, unbe_from}
use pyrad.Externals.{constant_digests}
use pyrad.Dictionary.Types.{key_eq_instance}
use pyrad.Dictionary.{attribute_for}
use pyrad.Packet.State.{append_value, Packet}
use pyrad.Packet.Raw.{encoded, raw_auth_request, auth_header}
use pyrad.Packet.Encode.{
  encode_avp, pkt_encode_attribute, encode_values, encode_slot, pkt_encode_attributes,
  encode_header,
}
use pyrad.Packet.Crypt.{ensure_authenticator}
use pyrad.Client.Eap.{add_identity, is_challenge}
use pyrad.Packet.Authenticator.Verify.{reply_matches}
use pyrad.Packet.Decode.{
  decode_attribute, pkt_decode_vendor_attribute, vendor_loop, append_values, decode_packet,
  decode_loop,
}
use pyrad.Packet.Create.{construct, create_reply, initialize, from_wire}
use pyrad.Packet.Authenticator.{create_raw_request, create_raw_auth_request, refresh_if_set}
use pyrad.Packet.Reply.{verify_reply}
use pyrad.Client.{
  Client, Attempt, Sender, attempts, attempt, listen, answer, delay_retry, send_packet_to,
  send_packet,
}
use pyrad.Client.Sending.{Sends, send_packet-Sends}
use pyrad.Client.Replies.{IsVerified, Came, send_packet-IsVerified}
use pyrad.Client.Waiting.{
  over, silent, send_packet_to_silent, undecodable_reply, genuine_reply_returned,
}
use pyrad.Tests.Packet.{draw, is_plain, distinct, reply_written}
use pyrad.Tests.Data

abbrev pub client : Client
client = record {
  host = record { authport = 1812; acctport = 1813; coaport = 3799; dict = Data.no_dictionary };
  secret = codes "secret";
  retries = 2;
  timeout_seconds = 5;
}

abbrev sender : Sender
sender = record { pkt = Data.access_request; sent = [] }

abbrev pub request : Bytes
request = 1 ∷ 5 ∷ 0 ∷ 20 ∷ replicate 16 3

-- one call of `poll`, a second after the start
abbrev one_poll : Option Bytes → Attempt
one_poll ready = record {
  start = 0;
  random = [];
  polls = record { ready = ready; time = 1000000 } ∷ [];
}

-- a call that brings nothing and takes the whole time
abbrev unanswered : Attempt
unanswered = record { start = 0; random = []; polls = record { ready = none; time = 5000000 } ∷ [] }

pub request_made :
    create_raw_request constant_digests draw [] Data.access_request
    ≡ (ok request, Data.access_request)
unfolding create_raw_request create_raw_auth_request ensure_authenticator refresh_if_set
    raw_auth_request auth_header encoded pkt_encode_attributes pack_uint be
request_made = refl

request_raw : raw_auth_request constant_digests Data.access_request ≡ ok request
unfolding raw_auth_request auth_header encoded pkt_encode_attributes pack_uint be
request_raw = refl

nonsense :
    create_reply constant_digests draw Data.access_request (from_wire (1 ∷ 2 ∷ []))
    ≡ raise header_corrupt
unfolding create_reply construct initialize decode_packet
nonsense = refl

genuine_reply_returned_example :
    (r : Packet) × (send_packet_to constant_digests draw client 1812
        (one_poll (some Data.access_accept_raw) ∷ [])
        sender
      ≡ (ok r, record { pkt = Data.access_request; sent = (1812, request) ∷ [] }))
    × (r.code ≡ 2)
    × (r.id ≡ 5)
    × (r.attrs ≡ Data.two_attributes)
genuine_reply_returned_example =
    genuine_reply_returned constant_digests draw client 1812 1
      (one_poll (some Data.access_accept_raw)) [] sender Data.access_accept_raw request
      Data.access_request Data.access_accept Data.access_accept 1000000 [] refl (omega arith)
      request_made refl reply_written refl refl refl refl is_plain distinct (omega arith)

send_packet_to_silent_example :
    send_packet_to constant_digests draw client 1812 (unanswered ∷ unanswered ∷ []) sender ≡ (
      raise timeout,
      record { pkt = Data.access_request; sent = (1812, request) ∷ (1812, request) ∷ [] },
    )
send_packet_to_silent_example =
    send_packet_to_silent constant_digests draw client 1812 (unanswered ∷ unanswered ∷ []) sender
      (replicate 16 3) request refl refl refl refl request_raw
      (silent refl (over (omega arith)), (silent refl (over (omega arith)), tt)) (omega arith)

undecodable_reply_example :
    send_packet_to constant_digests draw client 1812 (one_poll (some (1 ∷ 2 ∷ [])) ∷ []) sender
    ≡ (raise attribute_error, record { pkt = Data.access_request; sent = (1812, request) ∷ [] })
undecodable_reply_example =
    undecodable_reply constant_digests draw client 1812 1 (one_poll (some (1 ∷ 2 ∷ []))) [] sender
      (1 ∷ 2 ∷ []) request Data.access_request header_corrupt 1000000 [] refl (omega arith)
      request_made refl nonsense

send_packet-Sends_example :
    Sends 1812 4 sender
      (send_packet constant_digests draw client 7 (unanswered ∷ unanswered ∷ []) [] sender).1
send_packet-Sends_example =
    send_packet-Sends constant_digests draw client 7 (unanswered ∷ unanswered ∷ []) [] sender

abbrev reply : Packet
reply = record Data.access_accept {
  authenticator = some (replicate 16 7);
  raw_packet = some Data.access_accept_raw;
}

abbrev replied_state : Sender
replied_state = record { pkt = Data.access_request; sent = (1812, request) ∷ [] }

replied :
    send_packet constant_digests draw client 7
      (one_poll (some Data.access_accept_raw) ∷ [])
      []
      sender
    ≡ (ok reply, replied_state)
unfolding send_packet send_packet_to attempts attempt listen answer delay_retry create_raw_request
    create_raw_auth_request ensure_authenticator refresh_if_set raw_auth_request auth_header encoded
    pkt_encode_attributes encode_slot encode_values pkt_encode_attribute encode_avp encode_header
    pack_uint be create_reply construct initialize decode_packet verify_reply add_identity
    is_challenge lookup insert attribute_for decode_loop decode_attribute append_value
    pkt_decode_vendor_attribute vendor_loop append_values unbe_from reply_matches
replied = refl

send_packet-IsVerified_example :
    IsVerified constant_digests draw Data.access_request
      (Came (one_poll (some Data.access_accept_raw) ∷ []) [])
      reply
send_packet-IsVerified_example =
    send_packet-IsVerified constant_digests draw client 7
      (one_poll (some Data.access_accept_raw) ∷ []) [] sender replied_state reply replied
