-- ===== src/Tests/Delay.antt =====
-- An accounting request that is sent again twice, with a timeout of five seconds.
use pyrad.Client.{answer, delay_retry, listen}
use pyrad.Common.Struct.{pack_uint}
use pyrad.Packet.Authenticator.{create_raw_acct_request, keep_authenticator, refresh_if_set}
use pyrad.Packet.Encode.{encode_header, pkt_encode_attributes}
use pyrad.Packet.Raw.{encoded, raw_acct_request}
use pyrad.Common.{◌≡◌, ◌++◌, Bytes, refl, false, none, [], ◌∷◌, arith}
use pyrad.Common.Eq.{text_eq_instance}
use pyrad.Common.Int.{pos}
use pyrad.Common.Result.{ok}
use pyrad.Common.Dict.{lookup}
use pyrad.Bidict
use pyrad.Externals.{constant_digests}
use pyrad.Dictionary.{attribute, find_attribute}
use pyrad.Dictionary.Types.{Datatype, Attribute, Dictionary, code, key_eq_instance}
use pyrad.Encoding.{int}
use pyrad.Packet.State.{Kind, Packet}
use pyrad.Packet.Names.{encode_key, list, get_item}
use pyrad.Packet.Authenticator.{create_raw_request}
use pyrad.Client.{Client, Attempt, Sender, attempt}
use pyrad.Client.Delay.{HasDelay, delay_name}
use pyrad.Client.Retries.{start, again, delay_of_retries}
use pyrad.Tests.Client.{client}
use pyrad.Tests.Packet.{draw}
use pyrad.Client.{add_delay}
use pyrad.Packet.Access.{set_item, encode_key_values}
use pyrad.Packet.Names.{contains_name}
use pyrad.Common.Dict.{insert}
use pyrad.Common.Strs.{before, after}
use pyrad.Encoding.{encode_attr, encode_integer}
use pyrad.Packet.Encode.{encode_slot, encode_values, pkt_encode_attribute}
use pyrad.Encoding.{to_int, pack}
use pyrad.Dictionary.{attribute_for}
use pyrad.Packet.Encode.{encode_avp}
use pyrad.Common.Struct.{be}
use pyrad.Tests.Data

abbrev delay_object : Attribute
delay_object = record {
  name = delay_name;
  code = pos 41;
  type = Datatype.integer;
  vendor = [];
  encrypt = 0;
  has_tag = false;
  values = Bidict.empty;
  sub_attributes = [];
  parent = none;
  is_sub_attribute = false;
}

abbrev dictionary : Dictionary
dictionary = record {
  vendors = Bidict.empty;
  attrindex = Bidict.add delay_name (code (pos 41)) Bidict.empty;
  attributes = (delay_name, 0) ∷ [];
  heap = delay_object ∷ [];
}

abbrev request : Packet
request = record (Data.packet_with Kind.acct 4 none []) { dict = dictionary }

has_delay : HasDelay dictionary (code (pos 41))
unfolding attribute find_attribute encode_key lookup
has_delay = record {
  object = delay_object;
  known = refl;
  keyed = refl;
  is_integer = refl;
  number = record { numeric = refl; unnamed = refl; untagged = refl; plain = refl };
}

no_delay : lookup (code (pos 41)) request.attrs ≡ none
unfolding lookup
no_delay = refl

-- a timeout of five seconds, and attempts in which nothing comes
abbrev patient : Client
patient = record client { timeout_seconds = 5 }

abbrev silence : Attempt
silence = record { start = 0; random = []; polls = record { ready = none; time = 5000000 } ∷ [] }

abbrev sender : Sender
sender = record { pkt = request; sent = [] }

abbrev once : Sender
once = (attempt constant_digests draw patient 1813 0 silence sender).1

abbrev twice : Sender
twice = (attempt constant_digests draw patient 1813 1 silence once).1

first_attempt : attempt constant_digests draw patient 1813 0 silence sender ≡ (ok none, once)
unfolding attempt delay_retry create_raw_request create_raw_acct_request refresh_if_set
    keep_authenticator raw_acct_request encoded pkt_encode_attributes encode_header pack_uint listen
    answer
first_attempt = refl

second_attempt : attempt constant_digests draw patient 1813 1 silence once ≡ (ok none, twice)
unfolding to_int pack attribute_for Bidict.add encode_avp be attempt delay_retry create_raw_request
    create_raw_acct_request refresh_if_set keep_authenticator raw_acct_request encoded
    pkt_encode_attributes encode_header pack_uint listen answer add_delay set_item encode_key_values
    contains_name attribute find_attribute encode_key lookup insert before after encode_attr
    encode_integer encode_slot encode_values pkt_encode_attribute
second_attempt = refl

delay_of_retries_example :
    (q : Packet) × (raw : Bytes) × (create_raw_request constant_digests draw [] q
      ≡ (ok raw, twice.pkt))
    × (twice.sent ≡ once.sent ++ (1813, raw) ∷ [])
    × (get_item constant_digests q delay_name ≡ ok (list (int (pos 5) ∷ [])))
    × (q.code ≡ 4)
delay_of_retries_example =
    delay_of_retries constant_digests draw patient 1813 1 (code (pos 41)) sender once twice silence
      none (again silence start first_attempt) second_attempt has_delay refl refl refl no_delay
      (omega arith) (omega arith)
