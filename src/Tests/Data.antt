-- ===== src/Tests/Data.antt =====
-- The packets, hosts and dictionaries of the tests.
use pyrad.Common.{ℕ, true, Option, none, some, [], ◌∷◌, ◌++◌, Bytes, codes}
use pyrad.Common.{replicate}
use pyrad.Common.{◌+◌, ◌%◌, All-replicate, IsByte, length-replicate, arith}
use pyrad.Common.Int.{pos}
use pyrad.Externals.{Externals}
use pyrad.Common.Dict.{Dict}
use pyrad.Bidict.{empty}
use pyrad.Dictionary.Types.{Dictionary, Key, code, pair}
use pyrad.Packet.State.{Slot, values, Kind, Packet}
use pyrad.Host.{RemoteHost}
use pyrad.Server.{Server, Event}
use pyrad.ServerAsync.{Protocol, ServerType}

abbrev pub no_dictionary : Dictionary
no_dictionary = record { vendors = empty; attrindex = empty; attributes = []; heap = [] }

-- a user name and a vendor attribute
abbrev pub two_attributes : Dict Key Slot
two_attributes =
    (code (pos 1), values (codes "ab" ∷ [])) ∷ (pair (pos 9) (pos 1), values ((1 ∷ []) ∷ [])) ∷ []

abbrev pub two_attributes_raw : Bytes
two_attributes_raw = 1 ∷ 4 ∷ 97 ∷ 98 ∷ 26 ∷ 9 ∷ 0 ∷ 0 ∷ 0 ∷ 9 ∷ 1 ∷ 3 ∷ 1 ∷ []

abbrev pub packet_with : Kind → ℕ → Option Bytes → Dict Key Slot → Packet
packet_with kind c authenticator attrs = record {
  kind = kind;
  code = c;
  id = 5;
  secret = codes "secret";
  authenticator = authenticator;
  message_authenticator = none;
  dict = no_dictionary;
  attrs = attrs;
  raw_packet = none;
  auth_type = codes "pap";
}

-- an access request, and the answer to it
abbrev pub access_request : Packet
access_request = packet_with Kind.auth 1 (some (replicate 16 3)) []

abbrev pub access_accept : Packet
access_accept = packet_with Kind.auth 2 (some (replicate 16 3)) two_attributes

abbrev pub access_accept_raw : Bytes
access_accept_raw = 2 ∷ 5 ∷ 0 ∷ 33 ∷ (replicate 16 7 ++ two_attributes_raw)

-- an accounting request before and after its authenticator is made
abbrev pub accounting_request : Packet
accounting_request = packet_with Kind.acct 4 none two_attributes

abbrev pub accounting_request' : Packet
accounting_request' = packet_with Kind.acct 4 (some (replicate 16 7)) two_attributes

abbrev pub accounting_request_raw : Bytes
accounting_request_raw = 4 ∷ 5 ∷ 0 ∷ 33 ∷ (replicate 16 7 ++ two_attributes_raw)

abbrev pub host : RemoteHost
host = record {
  address = codes "10.0.0.1";
  secret = codes "secret";
  name = codes "nas";
  authport = 1812;
  acctport = 1813;
  coaport = 3799;
}

-- a protocol and a server that know every sender
abbrev pub protocol : Protocol
protocol = record {
  server_type = ServerType.for_acct;
  hosts = (codes "0.0.0.0", host) ∷ [];
  dict = no_dictionary;
  enable_pkt_verify = true;
}

abbrev pub server : Server
server = record {
  hosts = (codes "0.0.0.0", host) ∷ [];
  dict = no_dictionary;
  auth_enabled = true;
  acct_enabled = true;
  coa_enabled = true;
  authfds = 3 ∷ [];
  acctfds = 4 ∷ [];
  coafds = 5 ∷ [];
}

abbrev pub event : ℕ → Bytes → Event
event fd datum = record { fd = fd; is_input = true; datum = datum; source = codes "10.0.0.1" }

abbrev sum : Bytes → ℕ
sum [] = 0
sum (b ∷ bs) = b + sum bs

-- sixteen times the sum of the message, in place of a digest
abbrev pub summing_digests : Externals
summing_digests = record {
  md5 = λ m. replicate 16 (sum m % 256);
  hmac_md5 = λ key m. replicate 16 9;
  ipv6_packed = λ t. none;
  ipv6_text = λ b. [];
  ipv6_network = λ t. none;
  ipv6_network_text = λ b n. none;
  ip_network = λ t. none;
  length-md5 = λ m. length-replicate {A = ℕ} 16 (sum m % 256);
  md5-IsByte = λ m. All-replicate IsByte 16 (sum m % 256) (omega arith);
  length-hmac_md5 = λ key m. length-replicate {A = ℕ} 16 9;
}
