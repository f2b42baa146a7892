-- ===== src/Packet/PacketCode.antt =====
-- The class `PacketCode` of pyrad/packet.py, an IntEnum: its members compare with plain integers.
use pyrad.Common.{ℕ}

abbrev pub access_request : ℕ
access_request = 1

abbrev pub access_accept : ℕ
access_accept = 2

abbrev pub access_reject : ℕ
access_reject = 3

abbrev pub accounting_request : ℕ
accounting_request = 4

abbrev pub accounting_response : ℕ
accounting_response = 5

abbrev pub access_challenge : ℕ
access_challenge = 11

abbrev pub status_server : ℕ
status_server = 12

abbrev pub status_client : ℕ
status_client = 13

abbrev pub disconnect_request : ℕ
disconnect_request = 40

abbrev pub disconnect_ack : ℕ
disconnect_ack = 41

abbrev pub disconnect_nak : ℕ
disconnect_nak = 42

abbrev pub coa_request : ℕ
coa_request = 43

abbrev pub coa_ack : ℕ
coa_ack = 44

abbrev pub coa_nak : ℕ
coa_nak = 45
