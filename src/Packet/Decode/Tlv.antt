-- ===== src/Packet/Decode/Tlv.antt =====
-- Decoding the tlv that `_pkt_encode_tlv` of pyrad/packet.py wrote gives its sub-attributes back.
pub mod Rows
pub mod Groups
pub mod Item
use pyrad.Common.{List, [], ◌∷◌, Bytes}
use pyrad.Common.Eq.{int_eq_instance}
use pyrad.Common.Int.{ℤ}
use pyrad.Common.Dict.{Dict, lookup}
use pyrad.Packet.Decode.{add_sub}

-- What the decoder makes of sub-attributes, behind those that it has.
unfoldable pub add_each : List (ℤ × Bytes) → Dict ℤ (List Bytes) → Dict ℤ (List Bytes)
unfolding add_sub
add_each [] s = s
add_each ((c, v) ∷ l) s = add_each l (add_sub c v (lookup c s) s)
