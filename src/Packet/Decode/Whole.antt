-- ===== src/Packet/Decode/Whole.antt =====
-- `decode_packet` on a whole packet that this library wrote: header, authenticator, attributes.
use pyrad.Common.{
  ℕ, ◌+◌, ◌*◌, ◌/◌, ◌%◌, ◌≤◌, ◌<◌, ◌≡◌, true, false, some, [], ◌∷◌, ◌++◌, Bytes, length,
  length-append, take-append, drop-append, ltb, ◌==◌, arith,
}
use pyrad.Common.Struct.{be, pack_uint}
use pyrad.Common.Result.{ok}
use pyrad.Common.Dict.{Dict, HasDistinctKeys}
use pyrad.Dictionary.Types.{Key, key_eq_instance}
use pyrad.Packet.State.{Slot, Packet}
use pyrad.Packet.Encode.{pkt_encode_attributes, encode_header}
use pyrad.Packet.Decode.{decode_packet}
use pyrad.Packet.Decode.Attrs.{with_attrs}
use pyrad.Packet.Decode.RoundTrip.{IsPlain, marks, decode_loop-encode}

-- The packet that the header of a raw packet makes.
abbrev pub with_header : ℕ → ℕ → Bytes → Packet → Packet
with_header c i a p = record p { code = c; id = i; authenticator = some a }

-- The header is the code, the identifier and the length in two bytes.
pub encode_header_shape :
    (p : Packet) (attr header : Bytes)
    → encode_header p attr ≡ ok header
    → (header ≡ p.code ∷ p.id ∷ ((20 + length attr) / 256) ∷ ((20 + length attr) % 256) ∷ [])
      × (p.code < 256)
      × (p.id < 256)
      × (20 + length attr < 65536)
unfolding encode_header pack_uint be
encode_header_shape p attr header h = (ground arith, ground arith, ground arith, ground arith)

-- A header, an authenticator of sixteen bytes and the encoding of plain attributes with distinct
-- keys decode to their parts, if the packet is no longer than 4096 bytes: `decode_packet` inverts
-- `_pkt_encode_attributes`.
pub decode_packet-encode :
    (c i : ℕ) (auth attr : Bytes) (items : Dict Key Slot) (p : Packet)
    → length auth ≡ 16
    → 20 + length attr ≤ 4096
    → IsPlain p.dict items
    → HasDistinctKeys items
    → pkt_encode_attributes p.dict items ≡ ok attr
    → decode_packet
        (c ∷ i ∷ ((20 + length attr) / 256) ∷ ((20 + length attr) % 256) ∷ (auth ++ attr))
        p
      ≡ (ok tt, with_attrs items (marks items (with_header c i auth p)))
unfolding decode_packet
decode_packet-encode c i auth attr items p len short plain distinct h =
    rw (enough, declared, not_long, take-append 16 auth attr len, drop-append 16 auth attr len)
      (decode_loop-encode items attr (with_header c i auth p) _ plain distinct h
        (omega (arith, length-append auth attr)))
  where
    enough : ltb (length (auth ++ attr)) 16 ≡ false
    enough = ground (arith, length-append auth attr)

    declared :
        ((20 + length attr) / 256 * 256 + (20 + length attr) % 256 == 4 + length (auth ++ attr))
        ≡ true
    declared = ground (arith, length-append auth attr)

    not_long : ltb 4096 ((20 + length attr) / 256 * 256 + (20 + length attr) % 256) ≡ false
    not_long = ground arith
