-- ===== src/Packet/Decode.antt =====
-- `decode_packet` of pyrad/packet.py and the functions that it calls.
pub mod Attrs
pub mod RoundTrip
pub mod Whole
pub mod Hang
pub mod Subs
pub mod Tlv
use pyrad.Common.{
  ℕ, zero, suc, ◌+◌, ◌*◌, Bool, true, false, Option, none, some, List, [], ◌∷◌, ◌++◌, Bytes, length,
  take, drop, slice, ltb, ◌==◌, if◌then◌else◌,
}
use pyrad.Common.Eq.{int_eq_instance}
use pyrad.Common.Int.{ℤ, pos}
use pyrad.Common.Struct.{unbe}
use pyrad.Common.Result.{
  Error, Result, ok, raise, stuck, attribute_error, struct_error, header_corrupt, invalid_length,
  too_long, attribute_header_corrupt, attribute_too_small,
}
use pyrad.Common.Exec.{Exec, pure, lift, fail, modify, catch, ◌>>=◌, ◌>>◌}
use pyrad.Common.Dict.{Dict, lookup, insert}
use pyrad.Dictionary.{is_tlv_key}
use pyrad.Dictionary.Types.{Key, code, pair, key_eq_instance}
use pyrad.Packet.State.{Slot, values, subs, Packet, append_value}

-- `self.setdefault(code, {})`
default_subs : Key → Packet → Packet
default_subs key p = elim (lookup key p.attrs) [
  | none ↦ record p { attrs = insert key (subs []) p.attrs }
  | some _ ↦ p
]

add_sub : ℤ → Bytes → Option (List Bytes) → Dict ℤ (List Bytes) → Dict ℤ (List Bytes)
add_sub atype v none d = insert atype (v ∷ []) d
add_sub atype v (some vs) d = insert atype (vs ++ v ∷ []) d

append_sub_to : Option Slot → Key → ℤ → Bytes → Packet → Result (Unit {0}) × Packet
unfolding add_sub
append_sub_to (some (subs d)) key atype v p =
    (ok tt, record p { attrs = insert key (subs (add_sub atype v (lookup atype d) d)) p.attrs })
append_sub_to _ key atype v p = (raise attribute_error, p)

-- `sub_attributes.setdefault(atype, []).append(v)`; a list has no `setdefault`
append_sub : Key → ℤ → Bytes → Exec Packet (Unit {0})
unfolding append_sub_to
append_sub key atype v p = append_sub_to (lookup key p.attrs) key atype v p

-- The loop of `_pkt_decode_tlv_attribute`; the last argument is `data[loc:]`.
unfoldable pub tlv_loop : ℕ → Key → Bytes → Exec Packet (Unit {0})
unfolding append_sub
tlv_loop fuel key [] = pure tt
tlv_loop zero key (t ∷ rest) = λ p. (stuck, p)
tlv_loop (suc fuel) key (t ∷ []) = fail struct_error
tlv_loop (suc fuel) key (t ∷ n ∷ rest) = do
  append_sub key (pos t) (slice 2 n (t ∷ n ∷ rest))
  tlv_loop fuel key (drop n (t ∷ n ∷ rest))

unfoldable pub pkt_decode_tlv_attribute : Key → Bytes → Exec Packet (Unit {0})
unfolding default_subs
pkt_decode_tlv_attribute key datum = do modify (default_subs key); tlv_loop (length datum) key datum

-- The loop of `_pkt_decode_vendor_attribute`; the last argument is `data[sumlength:]`.
unfoldable pub vendor_loop :
    ℕ → Bytes → ℤ → List (Key × Bytes) → Bytes → Result (List (Key × Bytes))
vendor_loop fuel datum vendor tlvs [] = ok tlvs
vendor_loop zero datum vendor tlvs (t ∷ rest) = stuck
vendor_loop (suc fuel) datum vendor tlvs (t ∷ []) = ok ((code (pos 26), datum) ∷ [])
vendor_loop (suc fuel) datum vendor tlvs (t ∷ n ∷ rest) =
    vendor_loop fuel datum vendor (tlvs ++ (pair vendor (pos t), slice 2 n (t ∷ n ∷ rest)) ∷ [])
      (drop n (t ∷ n ∷ rest))

-- The first sub-attribute, the body of the `try`: a tlv goes into the packet, all else is returned.
first_vendor_attribute : Key → Bytes → Exec Packet (List (Key × Bytes))
first_vendor_attribute key datum p =
    if is_tlv_key p.dict key
    then (do pkt_decode_tlv_attribute key datum; pure []) p
    else (ok ((key, datum) ∷ []), p)

-- After the `try`: `none` where the exception handler has returned.
vendor_rest : Bytes → ℤ → ℕ → Option (List (Key × Bytes)) → Result (List (Key × Bytes))
vendor_rest datum vendor n none = ok ((code (pos 26), datum) ∷ [])
vendor_rest datum vendor n (some tlvs) =
    vendor_loop (length datum) datum vendor tlvs (drop (4 + n) datum)

unfoldable pub pkt_decode_vendor_attribute : Bytes → Exec Packet (List (Key × Bytes))
unfolding first_vendor_attribute vendor_rest
pkt_decode_vendor_attribute (a ∷ b ∷ c ∷ d ∷ t ∷ n ∷ rest) =
    let datum : Bytes = a ∷ b ∷ c ∷ d ∷ t ∷ n ∷ rest in
    let vendor : ℤ = pos (unbe (a ∷ b ∷ c ∷ d ∷ [])) in
    do
      tlvs ←
          catch
            (do
              tlvs ← first_vendor_attribute (pair vendor (pos t)) (slice 6 (n + 4) datum)
              pure (some tlvs))
            (λ e. pure none)
      lift (vendor_rest datum vendor n tlvs)
pkt_decode_vendor_attribute datum = pure ((code (pos 26), datum) ∷ [])

unfoldable pub append_values : List (Key × Bytes) → Exec Packet (Unit {0})
append_values [] = pure tt
append_values ((key, value) ∷ rest) = do append_value key value; append_values rest

-- The body of the loop of `decode_packet`, behind its checks of the header.
unfoldable pub decode_attribute : ℕ → Bytes → Exec Packet (Unit {0})
decode_attribute key value p =
    if key == 26
    then (do pairs ← pkt_decode_vendor_attribute value; append_values pairs) p
    else if key == 80
    then append_value (code (pos key)) value (record p { message_authenticator = some true })
    else if is_tlv_key p.dict (code (pos key))
    then pkt_decode_tlv_attribute (code (pos key)) value p
    else append_value (code (pos key)) value p

-- `while packet: ...`; each round takes at least two bytes, so their number is fuel enough.
unfoldable pub decode_loop : ℕ → Bytes → Exec Packet (Unit {0})
decode_loop fuel [] p = (ok tt, p)
decode_loop zero (k ∷ rest) p = (stuck, p)
decode_loop (suc fuel) (k ∷ []) p = (raise attribute_header_corrupt, p)
decode_loop (suc fuel) (k ∷ n ∷ rest) p =
    let more : Result (Unit {0}) × Packet =
      (do decode_attribute k (slice 2 n (k ∷ n ∷ rest)); decode_loop fuel (drop n (k ∷ n ∷ rest)))
        p in
    if ltb n 2 then (raise attribute_too_small, p) else more

-- The fields of `struct.unpack('!BBH16s', packet[0:20])`, which are assigned before the checks of
-- the length.
set_header : ℕ → ℕ → Bytes → Packet → Packet
set_header c i auth p = record p { code = c; id = i; authenticator = some auth }

unfoldable pub decode_packet : Bytes → Exec Packet (Unit {0})
unfolding set_header
decode_packet (c ∷ i ∷ hi ∷ lo ∷ rest) p =
    if ltb (length rest) 16
    then (raise header_corrupt, p)
    else (let q : Packet = set_header c i (take 16 rest) p in
        let len : ℕ = hi * 256 + lo in
        if len == 4 + length rest
        then (if ltb 4096 len
            then (raise too_long, q)
            else decode_loop (length rest) (drop 16 rest) (record q { attrs = [] }))
        else (raise invalid_length, q))
decode_packet _ p = (raise header_corrupt, p)
