-- ===== src/Client/Eap.antt =====
-- The EAP-MD5 attributes of `Client.send_packet` in pyrad/client.py.
use pyrad.Common.{
  ℕ, ◌+◌, Bool, true, false, ◌&&◌, Option, none, some, List, [], ◌∷◌, ◌++◌, Bytes, codes, length,
  drop, ltb, ◌==◌, if◌then◌else◌,
}
use pyrad.Common.Eq.{text_eq, int_eq_instance}
use pyrad.Common.Int.{pos}
use pyrad.Common.Struct.{pack_uint}
use pyrad.Common.Result.{
  Error, Result, ok, raise, stuck, type_error, key_error, index_error, struct_error, ◌>>=◌,
}
use pyrad.Common.Exec.{Exec}
use pyrad.Common.Dict.{lookup}
use pyrad.Externals.{Externals}
use pyrad.Dictionary.Types.{code, key_eq_instance}
use pyrad.Packet.PacketCode
use pyrad.Packet.State.{Slot, values, subs, Packet}
use pyrad.Packet.Access.{set_raw}

-- `pkt[key][0]` under a raw key. A dict of sub-attributes is no list: if it has a value under 0, that
-- is a list, and the call that wants bytes raises.
first_raw : (List Bytes → Error) → Option Slot → Result Bytes
first_raw refuse none = raise key_error
first_raw refuse (some (values [])) = raise index_error
first_raw refuse (some (values (b ∷ bs))) = ok b
first_raw refuse (some (subs d)) = elim (lookup (pos 0) d) [
  | none ↦ raise key_error
  | some vs ↦ raise (refuse vs)
]

-- `pkt[2][0] if 2 in pkt else pkt[1][0]`
password_of : Error → Packet → Result Bytes
unfolding first_raw
password_of e p = elim (lookup (code (pos 2)) p.attrs) [
  | some slot ↦ first_raw (λ _. e) (some slot)
  | none ↦ first_raw (λ _. e) (lookup (code (pos 1)) p.attrs)
]

-- `struct.pack('!BBHB%ds', ...)`
identity : ℕ → Bytes → Result Bytes
identity current password = do
  number ← pack_uint 1 (pos current)
  size ← pack_uint 2 (pos (length password + 5))
  ok (2 ∷ (number ++ (size ++ (1 ∷ password))))

-- `struct.unpack` of a list
refuse_challenge : List Bytes → Error
refuse_challenge vs = if ltb (length vs) 5 then struct_error else type_error

-- the identifier and the rest of `struct.unpack('!BBHB%ds', ...)`, for at least five bytes
challenge_parts : Bytes → Result (ℕ × Bytes)
challenge_parts (eap_code ∷ eap_id ∷ s ∷ s' ∷ eap_type ∷ eap_md5) = ok (eap_id, eap_md5)
challenge_parts _ = raise struct_error

-- `struct.pack('!BBHBB', ...) + md5_challenge`
response : ℕ → Bytes → Result Bytes
response eap_id digest = do
  number ← pack_uint 1 (pos eap_id)
  size ← pack_uint 2 (pos (length digest + 6))
  count ← pack_uint 1 (pos (length digest))
  ok (2 ∷ (number ++ (size ++ (4 ∷ (count ++ digest)))))

abbrev uses_eap : Packet → Bool
uses_eap p = text_eq p.auth_type (codes "eap-md5")

-- `pkt[key] = [value]`, for a value that may have raised
store : ℕ → Result Bytes → Exec Packet (Unit {0})
store key (ok value) p = (ok tt, set_raw (code (pos key)) (values (value ∷ [])) p)
store key (raise e) p = (raise e, p)
store key stuck p = (stuck, p)

-- the EAP identity, before the packet is sent
unfoldable pub add_identity : ℕ → Exec Packet (Unit {0})
unfolding password_of identity store
add_identity current p =
    if uses_eap p
    then store 79 (do password ← password_of struct_error p; identity current password) p
    else (ok tt, p)

-- An object without attributes is false.
truth : Packet → Bool
truth p = elim p.attrs [ [] ↦ false | item ∷ items ↦ true ]

-- whether the reply is a challenge that is answered
unfoldable pub is_challenge : Packet → Packet → Bool
unfolding truth
is_challenge reply p = truth reply && reply.code == PacketCode.access_challenge && uses_eap p

-- `pkt[24] = reply[24]`
copy_state : Option Slot → Result (Unit {0}) × Packet → Result (Unit {0}) × Packet
copy_state (some slot) (ok _, p) = (ok tt, set_raw (code (pos 24)) slot p)
copy_state none (ok _, p) = (raise key_error, p)
copy_state state (raise e, p) = (raise e, p)
copy_state state (stuck, p) = (stuck, p)

module _ (x : Externals) where
  digest_of : Packet → Packet → Result Bytes
  unfolding first_raw refuse_challenge challenge_parts password_of response
  digest_of reply p = do
    challenge ← first_raw refuse_challenge (lookup (code (pos 79)) reply.attrs)
    (eap_id, eap_md5) ← challenge_parts challenge
    password ← password_of type_error p
    response eap_id (x.md5 (eap_id ∷ (password ++ drop 1 eap_md5)))

  -- the answer to the challenge of a reply, and its state
  unfoldable pub add_response : Packet → Exec Packet (Unit {0})
  unfolding digest_of store copy_state
  add_response reply p =
      copy_state (lookup (code (pos 24)) reply.attrs) (store 79 (digest_of reply p) p)
