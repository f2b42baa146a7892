-- ===== src/Packet/Authenticator/Message.antt =====
-- `verify_message_authenticator` of pyrad/packet.py.
use pyrad.Common.{
  Bool, false, ◌||◌, Option, none, some, [], ◌∷◌, ◌++◌, Bytes, ℕ, codes, ◌==◌, if◌then◌else◌,
}
use pyrad.Common.Eq.{text_eq}
use pyrad.Common.Result.{
  Result, ok, raise, key_error, index_error, type_error, no_message_authenticator, missing_original,
  or_raise,
}
use pyrad.Common.Exec.{Exec, ◌>>=◌, ◌>>◌}
use pyrad.Externals.{Externals}
use pyrad.Encoding.{Value, bytes}
use pyrad.Packet.PacketCode
use pyrad.Packet.State.{Packet}
use pyrad.Packet.Encode.{encode_header}
use pyrad.Packet.Raw.{zeros16, encoded}
use pyrad.Packet.Names.{Item, list, nested, get_item}
use pyrad.Packet.Access.{set_item}
use pyrad.Packet.Authenticator.{has_zero_authenticator}

-- `prev_ma[0]`
first_value : Item → Result Value
first_value (list []) = raise index_error
first_value (list (v ∷ vs)) = ok v
first_value (nested d) = raise key_error

-- `prev_ma[0] == digest`
is_digest : Value → Bytes → Bool
is_digest (bytes b) digest = text_eq b digest
is_digest _ digest = false

-- `if secret: key = secret` and else the packet's
key_for : Option Bytes → Bytes → Bytes
key_for none own = own
key_for (some []) own = own
key_for (some (b ∷ bs)) own = b ∷ bs

is_status_server : Option ℕ → Bool
is_status_server none = false
is_status_server (some c) = c == PacketCode.status_server

is_access_reply : ℕ → Bool
is_access_reply c =
    c == PacketCode.access_accept
    || c == PacketCode.access_challenge
    || c == PacketCode.access_reject

-- the authenticator of the request for a reply: without the argument the packet's own is not taken
original_for : Option Bytes → Option Bytes → Result Bytes
original_for (some a) own = ok a
original_for none none = raise type_error
original_for none (some a) = raise missing_original

-- what stands between the header and the attributes in the digest
middle : Option Bytes → Option ℕ → Packet → Result Bytes
unfolding is_status_server is_access_reply original_for
middle original original_code p =
    if has_zero_authenticator p.code
    then ok (if is_status_server original_code then [] else zeros16)
    else if is_access_reply p.code
    then original_for original p.authenticator
    else or_raise type_error p.authenticator

module _ (x : Externals) (draw : ℕ → ℕ) where
  set_value : Value → Exec Packet (Unit {0})
  set_value v = set_item x draw (codes "Message-Authenticator") (v ∷ [])

  unfoldable pub check_message : Option Bytes → Option Bytes → Option ℕ → Exec Packet Bool
  unfolding set_value middle first_value is_digest key_for
  check_message secret original original_code = do
    prev ← λ p. (get_item x p (codes "Message-Authenticator"), p)
    set_value (bytes zeros16)
    attr ← λ p. (encoded p, p)
    header ← λ p. (encode_header p attr, p)
    a ← λ p. (middle original original_code p, p)
    v ← λ p. (first_value prev, p)
    set_value v
    λ p. (ok (is_digest v (x.hmac_md5 (key_for secret p.secret) (header ++ (a ++ attr)))), p)

  -- The test for a missing secret never applies: the packet's is bytes.
  unfoldable pub verify_message_authenticator :
      Option Bytes → Option Bytes → Option ℕ → Exec Packet Bool
  verify_message_authenticator secret original original_code p = elim p.message_authenticator [
    | none ↦ (raise no_message_authenticator, p)
    | some b ↦ check_message secret original original_code p
  ]
