-- ===== src/Packet/Authenticator/Verify.antt =====
-- The verifications of pyrad/packet.py: `verify_reply`, `verify_auth_request`,
-- `verify_acct_request`, `verify_coa_request` and
-- `verify_chap_passwd`.
use pyrad.Common.{
  Bool, false, not, Option, none, some, List, [], ◌∷◌, ◌++◌, Bytes, codes, length, take, drop,
  slice, replicate, ◌==◌, if◌then◌else◌,
}
use pyrad.Common.Eq.{text_eq}
use pyrad.Common.Int.{pos}
use pyrad.Common.Utf8.{utf8_encode, encode_char}
use pyrad.Common.Strs.{strip}
use pyrad.Common.Result.{
  Result, ok, raise, key_error, type_error, attribute_error, index_error, unicode_error, or_raise,
  ◌>>=◌,
}
use pyrad.Common.Dict.{lookup}
use pyrad.Externals.{Externals}
use pyrad.Encoding.{Value, int, str, bytes}
use pyrad.Dictionary.Types.{code, key_eq_instance}
use pyrad.Packet.State.{Slot, values, subs, Packet}
use pyrad.Packet.Names.{Item, list, nested, get_item, contains_name}

-- sixteen zeros, in place of the authenticator of a request
abbrev no_authenticator_yet : Bytes
no_authenticator_yet = replicate 16 0

-- the values stored under a raw key: `self.get(3)`
raw_values : Option Slot → Result (List Bytes)
raw_values none = raise type_error
raw_values (some (values vs)) = ok vs
raw_values (some (subs d)) = raise key_error

first : List Bytes → Result Bytes
first [] = raise index_error
first (v ∷ vs) = ok v

-- `self[name][0]`, for a value that is bytes
first_item : Item → Result Bytes
first_item (list (bytes b ∷ vs)) = ok b
first_item (list (str s ∷ vs)) = raise type_error
first_item (list (int n ∷ vs)) = raise type_error
first_item (list []) = raise index_error
first_item (nested d) = raise key_error

-- `userpwd.strip().encode('utf-8')` of a str
password_bytes : Value → Result Bytes
password_bytes (str s) = or_raise unicode_error (utf8_encode (strip s))
password_bytes (bytes b) = ok b
password_bytes (int n) = raise type_error

-- an authenticator that is missing or empty is made anew
chap_authenticator : Bytes → Option Bytes → Bytes
chap_authenticator random none = random
chap_authenticator random (some []) = random
chap_authenticator random (some (b ∷ bs)) = b ∷ bs

module _ (x : Externals) where
  -- `verify_reply` once the reply has its raw form and its encoded attributes
  unfoldable pub reply_matches : Packet → Bytes → Bytes → Result Bool
  reply_matches p rawreply attr = do
    a ← or_raise type_error p.authenticator
    ok (text_eq (x.md5 (take 4 rawreply ++ (a ++ (attr ++ p.secret)))) (slice 4 20 rawreply))

  -- The hash that the three request verifications compute: over the raw packet with zeros for its
  -- authenticator.
  unfoldable pub raw_hash : Bytes → Bytes → Bytes
  raw_hash raw secret = x.md5 (take 4 raw ++ (no_authenticator_yet ++ (drop 20 raw ++ secret)))

  is_authenticator : Bytes → Option Bytes → Bool
  is_authenticator h none = false
  is_authenticator h (some a) = text_eq h a

  -- `raw_packet` is an attribute only of an object that was made from raw data
  unfoldable pub verify_auth_request : Packet → Result Bool
  unfolding is_authenticator
  verify_auth_request p = do
    raw ← or_raise attribute_error p.raw_packet
    ok (is_authenticator (raw_hash raw p.secret) p.authenticator)

  unfoldable pub verify_acct_request : Packet → Result Bool
  unfolding is_authenticator
  verify_acct_request p = do
    raw ← or_raise attribute_error p.raw_packet
    ok (is_authenticator (raw_hash raw p.secret) p.authenticator)

  unfoldable pub verify_coa_request : Packet → Result Bool
  unfolding is_authenticator
  verify_coa_request p = do
    raw ← or_raise attribute_error p.raw_packet
    ok (is_authenticator (raw_hash raw p.secret) p.authenticator)

  challenge : Bytes → Packet → Result Bytes
  unfolding first_item
  challenge authenticator p =
      if contains_name p (codes "CHAP-Challenge")
      then (do item ← get_item x p (codes "CHAP-Challenge"); first_item item)
      else ok authenticator

  check_chap : Bytes → Bytes → Bytes → Packet → Result Bool
  unfolding challenge
  check_chap pwd authenticator [] p = ok false
  check_chap pwd authenticator (ident ∷ password) p =
      if not (length password == 16) then ok false else (do
        chapid ← or_raise unicode_error (encode_char ident)
        c ← challenge authenticator p
        ok (text_eq password (x.md5 (chapid ++ (pwd ++ c)))))

  -- `verify_chap_passwd`; `random` is what `create_authenticator` returns
  unfoldable pub verify_chap_passwd : Bytes → Value → Packet → Result Bool × Packet
  unfolding raw_values first password_bytes chap_authenticator check_chap
  verify_chap_passwd random userpwd p =
      let a = chap_authenticator random p.authenticator in
      let q : Packet = record p { authenticator = some a } in
      (
        (do
          pwd ← password_bytes userpwd
          vs ← raw_values (lookup (code (pos 3)) p.attrs)
          chap ← first vs
          check_chap pwd a chap q),
        q,
      )
