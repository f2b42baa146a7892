-- ===== src/Packet/Crypt.antt =====
-- The obfuscation of passwords in pyrad/packet.py: `radius_password_pseudo_hash`, `pw_crypt`,
-- `pw_decrypt` and `salt_crypt`.
pub mod Xor
pub mod Padding
pub mod Passwords
pub mod LongPasswords
use Prim.Native.Nat.{bit_xor}
use pyrad.Common.{
  ℕ, zero, suc, ◌+◌, ◌-◌, ◌%◌, Bool, true, false, Option, none, some, List, [], ◌∷◌, ◌++◌, Bytes,
  Text, length, take, drop, replicate, ltb, ◌==◌, if◌then◌else◌,
}
use mathlib.Core.List.{reverse}
use pyrad.Common.Int.{ℤ, pos}
use pyrad.Common.Struct.{pack_uint, be}
use pyrad.Common.Utf8.{utf8_encode, utf8_decode}
use pyrad.Common.Result.{Result, ok, raise, stuck, ◌>>=◌, type_error, unicode_error, or_raise}
use pyrad.Common.Exec.{Exec}
use pyrad.Externals.{Externals}
use pyrad.Encoding.{Value, int, str, bytes}
use pyrad.Packet.State.{Packet}

-- `for b, h in zip(buf, cur_hash): result += bytes([b ^ h])`
unfoldable pub xor_bytes : Bytes → Bytes → Bytes
xor_bytes [] hs = []
xor_bytes (b ∷ bs) [] = []
xor_bytes (b ∷ bs) (h ∷ hs) = bit_xor b h ∷ xor_bytes bs hs

-- `buf += b'\x00' * (16 - len(buf) % 16)`, if the length is no multiple of 16
unfoldable pub pad16 : Bytes → Bytes
pad16 buf = if length buf % 16 == 0 then buf else buf ++ replicate (16 - length buf % 16) 0

lstrip_nul : Bytes → Bytes
lstrip_nul [] = []
lstrip_nul (b ∷ bs) = if b == 0 then lstrip_nul bs else b ∷ bs

-- `rstrip(b'\x00')`
unfoldable pub rstrip_nul : Bytes → Bytes
unfolding lstrip_nul
rstrip_nul bs = reverse (lstrip_nul (reverse bs))

-- `result[-16:]`
abbrev pub last16 : Bytes → Bytes
last16 bs = drop (length bs - 16) bs

-- the bytes of a str or bytes argument
unfoldable pub bytes_of : Value → Result Bytes
bytes_of (int n) = raise type_error
bytes_of (str s) = or_raise unicode_error (utf8_encode s)
bytes_of (bytes b) = ok b

module _ (x : Externals) where
  -- The loop: each round takes up to 16 bytes of `buf`, so its length is fuel enough.
  unfoldable pub hash_loop : ℕ → Bytes → Bytes → Bytes → Result Bytes
  hash_loop fuel secret last [] = ok []
  hash_loop zero secret last (b ∷ bs) = stuck
  hash_loop (suc fuel) secret last (b ∷ bs) = do
    rest ← hash_loop fuel secret (take 16 (b ∷ bs)) (drop 16 (b ∷ bs))
    ok (xor_bytes (b ∷ bs) (x.md5 (secret ++ last)) ++ rest)

  -- With nothing to hash the authenticator is not touched, so it may be missing.
  pub pseudo_hash : Bytes → Option Bytes → Bytes → Result Bytes
  pseudo_hash secret auth [] = ok []
  pseudo_hash secret none (b ∷ bs) = raise type_error
  pseudo_hash secret (some last) (b ∷ bs) = hash_loop (length (b ∷ bs)) secret last (b ∷ bs)

  unfoldable pub radius_password_pseudo_hash : Packet → Bytes → Result Bytes
  unfolding pseudo_hash
  radius_password_pseudo_hash p password = pseudo_hash p.secret p.authenticator password

  -- `if self.authenticator is None: self.authenticator = self.create_authenticator()`, with the
  -- sixteen random bytes as an argument
  unfoldable pub ensure_authenticator : Bytes → Packet → Packet
  ensure_authenticator random p = elim p.authenticator [
    | none ↦ record p { authenticator = some random }
    | some _ ↦ p
  ]

  unfoldable pub pw_crypt : Bytes → Value → Exec Packet Bytes
  pw_crypt random password p =
      let q = ensure_authenticator random p in
      ((do buf ← bytes_of password; radius_password_pseudo_hash q (pad16 buf)), q)

  unfoldable pub pw_decrypt : Packet → Bytes → Result Text
  pw_decrypt p password = do
    pw ← radius_password_pseudo_hash p password
    or_raise unicode_error (utf8_decode (rstrip_nul pw))

  unfoldable pub salt_loop : ℕ → Bytes → Bytes → Bytes → Bytes → Result Bytes
  salt_loop fuel secret last [] result = ok result
  salt_loop zero secret last (b ∷ bs) result = stuck
  salt_loop (suc fuel) secret last (b ∷ bs) result =
      let more : Bytes = result ++ xor_bytes (b ∷ bs) (x.md5 (secret ++ last)) in
      salt_loop fuel secret (last16 more) (drop 16 (b ∷ bs)) more

  -- a packet without an authenticator gets one of zeros
  unfoldable pub zero_authenticator : Packet → Bytes
  zero_authenticator p = elim p.authenticator [ none ↦ replicate 16 0 | some a ↦ a ]

  pub salt_bytes : ℕ → Bytes → Bytes → Bytes → Result Bytes
  salt_bytes draw secret auth value = do
    salt ← pack_uint 2 (pos (32768 + draw))
    len ← pack_uint 1 (pos (length value))
    let buf = pad16 (len ++ value)
    salt_loop (length buf) secret (auth ++ salt) buf salt

  unfoldable pub salt_value : ℕ → Bytes → Exec Packet Bytes
  salt_value draw v p =
      let auth = zero_authenticator p in
      (salt_bytes draw p.secret auth v, record p { authenticator = some auth })

  -- `draw` is the number that `random_generator.randrange(0, 32767)` returns. A text that has no
  -- UTF-8 form raises before the authenticator is set, a number after it.
  unfoldable pub salt_crypt : ℕ → Value → Exec Packet Bytes
  unfolding zero_authenticator salt_bytes salt_value
  salt_crypt draw (bytes b) p = salt_value draw b p
  salt_crypt draw (str s) p = elim (utf8_encode s) [
    | none ↦ (raise unicode_error, p)
    | some b ↦ salt_value draw b p
  ]
  salt_crypt draw (int n) p =
      (raise type_error, record p { authenticator = some (zero_authenticator p) })
