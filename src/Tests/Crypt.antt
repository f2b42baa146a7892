-- ===== src/Tests/Crypt.antt =====
-- A hidden password.
use pyrad.Common.{◌≡◌, refl, some, replicate, Bytes, codes, All, IsByte, arith}
use pyrad.Common.Result.{ok}
use pyrad.Common.Utf8.{utf8_encode, encode_char}
use pyrad.Externals.{constant_digests}
use pyrad.Encoding.{str}
use pyrad.Packet.State.{Packet}
use pyrad.Packet.Crypt.{pad16, rstrip_nul, pw_crypt, pw_decrypt, ensure_authenticator}
use pyrad.Packet.Crypt.Padding.{blocks}
use pyrad.Packet.Crypt.Passwords.{hide, pw_decrypt-hide}
use pyrad.Common.{ℕ, [], ◌∷◌, ap, ◌≢◌, ◌++◌, take, drop}
use pyrad.Packet.Crypt.{xor_bytes}
use pyrad.Packet.Crypt.LongPasswords.{pw_crypt_long}
use pyrad.Tests.Data

encoded : utf8_encode (codes "sesame") ≡ some (codes "sesame")
unfolding utf8_encode encode_char
encoded = refl

are_bytes : All IsByte (codes "sesame")
are_bytes = ground arith

no_nul : rstrip_nul (codes "sesame") ≡ codes "sesame"
unfolding rstrip_nul
no_nul = refl

pw_decrypt-hide_example :
    pw_decrypt constant_digests Data.access_request (
      hide constant_digests
        (blocks (codes "sesame"))
        (codes "secret")
        (replicate 16 3)
        (pad16 (codes "sesame")))
    ≡ ok (codes "sesame")
pw_decrypt-hide_example =
    pw_decrypt-hide constant_digests Data.access_request (replicate 16 3) (codes "sesame")
      (codes "sesame") refl encoded are_bytes no_nul

abbrev long : Bytes
long = codes "a long password, "

long_encoded : utf8_encode long ≡ some long
unfolding utf8_encode encode_char
long_encoded = refl

long_authenticator_set :
    (ensure_authenticator Data.summing_digests (replicate 16 1) Data.access_request).authenticator
    ≡ some (replicate 16 3)
unfolding ensure_authenticator
long_authenticator_set = refl

long_secret :
    (ensure_authenticator Data.summing_digests (replicate 16 1) Data.access_request).secret
    ≡ codes "secret"
unfolding ensure_authenticator
long_secret = refl

long_are_bytes : All IsByte long
long_are_bytes = ground arith

abbrev first : Bytes → ℕ
first [] = 0
first (b ∷ bs) = b

digests_differ :
    Data.summing_digests.md5 (codes "secret" ++ take 16 (pad16 long))
    ≢ Data.summing_digests.md5 (
        codes "secret"
        ++ xor_bytes
            (take 16 (pad16 long))
            (Data.summing_digests.md5 (codes "secret" ++ replicate 16 3)))
unfolding pad16 xor_bytes
digests_differ h = omega (arith, ap first h)

pw_crypt_long_example :
    (pw_crypt Data.summing_digests (replicate 16 1) (str long) Data.access_request ≡ (
      ok (
          xor_bytes
            (take 16 (pad16 long))
            (Data.summing_digests.md5 (codes "secret" ++ replicate 16 3))
          ++ xor_bytes
              (drop 16 (pad16 long))
              (Data.summing_digests.md5 (codes "secret" ++ take 16 (pad16 long)))),
      ensure_authenticator Data.summing_digests (replicate 16 1) Data.access_request,
    ))
    × ((xor_bytes
            (take 16 (pad16 long))
            (Data.summing_digests.md5 (codes "secret" ++ replicate 16 3))
          ++ xor_bytes
              (drop 16 (pad16 long))
              (Data.summing_digests.md5 (codes "secret" ++ take 16 (pad16 long))))
        ≢ hide Data.summing_digests (blocks long) (codes "secret") (replicate 16 3) (pad16 long))
pw_crypt_long_example =
    pw_crypt_long Data.summing_digests (replicate 16 1) Data.access_request (codes "secret")
      (replicate 16 3) long long long_authenticator_set long_secret long_encoded long_are_bytes
      (omega arith) (omega arith) digests_differ
