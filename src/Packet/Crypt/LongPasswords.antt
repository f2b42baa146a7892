-- ===== src/Packet/Crypt/LongPasswords.antt =====
-- `pw_crypt` of pyrad/packet.py on passwords of more than sixteen bytes.
use pyrad.Common.{
  append-nil, take-append, ℕ, suc, ◌≤◌, ◌<◌, ◌≡◌, ◌≢◌, refl, sym, ap, ◌∙◌, some, [], ◌∷◌, ◌++◌,
  Bytes, Text, length, length-take, length-drop, take, drop, drop-append, take-append-drop, All,
  IsByte, All-drop, arith,
}
use pyrad.Common.Result.{ok}
use pyrad.Common.Utf8.{utf8_encode}
use pyrad.Externals.{Externals}
use pyrad.Encoding.{str}
use pyrad.Packet.State.{Packet}
use pyrad.Packet.Crypt.{
  xor_bytes, pad16, hash_loop, radius_password_pseudo_hash, pw_crypt, ensure_authenticator,
  bytes_of,
}
use pyrad.Packet.Crypt.Xor.{xor_bytes_injective, length-xor_bytes}
use pyrad.Packet.Crypt.Padding.{blocks, length-pad16, pad16-IsByte}
use pyrad.Packet.Crypt.Passwords.{hide, hash_loop-append, pseudo_hash-some}

module _ (x : Externals) where
  last_block :
      (f : ℕ) (secret last two : Bytes)
      → length two ≡ 16
      → hash_loop x (suc (suc f)) secret last two ≡ ok (xor_bytes two (x.md5 (secret ++ last)))
  unfolding hash_loop
  last_block f secret last two k =
      ap (hash_loop x (suc (suc f)) secret last) (sym (append-nil two))
      ∙ (hash_loop-append x (suc f) secret last two [] k ∙ ap ok (append-nil _))

  -- The loop on two blocks: the second is hidden with the first as it was, not as it is hidden.
  hash_loop_two :
      (f : ℕ) (secret last one two : Bytes)
      → length one ≡ 16
      → length two ≡ 16
      → hash_loop x (suc (suc (suc f))) secret last (one ++ two)
        ≡ ok (xor_bytes one (x.md5 (secret ++ last)) ++ xor_bytes two (x.md5 (secret ++ one)))
  hash_loop_two f secret last one two h k =
      hash_loop-append x (suc (suc f)) secret last one two h
      ∙ rw (last_block f secret one two k) refl

  hide-append :
      (n : ℕ) (secret last one rest : Bytes)
      → length one ≡ 16
      → hide x (suc n) secret last (one ++ rest)
        ≡ xor_bytes one (x.md5 (secret ++ last))
          ++ hide x n secret (xor_bytes one (x.md5 (secret ++ last))) rest
  unfolding hide
  hide-append n secret last [] rest h = absurd (omega arith)
  hide-append n secret last (b ∷ one) rest h =
      rw (take-append 16 (b ∷ one) rest h, drop-append 16 (b ∷ one) rest h) refl

  hide_two :
      (secret last one two : Bytes)
      → length one ≡ 16
      → length two ≡ 16
      → hide x 2 secret last (one ++ two)
        ≡ xor_bytes one (x.md5 (secret ++ last))
          ++ xor_bytes two (x.md5 (secret ++ xor_bytes one (x.md5 (secret ++ last))))
  unfolding hide
  hide_two secret last one two h k =
      let cipher : Bytes = xor_bytes one (x.md5 (secret ++ last)) in
      hide-append 1 secret last one two h
      ∙ ap (λ (r : Bytes). cipher ++ r)
          (ap (hide x 1 secret cipher) (sym (append-nil two))
            ∙ (hide-append 0 secret cipher two [] k ∙ append-nil _))

  -- The two agree only if MD5 does not tell the first block from its hidden form.
  two_blocks_differ :
      (f : ℕ) (secret last one two : Bytes)
      → length one ≡ 16
      → length two ≡ 16
      → All IsByte two
      → x.md5 (secret ++ one) ≢ x.md5 (secret ++ xor_bytes one (x.md5 (secret ++ last)))
      → hash_loop x (suc (suc (suc f))) secret last (one ++ two)
        ≢ ok (hide x 2 secret last (one ++ two))
  two_blocks_differ f secret last one two h k u ne e =
      let digest : Bytes = x.md5 (secret ++ last) in
      let cipher : Bytes = xor_bytes one digest in
      let len : length cipher ≡ 16 =
        length-xor_bytes one digest (omega (arith, h, x.length-md5 (secret ++ last))) ∙ h in
      let plain : Bytes = xor_bytes two (x.md5 (secret ++ one)) in
      let hidden : Bytes = xor_bytes two (x.md5 (secret ++ cipher)) in
      let both : ok (cipher ++ plain) ≡ ok (cipher ++ hidden) =
        sym (hash_loop_two f secret last one two h k)
        ∙ (e ∙ ap ok (hide_two secret last one two h k)) in
      let whole : cipher ++ plain ≡ cipher ++ hidden = cc both in
      let second : plain ≡ hidden =
        sym (drop-append 16 cipher plain len)
        ∙ (ap (drop 16) whole ∙ drop-append 16 cipher hidden len) in
      ne (
        xor_bytes_injective two (x.md5 (secret ++ one)) (x.md5 (secret ++ cipher))
          (k ∙ sym (x.length-md5 _)) (k ∙ sym (x.length-md5 _)) u (x.md5-IsByte _) (x.md5-IsByte _)
          second)

  -- A password of 17 to 32 bytes, padded to two blocks p1 and p2, under the secret S and the request
  -- authenticator RA: `pw_crypt` succeeds with p1 xor MD5(S + RA) and p2 xor MD5(S + p1), where the
  -- second digest is of the first block of plain text. That is not the hiding of RFC 2865, if the
  -- digests of S with p1 and of S with the hidden form of p1 differ.
  pub pw_crypt_long :
      (random : Bytes) (p : Packet) (secret auth : Bytes) (s : Text) (b : Bytes)
      → (ensure_authenticator x random p).authenticator ≡ some auth
      → (ensure_authenticator x random p).secret ≡ secret
      → utf8_encode s ≡ some b
      → All IsByte b
      → 16 < length b
      → length b ≤ 32
      → x.md5 (secret ++ take 16 (pad16 b))
        ≢ x.md5 (secret ++ xor_bytes (take 16 (pad16 b)) (x.md5 (secret ++ auth)))
      → (pw_crypt x random (str s) p ≡ (
        ok (
            xor_bytes (take 16 (pad16 b)) (x.md5 (secret ++ auth))
            ++ xor_bytes (drop 16 (pad16 b)) (x.md5 (secret ++ take 16 (pad16 b)))),
        ensure_authenticator x random p,
      ))
        × (xor_bytes (take 16 (pad16 b)) (x.md5 (secret ++ auth))
              ++ xor_bytes (drop 16 (pad16 b)) (x.md5 (secret ++ take 16 (pad16 b)))
            ≢ hide x (blocks b) secret auth (pad16 b))
  unfolding pw_crypt bytes_of radius_password_pseudo_hash
  pw_crypt_long random p secret auth s b ha hp hs u long short ne =
      let buf : Bytes = pad16 b in
      let one : Bytes = take 16 buf in
      let two : Bytes = drop 16 buf in
      let count : blocks b ≡ 2 = omega arith in
      let len : length buf ≡ 32 = omega (arith, length-pad16 b, count) in
      let h : length one ≡ 16 = omega (arith, length-take 16 buf) in
      let k : length two ≡ 16 = omega (arith, length-drop 16 buf) in
      let plain : Bytes =
        xor_bytes one (x.md5 (secret ++ auth)) ++ xor_bytes two (x.md5 (secret ++ one)) in
      let looped : hash_loop x 32 secret auth buf ≡ ok plain =
        ap (hash_loop x 32 secret auth) (sym (take-append-drop 16 buf))
        ∙ hash_loop_two 29 secret auth one two h k in
      let differ : hash_loop x 32 secret auth (one ++ two)
          ≢ ok (hide x 2 secret auth (one ++ two)) =
        two_blocks_differ 29 secret auth one two h k (All-drop IsByte 16 buf (pad16-IsByte b u))
          ne in
      (
        rw (hs, ha, hp, pseudo_hash-some x secret auth buf, len, looped) refl,
        λ same. differ (
            hash_loop_two 29 secret auth one two h k
            ∙ ap ok (same ∙ rw (count, take-append-drop 16 buf) refl)),
      )
