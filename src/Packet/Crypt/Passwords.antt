-- ===== src/Packet/Crypt/Passwords.antt =====
-- `pw_crypt` and `pw_decrypt` of pyrad/packet.py against the hiding of passwords that RFC 2865
-- describes in section 5.2.
use Prim.Native.Nat.{bit_xor}
use pyrad.Common.{
  ℕ, zero, suc, ◌*◌, ◌≤◌, ◌≡◌, refl, sym, ap, ◌∙◌, some, [], ◌∷◌, ◌++◌, Bytes, Text, length,
  length-append, length-take, length-drop, take, drop, take-append, drop-append, take-append-drop,
  take_of_length-le, arith, All, IsByte, All-take, All-drop,
}
use pyrad.Common.Result.{ok, ◌>>=◌}
use pyrad.Common.Utf8.{utf8_encode, utf8_decode-utf8_encode}
use pyrad.Externals.{Externals}
use pyrad.Packet.State.{Packet}
use pyrad.Packet.Crypt.{
  xor_bytes, pad16, rstrip_nul, hash_loop, radius_password_pseudo_hash, pw_decrypt, pseudo_hash,
}
use pyrad.Packet.Crypt.Padding.{blocks, length-pad16, pad16-IsByte, rstrip_nul-pad16}
use pyrad.Packet.Crypt.Xor.{xor_bytes_twice, length-xor_bytes}

module _ (x : Externals) where
  -- The hiding of the RFC: b1 = MD5(S + RA), c1 = p1 xor b1, b2 = MD5(S + c1), c2 = p2 xor b2, and so
  -- on: each block after the first is hidden with the block of cipher text before it.
  unfoldable pub hide : ℕ → Bytes → Bytes → Bytes → Bytes
  hide blocks secret last [] = []
  hide zero secret last (b ∷ bs) = []
  hide (suc blocks) secret last (b ∷ bs) =
      let cipher : Bytes = xor_bytes (take 16 (b ∷ bs)) (x.md5 (secret ++ last)) in
      cipher ++ hide blocks secret cipher (drop 16 (b ∷ bs))

  -- One round of the loop; `zip` stops at the sixteen bytes of the digest.
  xor_bytes-take :
      (n : ℕ) (bs hs : Bytes) → length hs ≡ n → xor_bytes bs hs ≡ xor_bytes (take n bs) hs
  unfolding xor_bytes
  xor_bytes-take n [] hs h =
      ap (λ (c : Bytes). xor_bytes c hs) (sym (take_of_length-le n [] (omega arith)))
  xor_bytes-take zero (b ∷ bs) [] h = refl
  xor_bytes-take zero (b ∷ bs) (k ∷ hs) h = absurd (omega arith)
  xor_bytes-take (suc n) (b ∷ bs) [] h = absurd (omega arith)
  xor_bytes-take (suc n) (b ∷ bs) (k ∷ hs) h =
      ap (λ (c : Bytes). bit_xor b k ∷ c) (xor_bytes-take n bs hs (omega arith))

  pub hash_loop-append :
      (f : ℕ) (secret last c rest : Bytes)
      → length c ≡ 16
      → hash_loop x (suc f) secret last (c ++ rest)
        ≡ (hash_loop x f secret c rest >>= λ r. ok (xor_bytes c (x.md5 (secret ++ last)) ++ r))
  unfolding hash_loop
  hash_loop-append f secret last [] rest h = absurd (omega arith)
  hash_loop-append f secret last (b ∷ c) rest h = rw (
    xor_bytes-take 16 (b ∷ c ++ rest) (x.md5 (secret ++ last)) (x.length-md5 _),
    take-append 16 (b ∷ c) rest h,
    drop-append 16 (b ∷ c) rest h,
  )

  reveal-hide :
      (k f : ℕ) (secret last bs : Bytes)
      → k ≤ f
      → length bs ≡ 16 * k
      → All IsByte bs
      → hash_loop x f secret last (hide k secret last bs) ≡ ok bs
  unfolding hide
  reveal-hide zero f secret last [] le h u = unfold hash_loop in refl
  reveal-hide zero f secret last (b ∷ bs) le h u = absurd (omega arith)
  reveal-hide (suc k) f secret last [] le h u = absurd (omega arith)
  reveal-hide (suc k) zero secret last (b ∷ bs) le h u = absurd (omega arith)
  reveal-hide (suc k) (suc f) secret last (b ∷ bs) le h u =
      let block : Bytes = take 16 (b ∷ bs) in
      let digest : Bytes = x.md5 (secret ++ last) in
      let len : length block ≡ 16 = omega (arith, length-take 16 (b ∷ bs)) in
      let fits : length block ≤ length digest = omega (arith, len, x.length-md5 (secret ++ last)) in
      let cipher : Bytes = xor_bytes block digest in
      hash_loop-append f secret last cipher _ (length-xor_bytes block digest fits ∙ len)
      ∙ rw
          (
            reveal-hide k f secret cipher (drop 16 (b ∷ bs)) (omega arith)
                (omega (arith, length-drop 16 (b ∷ bs))) (All-drop IsByte 16 (b ∷ bs) u),
            xor_bytes_twice block digest fits (All-take IsByte 16 (b ∷ bs) u)
                (x.md5-IsByte (secret ++ last)),
          )
          (ap ok (take-append-drop 16 (b ∷ bs)))

  pub pseudo_hash-some :
      (secret last bs : Bytes)
      → pseudo_hash x secret (some last) bs ≡ hash_loop x (length bs) secret last bs
  unfolding pseudo_hash hash_loop
  pseudo_hash-some secret last [] = refl
  pseudo_hash-some secret last (b ∷ bs) = refl

  length-hide :
      (k : ℕ) (secret last bs : Bytes)
      → length bs ≡ 16 * k
      → length (hide k secret last bs) ≡ 16 * k
  unfolding hide
  length-hide zero secret last [] h = refl
  length-hide zero secret last (b ∷ bs) h = absurd (omega arith)
  length-hide (suc k) secret last [] h = absurd (omega arith)
  length-hide (suc k) secret last (b ∷ bs) h =
      let digest : Bytes = x.md5 (secret ++ last) in
      let cipher : Bytes = xor_bytes (take 16 (b ∷ bs)) digest in
      let rest : Bytes = drop 16 (b ∷ bs) in
      omega (
        arith,
        length-append cipher (hide k secret cipher rest),
        length-hide k secret cipher rest (omega (arith, length-drop 16 (b ∷ bs))),
        length-xor_bytes (take 16 (b ∷ bs)) digest
            (omega (arith, length-take 16 (b ∷ bs), x.length-md5 (secret ++ last))),
        length-take 16 (b ∷ bs),
      )

module _ (x : Externals) where
  -- What the password hiding of RFC 2865, section 5.2, makes of a password of any length,
  -- `pw_decrypt` of a packet with that secret and authenticator turns back; the password may not
  -- end with a NUL.
  pub pw_decrypt-hide :
      (p : Packet) (auth : Bytes) (s : Text) (b : Bytes)
      → p.authenticator ≡ some auth
      → utf8_encode s ≡ some b
      → All IsByte b
      → rstrip_nul b ≡ b
      → pw_decrypt x p (hide x (blocks b) p.secret auth (pad16 b)) ≡ ok s
  unfolding pw_decrypt radius_password_pseudo_hash
  pw_decrypt-hide p auth s b ha hs hb hn =
      let len = length-hide x (blocks b) p.secret auth (pad16 b) (length-pad16 b) in
      rw
        (
          ha,
          pseudo_hash-some x p.secret auth (hide x (blocks b) p.secret auth (pad16 b)),
          reveal-hide x (blocks b) (length (hide x (blocks b) p.secret auth (pad16 b))) p.secret
              auth (pad16 b) (omega (arith, len)) (length-pad16 b) (pad16-IsByte b hb),
          rstrip_nul-pad16 b,
          hn,
          utf8_decode-utf8_encode s b hs,
        )
        refl
