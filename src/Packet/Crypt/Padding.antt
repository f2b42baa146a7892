-- ===== src/Packet/Crypt/Padding.antt =====
-- The NUL bytes that `pw_crypt` of pyrad/packet.py adds to a password, and `pw_decrypt` removes.
use pyrad.Common.{
  ℕ, zero, suc, ◌+◌, ◌-◌, ◌*◌, ◌/◌, ◌%◌, ◌≡◌, refl, sym, ap, ◌∙◌, [], ◌∷◌, ◌++◌, Bytes, length,
  length-append, replicate, length-replicate, arith, ◌==◌, All, IsByte, All-append, inl, inr,
  Bool-cases, All-replicate, append-nil, append_assoc,
}
use mathlib.Core.List.{reverse-append}
use pyrad.Packet.Crypt.{pad16, rstrip_nul, lstrip_nul}

-- the number of blocks of a password
abbrev pub blocks : Bytes → ℕ
blocks b = (length b + 15) / 16

pub length-pad16 : (b : Bytes) → length (pad16 b) ≡ 16 * blocks b
unfolding pad16
length-pad16 b = ground (
  arith,
  length-append b (replicate (16 - length b % 16) 0),
  length-replicate {A = ℕ} (16 - length b % 16) 0,
)

pub pad16-IsByte : (b : Bytes) → All IsByte b → All IsByte (pad16 b)
unfolding pad16
pad16-IsByte b h = elim (Bool-cases (length b % 16 == 0)) [
  | inl whole ↦ rw whole h
  | inr partial ↦
      rw partial
        (All-append IsByte b _ h (All-replicate IsByte (16 - length b % 16) 0 (omega arith)))
]

rstrip_nul-snoc : (b : Bytes) → rstrip_nul (b ++ 0 ∷ []) ≡ rstrip_nul b
unfolding rstrip_nul lstrip_nul
rstrip_nul-snoc b = rw (reverse-append b (0 ∷ [])) refl

rstrip_nul-zeros : (n : ℕ) (b : Bytes) → rstrip_nul (b ++ replicate n 0) ≡ rstrip_nul b
rstrip_nul-zeros zero b = ap rstrip_nul (append-nil b)
rstrip_nul-zeros (suc n) b =
    ap rstrip_nul (sym (append_assoc b (0 ∷ []) (replicate n 0)))
    ∙ (rstrip_nul-zeros n (b ++ 0 ∷ []) ∙ rstrip_nul-snoc b)

pub rstrip_nul-pad16 : (b : Bytes) → rstrip_nul (pad16 b) ≡ rstrip_nul b
unfolding pad16
rstrip_nul-pad16 b = elim (Bool-cases (length b % 16 == 0)) [
  | inl whole ↦ rw whole refl
  | inr partial ↦ rw partial (rstrip_nul-zeros (16 - length b % 16) b)
]
