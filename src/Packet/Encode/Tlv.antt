-- ===== src/Packet/Encode/Tlv.antt =====
-- What `_pkt_encode_tlv` of pyrad/packet.py writes: the sub-attributes in rows, the first value of each
-- code, then the second of each, and so on, packed into groups.
pub mod Written
use pyrad.Common.{
  ℕ, zero, suc, ◌+◌, ◌≤◌, ◌≡◌, refl, sym, ◌∙◌, ap, Bool, true, false, none, some, List, [], ◌∷◌,
  ◌++◌, append_assoc, append-nil, Bytes, length, ltb, get_elem?, if◌then◌else◌, Bool-cases,
  Option-cases, inl, inr, arith,
}
use mathlib.Core.Path.{subst}
use pyrad.Common.Int.{ℤ}
use pyrad.Common.Result.{
  Result, ok, raise, stuck, ◌>>=◌, >>=-eq-ok, key_error, or_raise, or_raise-eq-ok,
}
use pyrad.Common.Dict.{Dict}
use pyrad.Dictionary.{attribute_for}
use pyrad.Dictionary.Types.{Dictionary, Attribute, Key}
use pyrad.Packet.Encode.{
  encode_avp, longest_from, longest, encode_subs_at, group_subs, concat_avps, join, encode_tlv_of,
  pkt_encode_tlv,
}

abbrev pub Subs : Type 0
Subs = Dict ℤ (List Bytes)

-- Every code has a value.
abbrev pub HaveValues : Subs → Type 0
HaveValues [] = Unit
HaveValues ((c, []) ∷ d) = ⊥
HaveValues ((c, v ∷ vs) ∷ d) = HaveValues d

-- No code has more than `n` values.
abbrev pub AreShort : ℕ → Subs → Type 0
AreShort n [] = Unit
AreShort n ((c, vs) ∷ d) = (length vs ≤ n) × AreShort n d

-- The values with number `i`.
unfoldable pub row : ℕ → Subs → List (ℤ × Bytes)
row i [] = []
row i ((c, vs) ∷ d) = elim (get_elem? vs i) [ none ↦ row i d | some v ↦ (c, v) ∷ row i d ]

-- The values with the numbers from `i`, `n` numbers in all.
unfoldable pub rows : ℕ → ℕ → Subs → List (ℤ × Bytes)
unfolding row
rows zero i d = []
rows (suc n) i d = row i d ++ rows n (i + 1) d

-- The bytes of sub-attributes.
unfoldable pub encode_pairs : List (ℤ × Bytes) → Result Bytes
encode_pairs [] = ok []
encode_pairs ((c, v) ∷ l) = do avp ← encode_avp c v; rest ← encode_pairs l; ok (avp ++ rest)

encode_subs_at-row : (i : ℕ) (d : Subs) → encode_subs_at i d ≡ encode_pairs (row i d)
unfolding encode_subs_at row encode_pairs
encode_subs_at-row i [] = refl
encode_subs_at-row i ((c, vs) ∷ d) = elim (Option-cases (get_elem? vs i)) [
  | inl over ↦ rw (encode_subs_at, row, over) (encode_subs_at-row i d)
  | inr (v, there) ↦ rw (encode_subs_at, row, there, encode_subs_at-row i d) refl
]

encode_pairs-append :
    (l m : List (ℤ × Bytes)) (a b : Bytes)
    → encode_pairs l ≡ ok a
    → encode_pairs m ≡ ok b
    → encode_pairs (l ++ m) ≡ ok (a ++ b)
unfolding encode_pairs
encode_pairs-append [] m a b hl hm = let e : [] ≡ a = cc hl in rw (← e, hm) refl
encode_pairs-append ((c, v) ∷ l) m a b hl hm =
    let (avp, e, h) = >>=-eq-ok (encode_avp c v) _ hl in
    let (rest, e', h') = >>=-eq-ok (encode_pairs l) _ h in
    let ea : avp ++ rest ≡ a = cc h' in
    rw (e, encode_pairs-append l m rest b e' hm, ← ea, append_assoc avp rest b) refl

-- Sub-attributes that were packed into groups, in their order.
AreGrouped : List (ℤ × Bytes) → List Bytes → Type 0
AreGrouped l [] = l ≡ []
AreGrouped l (group ∷ groups) =
    (m : List (ℤ × Bytes)) × (rest : List (ℤ × Bytes)) × (l ≡ m ++ rest)
    × (encode_pairs m ≡ ok group)
    × AreGrouped rest groups

AreGrouped-snoc :
    (l m : List (ℤ × Bytes)) (groups : List Bytes) (group : Bytes)
    → AreGrouped l groups
    → encode_pairs m ≡ ok group
    → AreGrouped (l ++ m) (groups ++ group ∷ [])
unfolding AreGrouped
AreGrouped-snoc l m [] group h e = (m, [], rw (h, append-nil m), e, refl)
AreGrouped-snoc l m (g ∷ groups) group (k, rest, h, e', h') e =
    (k, rest ++ m, rw (h, append_assoc k rest m), e', AreGrouped-snoc rest m groups group h' e)

-- The loop puts all rows into groups, behind those that are there.
group_subs-AreGrouped :
    (n i : ℕ) (d : Subs) (l m : List (ℤ × Bytes)) (curr : Bytes) (avps out : List Bytes)
    → AreGrouped l avps
    → encode_pairs m ≡ ok curr
    → group_subs n i d curr avps ≡ ok out
    → AreGrouped (l ++ (m ++ rows n i d)) out
unfolding group_subs rows
group_subs-AreGrouped zero i d l m curr avps out hl hm h =
    let e : avps ++ curr ∷ [] ≡ out = cc h in
    rw (← e, append-nil m) (AreGrouped-snoc l m avps curr hl hm)
group_subs-AreGrouped (suc n) i d l m curr avps out hl hm h =
    let (enc, e, h') = >>=-eq-ok (encode_subs_at i d) _ h in
    let packed : encode_pairs (row i d) ≡ ok enc = sym (encode_subs_at-row i d) ∙ e in
    elim (Bool-cases (ltb (length enc + length curr) 245)) [
      | inl fits ↦ rw (← append_assoc m (row i d) (rows n (i + 1) d)) (
          group_subs-AreGrouped n (i + 1) d l (m ++ row i d) (curr ++ enc) avps out hl
            (encode_pairs-append m (row i d) curr enc hm packed) (rw fits at h'))
      | inr full ↦ rw (← append_assoc l m (row i d ++ rows n (i + 1) d)) (
          group_subs-AreGrouped n (i + 1) d (l ++ m) (row i d) enc (avps ++ curr ∷ []) out
            (AreGrouped-snoc l m avps curr hl hm) packed (rw full at h'))
    ]

AreShort-trans : (n m : ℕ) (d : Subs) → n ≤ m → AreShort n d → AreShort m d
AreShort-trans n m [] le h = tt
AreShort-trans n m ((c, vs) ∷ d) le (here, h) = (omega (arith, le, here), AreShort-trans n m d le h)

longest_from-le : (m : ℕ) (d : Subs) → m ≤ longest_from m d
unfolding longest_from
longest_from-le m [] = omega arith
longest_from-le m ((c, vs) ∷ d) = ground (arith, longest_from-le (length vs) d, longest_from-le m d)

longest_from-AreShort : (d : Subs) (m : ℕ) → AreShort (longest_from m d) d
unfolding longest_from
longest_from-AreShort [] m = tt
longest_from-AreShort ((c, vs) ∷ d) m =
    (ground (arith, longest_from-le (length vs) d, longest_from-le m d), longest_from-AreShort d _)

pub longest-AreShort : (n : ℕ) (d : Subs) → longest d ≡ ok n → AreShort n d
unfolding longest
longest-AreShort n [] h = tt
longest-AreShort n ((c, vs) ∷ d) h =
    subst (λ k. AreShort k ((c, vs) ∷ d)) (cc h)
      (longest_from-le (length vs) d, longest_from-AreShort d (length vs))
