-- ===== src/Dictionary/Parse/Heap.antt =====
-- The heap of Attribute objects: new objects, and writes through references.
use pyrad.Common.{
  ℕ, zero, suc, ◌≡◌, refl, ap, ◌∙◌, true, Option, none, some, List, [], ◌∷◌, ◌++◌, Text, length,
  get_elem?, ◌==◌, ==_iff, if◌then◌else◌, arith, Bool-cases, inl, inr,
}
use mathlib.Core.Option
use pyrad.Dictionary.Types.{Attribute}
use pyrad.Dictionary.{is_tlv_type}
use pyrad.Dictionary.Parse.{update_at}

pub get_elem?-append_one :
    (h : List Attribute) (a : Attribute) (j : ℕ)
    → get_elem? (h ++ a ∷ []) j ≡ (if j == length h then some a else get_elem? h j)
get_elem?-append_one [] a zero = refl
get_elem?-append_one [] a (suc j) = ground arith
get_elem?-append_one (b ∷ h) a zero = ground arith
get_elem?-append_one (b ∷ h) a (suc j) = ground (arith, get_elem?-append_one h a j)

pub get_elem?-update_at :
    (i : ℕ) (f : Attribute → Attribute) (h : List Attribute) (j : ℕ)
    → get_elem? (update_at i f h) j
      ≡ (if i == j then Option.map f (get_elem? h j) else get_elem? h j)
unfolding update_at
get_elem?-update_at i f [] j = ground arith
get_elem?-update_at zero f (a ∷ h) zero = refl
get_elem?-update_at zero f (a ∷ h) (suc j) = ground arith
get_elem?-update_at (suc i) f (a ∷ h) zero = ground arith
get_elem?-update_at (suc i) f (a ∷ h) (suc j) = ground (arith, get_elem?-update_at i f h j)

get_elem?-length : (h : List Attribute) → get_elem? h (length h) ≡ none
get_elem?-length [] = refl
get_elem?-length (a ∷ h) = get_elem?-length h

-- The object at a place: its name, and whether it is a tlv.
abbrev pub NameAt : List Attribute → ℕ → Text → Type 0
NameAt h r n = (a : Attribute) × (get_elem? h r ≡ some a) × (a.name ≡ n)

abbrev pub TlvAt : List Attribute → ℕ → Type 0
TlvAt h r = (a : Attribute) × (get_elem? h r ≡ some a) × (is_tlv_type a.type ≡ true)

-- Parents are tlvs.
abbrev pub HasTlvParents : List Attribute → Type 0
HasTlvParents h =
    (r : ℕ) (a : Attribute) (p : ℕ) → get_elem? h r ≡ some a → a.parent ≡ some p → TlvAt h p

-- What an object is known by stays: its name and its type.
abbrev pub KeepsNames : (Attribute → Attribute) → Type 0
KeepsNames f = (a : Attribute) → ((f a).name ≡ a.name) × ((f a).type ≡ a.type)

module _ (h : List Attribute) (b : Attribute) where
  kept : (r : ℕ) (a : Attribute) → get_elem? h r ≡ some a → get_elem? (h ++ b ∷ []) r ≡ some a
  kept r a e = ground (arith, get_elem?-append_one h b r, get_elem?-length h, ==_iff r (length h))

  pub NameAt-append : (r : ℕ) (n : Text) → NameAt h r n → NameAt (h ++ b ∷ []) r n
  NameAt-append r n (a, e, k) = (a, kept r a e, k)

  pub TlvAt-append : (r : ℕ) → TlvAt h r → TlvAt (h ++ b ∷ []) r
  TlvAt-append r (a, e, k) = (a, kept r a e, k)

  pub HasTlvParents-append : HasTlvParents h → b.parent ≡ none → HasTlvParents (h ++ b ∷ [])
  HasTlvParents-append ps orphan r a p e k = elim (Bool-cases (r == length h)) [
    | inl last ↦ absurd (ground (arith, get_elem?-append_one h b r))
    | inr old ↦ TlvAt-append p (ps r a p (ground (arith, get_elem?-append_one h b r)) k)
  ]

  pub get_elem?-new : get_elem? (h ++ b ∷ []) (length h) ≡ some b
  get_elem?-new = ground (arith, get_elem?-append_one h b (length h))

module _ (i : ℕ) (f : Attribute → Attribute) (names : KeepsNames f) (h : List Attribute) where
  pub NameAt-update : (r : ℕ) (n : Text) → NameAt h r n → NameAt (update_at i f h) r n
  NameAt-update r n (a, e, k) = elim (Bool-cases (i == r)) [
    | inl hit ↦ (f a, rw (get_elem?-update_at i f h r, hit, e), (names a).0 ∙ k)
    | inr miss ↦ (a, rw (get_elem?-update_at i f h r, miss, e), k)
  ]

  pub TlvAt-update : (r : ℕ) → TlvAt h r → TlvAt (update_at i f h) r
  TlvAt-update r (a, e, k) = elim (Bool-cases (i == r)) [
    | inl hit ↦ (f a, rw (get_elem?-update_at i f h r, hit, e), ap is_tlv_type (names a).1 ∙ k)
    | inr miss ↦ (a, rw (get_elem?-update_at i f h r, miss, e), k)
  ]

  -- A write that sets parents only to tlvs.
  pub HasTlvParents-update :
      ((a : Attribute) (p : ℕ) → get_elem? h i ≡ some a → (f a).parent ≡ some p → TlvAt h p)
      → HasTlvParents h
      → HasTlvParents (update_at i f h)
  HasTlvParents-update fresh ps r a p e k = elim (Bool-cases (i == r)) [
    | inl hit ↦ hit_case (get_elem? h r) refl hit
    | inr miss ↦ TlvAt-update p (ps r a p (rw (get_elem?-update_at i f h r, miss) at e) k)
  ]
    where
      hit_case :
          (o : Option Attribute) → get_elem? h r ≡ o → (i == r) ≡ true → TlvAt (update_at i f h) p
      hit_case none q hit = absurd (ground (arith, get_elem?-update_at i f h r))
      hit_case (some c) q hit =
          let same : f c ≡ a = ground (arith, get_elem?-update_at i f h r) in
          TlvAt-update p
            (fresh c p (ground (arith, ==_iff i r)) (ap (λ (o : Attribute). o.parent) same ∙ k))
