-- ===== src/Common/Dict/Entries.antt =====
-- Predicates on all entries of a dict.
use mathlib.Core.List.{[], ◌∷◌}
use pyrad.Common.Tests.{Bool-cases}
use mathlib.Core.Logic.{inl, inr}
use pyrad.Common.Lists.{All}
use mathlib.Core.Path.{◌≡◌, refl, ◌∙◌}
use mathlib.Core.Bool.{false}
use mathlib.Core.Option.{none, some}
use native.Mathlib.Omega.{arith}
use pyrad.Common.Eq.{Eq, beq_refl}
use pyrad.Common.Dict.{Dict, lookup, insert, remove, HasDistinctKeys}

module _ {ℓ κ μ} {K : Type ℓ} {V : Type κ} ⦃e : Eq K⦄ (P : K × V → Type μ) where
  pub insert-All :
      (k : K) (v : V) (d : Dict K V) → ((i : K) → P (i, v)) → All P d → All P (insert k v d)
  unfolding insert
  insert-All k v [] p h = (p k, tt)
  insert-All k v ((i, w) ∷ d) p (first, h) = elim (Bool-cases (e.beq i k)) [
    | inl same ↦ rw same (p i, h)
    | inr other ↦ rw other (first, insert-All k v d p h)
  ]

  pub remove-All : (k : K) (d : Dict K V) → All P d → All P (remove k d)
  unfolding remove
  remove-All k [] h = tt
  remove-All k ((i, w) ∷ d) (first, h) = elim (Bool-cases (e.beq i k)) [
    | inl same ↦ rw same h
    | inr other ↦ rw other (first, remove-All k d h)
  ]

module _ {ℓ κ} {K : Type ℓ} {V : Type κ} ⦃e : Eq K⦄ where
  -- The entry is what the dict has under its key.
  abbrev pub IsFound : Dict K V → K × V → Type κ
  IsFound d i = lookup i.0 d ≡ some i.1

  -- Entries under other keys than `k` stay found when only `k` changes.
  pub IsFound-others :
      (k : K) (items d d' : Dict K V)
      → lookup k items ≡ none
      → ((j : K) → e.beq k j ≡ false → lookup j d' ≡ lookup j d)
      → All (IsFound d) items
      → All (IsFound d') items
  unfolding lookup
  IsFound-others k [] d d' fresh same h = tt
  IsFound-others k ((j, w) ∷ items) d d' fresh same (h, hs) = elim (Bool-cases (e.beq j k)) [
    | inl b ↦ absurd (cc (rw b at fresh))
    | inr b ↦
        let other : e.beq k j ≡ false = ground (arith, e.beq_iff j k, e.beq_iff k j, b) in
        (same j other ∙ h, IsFound-others k items d d' (rw b at fresh) same hs)
  ]

  -- In a dict every entry is found.
  pub All-IsFound : (d : Dict K V) → HasDistinctKeys d → All (IsFound d) d
  unfolding lookup
  All-IsFound [] h = tt
  All-IsFound ((k, v) ∷ d) (fresh, h) = (
    rw (beq_refl k) refl,
    IsFound-others k d d ((k, v) ∷ d) fresh (λ j b. rw b refl) (All-IsFound d h),
  )
