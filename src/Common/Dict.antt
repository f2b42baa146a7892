-- ===== src/Common/Dict.antt =====
-- Python's `dict`: an association list in the order of insertion, with distinct keys.
pub mod Entries
use mathlib.Core.Logic.{◌≢◌}
use mathlib.Core.Path.{◌≡◌, refl}
use mathlib.Core.Bool.{Bool, true, false}
use mathlib.Core.Option.{Option, none, some}
use mathlib.Core.List.{List, [], ◌∷◌, ◌++◌}
use native.Mathlib.Omega.{arith}
use pyrad.Common.Tests.{if◌then◌else◌}
use pyrad.Common.Eq.{Eq, beq_refl}

abbrev pub Dict {ℓ κ} : Type ℓ → Type κ → Type (ℓ ⊔ κ)
Dict K V = List (K × V)

abbrev pub is_some {ℓ} : {A : Type ℓ} → Option A → Bool
is_some none = false
is_some (some a) = true

module _ {ℓ κ} {K : Type ℓ} {V : Type κ} ⦃e : Eq K⦄ where
  -- `d.get(k)`
  unfoldable pub lookup : K → Dict K V → Option V
  lookup key [] = none
  lookup key ((first, value) ∷ rest) = if e.beq first key then some value else lookup key rest

  -- `d[k] = v`: a key that is there keeps its place
  unfoldable pub insert : K → V → Dict K V → Dict K V
  insert key value [] = (key, value) ∷ []
  insert key value ((first, old) ∷ rest) =
      if e.beq first key then (first, value) ∷ rest else (first, old) ∷ insert key value rest

  -- `del d[k]`, for a key that is there
  unfoldable pub remove : K → Dict K V → Dict K V
  remove key [] = []
  remove key ((first, old) ∷ rest) =
      if e.beq first key then rest else (first, old) ∷ remove key rest

  -- `k in d`
  abbrev pub contains : K → Dict K V → Bool
  contains k d = is_some (lookup k d)

  pub lookup-insert :
      (k j : K) (v : V) (d : Dict K V)
      → lookup j (insert k v d) ≡ (if e.beq k j then some v else lookup j d)
  unfolding lookup insert
  lookup-insert k j v [] = refl
  lookup-insert k j v ((i, w) ∷ d) =
      ground (arith, e.beq_iff k j, e.beq_iff i k, e.beq_iff i j, lookup-insert k j v d)

  -- The keys of a dict are distinct.
  abbrev pub HasDistinctKeys : Dict K V → Type κ
  HasDistinctKeys [] = Unit
  HasDistinctKeys ((k, v) ∷ d) = (lookup k d ≡ none) × HasDistinctKeys d

  pub insert-HasDistinctKeys :
      (k : K) (v : V) (d : Dict K V) → HasDistinctKeys d → HasDistinctKeys (insert k v d)
  unfolding lookup insert
  insert-HasDistinctKeys k v [] h = (refl, tt)
  insert-HasDistinctKeys k v ((j, w) ∷ d) (fresh, h) =
      ground
        (arith, e.beq_iff j k, e.beq_iff k j, lookup-insert k j v d, insert-HasDistinctKeys k v d h)

  pub lookup-remove :
      (k j : K) (d : Dict K V)
      → HasDistinctKeys d
      → lookup j (remove k d) ≡ (if e.beq k j then none else lookup j d)
  unfolding lookup remove
  lookup-remove k j [] h = ground arith
  lookup-remove k j ((i, w) ∷ d) (fresh, h) =
      ground (arith, e.beq_iff k j, e.beq_iff i k, e.beq_iff i j, lookup-remove k j d h)

  pub remove-HasDistinctKeys :
      (k : K) (d : Dict K V) → HasDistinctKeys d → HasDistinctKeys (remove k d)
  unfolding remove
  remove-HasDistinctKeys k [] h = tt
  remove-HasDistinctKeys k ((j, w) ∷ d) (fresh, h) =
      ground (arith, lookup-remove k j d h, remove-HasDistinctKeys k d h)

  -- Insertion at the end, and a write to the last entry.
  pub insert_fresh :
      (k : K) (v : V) (d : Dict K V) → lookup k d ≡ none → insert k v d ≡ d ++ (k, v) ∷ []
  unfolding lookup insert
  insert_fresh k v [] h = refl
  insert_fresh k v ((j, w) ∷ d) h = ground (arith, insert_fresh k v d)

  pub lookup_last :
      (k : K) (v : V) (d : Dict K V) → lookup k d ≡ none → lookup k (d ++ (k, v) ∷ []) ≡ some v
  unfolding lookup
  lookup_last k v [] h = ground (arith, beq_refl k)
  lookup_last k v ((j, w) ∷ d) h = ground (arith, lookup_last k v d)

  pub insert_last :
      (k : K) (v w : V) (d : Dict K V)
      → lookup k d ≡ none
      → insert k v (d ++ (k, w) ∷ []) ≡ d ++ (k, v) ∷ []
  unfolding lookup insert
  insert_last k v w [] h = ground (arith, beq_refl k)
  insert_last k v w ((j, u) ∷ d) h = ground (arith, insert_last k v w d)

  -- The same with more entries behind.
  pub lookup_at :
      (k : K) (v : V) (c d : Dict K V) → lookup k c ≡ none → lookup k (c ++ (k, v) ∷ d) ≡ some v
  unfolding lookup
  lookup_at k v [] d h = ground (arith, beq_refl k)
  lookup_at k v ((j, w) ∷ c) d h = ground (arith, lookup_at k v c d)

  pub insert_at :
      (k : K) (v w : V) (c d : Dict K V)
      → lookup k c ≡ none
      → insert k v (c ++ (k, w) ∷ d) ≡ c ++ (k, v) ∷ d
  unfolding lookup insert
  insert_at k v w [] d h = ground (arith, beq_refl k)
  insert_at k v w ((j, u) ∷ c) d h = ground (arith, insert_at k v w c d)

  pub lookup-append : (k : K) (c d : Dict K V) → lookup k c ≡ none → lookup k (c ++ d) ≡ lookup k d
  unfolding lookup
  lookup-append k [] d h = refl
  lookup-append k ((j, w) ∷ c) d h = ground (arith, lookup-append k c d)

  -- A key that stands in the list is found.
  lookup_middle : (k : K) (v : V) (c d : Dict K V) → lookup k (c ++ (k, v) ∷ d) ≢ none
  unfolding lookup
  lookup_middle k v [] d h = ground (arith, beq_refl k)
  lookup_middle k v ((j, w) ∷ c) d h = ground (arith, lookup_middle k v c d)

  -- A key of the second part is not a key of the first.
  pub lookup_before :
      (k : K) (v : V) (c d : Dict K V) → HasDistinctKeys (c ++ (k, v) ∷ d) → lookup k c ≡ none
  unfolding lookup
  lookup_before k v [] d h = refl
  lookup_before k v ((j, w) ∷ c) d (fresh, h) =
      ground (arith, e.beq_iff j k, lookup_before k v c d h, lookup_middle k v c d)
