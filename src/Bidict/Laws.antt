-- ===== src/Bidict/Laws.antt =====
-- The two halves of a `BiDict` stay inverse to each other, as far as `add` keeps them so.
use pyrad.Common.{◌≡◌, ◌≢◌, refl, Option, none, some, arith}
use pyrad.Common.{if◌then◌else◌}
use pyrad.Common.Eq.{Eq, beq_refl, text_eq_instance, nat_eq}
use pyrad.Common.Result.{ok, raise, key_error}
use pyrad.Common.Dict.{lookup, remove, lookup-insert, lookup-remove, HasDistinctKeys}
use pyrad.Common.Dict.{insert-HasDistinctKeys, remove-HasDistinctKeys}
use pyrad.Bidict.{BiDict, empty, add, get_forward, get_backward, del_item}

pub record IsBijective {ℓ κ} {A : Type ℓ} {B : Type κ} ⦃ea : Eq A⦄ ⦃eb : Eq B⦄ (m : BiDict A B)
    : Type (ℓ ⊔ κ) where
  pub to : (a : A) (b : B) → lookup a m.forward ≡ some b → lookup b m.backward ≡ some a
  pub from : (a : A) (b : B) → lookup b m.backward ≡ some a → lookup a m.forward ≡ some b
  pub forward_keys : HasDistinctKeys m.forward
  pub backward_keys : HasDistinctKeys m.backward

module _ {ℓ κ} {A : Type ℓ} {B : Type κ} ⦃ea : Eq A⦄ ⦃eb : Eq B⦄ where
  pub empty-IsBijective : IsBijective {A = A} {B = B} empty
  unfolding lookup
  empty-IsBijective = record {
    to = λ a b h. ground arith;
    from = λ a b h. ground arith;
    forward_keys = tt;
    backward_keys = tt;
  }

  -- Adding a pair of a new forward key and a new backward key to an inverse pair of dicts leaves
  -- them inverse to each other.
  pub add-IsBijective :
      (a : A) (b : B) (m : BiDict A B)
      → lookup a m.forward ≡ none
      → lookup b m.backward ≡ none
      → IsBijective m
      → IsBijective (add a b m)
  unfolding add
  add-IsBijective a b m fa fb h = record {
    to = λ x y p. ground (
      arith,
      lookup-insert a x b m.forward,
      lookup-insert b y a m.backward,
      ea.beq_iff a x,
      eb.beq_iff b y,
      h.to x y,
    );
    from = λ x y p. ground (
      arith,
      lookup-insert a x b m.forward,
      lookup-insert b y a m.backward,
      ea.beq_iff a x,
      eb.beq_iff b y,
      h.from x y,
    );
    forward_keys = insert-HasDistinctKeys a b m.forward h.forward_keys;
    backward_keys = insert-HasDistinctKeys b a m.backward h.backward_keys;
  }

  remove_both-IsBijective :
      (a : A) (b : B) (m : BiDict A B)
      → lookup a m.forward ≡ some b
      → IsBijective m
      → IsBijective (record { forward = remove a m.forward; backward = remove b m.backward })
  remove_both-IsBijective a b m p h = record {
    to = λ x y q. ground (
      arith,
      lookup-remove a x m.forward h.forward_keys,
      lookup-remove b y m.backward h.backward_keys,
      ea.beq_iff a x,
      eb.beq_iff b y,
      h.to x y,
      h.to a b,
    );
    from = λ x y q. ground (
      arith,
      lookup-remove a x m.forward h.forward_keys,
      lookup-remove b y m.backward h.backward_keys,
      ea.beq_iff a x,
      eb.beq_iff b y,
      h.from x y,
      h.from a y,
      h.from x b,
    );
    forward_keys = remove-HasDistinctKeys a m.forward h.forward_keys;
    backward_keys = remove-HasDistinctKeys b m.backward h.backward_keys;
  }

  -- Deleting by either kind of key takes the pair out of both halves.
  abbrev pub WithoutPair : BiDict A B → A → B → BiDict A B → Type (ℓ ⊔ κ)
  WithoutPair m a b m' =
      IsBijective m'
      × ((x : A) → lookup x m'.forward ≡ (if ea.beq a x then none else lookup x m.forward))
      × ((y : B) → lookup y m'.backward ≡ (if eb.beq b y then none else lookup y m.backward))

  removed :
      (a : A) (b : B) (m : BiDict A B)
      → lookup a m.forward ≡ some b
      → IsBijective m
      → WithoutPair m a b (record { forward = remove a m.forward; backward = remove b m.backward })
  removed a b m p h = (
    remove_both-IsBijective a b m p h,
    λ x. lookup-remove a x m.forward h.forward_keys,
    λ y. lookup-remove b y m.backward h.backward_keys,
  )

  -- On an inverse pair of dicts `del d[k]` of a forward key that is there removes its pair from
  -- both dicts and nothing else, and the dicts stay inverse to each other.
  pub del_item-forward :
      (a : A) (two : Option B) (b : B) (m : BiDict A B)
      → IsBijective m
      → lookup a m.forward ≡ some b
      → (m' : BiDict A B) × (del_item (some a) two m ≡ ok m') × WithoutPair m a b m'
  unfolding del_item
  del_item-forward a two b m h p = (
    record { forward = remove a m.forward; backward = remove b m.backward },
    ground (arith, h.to a b),
    removed a b m p h,
  )

  -- So does `del d[k]` of a backward key, where `k` is no forward key.
  pub del_item-backward :
      (one : Option A) (a : A) (b : B) (m : BiDict A B)
      → IsBijective m
      → ((x : A) → one ≡ some x → lookup x m.forward ≡ none)
      → lookup b m.backward ≡ some a
      → (m' : BiDict A B) × (del_item one (some b) m ≡ ok m') × WithoutPair m a b m'
  unfolding del_item
  del_item-backward none a b m h no_forward p = (
    record { forward = remove a m.forward; backward = remove b m.backward },
    ground (arith, h.from a b),
    removed a b m (h.from a b p) h,
  )
  del_item-backward (some x) a b m h no_forward p = (
    record { forward = remove a m.forward; backward = remove b m.backward },
    ground (arith, no_forward x refl, h.from a b),
    removed a b m (h.from a b p) h,
  )

  -- A key that neither dict has is a `KeyError`.
  pub del_item_missing :
      (a : A) (b : B) (m : BiDict A B)
      → lookup a m.forward ≡ none
      → lookup b m.backward ≡ none
      → del_item (some a) (some b) m ≡ raise key_error
  unfolding del_item
  del_item_missing a b m p q = ground arith

  -- Adding a second value for a key of an inverse pair of dicts leaves the old value behind: its
  -- backward entry still leads to the key, and the dicts are inverse no longer.
  pub add_stale :
      (a : A) (b b' : B) (m : BiDict A B)
      → lookup a m.forward ≡ some b'
      → b ≢ b'
      → IsBijective m
      → (get_forward (add a b m) a ≡ ok b)
        × (get_backward (add a b m) b' ≡ ok a)
        × (¬ IsBijective (add a b m))
  unfolding add
  add_stale a b b' m p ne h = (
    ground (arith, lookup-insert a a b m.forward, beq_refl a),
    ground (arith, lookup-insert b b' a m.backward, eb.beq_iff b b', h.to a b'),
    λ k. ground (
      arith,
      lookup-insert a a b m.forward,
      beq_refl a,
      lookup-insert b b' a m.backward,
      eb.beq_iff b b',
      h.to a b',
      k.from a b',
    ),
  )
