-- ===== src/Bidict.antt =====
-- pyrad/bidict.py
pub mod Laws
use pyrad.Common.{ℕ, Bool, Option, none, some, [], length, if◌then◌else◌}
use pyrad.Common.Eq.{Eq}
use pyrad.Common.Result.{Result, ok, raise, key_error, ◌>>=◌, or_raise}
use pyrad.Common.Dict.{Dict, lookup, insert, remove, contains}

pub record BiDict {ℓ κ} (A : Type ℓ) (B : Type κ) : Type (ℓ ⊔ κ) where
  pub forward : Dict A B
  pub backward : Dict B A

abbrev pub empty {ℓ κ} : {A : Type ℓ} {B : Type κ} → BiDict A B
empty = record { forward = []; backward = [] }

module _ {ℓ κ} {A : Type ℓ} {B : Type κ} ⦃ea : Eq A⦄ ⦃eb : Eq B⦄ where
  unfoldable pub add : A → B → BiDict A B → BiDict A B
  add one two m = record {
    forward = insert one two m.forward;
    backward = insert two one m.backward;
  }

  abbrev pub len : BiDict A B → ℕ
  len m = length m.forward

  abbrev pub get_forward : BiDict A B → A → Result B
  get_forward m key = or_raise key_error (lookup key m.forward)

  abbrev pub has_forward : BiDict A B → A → Bool
  has_forward m key = contains key m.forward

  abbrev pub get_backward : BiDict A B → B → Result A
  get_backward m key = or_raise key_error (lookup key m.backward)

  abbrev pub has_backward : BiDict A B → B → Bool
  has_backward m key = contains key m.backward

  -- The keys of `__delitem__` are Python values: `one` is the key where it can stand in `forward`,
  -- `two` where it can stand in `backward`. The first branch deletes by `forward`.
  del_backward : B → A → BiDict A B → Result (BiDict A B)
  del_backward two one m =
      if contains two m.backward
      then ok (record { forward = remove one m.forward; backward = remove two m.backward })
      else raise key_error

  del_forward : A → B → BiDict A B → Result (BiDict A B)
  del_forward one two m =
      if contains one m.forward
      then ok (record { forward = remove one m.forward; backward = remove two m.backward })
      else raise key_error

  del_by_backward : Option B → BiDict A B → Result (BiDict A B)
  unfolding del_forward
  del_by_backward none m = raise key_error
  del_by_backward (some two) m = do one ← get_backward m two; del_forward one two m

  unfoldable pub del_item : Option A → Option B → BiDict A B → Result (BiDict A B)
  unfolding del_backward del_by_backward
  del_item none two m = del_by_backward two m
  del_item (some one) two m = elim (lookup one m.forward) [
    | some b ↦ del_backward b one m
    | none ↦ del_by_backward two m
  ]
