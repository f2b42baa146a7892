-- ===== src/Tests/Bidict.antt =====
-- A `BiDict` of one pair.
use pyrad.Common.{ℕ, ◌≡◌, refl, none, some}
use pyrad.Common.Dict.{lookup, insert}
use pyrad.Common.Eq.{nat_eq}
use pyrad.Bidict.{BiDict, empty, add}
use pyrad.Bidict.Laws.{IsBijective, empty-IsBijective, add-IsBijective}

abbrev one_pair : BiDict ℕ ℕ
one_pair = add 1 5 empty

one_pair-IsBijective : IsBijective one_pair
unfolding lookup
one_pair-IsBijective = add-IsBijective 1 5 empty refl refl empty-IsBijective

there : lookup 1 one_pair.forward ≡ some 5
unfolding add lookup insert
there = refl

no_nine : lookup 9 one_pair.forward ≡ none
unfolding add lookup insert
no_nine = refl

no_ten : lookup 10 one_pair.backward ≡ none
unfolding add lookup insert
no_ten = refl

add-IsBijective_example : IsBijective (add 9 10 one_pair)
add-IsBijective_example = add-IsBijective 9 10 one_pair no_nine no_ten one_pair-IsBijective
