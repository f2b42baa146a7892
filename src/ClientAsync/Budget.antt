-- ===== src/ClientAsync/Budget.antt =====
-- How often the pending requests of pyrad/client_async.py may still be sent again, in all.
use pyrad.Common.{ℕ, ◌+◌, ◌-◌, ◌≤◌, ◌≡◌, none, some, [], ◌∷◌, arith}
use pyrad.Common.Eq.{nat_eq}
use pyrad.Common.Dict.{Dict, lookup, insert, remove}
use pyrad.ClientAsync.{Request}

unfoldable pub owed : ℕ → Dict ℕ Request → ℕ
owed n [] = 0
owed n ((id, req) ∷ d) = (n - req.retries) + owed n d

pub owed-insert_new :
    (n id : ℕ) (req : Request) (d : Dict ℕ Request)
    → lookup id d ≡ none
    → owed n (insert id req d) ≡ owed n d + (n - req.retries)
unfolding owed lookup insert
owed-insert_new n id req [] h = omega arith
owed-insert_new n id req ((j, r) ∷ d) h = ground (arith, owed-insert_new n id req d)

pub owed-insert_old :
    (n id : ℕ) (req old : Request) (d : Dict ℕ Request)
    → lookup id d ≡ some old
    → owed n (insert id req d) + (n - old.retries) ≡ owed n d + (n - req.retries)
unfolding owed lookup insert
owed-insert_old n id req old [] h = absurd (cc h)
owed-insert_old n id req old ((j, r) ∷ d) h = ground (arith, owed-insert_old n id req old d)

pub owed-remove : (n id : ℕ) (d : Dict ℕ Request) → owed n (remove id d) ≤ owed n d
unfolding owed remove
owed-remove n id [] = omega arith
owed-remove n id ((j, r) ∷ d) = ground (arith, owed-remove n id d)
