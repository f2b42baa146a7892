-- ===== src/Packet/Decode/Tlv/Rows.antt =====
-- Adding the rows of a dict of sub-attributes one after the other gives the dict back.
use pyrad.Common.{
  ℕ, zero, suc, ◌+◌, ◌≡◌, refl, sym, ◌∙◌, ap, none, some, List, [], ◌∷◌, ◌++◌, append_assoc,
  append-nil, Bytes, take, take_of_length-le, get_elem?, Option-cases, inl, inr, arith,
}
use mathlib.Core.Path.{ap₂}
use pyrad.Common.Eq.{int_eq_instance}
use pyrad.Common.Int.{ℤ}
use pyrad.Common.Dict.{lookup, insert_fresh, lookup_at, insert_at, lookup-append, HasDistinctKeys}
use pyrad.Packet.Decode.{add_sub}
use pyrad.Packet.Encode.Tlv.{Subs, HaveValues, AreShort, row, rows}
use pyrad.Packet.Decode.Tlv.{add_each}

-- the first `i` values of each code
firsts : ℕ → Subs → Subs
firsts i [] = []
firsts i ((c, vs) ∷ d) = (c, take i vs) ∷ firsts i d

-- no code stands in the dict yet
AreFresh : Subs → Subs → Type 0
AreFresh s [] = Unit
AreFresh s ((c, vs) ∷ d) = (lookup c s ≡ none) × AreFresh s d

take_next :
    (i : ℕ) (vs : List Bytes) (v : Bytes)
    → get_elem? vs i ≡ some v
    → take i vs ++ v ∷ [] ≡ take (suc i) vs
take_next i [] v h = cc h
take_next zero (u ∷ vs) v h = ground arith
take_next (suc i) (u ∷ vs) v h = ap (λ l. u ∷ l) (take_next i vs v h)

take_over : (i : ℕ) (vs : List Bytes) → get_elem? vs i ≡ none → take i vs ≡ take (suc i) vs
take_over zero [] h = refl
take_over (suc i) [] h = refl
take_over zero (u ∷ vs) h = cc h
take_over (suc i) (u ∷ vs) h = ap (λ l. u ∷ l) (take_over i vs h)

AreFresh-extend :
    (c : ℤ) (w : List Bytes) (s d : Subs)
    → AreFresh s d
    → lookup c d ≡ none
    → AreFresh (s ++ (c, w) ∷ []) d
unfolding AreFresh lookup
AreFresh-extend c w s [] h absent = tt
AreFresh-extend c w s ((j, us) ∷ d) (fresh, h) absent = (
  ground (
    arith,
    lookup-append j s ((c, w) ∷ []) fresh,
    int_eq_instance.beq_iff j c,
    int_eq_instance.beq_iff c j,
  ),
  AreFresh-extend c w s d h (ground (arith, int_eq_instance.beq_iff j c)),
)

AreFresh-nil : (d : Subs) → AreFresh [] d
unfolding AreFresh lookup
AreFresh-nil [] = tt
AreFresh-nil ((c, vs) ∷ d) = (refl, AreFresh-nil d)

-- The first row makes the entries.
row_first :
    (s d : Subs)
    → AreFresh s d
    → HasDistinctKeys d
    → HaveValues d
    → add_each (row 0 d) s ≡ s ++ firsts 1 d
unfolding row add_each add_sub firsts AreFresh
row_first s [] fresh distinct full = sym (append-nil s)
row_first s ((c, []) ∷ d) fresh distinct full = absurd full
row_first s ((c, v ∷ vs) ∷ d) (new, fresh) (absent, distinct) full =
    rw (new, insert_fresh c (v ∷ []) s new)
      (row_first (s ++ (c, v ∷ []) ∷ []) d (AreFresh-extend c (v ∷ []) s d fresh absent) distinct
          full
        ∙ append_assoc s ((c, v ∷ []) ∷ []) (firsts 1 d))

row-over :
    (i : ℕ) (c : ℤ) (vs : List Bytes) (d : Subs)
    → get_elem? vs i ≡ none
    → row i ((c, vs) ∷ d) ≡ row i d
unfolding row
row-over i c vs d h = rw (row, h) refl

row-there :
    (i : ℕ) (c : ℤ) (vs : List Bytes) (v : Bytes) (d : Subs)
    → get_elem? vs i ≡ some v
    → row i ((c, vs) ∷ d) ≡ (c, v) ∷ row i d
unfolding row
row-there i c vs v d h = rw (row, h) refl

add_each-there :
    (c : ℤ) (w : List Bytes) (v : Bytes) (s e : Subs) (l : List (ℤ × Bytes))
    → lookup c s ≡ none
    → add_each ((c, v) ∷ l) (s ++ (c, w) ∷ e) ≡ add_each l (s ++ (c, w ++ v ∷ []) ∷ e)
unfolding add_each add_sub
add_each-there c w v s e l h = rw (lookup_at c w s e h, insert_at c (w ++ v ∷ []) w s e h) refl

-- A later row makes each of them longer.
row_next :
    (i : ℕ) (s d : Subs)
    → AreFresh s d
    → HasDistinctKeys d
    → add_each (row i d) (s ++ firsts i d) ≡ s ++ firsts (suc i) d
unfolding firsts AreFresh
row_next i s [] fresh distinct = unfold row add_each in refl
row_next i s ((c, vs) ∷ d) (new, fresh) (absent, distinct) =
    let behind : (w : List Bytes)
        → add_each (row i d) (s ++ (c, w) ∷ firsts i d) ≡ s ++ (c, w) ∷ firsts (suc i) d =
      λ w.
        ap (add_each (row i d)) (sym (append_assoc s ((c, w) ∷ []) (firsts i d)))
        ∙ (row_next i (s ++ (c, w) ∷ []) d (AreFresh-extend c w s d fresh absent) distinct
            ∙ append_assoc s ((c, w) ∷ []) (firsts (suc i) d)) in
    elim (Option-cases (get_elem? vs i)) [
      | inl over ↦
          ap (λ l. add_each l (s ++ (c, take i vs) ∷ firsts i d)) (row-over i c vs d over)
          ∙ (behind (take i vs) ∙ ap (λ u. s ++ (c, u) ∷ firsts (suc i) d) (take_over i vs over))
      | inr (v, there) ↦
          ap (λ l. add_each l (s ++ (c, take i vs) ∷ firsts i d)) (row-there i c vs v d there)
          ∙ (add_each-there c (take i vs) v s (firsts i d) (row i d) new
              ∙ (behind (take i vs ++ v ∷ [])
                  ∙ ap (λ u. s ++ (c, u) ∷ firsts (suc i) d) (take_next i vs v there)))
    ]

pub add_each-append :
    (l m : List (ℤ × Bytes)) (s : Subs) → add_each (l ++ m) s ≡ add_each m (add_each l s)
unfolding add_each
add_each-append [] m s = refl
add_each-append ((c, v) ∷ l) m s = add_each-append l m (add_sub c v (lookup c s) s)

rows_next :
    (n i : ℕ) (d : Subs) → HasDistinctKeys d → add_each (rows n i d) (firsts i d) ≡ firsts (n + i) d
unfolding rows
rows_next zero i d distinct =
    let same : i ≡ 0 + i = omega arith in unfold add_each in ap (λ k. firsts k d) same
rows_next (suc n) i d distinct =
    add_each-append (row i d) (rows n (i + 1) d) (firsts i d)
    ∙ (ap (add_each (rows n (i + 1) d)) (row_next i [] d (AreFresh-nil d) distinct)
        ∙ (ap (λ k. add_each (rows n k d) (firsts (suc i) d)) (omega arith)
            ∙ (rows_next n (suc i) d distinct ∙ ap (λ k. firsts k d) (omega arith))))

firsts-all : (n : ℕ) (d : Subs) → AreShort n d → firsts n d ≡ d
unfolding firsts
firsts-all n [] short = refl
firsts-all n ((c, vs) ∷ d) (here, short) =
    ap₂ (λ (ws : List Bytes) (e : Subs). (c, ws) ∷ e) (take_of_length-le n vs here)
      (firsts-all n d short)

-- All rows, from nothing.
pub rows_lem :
    (n : ℕ) (d : Subs)
    → AreShort (suc n) d
    → HasDistinctKeys d
    → HaveValues d
    → add_each (rows (suc n) 0 d) [] ≡ d
unfolding rows
rows_lem n d short distinct full =
    add_each-append (row 0 d) (rows n 1 d) []
    ∙ (ap (add_each (rows n 1 d)) (row_first [] d (AreFresh-nil d) distinct full)
        ∙ (rows_next n 1 d distinct
            ∙ (ap (λ k. firsts k d) (omega arith) ∙ firsts-all (suc n) d short)))
