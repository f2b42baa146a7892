-- ===== src/Common/Exec.antt =====
-- Methods that change an object and may raise. What was written before a raise stays written, so
-- the state comes back beside the exception too.
use mathlib.Core.Path.{◌≡◌, refl}
use pyrad.Common.Result.{Error, Result, ok, raise, stuck}

abbrev pub Exec {ℓ} : Type ℓ → Type ℓ → Type ℓ
Exec S A = S → Result A × S

module _ {ℓ} {S A : Type ℓ} where
  abbrev pub pure : A → Exec S A
  pure a s = (ok a, s)

  -- a call that reads and changes nothing of the state
  abbrev pub lift : Result A → Exec S A
  lift r s = (r, s)

  abbrev pub gets : (S → A) → Exec S A
  gets f s = (ok (f s), s)

  abbrev pub fail : Error → Exec S A
  fail e s = (raise e, s)

  abbrev recover : Result A → (Error → Exec S A) → S → Result A × S
  recover (ok a) h s = (ok a, s)
  recover (raise e) h s = h e s
  recover stuck h s = (stuck, s)

  -- `try: m  except Exception as e: h e`; a loop that does not end is not caught
  abbrev pub catch : Exec S A → (Error → Exec S A) → Exec S A
  catch m h s = let (r, s') = m s in recover r h s'

abbrev pub modify {ℓ} : {S : Type ℓ} → (S → S) → Exec S (Unit {ℓ})
modify f s = (ok tt, f s)

module _ {ℓ} {S A B : Type ℓ} where
  abbrev pub continue : Result A → (A → Exec S B) → S → Result B × S
  continue (ok a) f s = f a s
  continue (raise e) f s = (raise e, s)
  continue stuck f s = (stuck, s)

  infixl 5 ◌>>=◌ ◌>>◌
  abbrev pub ◌>>=◌ : Exec S A → (A → Exec S B) → Exec S B
  ◌>>=◌ m f s = let (r, s') = m s in continue r f s'

  abbrev pub ◌>>◌ : Exec S A → Exec S B → Exec S B
  m >> k = m >>= λ _. k

  continue-eq-ok :
      (m : Exec S A) (f : A → Exec S B) (s : S) {b : B} {s' : S} (r : Result A) (t : S)
      → m s ≡ (r, t)
      → continue r f t ≡ (ok b, s')
      → (a : A) × (t : S) × (m s ≡ (ok a, t)) × (f a t ≡ (ok b, s'))
  continue-eq-ok m f s (ok a) t e k = (a, t, e, k)
  continue-eq-ok m f s (raise x) t e k = cc
  continue-eq-ok m f s stuck t e k = cc

  -- Inversion of a bind that returned.
  pub >>=-eq-ok :
      (m : Exec S A) (f : A → Exec S B) (s : S) {b : B} {s' : S}
      → (m >>= f) s ≡ (ok b, s')
      → (a : A) × (t : S) × (m s ≡ (ok a, t)) × (f a t ≡ (ok b, s'))
  >>=-eq-ok m f s h = continue-eq-ok m f s (m s).0 (m s).1 refl h
