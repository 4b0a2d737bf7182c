-- ===== src/Common/Exec.antt =====
-- Fallible code that writes to a state. What was written before an error stays written.
use mathlib.Core.Path.{◌≡◌, refl, ap}
use rollup_starter.Common.Results.{Result, ok, err}

abbrev pub Exec : Type 0 → Type 0 → Type 0 → Type 0
Exec S E A = S → Result E A × S

module _ {S E A : Type 0} where
  abbrev pub pure : A → Exec S E A
  pure a s = (ok a, s)

  abbrev pub raise : E → Exec S E A
  raise e s = (err e, s)

  -- A computation that does not touch the state.
  abbrev pub lift : Result E A → Exec S E A
  lift r s = (r, s)

module _ {S E A B : Type 0} where
  abbrev pub continue_with : (A → Exec S E B) → Result E A × S → Result E B × S
  continue_with f (ok a, s) = f a s
  continue_with f (err e, s) = (err e, s)

  infixl 5 ◌>>=◌ ◌>>◌
  abbrev pub ◌>>=◌ : Exec S E A → (A → Exec S E B) → Exec S E B
  ◌>>=◌ m f s = continue_with f (m s)

  abbrev pub ◌>>◌ : Exec S E A → Exec S E B → Exec S E B
  ◌>>◌ m n s = continue_with (λ _. n) (m s)

  -- Inversion of a run that came to its end.
  pub continue_with-eq-ok :
      (f : A → Exec S E B) (p : Result E A × S) {b : B} {s' : S}
      → continue_with f p ≡ (ok b, s')
      → (a : A) × (s : S) × (p ≡ (ok a, s)) × (f a s ≡ (ok b, s'))
  continue_with-eq-ok f (ok a, s) h = (a, s, refl, h)
  continue_with-eq-ok f (err e, s) h = absurd (cc (ap (λ q. q.0) h))

  pub lift-eq-ok :
      (r : Result E A) (f : A → Exec S E B) (s : S) {b : B} {s' : S}
      → continue_with f (lift r s) ≡ (ok b, s')
      → (a : A) × (r ≡ ok a) × (f a s ≡ (ok b, s'))
  lift-eq-ok (ok a) f s h = (a, refl, h)
  lift-eq-ok (err e) f s h = absurd (cc (ap (λ q. q.0) h))
