-- ===== src/Common/Results.antt =====
-- Rust's `Result`, with `?` as the bind of a `do` block.
use mathlib.Core.Path.{◌≡◌, refl}
use mathlib.Core.Bool.{Bool, true, false}
use mathlib.Core.Option.{Option, none, some}

pub data Result {ℓ κ} (Failure : Type ℓ) (Value : Type κ) : Type (ℓ ⊔ κ) where
  ok : Value → Result Failure Value
  err : Failure → Result Failure Value

module _ {ℓ κ} {E : Type ℓ} {A : Type κ} where
  -- `Option::ok_or`
  abbrev pub ok_or : Option A → E → Result E A
  ok_or none e = err e
  ok_or (some a) e = ok a

  abbrev pub map_err {μ} : {F : Type μ} → (E → F) → Result E A → Result F A
  map_err f (ok a) = ok a
  map_err f (err e) = err (f e)

  abbrev pub map_ok {μ} : {B : Type μ} → (A → B) → Result E A → Result E B
  map_ok f (ok a) = ok (f a)
  map_ok f (err e) = err e

-- `?`: the first failure is the result of the block.
abbrev pub ◌>>=◌ {ℓ κ μ} :
    {E : Type ℓ} {A : Type κ} {B : Type μ} → Result E A → (A → Result E B) → Result E B
err failure >>= next = err failure
ok value >>= next = next value

abbrev pub ◌>>◌ {ℓ κ} : {E : Type ℓ} {B : Type κ} → Result E (Unit {0}) → Result E B → Result E B
step >> rest = step >>= λ done. rest

infixl 5 ◌>>=◌ ◌>>◌
-- `anyhow::ensure!`
abbrev pub ensure {ℓ} : {E : Type ℓ} → Bool → E → Result E (Unit {0})
ensure false failure = err failure
ensure true failure = ok tt

module _ {ℓ κ μ} {E : Type ℓ} {A : Type κ} {B : Type μ} where
  -- A block that succeeds got past its first step.
  pub >>=-eq-ok :
      (step : Result E A) (next : A → Result E B) {value : B}
      → (step >>= next) ≡ ok value
      → (got : A) × (step ≡ ok got) × (next got ≡ ok value)
  >>=-eq-ok (err failure) next h = absurd (cc h)
  >>=-eq-ok (ok got) next h = (got, refl, h)

pub ensure-eq-ok {ℓ κ} :
    {E : Type ℓ} {B : Type κ} (b : Bool) (e : E) (r : Result E B) {x : B}
    → (ensure b e >> r) ≡ ok x
    → (b ≡ true) × (r ≡ ok x)
ensure-eq-ok true e r h = (refl, h)
ensure-eq-ok false e r h = absurd (cc h)

pub map_err-eq-ok {ℓ κ μ} :
    {E : Type ℓ} {A : Type κ} {F : Type μ} (f : E → F) (r : Result E A) {a : A}
    → map_err f r ≡ ok a
    → r ≡ ok a
map_err-eq-ok f (ok a) h = cc
map_err-eq-ok f (err e) h = absurd (cc h)

pub ok_or-eq-ok {ℓ κ} :
    {E : Type ℓ} {A : Type κ} (o : Option A) (e : E) (x : A) → ok_or o e ≡ ok x → o ≡ some x
ok_or-eq-ok none e x h = absurd (cc h)
ok_or-eq-ok (some y) e x h = cc h
