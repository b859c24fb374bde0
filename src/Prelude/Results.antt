-- ===== src/Prelude/Results.antt =====
-- What a Go function that returns (value, error) does: it returns a value, returns an error, or
-- panics on an index out of range.
use mathlib.Core.Path.{◌≡◌, refl}
use mathlib.Core.Option.{Option, none, some}

pub data Outcome {ℓ} (E : Type 0) (A : Type ℓ) : Type ℓ where
  ok : A → Outcome E A
  err : E → Outcome E A
  panic : Outcome E A

module _ {ℓ κ} {E : Type 0} {A : Type ℓ} {B : Type κ} where
  infixl 5 ◌>>=◌
  abbrev pub ◌>>=◌ : Outcome E A → (A → Outcome E B) → Outcome E B
  ok a >>= f = f a
  err e >>= f = err e
  panic >>= f = panic

  -- Inversion of a successful chain.
  pub >>=-eq-ok :
      (first : Outcome E A) (next : A → Outcome E B) {result : B}
      → (first >>= next) ≡ ok result
      → (value : A) × (first ≡ ok value) × (next value ≡ ok result)
  >>=-eq-ok panic next done = cc
  >>=-eq-ok (err e) next done = cc
  >>=-eq-ok (ok value) next done = (value, refl, done)

-- An element read by its index: a panic where there is none.
abbrev pub at {ℓ} : {E : Type 0} {A : Type ℓ} → Option A → Outcome E A
at none = panic
at (some a) = ok a

-- The caller wraps the error of a callee in one of its own (`fmt.Errorf("%w")`).
abbrev pub map_err {ℓ} : {E F : Type 0} {A : Type ℓ} → (E → F) → Outcome E A → Outcome F A
map_err f (ok a) = ok a
map_err f (err e) = err (f e)
map_err f panic = panic

pub at-eq-ok {ℓ} :
    {E : Type 0} {A : Type ℓ} (o : Option A) {a : A} → at {E = E} o ≡ ok a → o ≡ some a
at-eq-ok none h = cc
at-eq-ok (some a) h = cc

pub ok-injective {ℓ} :
    {E : Type 0} {A : Type ℓ} {a b : A} → ◌≡◌ {A = Outcome E A} (ok a) (ok b) → a ≡ b
ok-injective h = cc

pub map_err-eq-ok {ℓ} :
    {E F : Type 0} {A : Type ℓ} (f : E → F) (m : Outcome E A) {a : A}
    → map_err f m ≡ ok a
    → m ≡ ok a
map_err-eq-ok f (ok b) h = cc
map_err-eq-ok f (err e) h = cc
map_err-eq-ok f panic h = cc
