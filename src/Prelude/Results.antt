-- ===== src/Prelude/Results.antt =====
-- A call that may throw: the value that it returns, or the error that it throws.
use mathlib.Core.Path.{◌≡◌, refl}
use mathlib.Core.Logic.{◌⊎◌, inl, inr}
use mathlib.Core.Bool.{Bool, true, false}

pub data Result {ℓ κ} (E : Type ℓ) (A : Type κ) : Type (ℓ ⊔ κ) where
  ok : A → Result E A
  err : E → Result E A

module _ {ℓ} {E : Type ℓ} where
  infixl 5 ◌>>=◌ ◌>>◌
  abbrev pub ◌>>=◌ {κ μ} : {A : Type κ} {B : Type μ} → Result E A → (A → Result E B) → Result E B
  err thrown >>= next = err thrown
  ok value >>= next = next value

  abbrev pub ◌>>◌ {κ} : {B : Type κ} → Result E (Unit {0}) → Result E B → Result E B
  err thrown >> next = err thrown
  ok done >> next = next

  -- `if (b) throw e`
  abbrev pub throw_if : Bool → E → Result E (Unit {0})
  throw_if true e = err e
  throw_if false e = ok tt

  abbrev pub result_map {κ μ} : {A : Type κ} {B : Type μ} → (A → B) → Result E A → Result E B
  result_map f (ok a) = ok (f a)
  result_map f (err e) = err e

  pub ok_unique {κ} : {A : Type κ} {r : Result E A} {a b : A} → r ≡ ok a → r ≡ ok b → a ≡ b
  ok_unique p q = cc

  -- To split on the outcome of a call and keep the equation.
  pub Result-cases {κ} :
      {A : Type κ} (r : Result E A) → ((e : E) × (r ≡ err e)) ⊎ ((a : A) × (r ≡ ok a))
  Result-cases (err e) = inl (e, refl)
  Result-cases (ok a) = inr (a, refl)

  -- What returned, returned at each of its steps.
  pub bind_ok {κ μ} :
      {A : Type κ} {B : Type μ} (r : Result E A) (next : A → Result E B) {b : B}
      → (r >>= next) ≡ ok b
      → (a : A) × (r ≡ ok a) × (next a ≡ ok b)
  bind_ok (err e) next q = cc
  bind_ok (ok a) next q = (a, refl, q)

  pub throw_if_ok {κ} :
      {B : Type κ} (thrown : Bool) (e : E) {r : Result E B} {b : B}
      → (throw_if thrown e >> r) ≡ ok b
      → (thrown ≡ false) × (r ≡ ok b)
  throw_if_ok true e q = cc
  throw_if_ok false e q = (refl, q)
