-- ===== src/Prelude/Effects.antt =====
-- A call that changes a state and may throw: the state stays changed where it throws.
use mathlib.Core.Path.{◌≡◌, refl, ap}
use mathlib.Core.Bool.{Bool, true, false}
use tvmjs_monorepo.Prelude.Results.{Result, ok, err}

abbrev pub Effect {ℓ κ μ} : Type ℓ → Type κ → Type μ → Type (ℓ ⊔ κ ⊔ μ)
Effect S E A = S → S × Result E A

infixl 5 ◌>>=◌ ◌>>◌
-- What follows a call, by what the call settled to.
abbrev pub after {ℓ κ μ ν} :
    {S : Type ℓ} {E : Type κ} {A : Type μ} {B : Type ν}
    → (A → Effect S E B)
    → S
    → Result E A
    → S × Result E B
after f s (err e) = (s, err e)
after f s (ok a) = f a s

abbrev pub ◌>>=◌ {ℓ κ μ ν} :
    {S : Type ℓ} {E : Type κ} {A : Type μ} {B : Type ν}
    → Effect S E A
    → (A → Effect S E B)
    → Effect S E B
◌>>=◌ m f s = after f (m s).0 (m s).1

abbrev pub ◌>>◌ {ℓ κ ν} :
    {S : Type ℓ} {E : Type κ} {B : Type ν} → Effect S E (Unit {0}) → Effect S E B → Effect S E B
m >> k = m >>= λ done. k

module _ {ℓ κ} {S : Type ℓ} {E : Type κ} where
  abbrev pub return {μ} : {A : Type μ} → A → Effect S E A
  return a s = (s, ok a)

  abbrev pub throw {μ} : {A : Type μ} → E → Effect S E A
  throw e s = (s, err e)

  abbrev pub get_state : Effect S E S
  get_state s = (s, ok s)

  abbrev pub reading {μ} : {A : Type μ} → (S → A) → Effect S E A
  reading f s = (s, ok (f s))

  abbrev pub update : (S → S) → Effect S E (Unit {0})
  update f s = (f s, ok tt)

  abbrev pub throw_when : Bool → E → Effect S E (Unit {0})
  throw_when true e = throw e
  throw_when false e = return tt

  after_returned {μ ν} :
      {A : Type μ} {B : Type ν} (f : A → Effect S E B) (t : S) (r : Result E A) {s' : S} {b : B}
      → after f t r ≡ (s', ok b)
      → (a : A) × (r ≡ ok a) × (f a t ≡ (s', ok b))
  after_returned f t (err e) h = cc
  after_returned f t (ok a) h = (a, refl, h)

  -- What returned, returned at each of its steps.
  pub bind_returned {μ ν} :
      {A : Type μ} {B : Type ν} (m : Effect S E A) (f : A → Effect S E B) (s : S) {s' : S} {b : B}
      → (m >>= f) s ≡ (s', ok b)
      → (t : S) × (a : A) × (m s ≡ (t, ok a)) × (f a t ≡ (s', ok b))
  bind_returned m f s h =
      let (a, returned, rest) = after_returned f (m s).0 (m s).1 h in
      ((m s).0, a, ap (λ r. ((m s).0, r)) returned, rest)
