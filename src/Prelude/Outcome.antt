-- ===== src/Prelude/Outcome.antt =====
-- `anyhow::Result`: a value or an error. The message of an error is a parameter of the type.
use mathlib.Core.Path.{◌≡◌, refl}
use mathlib.Core.Logic.{◌⊎◌, inl, inr}

pub data Outcome {ℓ κ} (E : Type κ) (A : Type ℓ) : Type (ℓ ⊔ κ) where
  ok : A → Outcome E A
  err : E → Outcome E A

infixl 5 ◌>>=◌ ◌>>◌
abbrev pub ◌>>=◌ {ℓ κ μ} :
    {E : Type μ} {A : Type ℓ} {B : Type κ} → Outcome E A → (A → Outcome E B) → Outcome E B
ok a >>= f = f a
err e >>= f = err e

abbrev pub ◌>>◌ {ℓ μ} : {E : Type μ} {B : Type ℓ} → Outcome E (Unit {0}) → Outcome E B → Outcome E B
m >> k = m >>= λ _. k

pub Outcome-cases {ℓ μ} :
    {E : Type μ} {A : Type ℓ} (o : Outcome E A) → ((a : A) × (o ≡ ok a)) ⊎ ((e : E) × (o ≡ err e))
Outcome-cases (ok a) = inl (a, refl)
Outcome-cases (err e) = inr (e, refl)

-- What holds of a result that is no error.
abbrev pub OnOk {ℓ μ κ} : {E : Type μ} {A : Type ℓ} → (A → Type κ) → Outcome E A → Type κ
OnOk P (err e) = Unit
OnOk P (ok a) = P a

pub then-OnOk {ℓ κ μ ι ν} :
    {E : Type μ} {A : Type ℓ} {B : Type κ} (P : A → Type ι) (Q : B → Type ν) (o : Outcome E A)
    (f : A → Outcome E B)
    → OnOk P o
    → ((a : A) → P a → OnOk Q (f a))
    → OnOk Q (o >>= f)
then-OnOk P Q (err e) f h k = tt
then-OnOk P Q (ok a) f h k = k a h

pub any-OnOk {ℓ κ μ ν} :
    {E : Type μ} {A : Type ℓ} {B : Type κ} (Q : B → Type ν) (o : Outcome E A) (f : A → Outcome E B)
    → ((a : A) → OnOk Q (f a))
    → OnOk Q (o >>= f)
any-OnOk Q (err e) f k = tt
any-OnOk Q (ok a) f k = k a
