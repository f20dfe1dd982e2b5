-- ===== src/Common/Results.antt =====
-- `Result`, and the chain of fallible steps.
use mathlib.Core.Option.{Option, none, some}
use mathlib.Core.Path.{◌≡◌, refl}
use mathlib.Core.Logic.{◌⊎◌, inl, inr}

pub data Result {ℓ κ} (E : Type κ) (A : Type ℓ) : Type (ℓ ⊔ κ) where
  ok : A → Result E A
  err : E → Result E A

-- What a call gives back; `panicked` is a failed `expect`.
pub data Outcome (A : Type 0) : Type 0 where
  returned : A → Outcome A
  panicked : Outcome A

infixl 5 ◌>>=◌
abbrev pub ◌>>=◌ {ℓ κ ι} :
    {E : Type ι} {A : Type ℓ} {B : Type κ} → Result E A → (A → Result E B) → Result E B
ok a >>= f = f a
err e >>= f = err e

-- `Option::ok_or`.
abbrev pub ok_or {ℓ κ} : {E : Type κ} {A : Type ℓ} → Option A → E → Result E A
ok_or none e = err e
ok_or (some a) e = ok a

pub Outcome-cases : {A : Type 0} (o : Outcome A) → ((a : A) × (o ≡ returned a)) ⊎ (o ≡ panicked)
Outcome-cases (returned a) = inl (a, refl)
Outcome-cases panicked = inr refl

pub Result-cases {ℓ κ} :
    {E : Type κ} {A : Type ℓ} (r : Result E A) → ((a : A) × (r ≡ ok a)) ⊎ ((e : E) × (r ≡ err e))
Result-cases (ok a) = inl (a, refl)
Result-cases (err e) = inr (e, refl)

pub bind-ok {ℓ κ ι μ} :
    {E : Type ι} {A : Type ℓ} {B : Type κ} {C : Type μ} (m : Result E A) (f : A → B) (g : B → C)
    → (m >>= (λ a. ok (f a)) >>= (λ b. ok (g b))) ≡ (m >>= λ a. ok (g (f a)))
bind-ok (ok a) f g = refl
bind-ok (err e) f g = refl
