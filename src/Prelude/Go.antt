-- ===== src/Prelude/Go.antt =====
-- The ways a Go call ends: it returns, it returns an error, it panics, or it runs for ever (as far
-- as the fuel of the model shows).
use mathlib.Core.Path.{◌≡◌, refl}

pub data Go {ℓ κ} (E : Type ℓ) (A : Type κ) : Type (ℓ ⊔ κ) where
  ok : A → Go E A
  err : E → Go E A
  panic : Go E A
  hang : Go E A

infixl 5 ◌>>=◌ ◌>>◌
abbrev pub ◌>>=◌ {ℓ κ μ} : {E : Type ℓ} {A : Type κ} {B : Type μ} → Go E A → (A → Go E B) → Go E B
ok a >>= f = f a
err e >>= f = err e
panic >>= f = panic
hang >>= f = hang

abbrev pub ◌>>◌ {ℓ κ μ} : {E : Type ℓ} {A : Type κ} {B : Type μ} → Go E A → Go E B → Go E B
m >> k = m >>= λ _. k

pub >>=_assoc {ℓ κ μ ν} :
    {E : Type ℓ} {A : Type κ} {B : Type μ} {C : Type ν} (m : Go E A) (f : A → Go E B)
    (g : B → Go E C)
    → (m >>= f >>= g) ≡ (m >>= λ a. f a >>= g)
>>=_assoc (ok a) f g = refl
>>=_assoc (err e) f g = refl
>>=_assoc panic f g = refl
>>=_assoc hang f g = refl

-- A chain that returns has a first step that returns.
pub bind_ok {ℓ κ μ} :
    {E : Type ℓ} {A : Type κ} {B : Type μ} (m : Go E A) (f : A → Go E B) (b : B)
    → (m >>= f) ≡ ok b
    → (a : A) × (m ≡ ok a) × (f a ≡ ok b)
bind_ok (ok a) f b h = (a, refl, h)
bind_ok (err e) f b h = absurd (cc)
bind_ok panic f b h = absurd (cc)
bind_ok hang f b h = absurd (cc)

pub ok_injective {ℓ κ} :
    {E : Type ℓ} {A : Type κ} (a b : A) → ◌≡◌ {A = Go E A} (ok a) (ok b) → a ≡ b
ok_injective a b h = cc
