-- ===== src/Prelude/Result.antt =====
-- Fallible code: a value, or the error that the code raises.
use mathlib.Core.Path.{◌≡◌, refl}
use mathlib.Core.Logic.{◌⊎◌, inl, inr}
use mathlib.Core.Bool.{Bool, true, false}
use mathlib.Core.Option.{Option, none, some}

pub data Result {ℓ κ} (E : Type κ) (A : Type ℓ) : Type (ℓ ⊔ κ) where
  ok : A → Result E A
  err : E → Result E A

infixl 5 ◌>>=◌ ◌>>◌
abbrev pub ◌>>=◌ {ℓ κ μ} :
    {E : Type μ} {A : Type ℓ} {B : Type κ} → Result E A → (A → Result E B) → Result E B
ok a >>= f = f a
err e >>= f = err e

abbrev pub ◌>>◌ {ℓ μ} : {E : Type μ} {B : Type ℓ} → Result E (Unit {0}) → Result E B → Result E B
m >> k = m >>= λ _. k

-- `if not test: raise error`.
abbrev pub guard {μ} : {E : Type μ} → Bool → E → Result E (Unit {0})
guard true e = ok tt
guard false e = err e

-- `if (problem := ...) is not None: raise problem`.
abbrev pub raise_if {μ} : {E : Type μ} → Option E → Result E (Unit {0})
raise_if none = ok tt
raise_if (some e) = err e

abbrev pub or_raise {ℓ μ} : {E : Type μ} {A : Type ℓ} → Option A → E → Result E A
or_raise none e = err e
or_raise (some a) e = ok a

pub ok-injective {ℓ μ} :
    {E : Type μ} {A : Type ℓ} {a b : A} → ◌≡◌ {A = Result E A} (ok a) (ok b) → a ≡ b
ok-injective e = cc

-- A step behind a check that succeeds has passed the check.
pub raise_if-eq-ok {ℓ μ} :
    {E : Type μ} {A : Type ℓ} (o : Option E) (a b : A)
    → (raise_if o >> ok a) ≡ ok b
    → (o ≡ none) × (a ≡ b)
raise_if-eq-ok none a b h = (refl, ok-injective h)
raise_if-eq-ok (some e) a b h = cc

-- A chain that succeeds has had its first step succeed.
pub bind-ok {ℓ κ μ} :
    {E : Type μ} {A : Type ℓ} {B : Type κ} (x : Result E A) (f : A → Result E B) (b : B)
    → (x >>= f) ≡ ok b
    → (a : A) × (x ≡ ok a) × (f a ≡ ok b)
bind-ok (ok a) f b e = (a, refl, e)
bind-ok (err x) f b e = cc

pub or_raise-ok {ℓ μ} :
    {E : Type μ} {A : Type ℓ} (o : Option A) (x : E) (a : A) → or_raise o x ≡ ok a → o ≡ some a
or_raise-ok none x a e = cc
or_raise-ok (some b) x a e = cc

pub Result-cases {ℓ μ} :
    {E : Type μ} {A : Type ℓ} (r : Result E A) → ((a : A) × (r ≡ ok a)) ⊎ ((e : E) × (r ≡ err e))
Result-cases (ok a) = inl (a, refl)
Result-cases (err e) = inr (e, refl)
