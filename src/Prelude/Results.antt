-- ===== src/Prelude/Results.antt =====
-- Results of code that may raise: `ok` carries what is returned, `err` what is raised.
use mathlib.Core.Path.{◌≡◌, refl, subst, ap}
use mathlib.Core.Bool.{Bool, true, false}
use mathlib.Core.Option.{Option, none, some}

pub data Result {ℓ κ} (E : Type ℓ) (A : Type κ) : Type (ℓ ⊔ κ) where
  ok : A → Result E A
  err : E → Result E A

infixl 5 ◌>>=◌ ◌>>◌
abbrev pub ◌>>=◌ {ℓ κ μ} :
    {E : Type ℓ} {A : Type κ} {B : Type μ} → Result E A → (A → Result E B) → Result E B
ok value >>= k = k value
err raised >>= k = err raised

abbrev pub ◌>>◌ {ℓ κ μ} :
    {E : Type ℓ} {A : Type κ} {B : Type μ} → Result E A → Result E B → Result E B
first >> then = first >>= λ _. then

-- `if test: raise e`
abbrev pub raise_if {ℓ} : {E : Type ℓ} → Bool → E → Result E (Unit {0})
raise_if true e = err e
raise_if false e = ok tt

-- Inversion of a successful bind.
pub >>=-eq-ok {ℓ κ μ} :
    {E : Type ℓ} {A : Type κ} {B : Type μ} (r : Result E A) (k : A → Result E B) {y : B}
    → (r >>= k) ≡ ok y
    → (x : A) × (r ≡ ok x) × (k x ≡ ok y)
>>=-eq-ok (ok x) k h = (x, refl, h)
>>=-eq-ok (err e) k h = cc

-- `P` holds of what is returned, if something is.
abbrev pub OnOk {ℓ κ μ} : {E : Type ℓ} {A : Type κ} → (A → Type μ) → Result E A → Type μ
OnOk P (ok a) = P a
OnOk P (err e) = Unit

pub OnOk-bind {ℓ κ μ ν} :
    {E : Type ℓ} {A : Type κ} {B : Type μ} (P : B → Type ν) (m : Result E A) (f : A → Result E B)
    → ((a : A) → m ≡ ok a → OnOk P (f a))
    → OnOk P (m >>= f)
OnOk-bind P (ok a) f h = h a refl
OnOk-bind P (err e) f h = tt

pub OnOk-eq {ℓ κ μ} :
    {E : Type ℓ} {A : Type κ} (P : A → Type μ) (m : Result E A) {a : A} → OnOk P m → m ≡ ok a → P a
OnOk-eq {E = E} P (ok b) {a} h e = subst (OnOk {E = E} P) e h
OnOk-eq P (err x) h e = cc

-- The value that a result returns.
abbrev pub value_or {ℓ κ} : {E : Type ℓ} {A : Type κ} → A → Result E A → A
value_or d (ok a) = a
value_or d (err e) = d

pub ok-injective {ℓ κ} :
    {E : Type ℓ} {A : Type κ} {a b : A} → (let r : Result E A = ok a in r) ≡ ok b → a ≡ b
ok-injective {a = a} h = ap (value_or a) h

-- The value of an option.
abbrev pub some_or {ℓ} : {A : Type ℓ} → A → Option A → A
some_or d none = d
some_or d (some a) = a

pub some-injective {ℓ} : {A : Type ℓ} {a b : A} → some a ≡ some b → a ≡ b
some-injective {a = a} h = ap (some_or a) h
