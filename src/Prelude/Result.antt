-- ===== src/Prelude/Result.antt =====
-- Python exceptions as values: the built-in ones that the modelled code can meet.
use mathlib.Core.Path.{◌≡◌, refl, subst}
use native.Mathlib.Omega.{arith}
use mathlib.Core.Logic.{◌⊎◌, inl, inr}

pub data PyError : Type 0 where
  key_error value_error type_error : PyError

-- What a call returns or raises.
pub data Outcome {ℓ} (E : Type 0) (A : Type ℓ) : Type ℓ where
  ok : A → Outcome E A
  raise : E → Outcome E A

abbrev pub Result {ℓ} : Type ℓ → Type ℓ
Result A = Outcome PyError A

infixl 5 ◌>>=◌
abbrev pub ◌>>=◌ {ℓ κ} :
    {E : Type 0} {A : Type ℓ} {B : Type κ} → Outcome E A → (A → Outcome E B) → Outcome E B
ok a >>= f = f a
raise e >>= f = raise e

-- Whatever is returned satisfies `P`; an exception promises nothing.
abbrev pub Ensures {ℓ κ} : {E : Type 0} {A : Type ℓ} → (A → Type κ) → Outcome E A → Type κ
Ensures P (ok a) = P a
Ensures P (raise e) = Unit

module _ {ℓ κ} {E : Type 0} {A : Type ℓ} (P : A → Type κ) where
  pub Ensures-of_ok : (m : Outcome E A) → ((a : A) → m ≡ ok a → P a) → Ensures P m
  Ensures-of_ok (ok a) h = h a refl
  Ensures-of_ok (raise e) h = tt

  pub Ensures-ok : {m : Outcome E A} {a : A} → Ensures P m → m ≡ ok a → P a
  Ensures-ok {m} {a} h e = subst (Ensures P) e h

module _ {ℓ κ μ ν} {E : Type 0} {A : Type ℓ} {B : Type κ} (P : A → Type μ) (Q : B → Type ν) where
  pub Ensures-bind :
      (m : Outcome E A) (f : A → Outcome E B)
      → Ensures P m
      → ((a : A) → P a → Ensures Q (f a))
      → Ensures Q (m >>= f)
  Ensures-bind (ok a) f h k = k a h
  Ensures-bind (raise e) f h k = tt

module _ {ℓ κ ν} {E : Type 0} {A : Type ℓ} {B : Type κ} (Q : B → Type ν) where
  -- Where the continuation ensures `Q` on its own.
  pub Ensures-each :
      (m : Outcome E A) (f : A → Outcome E B) → ((a : A) → Ensures Q (f a)) → Ensures Q (m >>= f)
  Ensures-each (ok a) f k = k a
  Ensures-each (raise e) f k = tt

pub ok_of_ne {ℓ} :
    {A : Type ℓ} (m : Result A) → ((e : PyError) → m ≡ raise e → ⊥) → (a : A) × (m ≡ ok a)
ok_of_ne (ok a) h = (a, refl)
ok_of_ne (raise e) h = absurd (h e refl)

pub Outcome-cases {ℓ} :
    {E : Type 0} {A : Type ℓ} (m : Outcome E A) → ((e : E) × (m ≡ raise e)) ⊎ ((a : A) × (m ≡ ok a))
Outcome-cases (ok a) = inr (a, refl)
Outcome-cases (raise e) = inl (e, refl)

module _ {ℓ κ} {E : Type 0} {A : Type ℓ} {B : Type κ} where
  pub bind_ok :
      (m : Outcome E A) (f : A → Outcome E B) {b : B}
      → (m >>= f) ≡ ok b
      → (a : A) × (m ≡ ok a) × (f a ≡ ok b)
  bind_ok (ok a) f h = (a, refl, h)
  bind_ok (raise e) f h = absurd (ground arith)

pub ok_inj {ℓ} : {E : Type 0} {A : Type ℓ} {a b : A} → Path (Outcome E A) (ok a) (ok b) → a ≡ b
ok_inj h = ground (arith, h)
