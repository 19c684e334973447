-- ===== src/Base/Outcomes.antt =====
-- The outcome of a fallible function: a value, `Err(ErrorReported)`, or a panic (`unwrap` on `None`,
-- `unreachable!`, `todo!`, a missing key, a failed `assert!`).
use mathlib.Core.Path.{◌≡◌, refl}
use mathlib.Core.Option.{Option, none, some}

pub data Outcome {ℓ} (A : Type ℓ) : Type ℓ where
  ok : A → Outcome A
  reported : Outcome A
  panicked : Outcome A

infixl 5 ◌>>=◌ ◌>>◌
abbrev pub ◌>>=◌ {ℓ κ} : {A : Type ℓ} {B : Type κ} → Outcome A → (A → Outcome B) → Outcome B
ok a >>= f = f a
reported >>= f = reported
panicked >>= f = panicked

abbrev pub ◌>>◌ {ℓ} : {B : Type ℓ} → Outcome (Unit {0}) → Outcome B → Outcome B
m >> k = m >>= λ _. k

-- `Option::unwrap`
abbrev pub unwrap {ℓ} : {A : Type ℓ} → Option A → Outcome A
unwrap none = panicked
unwrap (some a) = ok a

-- `assert!` on a decision
abbrev pub assert {ℓ} : {P : Type ℓ} → Dec P → Outcome (Unit {0})
assert (yes _) = ok tt
assert (no _) = panicked

-- The inversion of a bind that gives a value.
pub >>=-eq-ok {ℓ κ} :
    {A : Type ℓ} {B : Type κ} (m : Outcome A) (f : A → Outcome B) {b : B}
    → (m >>= f) ≡ ok b
    → (value : A) × (m ≡ ok value) × (f value ≡ ok b)
>>=-eq-ok reported f h = cc
>>=-eq-ok panicked f h = cc
>>=-eq-ok (ok value) f h = (value, refl, h)

-- A value or a reported error.
abbrev pub NoPanic : {A : Type 0} → Outcome A → Type 0
NoPanic (ok _) = Unit
NoPanic reported = Unit
NoPanic panicked = ⊥

pub NoPanic-bind :
    {A B : Type 0} (m : Outcome A) (f : A → Outcome B)
    → NoPanic m
    → ((a : A) → NoPanic (f a))
    → NoPanic (m >>= f)
NoPanic-bind (ok a) f h k = k a
NoPanic-bind reported f h k = tt
NoPanic-bind panicked f h k = h

-- The function gives a value, without error or panic, and `P` holds of it.
pub data Returns {ℓ κ} {A : Type ℓ} (P : A → Type κ) : Outcome A → Type (ℓ ⊔ κ) where
  returns : {a : A} → P a → Returns P (ok a)

module _ {ℓ κ} {A : Type ℓ} {P : A → Type κ} where
  pub Returns-mono {κ'} :
      {Q : A → Type κ'} {m : Outcome A} → Returns P m → ((a : A) → P a → Q a) → Returns Q m
  Returns-mono (returns {a} h) k = returns (k a h)

  pub Returns-bind {ℓ' κ'} :
      {B : Type ℓ'} {Q : B → Type κ'} {m : Outcome A} {f : A → Outcome B}
      → Returns P m
      → ((a : A) → P a → Returns Q (f a))
      → Returns Q (m >>= f)
  Returns-bind (returns {a} h) k = k a h

  -- The value itself.
  pub Returns-value : {m : Outcome A} → Returns P m → (a : A) × (m ≡ ok a) × P a
  Returns-value (returns {a} h) = (a, refl, h)

pub of_returns {ℓ κ} : {A : Type ℓ} (P : A → Type κ) (a : A) → Returns P (ok a) → P a
of_returns P a (returns h) = h

module _ {ℓ κ μ} {A : Type ℓ} {X : Type μ} {P : X → A → Type κ} where
  -- What holds of the value for each `x` holds of it for all.
  pub Returns-forall :
      (m : Outcome A) (x₀ : X) → ((x : X) → Returns (P x) m) → Returns (λ a. (x : X) → P x a) m
  Returns-forall (ok a) x₀ h = returns (λ x. of_returns (P x) a (h x))
  Returns-forall reported x₀ h = elim (h x₀) [ ]
  Returns-forall panicked x₀ h = elim (h x₀) [ ]
