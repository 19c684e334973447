-- ===== src/Common/Iter.antt =====
-- `IterExt` of liquid-rust-common/src/iter.rs: a traversal that runs every item and joins the errors.
-- The items come from `iter.map(f)`, where `f` changes a state and may panic (`none`).
pub mod Exhaust
pub mod Steps
use liquid_rust.Base.{List, [], ◌∷◌, Option, none, some}

pub data Result {ℓ} (T E : Type ℓ) : Type ℓ where
  ok : T → Result T E
  err : E → Result T E

-- The trait `SemiGroup` of liquid-rust-common/src/lib.rs
pub record SemiGroup (E : Type 0) : Type 0 where
  pub append : E → E → E

-- `ErrorReported` of liquid-rust-common/src/errors.rs: a token without content
pub data ErrorReported : Type 0 where
  error_reported : ErrorReported

instance abbrev pub ErrorReported-semi_group : SemiGroup ErrorReported
ErrorReported-semi_group = record { append = λ _ _. error_reported }

infixl 5 ◌>>=◌
abbrev ◌>>=◌ : {A B : Type 0} → Option A → (A → Option B) → Option B
none >>= f = none
some a >>= f = f a

-- A closure over a state `S`: its result and the state that it leaves, or a panic.
abbrev pub Closure : Type 0 → Type 0 → Type 0 → Type 0 → Type 0
Closure S A T E = A → S → Option (Result T E × S)

module _ {E : Type 0} ⦃g : SemiGroup E⦄ where
  -- The accumulator `acc` when one more error arrives.
  unfoldable pub note : Option E → E → Option E
  note none e = some e
  note (some curr) e = some (g.append curr e)

module _ {S A T E : Type 0} ⦃g : SemiGroup E⦄ where
  -- `ReportResiduals { iter, f }.collect()`: the values in order, errors sent to `acc`.
  unfoldable pub residuals :
      Closure S A T E → List A → Option E → S → Option (List T × Option E × S)
  unfolding note
  residuals f [] acc s = some ([], acc, s)
  residuals f (a ∷ as') acc s = f a s >>= λ (r, s'). elim r [
    | ok t ↦ residuals f as' acc s' >>= λ (ts, acc', s''). some (t ∷ ts, acc', s'')
    | err e ↦ residuals f as' (note acc e) s'
  ]

  unfoldable pub try_collect_exhaust : Closure S A T E → List A → S → Option (Result (List T) E × S)
  unfolding residuals
  try_collect_exhaust f as' s = residuals f as' none s >>= λ (v, acc, s').
      some (elim acc [ some e ↦ err e | none ↦ ok v ], s')

  -- The loop of `try_for_each_exhaust`; the value of a closure is `()`, here any `T`.
  unfoldable pub for_each : Closure S A T E → List A → Option E → S → Option (Option E × S)
  unfolding note
  for_each f [] acc s = some (acc, s)
  for_each f (a ∷ as') acc s = f a s >>= λ (r, s'). elim r [
    | ok _ ↦ for_each f as' acc s'
    | err e ↦ for_each f as' (note acc e) s'
  ]

  unfoldable pub try_for_each_exhaust :
      Closure S A T E → List A → S → Option (Result (Unit {0}) E × S)
  unfolding for_each
  try_for_each_exhaust f as' s =
      for_each f as' none s >>= λ (acc, s'). some (elim acc [ some e ↦ err e | none ↦ ok tt ], s')
