-- ===== src/Common/Iter/Steps.antt =====
-- The steps of the traversal of liquid-rust-common/src/iter.rs, one closure call at a time.
use liquid_rust.Base.{List, ◌∷◌, Option, none, some, ◌≡◌, arith, inl, inr, Option-cases}
use liquid_rust.Common.Iter.{ok, err, SemiGroup, Closure, note, residuals, try_collect_exhaust}

module _ {S A T E : Type 0} ⦃g : SemiGroup E⦄ (f : Closure S A T E) (a : A) (as' : List A) where
  pub residuals-ok :
      (acc : Option E) (s s' : S) (t : T) {ts : List T} {acc' : Option E} {s'' : S}
      → f a s ≡ some (ok t, s')
      → residuals f as' acc s' ≡ some (ts, acc', s'')
      → residuals f (a ∷ as') acc s ≡ some (t ∷ ts, acc', s'')
  unfolding residuals
  residuals-ok acc s s' t e h = rw (e, h)

  pub residuals-ok_inv :
      (acc : Option E) (s s' : S) (t : T) {ts : List T} {acc' : Option E} {s'' : S}
      → f a s ≡ some (ok t, s')
      → residuals f (a ∷ as') acc s ≡ some (ts, acc', s'')
      → (ts' : List T) × (residuals f as' acc s' ≡ some (ts', acc', s''))
  unfolding residuals
  residuals-ok_inv acc s s' t e h = elim (Option-cases (residuals f as' acc s')) [
    | inl n ↦ ground (arith)
    | inr ((ts', _, _), e') ↦ (ts', ground arith)
  ]

  pub residuals-err :
      (acc : Option E) (s s' : S) (x : E)
      → f a s ≡ some (err x, s')
      → residuals f (a ∷ as') acc s ≡ residuals f as' (note acc x) s'
  unfolding residuals
  residuals-err acc s s' x h = rw h

  pub residuals-panic : (acc : Option E) (s : S) → f a s ≡ none → residuals f (a ∷ as') acc s ≡ none
  unfolding residuals
  residuals-panic acc s h = rw h

module _ {S A T E : Type 0} ⦃g : SemiGroup E⦄ (f : Closure S A T E) (as' : List A) (s : S) where
  pub try_collect_exhaust-ok :
      {ts : List T} {s' : S}
      → residuals f as' none s ≡ some (ts, none, s')
      → try_collect_exhaust f as' s ≡ some (ok ts, s')
  unfolding try_collect_exhaust
  try_collect_exhaust-ok h = rw h

  pub try_collect_exhaust-ok_inv :
      {ts : List T} {s' : S}
      → try_collect_exhaust f as' s ≡ some (ok ts, s')
      → residuals f as' none s ≡ some (ts, none, s')
  unfolding try_collect_exhaust
  try_collect_exhaust-ok_inv h = ground arith
