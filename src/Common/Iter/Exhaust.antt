-- ===== src/Common/Iter/Exhaust.antt =====
-- `try_collect_exhaust` and `try_for_each_exhaust` against: run everything, then look at the results.
use liquid_rust.Base.{List, [], ◌∷◌, Option, none, some, ◌≡◌, refl, arith, inl, inr, Option-cases}
use mathlib.Core.Option
use mathlib.Core.List.{foldl}
use liquid_rust.Common.Iter.{
  Result, ok, err, SemiGroup, Closure, note, residuals, try_collect_exhaust, for_each,
  try_for_each_exhaust,
}

-- Every closure is run, in order, whatever the earlier results were.
unfoldable pub run_all :
    {S A T E : Type 0} → Closure S A T E → List A → S → Option (List (Result T E) × S)
run_all f [] s = some ([], s)
run_all f (a ∷ as') s = elim (f a s) [
  | none ↦ none
  | some (r, s') ↦ Option.map (λ (rs, s''). (r ∷ rs, s'')) (run_all f as' s')
]

module _ {T E : Type 0} where
  unfoldable pub values : List (Result T E) → List T
  values [] = []
  values (ok t ∷ rs) = t ∷ values rs
  values (err _ ∷ rs) = values rs

  unfoldable pub errors : List (Result T E) → List E
  errors [] = []
  errors (ok _ ∷ rs) = errors rs
  errors (err e ∷ rs) = e ∷ errors rs

module _ {E : Type 0} ⦃g : SemiGroup E⦄ where
  -- Several errors become one, appended from left to right.
  unfoldable pub join : Option E → List E → Option E
  join acc [] = acc
  join none (e ∷ es) = some (foldl g.append e es)
  join (some c) (e ∷ es) = some (foldl g.append c (e ∷ es))

  join-note : (acc : Option E) (e : E) (es : List E) → join (note acc e) es ≡ join acc (e ∷ es)
  unfolding join note
  join-note none e [] = refl
  join-note none e (x ∷ es) = refl
  join-note (some c) e [] = refl
  join-note (some c) e (x ∷ es) = refl

module _ {S A T E : Type 0} ⦃g : SemiGroup E⦄ (f : Closure S A T E) where
  residuals-step :
      (as' : List A) (a : A) (acc : Option E) (s : S) (o : Option (Result T E × S))
      → f a s ≡ o
      → ((acc : Option E) (s : S)
          → residuals f as' acc s
            ≡ Option.map (λ (rs, s'). (values rs, join acc (errors rs), s')) (run_all f as' s))
      → residuals f (a ∷ as') acc s
        ≡ Option.map (λ (rs, s'). (values rs, join acc (errors rs), s')) (run_all f (a ∷ as') s)
  unfolding residuals run_all values errors
  residuals-step as' a acc s none e ih = ground arith
  residuals-step as' a acc s (some (ok t, s')) e ih = ground (arith, ih acc s')
  residuals-step as' a acc s (some (err x, s')) e ih =
      rw (e, run_all) (simp (e, ih, join-note, Option.map-map))

  residuals-run_all :
      (as' : List A) (acc : Option E) (s : S)
      → residuals f as' acc s
        ≡ Option.map (λ (rs, s'). (values rs, join acc (errors rs), s')) (run_all f as' s)
  unfolding residuals run_all values errors join
  residuals-run_all [] acc s = refl
  residuals-run_all (a ∷ as') acc s =
      residuals-step as' a acc s (f a s) refl (residuals-run_all as')

  for_each-step :
      (as' : List A) (a : A) (acc : Option E) (s : S) (o : Option (Result T E × S))
      → f a s ≡ o
      → ((acc : Option E) (s : S)
          → for_each f as' acc s ≡ Option.map (λ (_, acc', s'). (acc', s')) (residuals f as' acc s))
      → for_each f (a ∷ as') acc s
        ≡ Option.map (λ (_, acc', s'). (acc', s')) (residuals f (a ∷ as') acc s)
  unfolding for_each residuals
  for_each-step as' a acc s none e ih = ground arith
  for_each-step as' a acc s (some (ok t, s')) e ih = ground (arith, ih acc s')
  for_each-step as' a acc s (some (err x, s')) e ih = ground (arith, ih (note acc x) s')

  for_each-residuals :
      (as' : List A) (acc : Option E) (s : S)
      → for_each f as' acc s ≡ Option.map (λ (_, acc', s'). (acc', s')) (residuals f as' acc s)
  unfolding for_each residuals
  for_each-residuals [] acc s = refl
  for_each-residuals (a ∷ as') acc s =
      for_each-step as' a acc s (f a s) refl (for_each-residuals as')

  -- All values if there is no error, else the errors joined from left to right.
  unfoldable pub gather : List (Result T E) → Result (List T) E
  unfolding values errors join
  gather rs = elim (join none (errors rs)) [ some e ↦ err e | none ↦ ok (values rs) ]

  -- `try_collect_exhaust` runs every closure in order, also behind errors, and leaves the state
  -- that they leave. It gives all values if no closure failed, else the errors of all closures
  -- joined from left to right. It panics exactly if a closure does.
  pub try_collect_exhaust-run_all :
      (as' : List A) (s : S)
      → try_collect_exhaust f as' s ≡ Option.map (λ (rs, s'). (gather rs, s')) (run_all f as' s)
  unfolding try_collect_exhaust gather
  try_collect_exhaust-run_all as' s =
      rw (residuals-run_all as' none s)
        (elim (Option-cases (run_all f as' s)) [ inl e ↦ rw e | inr (r, e) ↦ rw e ])

  -- `try_for_each_exhaust` runs the same closures, and differs from `try_collect_exhaust` only in
  -- that it forgets the values: same errors, same final state, same panics.
  pub try_for_each_exhaust-try_collect_exhaust :
      (as' : List A) (s : S)
      → try_for_each_exhaust f as' s
        ≡ Option.map
            (λ (r, s'). (elim r [ ok _ ↦ ok tt | err e ↦ err e ], s'))
            (try_collect_exhaust f as' s)
  unfolding try_for_each_exhaust try_collect_exhaust
  try_for_each_exhaust-try_collect_exhaust as' s =
      rw (for_each-residuals as' none s) (elim (Option-cases (residuals f as' none s)) [
        | inl e ↦ rw e
        | inr ((v, none, s'), e) ↦ rw e
        | inr ((v, some x, s'), e) ↦ rw e
      ])
