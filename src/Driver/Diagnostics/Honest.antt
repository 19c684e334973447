-- ===== src/Driver/Diagnostics/Honest.antt =====
-- Functions that report through `Diagnostics` of liquid-rust-driver/src/resolve.rs: they return an
-- error exactly if they emit one.
use liquid_rust.Base.{
  ℕ, suc, List, [], ◌∷◌, ◌++◌, none, some, ◌≡◌, refl, subst, ap, append_assoc, length, arith, ◌+◌,
  ◌<◌, inl, inr, Option-cases,
}
use liquid_rust.Common.Iter.{
  Result, ok, err, ErrorReported, error_reported, ErrorReported-semi_group, Closure,
  try_collect_exhaust,
}
use liquid_rust.Common.Iter.Exhaust.{
  run_all, gather, values, errors, join, try_collect_exhaust-run_all,
}
use liquid_rust.Driver.Diagnostics.{
  Error, Diagnostics, Run, reject, value, and_then, zip, with_first, both,
}

abbrev pub settled : List Error → Diagnostics
settled reports = record { errors = 0; reports = reports }

-- No panic, and no unreturned error: either a value of which `P` holds and nothing emitted, or an error and
-- at least one report behind those of before. `I` holds of the state that is left.
pub data Honest {X T : Type 0} (I : X → Type 0) (P : T → Type 0) (reports : List Error)
    : Run X T → Type 0 where
  fine : {x : X} {t : T} → I x → P t → Honest I P reports (some (ok t, (x, settled reports)))
  failed :
      {x : X} (e : Error) (es : List Error)
      → I x
      → Honest I P reports (some (err error_reported, (x, settled (reports ++ (e ∷ es)))))

module _ {X T : Type 0} {I : X → Type 0} {P : T → Type 0} where
  pub Honest-value :
      (x : X) (reports : List Error) (t : T)
      → I x
      → P t
      → Honest I P reports (value t (x, settled reports))
  Honest-value x reports t i p = fine i p

  pub Honest-reject :
      (e : Error) (x : X) (reports : List Error)
      → I x
      → Honest I P reports (reject e (x, settled reports))
  Honest-reject e x reports i = failed e [] i

  pub Honest-mono :
      {J : X → Type 0} {Q : T → Type 0} {reports : List Error} {m : Run X T}
      → Honest I P reports m
      → ((x : X) → I x → J x)
      → ((t : T) → P t → Q t)
      → Honest J Q reports m
  Honest-mono (fine {x} {t} i p) j q = fine (j x i) (q t p)
  Honest-mono (failed {x} e es i) j q = failed e es (j x i)

  pub Honest-and_then :
      {U : Type 0} {J : X → Type 0} {Q : U → Type 0} {reports : List Error} {m : Run X T}
      (k : T → X × Diagnostics → Run X U)
      → Honest I P reports m
      → ((t : T) (x : X) → I x → P t → Honest J Q reports (k t (x, settled reports)))
      → ((x : X) → I x → J x)
      → Honest J Q reports (and_then m k)
  Honest-and_then f (fine {x} {t} i p) k j = k t x i p
  Honest-and_then f (failed {x} e es i) k j = failed e es (j x i)

-- The second result behind a failed first one, and behind a value.
module _ {X T U V : Type 0} {J : X → Type 0} {Q : U → Type 0} {R : V → Type 0} (f : T → U → V) where
  with_first-err :
      (reports : List Error) (e : Error) (es : List Error) (m : Run X U)
      → Honest J Q (reports ++ (e ∷ es)) m
      → Honest J R reports (with_first f (err error_reported) m)
  with_first-err reports e es _ (fine i q) = failed e es i
  with_first-err reports e es _ (failed {x} e' es' i) =
      rw (append_assoc reports (e ∷ es) (e' ∷ es')) (failed e (es ++ (e' ∷ es')) i)

  with_first-ok :
      (t : T) {reports : List Error} {m : Run X U}
      → ((u : U) → Q u → R (f t u))
      → Honest J Q reports m
      → Honest J R reports (with_first f (ok t) m)
  with_first-ok t r (fine {x} {t = u} i q) = fine i (r u q)
  with_first-ok t r (failed {x} e es i) = failed e es i

  pub Honest-both :
      {I : X → Type 0} {P : T → Type 0} {reports : List Error} {m : Run X T}
      (k : X × Diagnostics → Run X U)
      → Honest I P reports m
      → ((x : X) (reports : List Error) → I x → Honest J Q reports (k (x, settled reports)))
      → ((t : T) (u : U) → P t → Q u → R (f t u))
      → Honest J R reports (both f m k)
  Honest-both {I} {reports} k (fine {x} {t} i p) h r =
      with_first-ok t (λ u q. r t u p q) (h x reports i)
  Honest-both {I} {reports} {m} k (failed {x} e es i) h r =
      with_first-err reports e es (k (x, settled (reports ++ (e ∷ es))))
        (h x (reports ++ (e ∷ es)) i)

one_error : (e : ErrorReported) → e ≡ error_reported
one_error error_reported = refl

-- The result of a traversal: the first result, then the rest.
module _ {X A T : Type 0} (f : Closure (X × Diagnostics) A T ErrorReported) where
  gather-cons :
      (r : Result T ErrorReported) (rs : List (Result T ErrorReported))
      → gather f (r ∷ rs) ≡ zip (λ t ts. t ∷ ts) r (gather f rs)
  unfolding gather values errors join
  gather-cons (ok t) rs = elim (Option-cases (join none (errors rs))) [
    | inl e ↦ rw (e, gather) refl
    | inr (error_reported, e) ↦ rw (e, gather) refl
  ]
  gather-cons (err error_reported) rs = ap err (one_error _)

  pub collect-nil : (s : X × Diagnostics) → try_collect_exhaust f [] s ≡ value [] s
  unfolding run_all gather values errors join
  collect-nil s = rw (try_collect_exhaust-run_all f [] s) refl

  pub collect_cons :
      (a : A) (as' : List A) (s : X × Diagnostics)
      → try_collect_exhaust f (a ∷ as') s
        ≡ both (λ t ts. t ∷ ts) (f a s) (λ s. try_collect_exhaust f as' s)
  unfolding run_all
  collect_cons a as' s =
      rw (try_collect_exhaust-run_all f (a ∷ as') s) (elim (Option-cases (f a s)) [
        | inl e ↦ rw (e, run_all) refl
        | inr ((r, s'), e) ↦
            rw (e, run_all, try_collect_exhaust-run_all f as' s')
              (elim (Option-cases (run_all f as' s')) [
                | inl e' ↦ rw e' refl
                | inr ((rs, (x, d)), e') ↦ rw (e', gather-cons r rs) refl
              ])
      ])

-- `P i` holds of the value at each position, counted from `i` up to `n`.
pub data Each {T : Type 0} (P : ℕ → T → Type 0) : ℕ → List T → ℕ → Type 0 where
  done : {i : ℕ} → Each P i [] i
  next : {i n : ℕ} {t : T} {ts : List T} → P i t → Each P (suc i) ts n → Each P i (t ∷ ts) n

-- A traversal up to the position `n`, with an invariant for each position.
module _ {X A T : Type 0} (f : Closure (X × Diagnostics) A T ErrorReported) (I : ℕ → X → Type 0)
    (P : ℕ → T → Type 0) (n : ℕ)
    (step : (i : ℕ) (a : A) (x : X) (reports : List Error)
      → i < n
      → I i x
      → Honest (I (suc i)) (P i) reports (f a (x, settled reports))) where
  pub Honest-collect :
      (i : ℕ) (as' : List A) (x : X) (reports : List Error)
      → i + length as' ≡ n
      → I i x
      → Honest (I n) (λ ts. Each P i ts n) reports (try_collect_exhaust f as' (x, settled reports))
  Honest-collect i [] x reports h inv =
      subst
        (λ k.
          Honest (I k) (λ ts. Each P i ts k) reports
            (try_collect_exhaust f [] (x, settled reports)))
        {x = i} (omega arith) (rw (collect-nil f (x, settled reports)) (fine inv done))
  Honest-collect i (a ∷ as') x reports h inv = rw (collect_cons f a as' (x, settled reports)) (
      Honest-both (λ t ts. t ∷ ts) (λ s. try_collect_exhaust f as' s)
        (step i a x reports (omega arith) inv)
        (λ x' reports' inv'. Honest-collect (suc i) as' x' reports' (omega arith) inv')
        (λ t ts p ps. next p ps))
