-- ===== src/Driver/Resolve/Checked.antt =====
-- A signature resolved by liquid-rust-driver/src/resolve.rs, under the sort check of
-- liquid-rust-core/src/wf.rs.
use liquid_rust.Base.{
  ℕ, suc, List, [], ◌∷◌, Option, none, some, arith, Outcome, ok, reported, panicked, NoPanic,
  NoPanic-bind,
}
use mathlib.Core.Option
use liquid_rust.Fixpoint.Constraint.{Sort}
use liquid_rust.Common.Iter.{ErrorReported-semi_group, Result, ErrorReported, try_collect_exhaust}
use liquid_rust.Common.Iter.Exhaust.{run_all, gather, try_collect_exhaust-run_all}
use liquid_rust.Core.Ty.{Name, Var, Ty, Param, FnSig, base_sort}
use liquid_rust.Core.Wf.{
  Env, Step, check_expr, check_pred, check_type, leave, left_by, type_step, ensures_step,
  with_param, param_step, after, propagate, check_fn_sig,
}
use liquid_rust.Driver.Diagnostics.Honest.{Each}
use liquid_rust.Driver.Resolve.Closed.{
  Below, BelowOrBound, TyClosed, ParamAt, Ensured, SignatureClosed,
}
use liquid_rust.Driver.Resolve.Covered.{
  Covers, check_expr-NoPanic, Covers-bound, Covers-left_by, Covers-with_param,
}

-- A traversal or a step that does not panic, and the environment that it leaves.
pub data Completes {R S : Type 0} (I : S → Type 0) : Option (R × S) → Type 0 where
  completes : {r : R} {s : S} → I s → Completes I (some (r, s))

pub leave-Completes :
    {I : Env → Type 0} (env : Env) (m : Outcome (Unit {0}))
    → NoPanic m
    → I env
    → Completes I (leave env m)
leave-Completes env (ok _) h i = completes i
leave-Completes env reported h i = completes i
leave-Completes env panicked h i = elim h [ ]

module _ {A : Type 0} (f : A → Env → Step) (I : ℕ → Env → Type 0) (P : ℕ → A → Type 0)
    (step : (i : ℕ) (a : A) (env : Env) → P i a → I i env → Completes (I (suc i)) (f a env)) where
  run_all-Completes :
      {i n : ℕ} {as' : List A} (env : Env)
      → Each P i as' n
      → I i env
      → Completes (I n) (run_all f as' env)
  unfolding run_all
  run_all-Completes env Each.done i = completes i
  run_all-Completes env (Each.next {i} {n} {t} {ts} p ps) inv =
      one ts (f t env) (step i t env p inv) (λ env' inv'. run_all-Completes env' ps inv')
    where
      map_completes :
          {n : ℕ} (r : Result (Unit {0}) ErrorReported)
          {m : Option (List (Result (Unit {0}) ErrorReported) × Env)}
          → Completes (I n) m
          → Completes (I n) (Option.map (λ (rs, s). (r ∷ rs, s)) m)
      map_completes r (completes i) = completes i

      one :
          {i n : ℕ} (ts : List A) (m : Step)
          → Completes (I (suc i)) m
          → ((env : Env) → I (suc i) env → Completes (I n) (run_all f ts env))
          → Completes
              (I n)
              (elim m as (λ _. Option (List (Result (Unit {0}) ErrorReported) × Env)) [
                | none ↦ none
                | some (r, s') ↦ Option.map (λ (rs, s''). (r ∷ rs, s'')) (run_all f ts s')
              ])
      one ts m (completes {r} {s} i) k = map_completes r (k s i)

  pub collect-Completes :
      {i n : ℕ} {as' : List A} (env : Env)
      → Each P i as' n
      → I i env
      → Completes (I n) (try_collect_exhaust f as' env)
  collect-Completes {as'} env ps i =
      rw (try_collect_exhaust-run_all f as' env) (gathered (run_all-Completes env ps i))
    where
      gathered :
          {n : ℕ} {m : Option (List (Result (Unit {0}) ErrorReported) × Env)}
          → Completes (I n) m
          → Completes (I n) (Option.map (λ (rs, s). (gather f rs, s)) m)
      gathered (completes i) = completes i

pub after-NoPanic :
    {A : Type 0} {I : Env → Type 0} {m : Option (A × Env)} (k : A → Env → Outcome (Unit {0}))
    → Completes I m
    → ((a : A) (env : Env) → I env → NoPanic (k a env))
    → NoPanic (after m k)
after-NoPanic k (completes {r} {s} i) h = h r s i

propagate-NoPanic : {A : Type 0} (r : Result A ErrorReported) → NoPanic (propagate r)
propagate-NoPanic (Result.ok _) = tt
propagate-NoPanic (Result.err _) = tt

abbrev TyVars : ℕ → Ty → Type 0
TyVars n ty = (lo : ℕ) × (hi : ℕ) × TyClosed (record { n = n; lo = lo; hi = hi }) ty

check_type-NoPanic :
    (n : ℕ) (ty : Ty) (env : Env) → TyVars n ty → Covers (Below n) env → NoPanic (check_type ty env)
unfolding check_type check_pred
check_type-NoPanic n ty env (lo, hi, t) h = by_closed t
  where
    by_closed :
        {ty : Ty} → TyClosed (record { n = n; lo = lo; hi = hi }) ty → NoPanic (check_type ty env)
    by_closed (TyClosed.refine {bty} {e} b p) =
        check_expr-NoPanic (Below n) env h e (base_sort bty) p
    by_closed (TyClosed.exists {bty} {e} b p) =
        check_expr-NoPanic (BelowOrBound n) ((Var.bound, base_sort bty) ∷ env)
          (Covers-bound n env (base_sort bty) h) e Sort.bool p
    by_closed (TyClosed.mut_ref a b) = tt
    by_closed TyClosed.param = tt

type_step-Completes :
    (n : ℕ) (ty : Ty) (env : Env)
    → TyVars n ty
    → Covers (Below n) env
    → Completes (Covers (Below n)) (type_step ty env)
unfolding type_step
type_step-Completes n ty env t h =
    leave-Completes (left_by ty env) (check_type ty env) (check_type-NoPanic n ty env t h)
      (Covers-left_by n ty env h)

param_step-Completes :
    (i : ℕ) (p : Param) (env : Env)
    → ParamAt i p
    → Covers (Below i) env
    → Completes (Covers (Below (suc i))) (param_step p env)
unfolding param_step
param_step-Completes i p env a h =
    let covers = Covers-with_param i p env a.name h in
    leave-Completes (with_param p env) (check_expr (with_param p env) p.pred Sort.bool)
      (check_expr-NoPanic (Below (suc i)) (with_param p env) covers p.pred Sort.bool a.pred) covers

-- The ensured types as a plain sequence.
ensured_types :
    {n i last : ℕ} {es : List (Name × Ty)} (j : ℕ)
    → Ensured n i es last
    → (m : ℕ) × Each (λ _ (e : Name × Ty). TyVars n e.1) j es m
ensured_types j Ensured.done = (j, Each.done)
ensured_types j (Ensured.known a b t es) =
    let (m, h) = ensured_types (suc j) es in (m, Each.next (_, _, t) h)
ensured_types j (Ensured.fresh t es) =
    let (m, h) = ensured_types (suc j) es in (m, Each.next (_, _, t) h)

Each-mono :
    {T : Type 0} {P Q : ℕ → T → Type 0} {i n : ℕ} {ts : List T}
    → ((i : ℕ) (t : T) → P i t → Q i t)
    → Each P i ts n
    → Each Q i ts n
Each-mono k Each.done = Each.done
Each-mono k (Each.next p ps) = Each.next (k _ _ p) (Each-mono k ps)

none_covered : Covers (Below 0) []
none_covered Var.bound p = elim p [ ]
none_covered (Var.free m) p = absurd (omega arith)

-- The sort check never panics on a resolved signature.
pub check_fn_sig-NoPanic : (sig : FnSig) → SignatureClosed sig → NoPanic (check_fn_sig sig)
unfolding check_fn_sig ensures_step
check_fn_sig-NoPanic sig (SignatureClosed.closed {n} ps rs as' es r) =
    let (_, es') = ensured_types 0 es in
    after-NoPanic _
      (collect-Completes param_step (λ i. Covers (Below i)) ParamAt param_step-Completes [] ps
        none_covered)
      (λ params env₁ h₁.
        after-NoPanic _
          (collect-Completes type_step (λ _. Covers (Below n)) (λ _. TyVars n)
            (λ _ ty env t h. type_step-Completes n ty env t h) env₁
            (Each-mono (λ _ _ t. (_, _, t)) as') h₁)
          (λ args env₂ h₂.
            after-NoPanic _
              (collect-Completes ensures_step (λ _. Covers (Below n)) (λ _ e. TyVars n e.1)
                (λ _ e env t h. type_step-Completes n e.1 env t h) env₂ es' h₂)
              (λ ensures env₃ h₃.
                after-NoPanic _ (type_step-Completes n sig.ret env₃ (_, _, r) h₃) (λ ret env₄ h₄.
                  NoPanic-bind (propagate args) _ (propagate-NoPanic args) (λ _.
                    NoPanic-bind (propagate ret) _ (propagate-NoPanic ret) (λ _.
                      NoPanic-bind (propagate params) _ (propagate-NoPanic params)
                        (λ _. propagate-NoPanic ensures)))))))
