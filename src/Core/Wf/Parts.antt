-- ===== src/Core/Wf/Parts.antt =====
-- The parts of a signature, which `check_fn_sig` checks in turn, of liquid-rust-core/src/wf.rs against the sorts of the parts of a signature.
use liquid_rust.Base.{
  List, [], ◌∷◌, Option, none, some, ◌≡◌, refl, sym, ap, ◌∙◌, ◌↔◌, ◌⊎◌, ◌≢◌, arith, subst, inl, inr,
  Outcome, ok, reported, panicked, >>=-eq-ok,
}
use liquid_rust.Fixpoint.Constraint.{Sort}
use liquid_rust.Common.Iter.{
  Result, err, ErrorReported, error_reported, ErrorReported-semi_group, note, residuals,
  try_collect_exhaust,
}
use liquid_rust.Common.Iter.Steps.{
  residuals-ok, residuals-ok_inv, residuals-err, residuals-panic, try_collect_exhaust-ok,
  try_collect_exhaust-ok_inv,
}
use liquid_rust.Core.Ty.{Name, Var, Expr, Pred, Ty, BaseTy, FnSig, base_sort}
use liquid_rust.Core.Wf.{
  Env, Step, expect_sort, synth_expr, check_expr, check_pred, check_type, leave, left_by,
  with_param, after, propagate,
}
use liquid_rust.Core.Wf.Sorted.{HasSort, expect_sort_self, expect_sort_inv, synth_expr-HasSort}

-- The refinement of a type is a predicate, or an index of the sort of its base type.
pub data TypeSorted (env : Env) : Ty → Type 0 where
  refine :
      {bty : BaseTy} {e : Expr} → HasSort env e (base_sort bty) → TypeSorted env (Ty.refine bty e)
  exists :
      {bty : BaseTy} {e : Expr}
      → HasSort ((Var.bound, base_sort bty) ∷ env) e Sort.bool
      → TypeSorted env (Ty.exists bty (Pred.expr e))
  mut_ref : {n : Name} → TypeSorted env (Ty.mut_ref n)
  param : {p : _} → TypeSorted env (Ty.param p)

-- Each item is good in the environment that the items before it leave.
pub data InTurn {A : Type 0} (P : Env → A → Type 0) (next : A → Env → Env)
    : List A → Env → Env → Type 0 where
  stop : {env : Env} → InTurn P next [] env env
  step :
      {a : A} {as' : List A} {env env' : Env}
      → P env a
      → InTurn P next as' (next a env) env'
      → InTurn P next (a ∷ as') env env'

-- The signature's parameters, arguments, ensured types and result are well sorted, in this order.
pub data SignatureSorted (sig : FnSig) : Type 0 where
  sorted :
      {env₁ env₂ env₃ : Env}
      → InTurn (λ env p. HasSort (with_param p env) p.pred Sort.bool) with_param sig.params [] env₁
      → InTurn TypeSorted left_by sig.args env₁ env₂
      → InTurn (λ env (b : Name × Ty). TypeSorted env b.1) (λ b. left_by b.1) sig.ensures env₂ env₃
      → TypeSorted env₃ sig.ret
      → SignatureSorted sig

pub check_expr-HasSort :
    (env : Env) (e : Expr) (s : Sort) → (check_expr env e s ≡ ok tt) ↔ HasSort env e s
unfolding check_expr
check_expr-HasSort env e s = (
  λ h.
      let (t, h1, h2) = >>=-eq-ok (synth_expr env e) (λ t. expect_sort s t) h in
      (synth_expr-HasSort env e s).0 (h1 ∙ ap ok (expect_sort_inv s t h2)),
  λ h. rw ((synth_expr-HasSort env e s).1 h, expect_sort_self s),
)

pub check_type-TypeSorted : (env : Env) (ty : Ty) → (check_type ty env ≡ ok tt) ↔ TypeSorted env ty
unfolding check_type check_pred
check_type-TypeSorted env ty = (to ty, from)
  where
    to : (ty : Ty) → check_type ty env ≡ ok tt → TypeSorted env ty
    to (Ty.refine bty e) h = refine ((check_expr-HasSort env e (base_sort bty)).0 h)
    to (Ty.exists bty Pred.infer) h = cc
    to (Ty.exists bty (Pred.expr e)) h =
        exists ((check_expr-HasSort ((Var.bound, base_sort bty) ∷ env) e Sort.bool).0 h)
    to (Ty.mut_ref _) h = mut_ref
    to (Ty.param _) h = param

    from : {ty : Ty} → TypeSorted env ty → check_type ty env ≡ ok tt
    from (refine {bty} {e} h) = (check_expr-HasSort env e (base_sort bty)).1 h
    from (exists {bty} {e} h) =
        (check_expr-HasSort ((Var.bound, base_sort bty) ∷ env) e Sort.bool).1 h
    from mut_ref = refl
    from param = refl

Outcome-cases : (m : Outcome (Unit {0})) → (m ≡ ok tt) ⊎ ((m ≡ reported) ⊎ (m ≡ panicked))
Outcome-cases (ok tt) = inl refl
Outcome-cases reported = inr (inl refl)
Outcome-cases panicked = inr (inr refl)

-- A traversal whose closure is `leave (next a env) (check a env)`.
module _ {A : Type 0} (P : Env → A → Type 0) (next : A → Env → Env)
    (check : A → Env → Outcome (Unit {0}))
    (check-P : (env : Env) (a : A) → (check a env ≡ ok tt) ↔ P env a) where
  unfoldable pub closure : A → Env → Step
  closure a env = leave (next a env) (check a env)

  module _ {a : A} {env : Env} where
    closure-ok : check a env ≡ ok tt → closure a env ≡ some (Result.ok tt, next a env)
    unfolding closure
    closure-ok e = rw e

    closure-reported :
        check a env ≡ reported → closure a env ≡ some (err error_reported, next a env)
    unfolding closure
    closure-reported e = rw e

    closure-panic : check a env ≡ panicked → closure a env ≡ none
    unfolding closure
    closure-panic e = rw e

  note-none : (acc : Option ErrorReported) (e : ErrorReported) → note acc e ≢ none
  unfolding note
  note-none none e = λ h. cc
  note-none (some _) e = λ h. cc

  residuals_inv :
      (as' : List A) (acc : Option ErrorReported) (env : Env) {ts : List (Unit {0})} {env' : Env}
      → residuals closure as' acc env ≡ some (ts, none, env')
      → (acc ≡ none) × InTurn P next as' env env'
  unfolding residuals
  residuals_inv [] acc env {ts} {env'} h =
      let e : (ts ≡ []) × (acc ≡ none) × (env ≡ env') = ground arith in
      (e.1, subst (InTurn P next [] env) e.2 stop)
  residuals_inv (a ∷ as') acc env h = elim (Outcome-cases (check a env)) [
    | inl e ↦
        let (ts', h') = residuals-ok_inv closure a as' acc env (next a env) tt (closure-ok e) h in
        let (e', hs) = residuals_inv as' acc (next a env) h' in (e', step ((check-P env a).0 e) hs)
    | inr (inl e) ↦
        let h' =
          sym (residuals-err closure a as' acc env (next a env) error_reported (closure-reported e))
          ∙ h in
        elim (note-none acc error_reported
          (residuals_inv as' (note acc error_reported) (next a env) h').0) [ ]
    | inr (inr e) ↦ let h' = sym (residuals-panic closure a as' acc env (closure-panic e)) ∙ h in cc
  ]

  residuals_of :
      {as' : List A} {env env' : Env}
      → InTurn P next as' env env'
      → (ts : List (Unit {0})) × (residuals closure as' none env ≡ some (ts, none, env'))
  unfolding residuals
  residuals_of stop = ([], refl)
  residuals_of {env} (step {a} {as'} h hs) =
      let (ts, e) = residuals_of hs in
      (
        tt ∷ ts,
        residuals-ok closure a as' none env (next a env) tt (closure-ok ((check-P env a).1 h)) e,
      )

  -- The whole traversal gives values exactly when each item is good in turn.
  pub traversal_inv :
      (as' : List A) (env : Env) {ts : List (Unit {0})} {env' : Env}
      → try_collect_exhaust closure as' env ≡ some (Result.ok ts, env')
      → InTurn P next as' env env'
  traversal_inv as' env h =
      (residuals_inv as' none env (try_collect_exhaust-ok_inv closure as' env h)).1

  pub traversal_of :
      {as' : List A} {env env' : Env}
      → InTurn P next as' env env'
      → (ts : List (Unit {0})) × (try_collect_exhaust closure as' env ≡ some (Result.ok ts, env'))
  traversal_of {as'} {env} hs =
      let (ts, h) = residuals_of hs in (ts, try_collect_exhaust-ok closure as' env h)

pub propagate_inv :
    {A : Type 0} (r : Result A ErrorReported) → propagate r ≡ ok tt → (a : A) × (r ≡ Result.ok a)
propagate_inv (Result.ok a) h = (a, refl)
propagate_inv (err _) h = cc

pub after_inv :
    {A : Type 0} (o : Option (A × Env)) (k : A → Env → Outcome (Unit {0}))
    → after o k ≡ ok tt
    → (a : A) × (env : Env) × (o ≡ some (a, env)) × (k a env ≡ ok tt)
after_inv none k h = cc
after_inv (some (a, env)) k h = (a, env, refl, h)

pub leave_inv :
    (env env' : Env) (m : Outcome (Unit {0})) (t : Unit {0})
    → leave env m ≡ some (Result.ok t, env')
    → m ≡ ok tt
leave_inv env env' (ok tt) t h = refl
leave_inv env env' reported t h = ground arith
leave_inv env env' panicked t h = cc
