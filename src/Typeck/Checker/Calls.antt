-- ===== src/Typeck/Checker/Calls.antt =====
-- `check_call` of liquid-rust-typeck/src/checker.rs up to the jump to the block that follows.
use liquid_rust.Base.{List, [], ◌∷◌, Option, none, some, Outcome, ok, ◌>>=◌, unwrap}
use liquid_rust.Core.Ir.{Operand}
use liquid_rust.Core.Ty as Core
use liquid_rust.Fixpoint.Constraint.{Name}
use liquid_rust.Typeck.Ty.{Loc, Pred, Ty, DefId}
use liquid_rust.Typeck.Builder as Builder
use liquid_rust.Typeck.Builder.{Cursor, push_head, fresh_name}
use liquid_rust.Typeck.Builder.Subtyping.{Variance}
use liquid_rust.Typeck.Lowering.{
  Subst, insert_loc, lower_loc, lower_expr, lower_ty, infer_from_fn_call, with_type_substs,
}
use liquid_rust.Typeck.TypeEnv as TypeEnv
use liquid_rust.Typeck.TypeEnv.{TypeEnv, lookup_loc, update_loc, cursor_subtyping}
use liquid_rust.Typeck.Checker.{check_operand}

-- The actual arguments, from left to right
unfoldable pub check_operands : TypeEnv → List Operand → Outcome (List Ty × TypeEnv)
check_operands env [] = ok ([], env)
check_operands env (arg ∷ args) = do
  (ty, env₁) ← check_operand env arg
  (tys, env₂) ← check_operands env₁ args
  ok (ty ∷ tys, env₂)

-- The predicates of the parameters are obligations of the caller.
unfoldable pub push_params : Subst → Cursor → List Core.Param → Outcome Cursor
push_params subst c [] = ok c
push_params subst c (param ∷ params) = do
  e ← lower_expr subst param.pred
  c₁ ← push_head c (Pred.expr e)
  push_params subst c₁ params

module _ (variances_of : DefId → List Variance) where
  -- Each argument is a subtype of its formal type, as far as both lists go.
  unfoldable pub check_args : Subst → Cursor → List Ty → List Core.Ty → Outcome Cursor
  check_args subst c (actual ∷ actuals) (formal ∷ formals) = do
    (formal', c₁) ← lower_ty subst c formal
    c₂ ← cursor_subtyping variances_of c₁ actual formal'
    check_args subst c₂ actuals formals
  check_args subst c _ _ = ok c

  unfoldable pub check_requires : TypeEnv → Subst → Cursor → List (Name × Core.Ty) → Outcome Cursor
  check_requires env subst c [] = ok c
  check_requires env subst c ((x, required) ∷ requires) = do
    loc ← unwrap (lower_loc subst x)
    actual ← unwrap (lookup_loc env loc)
    (required', c₁) ← lower_ty subst c required
    c₂ ← cursor_subtyping variances_of c₁ actual required'
    check_requires env subst c₂ requires

  -- An ensured location that the call knows is updated; another one is fresh.
  unfoldable pub ensure_loc :
      Option Loc → TypeEnv → Subst → Cursor → Name → Ty → Outcome (TypeEnv × (Subst × Cursor))
  ensure_loc (some loc) env subst c x ty = do
    (env₁, c₁) ← update_loc variances_of env c loc ty
    ok (env₁, (subst, c₁))
  ensure_loc none env subst c x ty = do
    let (name, c₁) = fresh_name c
    let loc = Loc.abstract name
    ok (TypeEnv.insert_loc env loc ty, (insert_loc subst x loc, c₁))

  unfoldable pub apply_ensures :
      TypeEnv → Subst → Cursor → List (Name × Core.Ty) → Outcome (TypeEnv × (Subst × Cursor))
  apply_ensures env subst c [] = ok (env, (subst, c))
  apply_ensures env subst c ((x, updated) ∷ ensures) = do
    (lowered, c₁) ← lower_ty subst c updated
    (ty, c₂) ← Builder.unpack c₁ lowered
    (env₁, (subst₁, c₃)) ← ensure_loc (lower_loc subst x) env subst c₂ x ty
    apply_ensures env₁ subst₁ c₃ ensures

  -- An inference error is reported.
  unfoldable pub call_effects :
      TypeEnv
      → Cursor
      → Core.FnSig
      → List Core.Ty
      → List Operand
      → Outcome (TypeEnv × (Subst × Cursor))
  call_effects env c sig substs args = do
    (actuals, env₁) ← check_operands env args
    (subst₀, c₁) ← with_type_substs c substs
    subst ← infer_from_fn_call subst₀ (lookup_loc env₁) actuals sig
    c₂ ← push_params subst c₁ sig.params
    c₃ ← check_args subst c₂ actuals sig.args
    c₄ ← check_requires env₁ subst c₃ sig.requires
    apply_ensures env₁ subst c₄ sig.ensures
