-- ===== src/Typeck/Checker/Keeps.antt =====
-- No step of the checker, liquid-rust-typeck/src/checker.rs, loses an obligation.
use liquid_rust.Base.{List, [], ◌∷◌, Outcome, ok, ◌>>=◌, unwrap, Option, none, some, refl, arith}
use liquid_rust.Fixpoint.Constraint.{Name, BinOp}
use liquid_rust.Core.Ir as Ir
use liquid_rust.Core.Ir.{BasicBlock, Operand, Place, Rvalue, Statement, SwitchTargets, Terminator}
use liquid_rust.Core.Ty as Core
use liquid_rust.Typeck.Ty.{Loc, Expr, Pred, Ty, DefId, zero_expr}
use liquid_rust.Typeck.Builder.{Cursor, fresh_name}
use liquid_rust.Typeck.Builder.Subtyping.{Variance}
use liquid_rust.Typeck.Builder.Keeps.{Keeps-refl, Keeps-same, push_head-KeepsBy}
use liquid_rust.Typeck.Builder.Monotone.{
  KeepsVia, KeepsVia-ok, KeepsVia-pure, KeepsVia-bind, itself, second, third, unpack-KeepsVia,
}
use liquid_rust.Typeck.Lowering.{Subst, lower_loc, lower_expr, infer_from_fn_call}
use liquid_rust.Typeck.Lowering.Keeps.{lower_ty-Keeps, with_type_substs-Keeps}
use liquid_rust.Typeck.TypeEnv.{TypeEnv, lookup_loc, get_loc}
use liquid_rust.Typeck.TypeEnv.Keeps.{cursor_subtyping-Keeps, update_loc-Keeps, write_place-Keeps}
use liquid_rust.Typeck.Checker.{
  check_operand, check_unary_op, check_eq, check_cmp_op, arith_operands, check_divisor,
  check_arith_op, check_binary_ty, check_binary_op, check_rvalue, check_statement, check_statements,
}
use liquid_rust.Typeck.Checker.Calls.{
  check_operands, push_params, check_args, check_requires, ensure_loc, apply_ensures, call_effects,
}

check_divisor-Keeps :
    (c : Cursor) (op : BinOp) (e : Expr) → KeepsVia itself c (check_divisor c op e)
unfolding check_divisor
check_divisor-Keeps c BinOp.div e =
    push_head-KeepsBy c (Pred.expr (Expr.binary_op BinOp.ne e zero_expr))
check_divisor-Keeps c _ e = KeepsVia-ok itself c c (Keeps-refl c)

check_arith_op-Keeps :
    (c : Cursor) (op : BinOp) (ty1 ty2 : Ty) → KeepsVia second c (check_arith_op c op ty1 ty2)
unfolding check_arith_op
check_arith_op-Keeps c op ty1 ty2 =
    KeepsVia-pure second c (arith_operands ty1 ty2) _ λ (bty, (e1, e2)).
      KeepsVia-bind second itself c _ _ (check_divisor-Keeps c op e2)
        λ c₁. KeepsVia-ok second c₁ _ (Keeps-refl c₁)

-- A type computed without the cursor
pure_ty-Keeps : (c : Cursor) (m : Outcome Ty) → KeepsVia second c (m >>= λ ty. ok (ty, c))
pure_ty-Keeps c m = KeepsVia-pure second c m _ λ ty. KeepsVia-ok second c _ (Keeps-refl c)

check_binary_ty-Keeps :
    (c : Cursor) (op : Ir.BinOp) (ty1 ty2 : Ty) → KeepsVia second c (check_binary_ty c op ty1 ty2)
unfolding check_binary_ty
check_binary_ty-Keeps c Ir.BinOp.eq ty1 ty2 = pure_ty-Keeps c (check_eq BinOp.eq ty1 ty2)
check_binary_ty-Keeps c Ir.BinOp.ne ty1 ty2 = pure_ty-Keeps c (check_eq BinOp.ne ty1 ty2)
check_binary_ty-Keeps c Ir.BinOp.add ty1 ty2 = check_arith_op-Keeps c BinOp.add ty1 ty2
check_binary_ty-Keeps c Ir.BinOp.sub ty1 ty2 = check_arith_op-Keeps c BinOp.sub ty1 ty2
check_binary_ty-Keeps c Ir.BinOp.mul ty1 ty2 = check_arith_op-Keeps c BinOp.mul ty1 ty2
check_binary_ty-Keeps c Ir.BinOp.div ty1 ty2 = check_arith_op-Keeps c BinOp.div ty1 ty2
check_binary_ty-Keeps c Ir.BinOp.gt ty1 ty2 = pure_ty-Keeps c (check_cmp_op BinOp.gt ty1 ty2)
check_binary_ty-Keeps c Ir.BinOp.lt ty1 ty2 = pure_ty-Keeps c (check_cmp_op BinOp.lt ty1 ty2)
check_binary_ty-Keeps c Ir.BinOp.le ty1 ty2 = pure_ty-Keeps c (check_cmp_op BinOp.le ty1 ty2)

check_rvalue-Keeps :
    (env : TypeEnv) (c : Cursor) (rvalue : Rvalue) → KeepsVia third c (check_rvalue env c rvalue)
unfolding check_rvalue check_binary_op
check_rvalue-Keeps env c (Rvalue.use_op op) =
    KeepsVia-pure third c (check_operand env op) _
      λ (ty, env₁). KeepsVia-ok third c _ (Keeps-refl c)
check_rvalue-Keeps env c (Rvalue.binary_op bin_op op1 op2) =
    KeepsVia-pure third c (check_operand env op1) _ λ (ty1, env₁).
      KeepsVia-pure third c (check_operand env₁ op2) _ λ (ty2, env₂).
        KeepsVia-bind third second c _ _ (check_binary_ty-Keeps c bin_op ty1 ty2)
          λ (ty, c₁). KeepsVia-ok third c₁ _ (Keeps-refl c₁)
check_rvalue-Keeps env c (Rvalue.mut_ref place) =
    KeepsVia-pure third c (get_loc env place) _ λ loc. KeepsVia-ok third c _ (Keeps-refl c)
check_rvalue-Keeps env c (Rvalue.unary_op un_op op) =
    KeepsVia-pure third c (check_unary_op env un_op op) _
      λ (ty, env₁). KeepsVia-ok third c _ (Keeps-refl c)

pub push_params-Keeps :
    (subst : Subst) (c : Cursor) (params : List Core.Param)
    → KeepsVia itself c (push_params subst c params)
unfolding push_params
push_params-Keeps subst c [] = KeepsVia-ok itself c c (Keeps-refl c)
push_params-Keeps subst c (param ∷ params) =
    KeepsVia-pure itself c (lower_expr subst param.pred) _ λ e.
      KeepsVia-bind itself itself c _ _ (push_head-KeepsBy c (Pred.expr e))
        λ c₁. push_params-Keeps subst c₁ params

module _ (variances_of : DefId → List Variance) where
  pub check_statements-Keeps :
      (env : TypeEnv) (c : Cursor) (stmts : List Statement)
      → KeepsVia second c (check_statements variances_of env c stmts)
  unfolding check_statements check_statement
  check_statements-Keeps env c [] = KeepsVia-ok second c _ (Keeps-refl c)
  check_statements-Keeps env c (Statement.assign place rvalue ∷ stmts) =
      KeepsVia-bind second second c _ _
        (KeepsVia-bind second third c _ _ (check_rvalue-Keeps env c rvalue)
          λ (ty, (env₁, c₁)). write_place-Keeps variances_of env₁ c₁ place ty)
        λ (env₂, c₂). check_statements-Keeps env₂ c₂ stmts
  check_statements-Keeps env c (Statement.nop ∷ stmts) = check_statements-Keeps env c stmts

  pub check_args-Keeps :
      (subst : Subst) (c : Cursor) (actuals : List Ty) (formals : List Core.Ty)
      → KeepsVia itself c (check_args variances_of subst c actuals formals)
  unfolding check_args
  check_args-Keeps subst c (actual ∷ actuals) (formal ∷ formals) =
      KeepsVia-bind itself second c _ _ (lower_ty-Keeps subst c formal) λ (formal', c₁).
        KeepsVia-bind itself itself c₁ _ _ (cursor_subtyping-Keeps variances_of c₁ actual formal')
          λ c₂. check_args-Keeps subst c₂ actuals formals
  check_args-Keeps subst c _ _ = KeepsVia-ok itself c c (Keeps-refl c)

  pub check_requires-Keeps :
      (env : TypeEnv) (subst : Subst) (c : Cursor) (requires : List (Name × Core.Ty))
      → KeepsVia itself c (check_requires variances_of env subst c requires)
  unfolding check_requires
  check_requires-Keeps env subst c [] = KeepsVia-ok itself c c (Keeps-refl c)
  check_requires-Keeps env subst c ((x, required) ∷ requires) =
      KeepsVia-pure itself c (unwrap (lower_loc subst x)) _ λ loc.
        KeepsVia-pure itself c (unwrap (lookup_loc env loc)) _ λ actual.
          KeepsVia-bind itself second c _ _ (lower_ty-Keeps subst c required) λ (required', c₁).
            KeepsVia-bind itself itself c₁ _ _
              (cursor_subtyping-Keeps variances_of c₁ actual required')
              λ c₂. check_requires-Keeps env subst c₂ requires

  ensure_loc-Keeps :
      (o : Option Loc) (env : TypeEnv) (subst : Subst) (c : Cursor) (x : Name) (ty : Ty)
      → KeepsVia third c (ensure_loc variances_of o env subst c x ty)
  unfolding ensure_loc fresh_name
  ensure_loc-Keeps (some loc) env subst c x ty =
      KeepsVia-bind third second c _ _ (update_loc-Keeps variances_of env c loc ty)
        λ (env₁, c₁). KeepsVia-ok third c₁ _ (Keeps-refl c₁)
  ensure_loc-Keeps none env subst c x ty =
      KeepsVia-ok third c _ (Keeps-same c (fresh_name c).1 refl (omega arith))

  pub apply_ensures-Keeps :
      (env : TypeEnv) (subst : Subst) (c : Cursor) (ensures : List (Name × Core.Ty))
      → KeepsVia third c (apply_ensures variances_of env subst c ensures)
  unfolding apply_ensures
  apply_ensures-Keeps env subst c [] = KeepsVia-ok third c _ (Keeps-refl c)
  apply_ensures-Keeps env subst c ((x, updated) ∷ ensures) =
      KeepsVia-bind third second c _ _ (lower_ty-Keeps subst c updated) λ (lowered, c₁).
        KeepsVia-bind third second c₁ _ _ (unpack-KeepsVia c₁ lowered) λ (ty, c₂).
          KeepsVia-bind third third c₂ _ _ (ensure_loc-Keeps (lower_loc subst x) env subst c₂ x ty)
            λ (env₁, (subst₁, c₃)). apply_ensures-Keeps env₁ subst₁ c₃ ensures

  pub call_effects-Keeps :
      (env : TypeEnv) (c : Cursor) (sig : Core.FnSig) (substs : List Core.Ty) (args : List Operand)
      → KeepsVia third c (call_effects variances_of env c sig substs args)
  unfolding call_effects
  call_effects-Keeps env c sig substs args =
      KeepsVia-pure third c (check_operands env args) _ λ (actuals, env₁).
        KeepsVia-bind third second c _ _ (with_type_substs-Keeps c substs) λ (subst₀, c₁).
          KeepsVia-pure third c₁ (infer_from_fn_call subst₀ (lookup_loc env₁) actuals sig) _
            λ subst. KeepsVia-bind third itself c₁ _ _ (push_params-Keeps subst c₁ sig.params) λ c₂.
              KeepsVia-bind third itself c₂ _ _ (check_args-Keeps subst c₂ actuals sig.args) λ c₃.
                KeepsVia-bind third itself c₃ _ _ (check_requires-Keeps env₁ subst c₃ sig.requires)
                  λ c₄. apply_ensures-Keeps env₁ subst c₄ sig.ensures
