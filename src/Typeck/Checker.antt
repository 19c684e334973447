-- ===== src/Typeck/Checker.antt =====
-- `Checker` of liquid-rust-typeck/src/checker.rs: operands, rvalues and statements.
pub mod Calls
pub mod Flow
pub mod Run
pub mod Keeps
pub mod FlowKeeps
pub mod RunKeeps
pub mod Division
pub mod Obligations
use liquid_rust.Base.{ℕ, suc, List, [], ◌∷◌, Outcome, ok, panicked, ◌>>=◌, ◌>>◌, assert, ℕ_discrete}
use liquid_rust.Base.Int.{ℤ}
use liquid_rust.Fixpoint.Constraint.{BinOp, Sign, Constant}
use liquid_rust.Core.Ir as Ir
use liquid_rust.Core.Ir.{Operand, Rvalue, Statement}
use liquid_rust.Typeck.Ty.{
  Expr, Pred, Ty, BaseTy, DefId, zero_expr, not_expr, neg_expr, constant_of_u128, Expr-discrete,
  Pred-discrete, Loc-discrete,
}
use liquid_rust.Typeck.Builder.{Cursor, push_head}
use liquid_rust.Typeck.Builder.Subtyping.{Variance, ParamTy-discrete}
use liquid_rust.Typeck.TypeEnv.{TypeEnv, lookup_place, move_place, get_loc, write_place}

pub BaseTy-discrete : Discrete BaseTy
BaseTy-discrete = hlevel (ℕ_discrete, Expr-discrete, Pred-discrete, Loc-discrete, ParamTy-discrete)

-- `Constant::from(i128)`
unfoldable pub constant_of_i128 : ℤ → Constant
constant_of_i128 (ℤ.pos n) = Constant.int Sign.positive n
constant_of_i128 (ℤ.negsuc n) = Constant.int Sign.negative (suc n)

unfoldable pub check_constant : Ir.Constant → Ty
check_constant (Ir.Constant.int n int_ty) =
    Ty.refine (BaseTy.int int_ty) (Expr.constant (constant_of_i128 n))
check_constant (Ir.Constant.uint n uint_ty) =
    Ty.refine (BaseTy.uint uint_ty) (Expr.constant (constant_of_u128 n))
check_constant (Ir.Constant.bool b) = Ty.refine BaseTy.bool (Expr.constant (Constant.bool b))

unfoldable pub check_operand : TypeEnv → Operand → Outcome (Ty × TypeEnv)
check_operand env (Operand.copy place) = do ty ← lookup_place env place; ok (ty, env)
check_operand env (Operand.move place) = move_place env place
check_operand env (Operand.constant const) = ok (check_constant const, env)

unfoldable pub check_unary_ty : Ir.UnOp → Ty → Outcome Ty
check_unary_ty Ir.UnOp.not (Ty.refine BaseTy.bool e) = ok (Ty.refine BaseTy.bool (not_expr e))
check_unary_ty Ir.UnOp.neg (Ty.refine (BaseTy.int int_ty) e) =
    ok (Ty.refine (BaseTy.int int_ty) (neg_expr e))
check_unary_ty _ _ = panicked

unfoldable pub check_unary_op : TypeEnv → Ir.UnOp → Operand → Outcome (Ty × TypeEnv)
check_unary_op env un_op op = do
  (ty, env₁) ← check_operand env op
  ty' ← check_unary_ty un_op ty
  ok (ty', env₁)

unfoldable pub check_eq : BinOp → Ty → Ty → Outcome Ty
check_eq op (Ty.refine bty1 e1) (Ty.refine bty2 e2) = do
  assert (BaseTy-discrete bty1 bty2)
  ok (Ty.refine BaseTy.bool (Expr.binary_op op e1 e2))
check_eq op _ _ = panicked

unfoldable pub check_cmp_op : BinOp → Ty → Ty → Outcome Ty
check_cmp_op op (Ty.refine (BaseTy.int int_ty1) e1) (Ty.refine (BaseTy.int int_ty2) e2) = do
  assert (ℕ_discrete int_ty1 int_ty2)
  ok (Ty.refine BaseTy.bool (Expr.binary_op op e1 e2))
check_cmp_op op (Ty.refine (BaseTy.uint uint_ty1) e1) (Ty.refine (BaseTy.uint uint_ty2) e2) = do
  assert (ℕ_discrete uint_ty1 uint_ty2)
  ok (Ty.refine BaseTy.bool (Expr.binary_op op e1 e2))
check_cmp_op op _ _ = panicked

-- The operands' base type and indices
unfoldable pub arith_operands : Ty → Ty → Outcome (BaseTy × (Expr × Expr))
arith_operands (Ty.refine (BaseTy.int int_ty1) e1) (Ty.refine (BaseTy.int int_ty2) e2) = do
  assert (ℕ_discrete int_ty1 int_ty2)
  ok (BaseTy.int int_ty1, (e1, e2))
arith_operands (Ty.refine (BaseTy.uint uint_ty1) e1) (Ty.refine (BaseTy.uint uint_ty2) e2) = do
  assert (ℕ_discrete uint_ty1 uint_ty2)
  ok (BaseTy.uint uint_ty1, (e1, e2))
arith_operands _ _ = panicked

-- A divisor must not be zero.
unfoldable pub check_divisor : Cursor → BinOp → Expr → Outcome Cursor
check_divisor c BinOp.div e2 = push_head c (Pred.expr (Expr.binary_op BinOp.ne e2 zero_expr))
check_divisor c _ e2 = ok c

unfoldable pub check_arith_op : Cursor → BinOp → Ty → Ty → Outcome (Ty × Cursor)
check_arith_op c op ty1 ty2 = do
  (bty, (e1, e2)) ← arith_operands ty1 ty2
  c₁ ← check_divisor c op e2
  ok (Ty.refine bty (Expr.binary_op op e1 e2), c₁)

-- The match of `check_binary_op` on the operator
unfoldable pub check_binary_ty : Cursor → Ir.BinOp → Ty → Ty → Outcome (Ty × Cursor)
check_binary_ty c Ir.BinOp.eq ty1 ty2 = do ty ← check_eq BinOp.eq ty1 ty2; ok (ty, c)
check_binary_ty c Ir.BinOp.ne ty1 ty2 = do ty ← check_eq BinOp.ne ty1 ty2; ok (ty, c)
check_binary_ty c Ir.BinOp.add ty1 ty2 = check_arith_op c BinOp.add ty1 ty2
check_binary_ty c Ir.BinOp.sub ty1 ty2 = check_arith_op c BinOp.sub ty1 ty2
check_binary_ty c Ir.BinOp.mul ty1 ty2 = check_arith_op c BinOp.mul ty1 ty2
check_binary_ty c Ir.BinOp.div ty1 ty2 = check_arith_op c BinOp.div ty1 ty2
check_binary_ty c Ir.BinOp.gt ty1 ty2 = do ty ← check_cmp_op BinOp.gt ty1 ty2; ok (ty, c)
check_binary_ty c Ir.BinOp.lt ty1 ty2 = do ty ← check_cmp_op BinOp.lt ty1 ty2; ok (ty, c)
check_binary_ty c Ir.BinOp.le ty1 ty2 = do ty ← check_cmp_op BinOp.le ty1 ty2; ok (ty, c)

unfoldable pub check_binary_op :
    TypeEnv → Cursor → Ir.BinOp → Operand → Operand → Outcome (Ty × (TypeEnv × Cursor))
check_binary_op env c bin_op op1 op2 = do
  (ty1, env₁) ← check_operand env op1
  (ty2, env₂) ← check_operand env₁ op2
  (ty, c₁) ← check_binary_ty c bin_op ty1 ty2
  ok (ty, (env₂, c₁))

unfoldable pub check_rvalue : TypeEnv → Cursor → Rvalue → Outcome (Ty × (TypeEnv × Cursor))
check_rvalue env c (Rvalue.use_op op) = do (ty, env₁) ← check_operand env op; ok (ty, (env₁, c))
check_rvalue env c (Rvalue.binary_op bin_op op1 op2) = check_binary_op env c bin_op op1 op2
check_rvalue env c (Rvalue.mut_ref place) = do
  loc ← get_loc env place
  ok (Ty.strg_ref loc, (env, c))
check_rvalue env c (Rvalue.unary_op un_op op) = do
  (ty, env₁) ← check_unary_op env un_op op
  ok (ty, (env₁, c))

module _ (variances_of : DefId → List Variance) where
  unfoldable pub check_statement : TypeEnv → Cursor → Statement → Outcome (TypeEnv × Cursor)
  check_statement env c (Statement.assign place rvalue) = do
    (ty, (env₁, c₁)) ← check_rvalue env c rvalue
    write_place variances_of env₁ c₁ place ty
  check_statement env c Statement.nop = ok (env, c)

  -- The loop of `check_basic_block`
  unfoldable pub check_statements : TypeEnv → Cursor → List Statement → Outcome (TypeEnv × Cursor)
  check_statements env c [] = ok (env, c)
  check_statements env c (stmt ∷ stmts) = do
    (env₁, c₁) ← check_statement env c stmt
    check_statements env₁ c₁ stmts
