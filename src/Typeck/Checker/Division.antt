-- ===== src/Typeck/Checker/Division.antt =====
-- What the checker, liquid-rust-typeck/src/checker.rs, obliges a program to at a division.
use liquid_rust.Base.{ℕ_discrete, ◌≡◌, refl, ap, sym, subst, List, ok, ◌>>◌, assert, >>=-eq-ok}
use liquid_rust.Fixpoint.Constraint.{BinOp}
use liquid_rust.Core.Ir as Ir
use liquid_rust.Core.Ir.{Operand, Place, Rvalue, Statement}
use liquid_rust.Typeck.Ty.{Expr, Pred, Ty, BaseTy, IntTy, DefId, zero_expr}
use liquid_rust.Typeck.Ty.Meaning.{Structure, Env, eval}
use liquid_rust.Typeck.Builder.{Cursor, push_head}
use liquid_rust.Typeck.Builder.Along.{Along}
use liquid_rust.Typeck.Builder.Translate.Closed.{HoldsNode}
use liquid_rust.Typeck.Builder.Subtyping.{Variance}
use liquid_rust.Typeck.Builder.Soundness.Steps.{push_head-ProvesBy}
use liquid_rust.Typeck.Builder.Keeps.{Keeps}
use liquid_rust.Typeck.TypeEnv.{TypeEnv}
use liquid_rust.Typeck.TypeEnv.Keeps.{write_place-Keeps}
use liquid_rust.Typeck.Checker.{
  check_operand, arith_operands, check_divisor, check_arith_op, check_binary_ty, check_binary_op,
  check_rvalue, check_statement,
}

-- The types whose values can be divided
pub data IsArith : BaseTy → Type 0 where
  int : {int_ty : IntTy} → IsArith (BaseTy.int int_ty)
  uint : {uint_ty : IntTy} → IsArith (BaseTy.uint uint_ty)

-- The operands have the indices `e1` and `e2` of one arithmetic type, and a tree of `c'` that holds makes
-- `e2`, the index of the second operand, different from zero at the place of `c`.
pub record DivisorChecked (ty1 ty2 : Ty) (c c' : Cursor) : Type 1 where
  pub bty : BaseTy
  pub e1 : Expr
  pub e2 : Expr
  pub arith_ty : IsArith bty
  pub dividend : ty1 ≡ Ty.refine bty e1
  pub divisor : ty2 ≡ Ty.refine bty e2
  pub non_zero :
      (M : Structure) (ν : M.Value) (ρ : Env M)
      → HoldsNode M ν ρ c'.root
      → Along M ν c.root c.node ρ
          (λ ρ'. M.IsTrue (M.binary BinOp.ne (eval M ν ρ' e2) (eval M ν ρ' zero_expr)))

-- The operands of an arithmetic operation
abbrev Operands : Ty → Ty → BaseTy × (Expr × Expr) → Type 0
Operands ty1 ty2 (bty, (e1, e2)) = IsArith bty × (ty1 ≡ Ty.refine bty e1) × (ty2 ≡ Ty.refine bty e2)

same_ty :
    {A : Type 0} (i j : IntTy) (a b : A)
    → assert (ℕ_discrete i j) >> ok a ≡ ok b
    → (i ≡ j) × (a ≡ b)
same_ty i j a b = elim (ℕ_discrete i j) as (λ d. assert d >> ok a ≡ ok b → (i ≡ j) × (a ≡ b)) [
  | yes same ↦ λ h. let same_value : a ≡ b = cc in (same, same_value)
  | no _ ↦ λ h. cc
]

arith_operands-Operands :
    (ty1 ty2 : Ty) (r : BaseTy × (Expr × Expr)) → arith_operands ty1 ty2 ≡ ok r → Operands ty1 ty2 r
unfolding arith_operands
arith_operands-Operands (Ty.refine (BaseTy.int i) e1) (Ty.refine (BaseTy.int j) e2) r h =
    let (same, value) = same_ty i j (BaseTy.int i, (e1, e2)) r h in
    subst (Operands _ _) value (int, refl, ap (λ k. Ty.refine (BaseTy.int k) e2) (sym same))
arith_operands-Operands (Ty.refine (BaseTy.uint i) e1) (Ty.refine (BaseTy.uint j) e2) r h =
    let (same, value) = same_ty i j (BaseTy.uint i, (e1, e2)) r h in
    subst (Operands _ _) value (uint, refl, ap (λ k. Ty.refine (BaseTy.uint k) e2) (sym same))
arith_operands-Operands _ _ r h = cc

DivisorChecked-Keeps :
    {ty1 ty2 : Ty} {c c₁ c' : Cursor}
    → DivisorChecked ty1 ty2 c c₁
    → Keeps c₁ c'
    → DivisorChecked ty1 ty2 c c'
DivisorChecked-Keeps d k = record {
  bty = d.bty;
  e1 = d.e1;
  e2 = d.e2;
  arith_ty = d.arith_ty;
  dividend = d.dividend;
  divisor = d.divisor;
  non_zero = λ M ν ρ h. d.non_zero M ν ρ (k.implies M ν ρ h);
}

check_arith_op-divisor :
    (c : Cursor) (ty1 ty2 ty : Ty) (c' : Cursor)
    → check_arith_op c BinOp.div ty1 ty2 ≡ ok (ty, c')
    → DivisorChecked ty1 ty2 c c'
unfolding check_arith_op check_divisor eval
check_arith_op-divisor c ty1 ty2 ty c' h =
    let ((bty, (e1, e2)), k1, k2) = >>=-eq-ok (arith_operands ty1 ty2) _ h in
    let non_zero = Pred.expr (Expr.binary_op BinOp.ne e2 zero_expr) in
    let (c₁, k3, k4) = >>=-eq-ok (push_head c non_zero) _ k2 in
    let same : c₁ ≡ c' = cc in
    let (arith_ty, dividend, divisor) = arith_operands-Operands ty1 ty2 (bty, (e1, e2)) k1 in
    record {
      bty = bty;
      e1 = e1;
      e2 = e2;
      arith_ty = arith_ty;
      dividend = dividend;
      divisor = divisor;
      non_zero = λ M ν ρ holds.
          (push_head-ProvesBy M ν c non_zero c₁ k3).proves ρ
            (subst (λ d. HoldsNode M ν ρ d.root) (sym same) holds);
    }

-- Both operands are typed, from left to right, and the second one is checked as a divisor.
pub record DivisionChecked (env : TypeEnv) (op1 op2 : Operand) (c c' : Cursor) : Type 1 where
  pub ty1 : Ty
  pub ty2 : Ty
  pub env1 : TypeEnv
  pub env2 : TypeEnv
  pub first : check_operand env op1 ≡ ok (ty1, env1)
  pub second : check_operand env1 op2 ≡ ok (ty2, env2)
  pub divisor : DivisorChecked ty1 ty2 c c'

check_binary_op-division :
    (env : TypeEnv) (c : Cursor) (op1 op2 : Operand) (ty : Ty) (env' : TypeEnv) (c' : Cursor)
    → check_binary_op env c Ir.BinOp.div op1 op2 ≡ ok (ty, (env', c'))
    → DivisionChecked env op1 op2 c c'
unfolding check_binary_op check_binary_ty
check_binary_op-division env c op1 op2 ty env' c' h =
    let ((ty1, env₁), k1, k2) = >>=-eq-ok (check_operand env op1) _ h in
    let ((ty2, env₂), k3, k4) = >>=-eq-ok (check_operand env₁ op2) _ k2 in
    let ((ty', c₁), k5, k6) = >>=-eq-ok (check_arith_op c BinOp.div ty1 ty2) _ k4 in
    let same : c₁ ≡ c' = cc in
    record {
      ty1 = ty1;
      ty2 = ty2;
      env1 = env₁;
      env2 = env₂;
      first = k1;
      second = k3;
      divisor = subst (DivisorChecked ty1 ty2 c) same (check_arith_op-divisor c ty1 ty2 ty' c₁ k5);
    }

-- Where the check of an assignment of a division gives an environment and a cursor, the type of the
-- first operand has an index of an integer type, that of the second one an index of the same type, and
-- a tree that holds afterwards makes the second operand's index different from zero at the place of the
-- cursor, under the binders and guards above it.
pub check_statement-division :
    (variances_of : DefId → List Variance) (env : TypeEnv) (c : Cursor) (place : Place)
    (op1 op2 : Operand) (env' : TypeEnv) (c' : Cursor)
    → check_statement variances_of env c
        (Statement.assign place (Rvalue.binary_op Ir.BinOp.div op1 op2))
      ≡ ok (env', c')
    → DivisionChecked env op1 op2 c c'
unfolding check_statement check_rvalue
check_statement-division variances_of env c place op1 op2 env' c' h =
    let ((ty, (env₁, c₁)), h1, h2) = >>=-eq-ok (check_binary_op env c Ir.BinOp.div op1 op2) _ h in
    let d = check_binary_op-division env c op1 op2 ty env₁ c₁ h1 in
    record {
      ty1 = d.ty1;
      ty2 = d.ty2;
      env1 = d.env1;
      env2 = d.env2;
      first = d.first;
      second = d.second;
      divisor =
          DivisorChecked-Keeps d.divisor
            (write_place-Keeps variances_of env₁ c₁ place ty (env', c') h2);
    }
