-- ===== src/Core/Ty.antt =====
-- The resolved signatures of liquid-rust-core/src/ty.rs. `BinOp` is that of
-- liquid-rust-syntax/src/ast.rs. Spans are only reported, and left out.
use liquid_rust.Base.{ℕ, Bool, true, List, ℕ_discrete}
use liquid_rust.Base.Int.{ℤ}
use liquid_rust.Fixpoint.Constraint.{Sort}
use liquid_rust.Typeck.Ty.{DefId, IntTy, ParamTy}

abbrev pub Name : Type 0
Name = ℕ

pub data BinOp : Type 0 where
  iff imp or and eq lt le gt ge add sub : BinOp

pub data Var : Type 0 where
  bound : Var
  free : Name → Var

unfoldable pub Var-discrete : Discrete Var
Var-discrete = hlevel ℕ_discrete

pub data Lit : Type 0 where
  int : ℤ → Lit
  bool : Bool → Lit

pub data Expr : Type 0 where
  var : Var → Expr
  literal : Lit → Expr
  binary_op : BinOp → Expr → Expr → Expr

-- `Expr::TRUE`
abbrev pub true_expr : Expr
true_expr = Expr.literal (Lit.bool true)

pub data Pred : Type 0 where
  infer : Pred
  expr : Expr → Pred

-- `Tys` is the vector of the arguments of an algebraic type.
mutual
  pub data Ty : Type 0 where
    refine : BaseTy → Expr → Ty
    exists : BaseTy → Pred → Ty
    mut_ref : Name → Ty
    param : ParamTy → Ty

  pub data BaseTy : Type 0 where
    int : IntTy → BaseTy
    uint : IntTy → BaseTy
    bool : BaseTy
    adt : DefId → Tys → BaseTy

  pub data Tys : Type 0 where
    nil : Tys
    cons : Ty → Tys → Tys

pub record Param : Type 0 where
  pub name : Name
  pub sort : Sort
  pub pred : Expr

pub record FnSig : Type 0 where
  pub params : List Param
  pub requires : List (Name × Ty)
  pub args : List Ty
  pub ret : Ty
  pub ensures : List (Name × Ty)

-- `BaseTy::sort`
abbrev pub base_sort : BaseTy → Sort
base_sort (BaseTy.int _) = Sort.int
base_sort (BaseTy.uint _) = Sort.int
base_sort BaseTy.bool = Sort.bool
base_sort (BaseTy.adt _ _) = Sort.int

-- `Lit::sort`
abbrev pub lit_sort : Lit → Sort
lit_sort (Lit.int _) = Sort.int
lit_sort (Lit.bool _) = Sort.bool
