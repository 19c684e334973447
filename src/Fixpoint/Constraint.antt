-- ===== src/Fixpoint/Constraint.antt =====
-- The data types of liquid-rust-fixpoint/src/constraint.rs, and operator precedence. A `Name` and a
-- `KVid` are their indices. The `u128` of a constant is its value.
use liquid_rust.Base.{ℕ, Bool, true, false, List, ℕ_discrete}

abbrev pub Name : Type 0
Name = ℕ

abbrev pub Kvid : Type 0
Kvid = ℕ

pub data Sort : Type 0 where
  int bool : Sort

unfoldable pub Sort-discrete : Discrete Sort
Sort-discrete = hlevel

pub data BinOp : Type 0 where
  iff imp or and eq ne gt ge lt le add sub mul div : BinOp

unfoldable pub BinOp-discrete : Discrete BinOp
BinOp-discrete = hlevel

pub data UnOp : Type 0 where
  not neg : UnOp

pub data Sign : Type 0 where
  positive negative : Sign

pub data Constant : Type 0 where
  int : Sign → ℕ → Constant
  bool : Bool → Constant

unfoldable pub Constant-discrete : Discrete Constant
Constant-discrete = hlevel ℕ_discrete

pub data Expr : Type 0 where
  var : Name → Expr
  constant : Constant → Expr
  binary_op : BinOp → Expr → Expr → Expr
  unary_op : UnOp → Expr → Expr

-- `Preds` is the vector of a conjunction.
mutual
  pub data Pred : Type 0 where
    and : Preds → Pred
    kvar : Kvid → List Name → Pred
    expr : Expr → Pred

  pub data Preds : Type 0 where
    nil : Preds
    cons : Pred → Preds → Preds

-- `Constraints` is the vector of a conjunction.
mutual
  pub data Constraint : Type 0 where
    pred : Pred → Constraint
    conj : Constraints → Constraint
    guard : Expr → Constraint → Constraint
    for_all : Name → Sort → Pred → Constraint → Constraint

  pub data Constraints : Type 0 where
    nil : Constraints
    cons : Constraint → Constraints → Constraints

-- `Constraint::TRUE`
abbrev pub true_constraint : Constraint
true_constraint = Constraint.pred (Pred.expr (Expr.constant (Constant.bool true)))

-- `KVar(KVid, Vec<Sort>)` and `Fixpoint` of liquid-rust-fixpoint/src/lib.rs
pub record Kvar : Type 0 where
  pub kvid : Kvid
  pub sorts : List Sort

pub record Fixpoint : Type 0 where
  pub kvars : List Kvar
  pub constraint : Constraint

pub data Precedence : Type 0 where
  iff imp or and cmp add_sub mul_div : Precedence

unfoldable pub precedence : BinOp → Precedence
precedence BinOp.iff = Precedence.iff
precedence BinOp.imp = Precedence.imp
precedence BinOp.or = Precedence.or
precedence BinOp.and = Precedence.and
precedence BinOp.eq = Precedence.cmp
precedence BinOp.ne = Precedence.cmp
precedence BinOp.gt = Precedence.cmp
precedence BinOp.ge = Precedence.cmp
precedence BinOp.lt = Precedence.cmp
precedence BinOp.le = Precedence.cmp
precedence BinOp.add = Precedence.add_sub
precedence BinOp.sub = Precedence.add_sub
precedence BinOp.mul = Precedence.mul_div
precedence BinOp.div = Precedence.mul_div

-- The position of a variant, by which the derived `PartialOrd` and `PartialEq` compare.
unfoldable pub rank : Precedence → ℕ
rank Precedence.iff = 0
rank Precedence.imp = 1
rank Precedence.or = 2
rank Precedence.and = 3
rank Precedence.cmp = 4
rank Precedence.add_sub = 5
rank Precedence.mul_div = 6

unfoldable pub is_associative : Precedence → Bool
is_associative Precedence.imp = false
is_associative Precedence.cmp = false
is_associative _ = true
