-- ===== src/Typeck/Ty.antt =====
-- The refinement types of liquid-rust-typeck/src/ty.rs and the operations on them. Interning
-- (`Interned<TyS>`) shares equal values and compares them by content, so a type is its content here.
-- `DefId`, `IntTy`, `UintTy`, `Local` and `Symbol` are rustc's: the code only compares them (and
-- orders `Local`), so they are numbers.
pub mod Meaning
pub mod Bits
use liquid_rust.Base.{
  ℕ, ◌+◌, ◌-◌, ◌%◌, ◌^◌, Bool, true, false, ◌||◌, List, [], ◌∷◌, ◌++◌, map, ◌==◌, ltb,
  if◌then◌else◌, Option, some, none, Outcome, ok, panicked, ℕ_discrete,
}
use mathlib.Core.Bool.{not}
use liquid_rust.Fixpoint.Constraint.{
  Name, Kvid, Sort, BinOp, UnOp, Sign, Constant, BinOp-discrete, Constant-discrete,
}
use Prim.Native.Nat.{compare, Ordering}

abbrev pub DefId : Type 0
DefId = ℕ

abbrev pub Symbol : Type 0
Symbol = ℕ

abbrev pub Local : Type 0
Local = ℕ

abbrev pub IntTy : Type 0
IntTy = ℕ

pub record ParamTy : Type 0 where
  pub index : ℕ
  pub name : Symbol

pub data Var : Type 0 where
  bound : Var
  free : Name → Var

pub data Loc : Type 0 where
  local : Local → Loc
  abstract : Name → Loc

pub data Expr : Type 0 where
  var : Var → Expr
  constant : Constant → Expr
  binary_op : BinOp → Expr → Expr → Expr
  unary_op : UnOp → Expr → Expr

unfoldable pub Expr-discrete : Discrete Expr
Expr-discrete = hlevel (ℕ_discrete, Constant-discrete, BinOp-discrete)

unfoldable pub Loc-discrete : Discrete Loc
Loc-discrete = hlevel ℕ_discrete

pub data Pred : Type 0 where
  kvar : Kvid → List Expr → Pred
  expr : Expr → Pred

pub Pred-discrete : Discrete Pred
Pred-discrete = hlevel (ℕ_discrete, Expr-discrete)

-- `Tys` is the vector in `Substs`.
mutual
  pub data Ty : Type 0 where
    refine : BaseTy → Expr → Ty
    exists : BaseTy → Pred → Ty
    uninit : Ty
    strg_ref : Loc → Ty
    ref : Ty → Ty
    param : ParamTy → Ty

  pub data BaseTy : Type 0 where
    int : IntTy → BaseTy
    uint : IntTy → BaseTy
    bool : BaseTy
    adt : DefId → Tys → BaseTy

  pub data Tys : Type 0 where
    nil : Tys
    cons : Ty → Tys → Tys

abbrev pub is_uninit : Ty → Bool
is_uninit Ty.uninit = true
is_uninit _ = false

-- `BaseTy::sort`
abbrev pub base_sort : BaseTy → Sort
base_sort (BaseTy.int _) = Sort.int
base_sort (BaseTy.uint _) = Sort.int
base_sort BaseTy.bool = Sort.bool
base_sort (BaseTy.adt _ _) = Sort.int

-- The types that `walk` visits, in the order in which it visits them.
unfoldable mutual
  pub walk : Ty → List Ty
  walk (Ty.refine bty e) = Ty.refine bty e ∷ walk_base bty
  walk (Ty.exists bty p) = Ty.exists bty p ∷ walk_base bty
  walk (Ty.ref ty) = Ty.ref ty ∷ walk ty
  walk Ty.uninit = Ty.uninit ∷ []
  walk (Ty.strg_ref loc) = Ty.strg_ref loc ∷ []
  walk (Ty.param p) = Ty.param p ∷ []

  pub walk_base : BaseTy → List Ty
  walk_base (BaseTy.adt _ substs) = walk_substs substs
  walk_base (BaseTy.int _) = []
  walk_base (BaseTy.uint _) = []
  walk_base BaseTy.bool = []

  pub walk_substs : Tys → List Ty
  walk_substs Tys.nil = []
  walk_substs (Tys.cons ty tys) = walk ty ++ walk_substs tys

-- `Expr::tt` and `Expr::zero`
abbrev pub tt_expr : Expr
tt_expr = Expr.constant (Constant.bool true)

abbrev pub zero_expr : Expr
zero_expr = Expr.constant (Constant.int Sign.positive 0)

-- `Constant::from(u128)`
abbrev pub constant_of_u128 : ℕ → Constant
constant_of_u128 c = Constant.int Sign.positive c

-- `Constant::from(i128)` of `c as i128`, for the bits `c` of a `u128`: the sign and the absolute
-- value. The negation of the least value wraps around, as in a build without overflow checks.
abbrev pub constant_of_i128_bits : ℕ → Constant
constant_of_i128_bits bits =
    if ltb bits (2 ^ 127)
    then Constant.int Sign.positive bits
    else Constant.int Sign.negative (2 ^ 128 - bits)

-- `Expr::from_bits`; the bits are a `u128`
unfoldable pub from_bits : BaseTy → ℕ → Outcome Expr
from_bits (BaseTy.int _) bits = ok (Expr.constant (constant_of_i128_bits bits))
from_bits (BaseTy.uint _) bits = ok (Expr.constant (constant_of_u128 bits))
from_bits BaseTy.bool bits = ok (Expr.constant (Constant.bool (not (bits == 0))))
from_bits (BaseTy.adt _ _) bits = panicked

-- `Expr::not` and `Expr::neg`
abbrev pub not_expr : Expr → Expr
not_expr e = Expr.unary_op UnOp.not e

abbrev pub neg_expr : Expr → Expr
neg_expr e = Expr.unary_op UnOp.neg e

abbrev pub is_true_expr : Expr → Bool
is_true_expr (Expr.constant (Constant.bool true)) = true
is_true_expr _ = false

-- `ExprS::is_atom`
abbrev pub is_atom_expr : Expr → Bool
is_atom_expr (Expr.var _) = true
is_atom_expr (Expr.constant _) = true
is_atom_expr (Expr.unary_op _ _) = true
is_atom_expr (Expr.binary_op _ _ _) = false

-- `ExprS::subst_bound_vars`
unfoldable pub subst_expr : Expr → Expr → Expr
subst_expr (Expr.var Var.bound) to = to
subst_expr (Expr.var (Var.free x)) to = Expr.var (Var.free x)
subst_expr (Expr.constant c) to = Expr.constant c
subst_expr (Expr.binary_op op e1 e2) to = Expr.binary_op op (subst_expr e1 to) (subst_expr e2 to)
subst_expr (Expr.unary_op op e) to = Expr.unary_op op (subst_expr e to)

-- `Pred::is_atom`
abbrev pub is_atom_pred : Pred → Bool
is_atom_pred (Pred.kvar _ _) = true
is_atom_pred (Pred.expr e) = is_atom_expr e

-- `Pred::subst_bound_vars`
unfoldable pub subst_pred : Pred → Expr → Pred
subst_pred (Pred.kvar k args) to = Pred.kvar k (map (λ arg. subst_expr arg to) args)
subst_pred (Pred.expr e) to = Pred.expr (subst_expr e to)

-- `Pred::is_true`
abbrev pub is_true_pred : Pred → Bool
is_true_pred (Pred.kvar _ _) = false
is_true_pred (Pred.expr e) = is_true_expr e

-- `Loc::partial_cmp`, which is never `None`, and so `Loc::cmp`
unfoldable pub compare_loc : Loc → Loc → Ordering
compare_loc (Loc.local l1) (Loc.local l2) = compare l1 l2
compare_loc (Loc.local _) (Loc.abstract _) = Ordering.lt
compare_loc (Loc.abstract _) (Loc.local _) = Ordering.gt
compare_loc (Loc.abstract n1) (Loc.abstract n2) = compare n1 n2
