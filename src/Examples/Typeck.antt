-- ===== src/Examples/Typeck.antt =====
-- Runs of the code of liquid-rust-typeck, in a structure whose values are the constants.
use liquid_rust.Base.{
  ℕ, ◌+◌, true, List, [], ◌∷◌, some, none, ◌≡◌, refl, ap, ◌↔◌, arith, Outcome, ok, reported,
  panicked, Returns, ℕ_discrete, length,
}
use mathlib.Core.Bool.{decide}
use mathlib.Core.Logic.{ite}
use liquid_rust.Base.Int.{ℤ}
use liquid_rust.Fixpoint.Constraint.{Sort, BinOp, Sign, Constant, Constant-discrete}
use liquid_rust.Typeck.Ty.{Var, Expr, Pred, Ty, BaseTy, from_bits, subst_pred}
use liquid_rust.Typeck.Ty.Bits.{Represents, from_bits-Represents}
use liquid_rust.Typeck.Ty.Meaning.{Structure, HoldsPred, Holds, eval, HoldsPred-subst_pred}
use liquid_rust.Typeck.Builder.{
  Node, Nodes, Builder, as_cursor, unpack, push_forall, push_node, push_at, push_head, push_var,
  fresh_name, Cursor, fresh_kvar_at_scope,
}
use liquid_rust.Typeck.Builder.Fresh.{IsFreshKvar, fresh_kvar_at_scope-IsFreshKvar}
use liquid_rust.Typeck.Builder.Subtyping.{
  Variance, is_trivial, bty_subtyping, unpacked_subtyping, subtyping,
}
use liquid_rust.Typeck.Builder.Keeps.{Keeps, subtyping-Keeps}
use liquid_rust.Typeck.Builder.Translate.{builder_into_fixpoint}
use liquid_rust.Typeck.Builder.Translate.Closed.{NodeClosed, NodeSorted, HoldsNode}
use liquid_rust.Typeck.Builder.Translate.Correct.{builder_into_fixpoint_lem}
use liquid_rust.Core.Ty as Core
use liquid_rust.Typeck.Lowering.{
  get, Subst, with_empty_type_substs, insert_expr, infer_from_fn_call, lower_expr,
}
use liquid_rust.Typeck.Lowering.Inference.{
  Extends, MatchesAll, HasParams, infer_from_fn_call-Matches,
}
use liquid_rust.Typeck.Lowering.Meaning.{Covered, eval_core, lower_expr_lem}

abbrev pub binary : BinOp → Constant → Constant → Constant
binary BinOp.eq a b = Constant.bool (decide (Constant-discrete a b))
binary BinOp.add (Constant.int Sign.positive m) (Constant.int Sign.positive n) =
    Constant.int Sign.positive (m + n)
binary _ a b = a

pub decide_iff : {P : Type 0} (d : Dec P) → (Constant.bool (decide d) ≡ Constant.bool true) ↔ P
unfolding decide
decide_iff (yes p) = (λ _. p, λ _. refl)
decide_iff (no n) = (λ h. cc, λ p. elim (n p) [ ])

abbrev pub HasSort : Sort → Constant → Type 0
HasSort Sort.int (Constant.int _ _) = Unit
HasSort Sort.bool (Constant.bool _) = Unit
HasSort _ _ = ⊥

abbrev pub constants : Structure
constants = record {
  Value = Constant;
  constant = λ c. c;
  binary = binary;
  unary = λ op c. c;
  IsTrue = λ c. c ≡ Constant.bool true;
  HasSort = HasSort;
  Kappa = λ k args. length args ≡ 1;
  eq_iff = λ a b. decide_iff (Constant-discrete a b);
  true_holds = refl;
}

abbrev pub number : ℕ → Expr
number n = Expr.constant (Constant.int Sign.positive n)

abbrev pub x0 : Expr
x0 = Expr.var (Var.free 0)

abbrev pub zero_value : Constant
zero_value = Constant.int Sign.positive 0

-- for all x0: int with x0 = 0, the unknown predicate holds of x0 + 1, and x0 = x0
abbrev pub builder : Builder
builder = record {
  root = Node.for_all 0 Sort.int (Pred.expr (Expr.binary_op BinOp.eq x0 (number 0))) (
      Nodes.cons (Node.head (Pred.kvar 0 (Expr.binary_op BinOp.add x0 (number 1) ∷ [])))
        (Nodes.cons (Node.head (Pred.expr (Expr.binary_op BinOp.eq x0 x0))) Nodes.nil));
  kvars = (Sort.int ∷ []) ∷ [];
  scopes = [];
  vars = (0, Sort.int) ∷ [];
  name_gen = 1;
}

builder-NodeClosed : NodeClosed builder.kvars builder.name_gen builder.root
builder-NodeClosed = (
  omega arith,
  (omega arith, tt),
  tt,
  ((((Sort.int ∷ []), refl, refl), ((omega arith, tt), tt)), ((omega arith, omega arith), tt)),
)

builder_into_fixpoint_lem_example :
    Returns
      (λ q.
        (ρ : _)
        → NodeSorted constants zero_value builder.kvars ρ builder.root
        → Holds constants ρ q.constraint ↔ HoldsNode constants zero_value ρ builder.root)
      (builder_into_fixpoint builder)
builder_into_fixpoint_lem_example =
    builder_into_fixpoint_lem constants zero_value builder builder-NodeClosed

HoldsPred-subst_pred_example :
    HoldsPred constants zero_value
      (λ x. zero_value)
      (subst_pred (Pred.expr (Expr.binary_op BinOp.eq (Expr.var Var.bound) x0)) (number 3))
    ≡ HoldsPred constants
        (Constant.int Sign.positive 3)
        (λ x. zero_value)
        (Pred.expr (Expr.binary_op BinOp.eq (Expr.var Var.bound) x0))
unfolding eval
HoldsPred-subst_pred_example =
    HoldsPred-subst_pred constants zero_value (λ x. zero_value)
      (Pred.expr (Expr.binary_op BinOp.eq (Expr.var Var.bound) x0)) (number 3)

fresh_kvar_at_scope-IsFreshKvar_example :
    Returns
      (IsFreshKvar (as_cursor builder) Sort.bool 1)
      (fresh_kvar_at_scope (as_cursor builder) Sort.bool 1)
fresh_kvar_at_scope-IsFreshKvar_example =
    fresh_kvar_at_scope-IsFreshKvar (as_cursor builder) Sort.bool 1 (omega arith)

abbrev cursor_of : Outcome Cursor → Cursor → Cursor
cursor_of (ok c) d = c
cursor_of reported d = d
cursor_of panicked d = d

-- `i32{v: v = 3}` against `i32@3`
abbrev pub three : Ty
three =
    Ty.exists (BaseTy.int 32) (Pred.expr (Expr.binary_op BinOp.eq (Expr.var Var.bound) (number 3)))

abbrev pub exactly_three : Ty
exactly_three = Ty.refine (BaseTy.int 32) (number 3)

abbrev pub no_variances : ℕ → List Variance
no_variances did = []

abbrev pub after_subtyping : Cursor
after_subtyping =
    cursor_of (subtyping no_variances 1 (as_cursor builder) three exactly_three) (as_cursor builder)

pub subtyping_runs :
    subtyping no_variances 1 (as_cursor builder) three exactly_three ≡ ok after_subtyping
unfolding subtyping is_trivial unpack ℕ_discrete push_forall push_node push_at fresh_name
    unpacked_subtyping bty_subtyping push_head push_var
subtyping_runs = refl

subtyping-Keeps_example : Keeps (as_cursor builder) after_subtyping
subtyping-Keeps_example =
    subtyping-Keeps no_variances 1 (as_cursor builder) three exactly_three after_subtyping
      subtyping_runs

from_bits-Represents_example : Returns (Represents 255) (from_bits (BaseTy.int 8) 255)
from_bits-Represents_example = from_bits-Represents 8 255 (omega arith)

-- `fn<n: int>(i32@n)`, called on a value of the index 3
abbrev signature : Core.FnSig
signature = record {
  params = record { name = 0; sort = Sort.int; pred = Core.true_expr } ∷ [];
  requires = [];
  args = Core.Ty.refine (Core.BaseTy.int 32) (Core.Expr.var (Core.Var.free 0)) ∷ [];
  ret = Core.Ty.exists (Core.BaseTy.int 32) Core.Pred.infer;
  ensures = [];
}

abbrev actuals : List Ty
actuals = Ty.refine (BaseTy.int 32) (number 3) ∷ []

abbrev pub inferred : Subst
inferred = insert_expr with_empty_type_substs 0 (number 3)

infer_call : infer_from_fn_call with_empty_type_substs (λ loc. none) actuals signature ≡ ok inferred
unfolding infer_from_fn_call ℕ_discrete
infer_call = refl

infer_from_fn_call-Matches_example :
    Extends with_empty_type_substs inferred
    × MatchesAll inferred actuals signature.args
    × HasParams inferred signature.params
infer_from_fn_call-Matches_example =
    infer_from_fn_call-Matches with_empty_type_substs (λ loc. none) actuals signature inferred
      infer_call

-- n + 1
abbrev successor : Core.Expr
successor =
    Core.Expr.binary_op Core.BinOp.add (Core.Expr.var (Core.Var.free 0))
      (Core.Expr.literal (Core.Lit.int (ℤ.pos 1)))

inferred-values :
    (x : ℕ) (e : Expr)
    → get inferred.exprs x ≡ some e
    → Constant.int Sign.positive 3 ≡ eval constants zero_value (λ x. zero_value) e
unfolding get eval
inferred-values x e h =
    elim (ℕ_discrete 0 x)
        as (λ d.
          ite d (some (number 3)) none ≡ some e
          → Constant.int Sign.positive 3 ≡ eval constants zero_value (λ x. zero_value) e) [
            | yes _ ↦
                λ h. let r : number 3 ≡ e = cc in ap (eval constants zero_value (λ x. zero_value)) r
            | no _ ↦ λ h. cc
          ]
      h

successor-Covered : Covered inferred successor
unfolding Covered get ℕ_discrete
successor-Covered = ((number 3, refl), tt)

lower_expr_lem_example :
    Returns
      (λ e.
        eval constants zero_value (λ x. zero_value) e
        ≡ eval_core constants zero_value (λ x. Constant.int Sign.positive 3) successor)
      (lower_expr inferred successor)
lower_expr_lem_example =
    lower_expr_lem constants inferred successor zero_value (λ x. zero_value)
      (λ x. Constant.int Sign.positive 3) inferred-values successor-Covered
