-- ===== src/Typeck/Builder/Translate.antt =====
-- `Node::into_fixpoint` and the functions below it: the tree as a constraint for the solver. The
-- counter that is passed along is that of `name_gen`.
pub mod Closed
pub mod Args
pub mod Correct
use liquid_rust.Base.{
  ℕ, suc, ◌+◌, List, [], ◌∷◌, ◌++◌, Option, some, none, Outcome, ok, panicked, ◌>>=◌, unwrap,
  get_elem?,
}
use mathlib.Core.List.{foldl, reverse}
use liquid_rust.Fixpoint.Constraint as Fixpoint
use liquid_rust.Fixpoint.Constraint.{
  Name, Kvid, Sort, BinOp, Constraint, Constraints, Kvar, true_constraint,
}
use liquid_rust.Typeck.Ty.{Var, Expr, Pred}
use liquid_rust.Typeck.Builder.{Node, Nodes, Builder}

abbrev pub Kvars : Type 0
Kvars = List (List Sort)

abbrev pub Binding : Type 0
Binding = Name × Sort × Fixpoint.Expr

unfoldable pub expr_to_fixpoint : Expr → Outcome Fixpoint.Expr
expr_to_fixpoint (Expr.var (Var.free x)) = ok (Fixpoint.Expr.var x)
expr_to_fixpoint (Expr.constant c) = ok (Fixpoint.Expr.constant c)
expr_to_fixpoint (Expr.binary_op op e1 e2) = do
  e1' ← expr_to_fixpoint e1
  e2' ← expr_to_fixpoint e2
  ok (Fixpoint.Expr.binary_op op e1' e2')
expr_to_fixpoint (Expr.unary_op op e) = do
  e' ← expr_to_fixpoint e
  ok (Fixpoint.Expr.unary_op op e')
expr_to_fixpoint (Expr.var Var.bound) = panicked

-- An argument of an unknown predicate: a variable stays, and any other expression gets a fresh name
-- with an equation. The counter of names has no largest one, where the code panics.
unfoldable pub arg_to_fixpoint : Expr → Sort → ℕ → Outcome (Name × List Binding × ℕ)
arg_to_fixpoint (Expr.var (Var.free x)) s gen = ok (x, [], gen)
arg_to_fixpoint arg s gen = do
  e ← expr_to_fixpoint arg
  ok (gen, (gen, s, Fixpoint.Expr.binary_op BinOp.eq (Fixpoint.Expr.var gen) e) ∷ [], gen + 1)

-- The iteration over `args.iter().zip(sorts)`, which ends with the shorter list.
unfoldable pub args_to_fixpoint : List Expr → List Sort → ℕ → Outcome (List Name × List Binding × ℕ)
args_to_fixpoint [] sorts gen = ok ([], [], gen)
args_to_fixpoint (arg ∷ args) [] gen = ok ([], [], gen)
args_to_fixpoint (arg ∷ args) (s ∷ sorts) gen = do
  (x, bs, gen₁) ← arg_to_fixpoint arg s gen
  (xs, cs, gen₂) ← args_to_fixpoint args sorts gen₁
  ok (x ∷ xs, bs ++ cs, gen₂)

unfoldable pub pred_to_fixpoint : Kvars → Pred → ℕ → Outcome (List Binding × Fixpoint.Pred × ℕ)
pred_to_fixpoint kvars (Pred.expr e) gen = do
  e' ← expr_to_fixpoint e
  ok ([], Fixpoint.Pred.expr e', gen)
pred_to_fixpoint kvars (Pred.kvar k args) gen = do
  sorts ← unwrap (get_elem? kvars k)
  (xs, bs, gen₁) ← args_to_fixpoint args sorts gen
  ok (bs, Fixpoint.Pred.kvar k xs, gen₁)

abbrev pub bind_around : Constraint → Binding → Constraint
bind_around c (x, s, e) = Constraint.for_all x s (Fixpoint.Pred.expr e) c

-- `bindings.into_iter().rev().fold(c, …)`
unfoldable pub stitch : List Binding → Constraint → Constraint
stitch bindings c = foldl bind_around c (reverse bindings)

-- No child gives no constraint, and a single one stands for itself.
abbrev pub join_children : Constraints → Option Constraint
join_children Constraints.nil = none
join_children (Constraints.cons c Constraints.nil) = some c
join_children (Constraints.cons c (Constraints.cons d cs)) =
    some (Constraint.conj (Constraints.cons c (Constraints.cons d cs)))

abbrev pub cons_some : Option Constraint → Constraints → Constraints
cons_some none cs = cs
cons_some (some c) cs = Constraints.cons c cs

unfoldable mutual
  pub into_fixpoint : Kvars → Node → ℕ → Outcome (Option Constraint × ℕ)
  into_fixpoint kvars (Node.conj ns) gen = do
    (cs, gen₁) ← children_to_fixpoint kvars ns gen
    ok (join_children cs, gen₁)
  into_fixpoint kvars (Node.for_all x s p ns) gen = do
    (bs, p', gen₁) ← pred_to_fixpoint kvars p gen
    (cs, gen₂) ← children_to_fixpoint kvars ns gen₁
    ok (
      elim (join_children cs) [
        | none ↦ none
        | some c ↦ some (stitch bs (Constraint.for_all x s p' c))
      ],
      gen₂,
    )
  into_fixpoint kvars (Node.guard e ns) gen = do
    e' ← expr_to_fixpoint e
    (cs, gen₁) ← children_to_fixpoint kvars ns gen
    ok (elim (join_children cs) [ none ↦ none | some c ↦ some (Constraint.guard e' c) ], gen₁)
  into_fixpoint kvars (Node.head p) gen = do
    (bs, p', gen₁) ← pred_to_fixpoint kvars p gen
    ok (some (stitch bs (Constraint.pred p')), gen₁)

  -- the `filter_map` over the children
  pub children_to_fixpoint : Kvars → Nodes → ℕ → Outcome (Constraints × ℕ)
  children_to_fixpoint kvars Nodes.nil gen = ok (Constraints.nil, gen)
  children_to_fixpoint kvars (Nodes.cons n ns) gen = do
    (c, gen₁) ← into_fixpoint kvars n gen
    (cs, gen₂) ← children_to_fixpoint kvars ns gen₁
    ok (cons_some c cs, gen₂)

abbrev pub or_true : Option Constraint → Constraint
or_true none = true_constraint
or_true (some c) = c

-- `into_iter_enumerated`
abbrev pub number_from : ℕ → Kvars → List Kvar
number_from k [] = []
number_from k (sorts ∷ kvars) = record { kvid = k; sorts = sorts } ∷ number_from (suc k) kvars

-- `ConstraintBuilder::into_fixpoint`
unfoldable pub builder_into_fixpoint : Builder → Outcome Fixpoint.Fixpoint
builder_into_fixpoint b = do
  (c, _) ← into_fixpoint b.kvars b.root b.name_gen
  ok (record { kvars = number_from 0 b.kvars; constraint = or_true c })
