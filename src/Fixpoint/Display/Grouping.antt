-- ===== src/Fixpoint/Display/Grouping.antt =====
-- Which parentheses the printer of expressions leaves out.
use liquid_rust.Base.{◌≡◌, refl, true, false, append_assoc, arith, sym}
use liquid_rust.Fixpoint.Constraint.{BinOp, Expr, precedence, is_associative}
use liquid_rust.Fixpoint.Display.{show_expr, should_parenthesize}

no_parens :
    (op child : BinOp) (x y : Expr)
    → precedence child ≡ precedence op
    → is_associative (precedence op) ≡ true
    → should_parenthesize op (Expr.binary_op child x y) ≡ false
unfolding should_parenthesize
no_parens op child x y same assoc = rw (same, assoc) (ground arith)

parens_same :
    (op1 op2 : BinOp) (e : Expr)
    → precedence op1 ≡ precedence op2
    → should_parenthesize op1 e ≡ should_parenthesize op2 e
unfolding should_parenthesize
parens_same op1 op2 (Expr.binary_op _ _ _) same = rw same
parens_same op1 op2 _ same = refl

-- Two operators of one precedence, other than implication and comparison, are printed without
-- parentheses whichever way they are grouped: `a op1 (b op2 c)` and `(a op1 b) op2 c` give one text.
-- So `a - (b - c)` prints as `a - b - c` does, and `a / (b * c)` as `a / b * c`.
pub show_expr-regroup :
    (op1 op2 : BinOp) (a b c : Expr)
    → precedence op1 ≡ precedence op2
    → is_associative (precedence op1) ≡ true
    → show_expr (Expr.binary_op op1 a (Expr.binary_op op2 b c))
      ≡ show_expr (Expr.binary_op op2 (Expr.binary_op op1 a b) c)
unfolding show_expr
show_expr-regroup op1 op2 a b c same assoc =
    rw
      (
        no_parens op1 op2 b c (sym same) assoc,
        no_parens op2 op1 a b same (rw same at assoc),
        parens_same op1 op2 b same,
      )
      (simp append_assoc)
