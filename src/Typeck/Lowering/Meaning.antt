-- ===== src/Typeck/Lowering/Meaning.antt =====
-- What lowering does to an expression of a signature, liquid-rust-typeck/src/lowering.rs.
use liquid_rust.Base.{suc, some, ◌≡◌, refl, Returns, returns, Returns-bind}
use liquid_rust.Base.Int.{ℤ}
use liquid_rust.Fixpoint.Constraint.{Name, BinOp, Constant, Sign}
use liquid_rust.Core.Ty as Core
use liquid_rust.Typeck.Ty.{Expr}
use liquid_rust.Typeck.Ty.Meaning.{Structure, eval}
use liquid_rust.Typeck.Lowering.{get, Subst, lower_bin_op, lower_lit, lower_var, lower_expr}

-- Every parameter that the expression names has an expression.
unfoldable pub Covered : Subst → Core.Expr → Type 0
Covered s (Core.Expr.var Core.Var.bound) = Unit
Covered s (Core.Expr.var (Core.Var.free x)) = (e : Expr) × (get s.exprs x ≡ some e)
Covered s (Core.Expr.literal _) = Unit
Covered s (Core.Expr.binary_op _ e1 e2) = Covered s e1 × Covered s e2

-- The meaning of the operators of a signature
unfoldable pub operator : Core.BinOp → BinOp
operator Core.BinOp.iff = BinOp.iff
operator Core.BinOp.imp = BinOp.imp
operator Core.BinOp.or = BinOp.or
operator Core.BinOp.and = BinOp.and
operator Core.BinOp.eq = BinOp.eq
operator Core.BinOp.gt = BinOp.gt
operator Core.BinOp.ge = BinOp.ge
operator Core.BinOp.lt = BinOp.lt
operator Core.BinOp.le = BinOp.le
operator Core.BinOp.add = BinOp.add
operator Core.BinOp.sub = BinOp.sub

-- The constant that a literal of a signature stands for: its sign and its absolute value
unfoldable pub literal : Core.Lit → Constant
literal (Core.Lit.int (ℤ.pos n)) = Constant.int Sign.positive n
literal (Core.Lit.int (ℤ.negsuc n)) = Constant.int Sign.negative (suc n)
literal (Core.Lit.bool b) = Constant.bool b

lower_bin_op-operator : (op : Core.BinOp) → lower_bin_op op ≡ operator op
unfolding lower_bin_op operator
lower_bin_op-operator Core.BinOp.iff = refl
lower_bin_op-operator Core.BinOp.imp = refl
lower_bin_op-operator Core.BinOp.or = refl
lower_bin_op-operator Core.BinOp.and = refl
lower_bin_op-operator Core.BinOp.eq = refl
lower_bin_op-operator Core.BinOp.gt = refl
lower_bin_op-operator Core.BinOp.ge = refl
lower_bin_op-operator Core.BinOp.lt = refl
lower_bin_op-operator Core.BinOp.le = refl
lower_bin_op-operator Core.BinOp.add = refl
lower_bin_op-operator Core.BinOp.sub = refl

lower_lit-literal : (lit : Core.Lit) → lower_lit lit ≡ literal lit
unfolding lower_lit literal
lower_lit-literal (Core.Lit.int (ℤ.pos n)) = refl
lower_lit-literal (Core.Lit.int (ℤ.negsuc n)) = refl
lower_lit-literal (Core.Lit.bool b) = refl

module _ (M : Structure) where
  open M use {Value, constant, binary}

  -- The value of an expression of a signature, by the values of its parameters.
  unfoldable pub eval_core : Value → (Name → Value) → Core.Expr → Value
  eval_core ν ρ (Core.Expr.var Core.Var.bound) = ν
  eval_core ν ρ (Core.Expr.var (Core.Var.free x)) = ρ x
  eval_core ν ρ (Core.Expr.literal lit) = constant (literal lit)
  eval_core ν ρ (Core.Expr.binary_op op e1 e2) =
      binary (operator op) (eval_core ν ρ e1) (eval_core ν ρ e2)

  -- `σ` gives each parameter the value of what is put for it.
  abbrev pub Values : Subst → Value → (Name → Value) → (Name → Value) → Type 0
  Values s ν ρ σ = (x : Name) (e : Expr) → get s.exprs x ≡ some e → σ x ≡ eval M ν ρ e

  -- Lowering an expression all of whose parameters are known neither fails nor panics, and the value
  -- of the result is that of the expression, where each parameter has the value of its instance.
  pub lower_expr_lem :
      (s : Subst) (e : Core.Expr) (ν : Value) (ρ σ : Name → Value)
      → Values s ν ρ σ
      → Covered s e
      → Returns (λ e'. eval M ν ρ e' ≡ eval_core ν σ e) (lower_expr s e)
  unfolding lower_expr lower_var eval eval_core Covered
  lower_expr_lem s (Core.Expr.var Core.Var.bound) ν ρ σ h c = returns refl
  lower_expr_lem s (Core.Expr.var (Core.Var.free x)) ν ρ σ h (e, g) = rw g (returns (rw (h x e g)))
  lower_expr_lem s (Core.Expr.literal lit) ν ρ σ h c = returns (rw (lower_lit-literal lit))
  lower_expr_lem s (Core.Expr.binary_op op e1 e2) ν ρ σ h (c1, c2) =
      Returns-bind (lower_expr_lem s e1 ν ρ σ h c1) (λ e1' h1.
        Returns-bind (lower_expr_lem s e2 ν ρ σ h c2)
          (λ e2' h2. returns (rw (eval, eval_core, h1, h2, lower_bin_op-operator op) refl)))
