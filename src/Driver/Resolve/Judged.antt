-- ===== src/Driver/Resolve/Judged.antt =====
-- `resolve_expr` of liquid-rust-driver/src/resolve.rs against a judgement.
use liquid_rust.Base.{some, Option-cases, ◌≡◌, refl, subst, inl, inr, ◌==◌}
use liquid_rust.Core.Ty as Core
use liquid_rust.Typeck.Ty.{Symbol}
use liquid_rust.Syntax as Ast
use liquid_rust.Driver.Diagnostics.{unresolved_var, int_too_large, unexpected_literal}
use liquid_rust.Base.{◌↔◌, ◌∙◌, sym, subst}
use liquid_rust.Base.Int.{ℤ}
use liquid_rust.Driver.Diagnostics.{Diagnostics}
use liquid_rust.Driver.Diagnostics.Inversion.{
  Gives, Gives-value, reject_inv, and_then_inv, both_inv,
}
use liquid_rust.Driver.Resolve.{State, Setting, Scope, resolve_var, resolve_lit, resolve_expr}

module _ {E T : Type 0} (c : Setting E T) (x : Scope E T) where
  -- `Resolves e e'`: every variable of `e` is in scope, every integer fits in 128 bits, other literals are Boolean,
  -- and `e'` has what they stand for in their places.
  pub data Resolves : Ast.Expr → Core.Expr → Type 0 where
    var :
        {y : Symbol} {v : Core.Var}
        → c.exprs.get x.subst.exprs y ≡ some v
        → Resolves (Ast.Expr.var y) (Core.Expr.var v)
    integer :
        {symbol : Symbol} {n : ℤ}
        → c.parse_i128 symbol ≡ some n
        → Resolves
            (Ast.Expr.literal (record { kind = Ast.LitKind.integer; symbol = symbol }))
            (Core.Expr.literal (Core.Lit.int n))
    bool :
        {symbol : Symbol}
        → Resolves
            (Ast.Expr.literal (record { kind = Ast.LitKind.bool; symbol = symbol }))
            (Core.Expr.literal (Core.Lit.bool (symbol == c.true_symbol)))
    binary_op :
        {op : Core.BinOp} {e1 e2 : Ast.Expr} {e1' e2' : Core.Expr}
        → Resolves e1 e1'
        → Resolves e2 e2'
        → Resolves (Ast.Expr.binary_op op e1 e2) (Core.Expr.binary_op op e1' e2')

  value_of :
      {e : Ast.Expr} {e' : Core.Expr} (d : Diagnostics)
      → Resolves e e'
      → Gives (resolve_expr c e (x, d)) e' (x, d)
  unfolding resolve_expr
  value_of d (var h) = rw (h, resolve_var) refl
  value_of d (integer h) = rw (h, resolve_lit) refl
  value_of d bool = refl
  value_of d (binary_op {e1} {e2} h1 h2) = rw (value_of d h1, value_of d h2) refl

  resolve_var_inv :
      (y : Symbol) (d : Diagnostics) {v : Core.Var} {s : State c}
      → Gives (resolve_var c y (x, d)) v s
      → Resolves (Ast.Expr.var y) (Core.Expr.var v) × (s ≡ (x, d))
  resolve_var_inv y d h = elim (Option-cases (c.exprs.get x.subst.exprs y)) [
    | inl e ↦ elim (reject_inv (unresolved_var y) (x, d) (rw (e, resolve_var) at h)) [ ]
    | inr (v', e) ↦
        let (same, e') = Gives-value (rw (e, resolve_var) at h) in (var (rw same at e), sym e')
  ]

  resolve_lit_inv :
      (kind : Ast.LitKind) (symbol : Symbol) (d : Diagnostics) {lit : Core.Lit} {s : State c}
      → Gives (resolve_lit c kind symbol (x, d)) lit s
      → Resolves
          (Ast.Expr.literal (record { kind = kind; symbol = symbol }))
          (Core.Expr.literal lit)
        × (s ≡ (x, d))
  resolve_lit_inv Ast.LitKind.integer symbol d h = elim (Option-cases (c.parse_i128 symbol)) [
    | inl e ↦ elim (reject_inv int_too_large (x, d) (rw (e, resolve_lit) at h)) [ ]
    | inr (n, e) ↦
        let (same, e') = Gives-value (rw (e, resolve_lit) at h) in
        (
          subst
              (λ lit.
                Resolves (Ast.Expr.literal (record { kind = Ast.LitKind.integer; symbol = symbol }))
                  (Core.Expr.literal lit))
              same (integer e),
          sym e',
        )
  ]
  resolve_lit_inv Ast.LitKind.bool symbol d h =
      let (same, e') = Gives-value h in
      (
        subst
            (λ lit.
              Resolves (Ast.Expr.literal (record { kind = Ast.LitKind.bool; symbol = symbol }))
                (Core.Expr.literal lit))
            same bool,
        sym e',
      )
  resolve_lit_inv Ast.LitKind.other symbol d h = elim (reject_inv unexpected_literal (x, d) h) [ ]

  pub resolve_expr_inv :
      (e : Ast.Expr) (d : Diagnostics) {e' : Core.Expr} {s : State c}
      → Gives (resolve_expr c e (x, d)) e' s
      → Resolves e e' × (s ≡ (x, d))
  unfolding resolve_expr
  resolve_expr_inv (Ast.Expr.var y) d h =
      let (v, s, g, k) = and_then_inv (resolve_var c y (x, d)) _ h in
      let (r, e) = resolve_var_inv y d g in
      let (e1, e2) = Gives-value k in (subst (Resolves (Ast.Expr.var y)) e1 r, sym e2 ∙ e)
  resolve_expr_inv (Ast.Expr.literal lit) d h =
      let (v, s, g, k) = and_then_inv (resolve_lit c lit.kind lit.symbol (x, d)) _ h in
      let (r, e) = resolve_lit_inv lit.kind lit.symbol d g in
      let (e1, e2) = Gives-value k in (subst (Resolves (Ast.Expr.literal lit)) e1 r, sym e2 ∙ e)
  resolve_expr_inv (Ast.Expr.binary_op op e1 e2) d {s = s'} h =
      let (t, u, s, g, k, e) =
        both_inv (Core.Expr.binary_op op) (resolve_expr c e1 (x, d)) (λ s. resolve_expr c e2 s) h in
      let (r1, at) = resolve_expr_inv e1 d g in
      let (r2, at') = resolve_expr_inv e2 d (subst (λ s. Gives (resolve_expr c e2 s) u s') at k) in
      (subst (Resolves (Ast.Expr.binary_op op e1 e2)) e (binary_op r1 r2), at')

-- Whatever the diagnostics hold, an expression is resolved to `e'` exactly if the judgement says so:
-- every variable in scope becomes what it stands for, every integer that `parse_i128` reads becomes
-- its value, a Boolean literal is compared with `true`, and operators stay. The scope and the
-- diagnostics are left as they were.
pub resolve_expr-Resolves :
    {E T : Type 0} (c : Setting E T) (x : Scope E T) (d : Diagnostics) (e : Ast.Expr)
    (e' : Core.Expr)
    → (Gives (resolve_expr c e (x, d)) e' (x, d)) ↔ Resolves c x e e'
resolve_expr-Resolves c x d e e' = (λ h. (resolve_expr_inv c x e d h).0, λ r. value_of c x d r)
