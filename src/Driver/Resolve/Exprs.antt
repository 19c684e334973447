-- ===== src/Driver/Resolve/Exprs.antt =====
-- `resolve_expr` and `resolve_sort` of liquid-rust-driver/src/resolve.rs: they do not panic, and they
-- return an error exactly if they emit one.
use liquid_rust.Base.{Bool-cases, List, [], some, Option-cases, ◌≡◌, refl, subst, inl, inr, ◌==◌}
use liquid_rust.Core.Ty as Core
use liquid_rust.Typeck.Ty.{Symbol}
use liquid_rust.Syntax as Ast
use liquid_rust.Driver.Diagnostics.{
  Error, unresolved_var, int_too_large, unexpected_literal, unresolved_sort,
}
use liquid_rust.Driver.Diagnostics.Honest.{
  Honest, fine, failed, settled, Honest-and_then, Honest-both,
}
use liquid_rust.Driver.Resolve.{
  Setting, Scope, resolve_var, resolve_lit, resolve_expr, resolve_sort,
}
use liquid_rust.Driver.Resolve.Closed.{VarsIn}

module _ {E T : Type 0} (c : Setting E T) where
  module _ (P : Core.Var → Type 0) (x : Scope E T) where
    -- Every variable in scope stands for one of which `P` holds.
    abbrev pub Reads : Type 0
    Reads = (y : Symbol) (v : Core.Var) → c.exprs.get x.subst.exprs y ≡ some v → P v

    resolve_var-Honest :
        (y : Symbol) (reports : List Error)
        → Reads
        → Honest (λ x'. x ≡ x') P reports (resolve_var c y (x, settled reports))
    resolve_var-Honest y reports h = elim (Option-cases (c.exprs.get x.subst.exprs y)) [
      | inl e ↦ rw (e, resolve_var) (failed (unresolved_var y) [] refl)
      | inr (v, e) ↦ rw (e, resolve_var) (fine refl (h y v e))
    ]

    resolve_lit-Honest :
        (kind : Ast.LitKind) (symbol : Symbol) (reports : List Error)
        → Honest
            (λ x'. x ≡ x')
            (λ _. Unit {0})
            reports
            (resolve_lit c kind symbol (x, settled reports))
    resolve_lit-Honest Ast.LitKind.integer symbol reports =
        elim (Option-cases (c.parse_i128 symbol)) [
          | inl e ↦ rw e (failed int_too_large [] refl)
          | inr (n, e) ↦ rw e (fine refl tt)
        ]
    resolve_lit-Honest Ast.LitKind.bool symbol reports = fine refl tt
    resolve_lit-Honest Ast.LitKind.other symbol reports = failed unexpected_literal [] refl

    pub resolve_expr-Honest :
        (e : Ast.Expr) (reports : List Error)
        → Reads
        → Honest (λ x'. x ≡ x') (VarsIn P) reports (resolve_expr c e (x, settled reports))
    unfolding resolve_expr
    resolve_expr-Honest (Ast.Expr.var y) reports h =
        Honest-and_then _ (resolve_var-Honest y reports h) (λ v x' e p. fine e p) (λ x' e. e)
    resolve_expr-Honest (Ast.Expr.literal lit) reports h =
        Honest-and_then _ (resolve_lit-Honest lit.kind lit.symbol reports) (λ v x' e p. fine e tt)
          (λ x' e. e)
    resolve_expr-Honest (Ast.Expr.binary_op op e1 e2) reports h =
        Honest-both _ (λ s. resolve_expr c e2 s) (resolve_expr-Honest e1 reports h)
          (λ x' reports' e.
            subst
              (λ z.
                Honest (λ x'. x ≡ x') (VarsIn P) reports' (resolve_expr c e2 (z, settled reports')))
              e (resolve_expr-Honest e2 reports' h))
          (λ t u p q. (p, q))

  pub resolve_sort-Honest :
      (sort : Ast.Ident) (x : Scope E T) (reports : List Error)
      → Honest (λ x'. x ≡ x') (λ _. Unit {0}) reports (resolve_sort c sort (x, settled reports))
  resolve_sort-Honest sort x reports = elim (Bool-cases (sort == c.int_symbol)) [
    | inl e ↦ rw e (fine refl tt)
    | inr e ↦ rw e (elim (Bool-cases (sort == c.bool_symbol)) [
      | inl e ↦ rw e (fine refl tt)
      | inr e ↦ rw e (failed (unresolved_sort sort) [] refl)
    ])
  ]
