-- ===== src/Driver/Resolve/Params.antt =====
-- `resolve_generics` of liquid-rust-driver/src/resolve.rs: the parameters get the names 0, 1, 2, ... and
-- each predicate mentions its parameter and those before it only.
use liquid_rust.Base.{
  ℕ, suc, ◌+◌, ◌%◌, ◌≤◌, ◌<◌, true, Bool-cases, List, [], Option, none, some, ℕ_discrete, ◌≡◌, refl,
  sym, ◌∙◌, subst, arith, leb, inl, inr, length,
}
use liquid_rust.Common.IndexGen.{word, fresh}
use liquid_rust.Common.Iter.{ErrorReported-semi_group}
use liquid_rust.Core.Ty as Core
use liquid_rust.Typeck.Ty.{Symbol}
use liquid_rust.Syntax as Ast
use liquid_rust.Driver.ScopeMap.{IsScopeMap}
use liquid_rust.Driver.Subst.{insert_expr}
use liquid_rust.Driver.Diagnostics.{Error, duplicate_generic_param}
use liquid_rust.Driver.Diagnostics.Honest.{
  Honest, fine, failed, settled, Honest-mono, Honest-both, Each, Honest-collect,
}
use liquid_rust.Driver.Resolve.{Setting, Scope}
use liquid_rust.Driver.Resolve.Closed.{Below, VarsIn, ParamAt}
use liquid_rust.Driver.Resolve.Exprs.{Reads, resolve_expr-Honest, resolve_sort-Honest}
use liquid_rust.Driver.Resolve.Signature.{
  resolve_param_pred, new_param, resolve_param, resolve_generics,
}

pub fresh_lem : (m i : ℕ) → i ≤ m → i + 1 < word → fresh m i ≡ (some i, suc i)
unfolding fresh
fresh_lem m i h l =
    let in_range : leb i m ≡ true = ground arith in
    let next : (i + 1) % word ≡ suc i = omega arith in rw (in_range, next) refl

module _ {E T : Type 0} (c : Setting E T) (laws : IsScopeMap c.exprs)
    (small : c.max_index + 1 < word) where
  -- Behind `i` parameters.
  pub record Generics (types : T) (i : ℕ) (x : Scope E T) : Type 0 where
    pub name_gen : x.name_gen ≡ i
    pub vars : Reads c (Below i) x
    pub regions : x.subst.regions ≡ []
    pub types_kept : x.subst.types ≡ types

  Below-suc : (i : ℕ) (v : Core.Var) → Below i v → Below (suc i) v
  Below-suc i Core.Var.bound h = h
  Below-suc i (Core.Var.free m) h = omega arith

  -- A new parameter.
  define-Below :
      (m : E) (k : Symbol) (i : ℕ) (y : Symbol) (v : Core.Var)
      → ((y : Symbol) (v : Core.Var) → c.exprs.get m y ≡ some v → Below i v)
      → c.exprs.get (c.exprs.define m k (Core.Var.free i)) y ≡ some v
      → Below (suc i) v
  define-Below m k i y v h e = elim (ℕ_discrete k y) [
    | yes same ↦
        let found : c.exprs.get (c.exprs.define m k (Core.Var.free i)) y ≡ some (Core.Var.free i) =
          subst (λ y. c.exprs.get (c.exprs.define m k (Core.Var.free i)) y ≡ some (Core.Var.free i))
            same (laws.get_define m k (Core.Var.free i)) in
        let is_new : Core.Var.free i ≡ v = cc in subst (Below (suc i)) is_new (omega arith)
    | no other ↦
        Below-suc i v (h y v (sym (laws.get_define_other m k y (Core.Var.free i) other) ∙ e))
  ]

  module _ (types : T) (i : ℕ) (param : Ast.GenericParam) where
    resolve_param_pred-Honest :
        (pred : Option Ast.Expr) (x : Scope E T) (reports : List Error)
        → Generics types (suc i) x
        → Honest
            (Generics types (suc i))
            (VarsIn (Below (suc i)))
            reports
            (resolve_param_pred c pred (x, settled reports))
    unfolding resolve_param_pred
    resolve_param_pred-Honest (some e) x reports g =
        Honest-mono (resolve_expr-Honest c (Below (suc i)) x e reports g.vars)
          (λ x' e. subst (Generics types (suc i)) e g) (λ _ q. q)
    resolve_param_pred-Honest none x reports g = fine g tt

    new_param-Honest :
        (x : Scope E T) (reports : List Error)
        → Generics types (suc i) x
        → Honest
            (Generics types (suc i))
            (ParamAt i)
            reports
            (new_param c param i none (x, settled reports))
    unfolding new_param
    new_param-Honest x reports g =
        Honest-both _ (λ s. resolve_param_pred c param.pred s)
          (resolve_sort-Honest c param.sort x reports)
          (λ x' reports' e.
            resolve_param_pred-Honest param.pred x' reports' (subst (Generics types (suc i)) e g))
          (λ t u p q. record { name = refl; pred = q })

    resolve_param-Honest :
        (x : Scope E T) (reports : List Error)
        → i ≤ c.max_index
        → Generics types i x
        → Honest
            (Generics types (suc i))
            (ParamAt i)
            reports
            (resolve_param c param (x, settled reports))
    unfolding resolve_param
    resolve_param-Honest x reports h g =
        rw (g.name_gen, fresh_lem c.max_index i h (omega arith))
          (elim (Bool-cases (c.exprs.contains_key_at_top x.subst.exprs param.name)) [
            | inl e ↦
                let (v, found) = laws.get_at_top x.subst.exprs param.name e in
                rw (e, insert_expr)
                  (rw (found, new_param)
                    (failed (duplicate_generic_param param.name) [] (record {
                      name_gen = refl;
                      vars = λ y v e. Below-suc i v (g.vars y v e);
                      regions = g.regions;
                      types_kept = g.types_kept;
                    })))
            | inr e ↦
                rw (e, insert_expr)
                  (new_param-Honest _ reports (record {
                    name_gen = refl;
                    vars = λ y v e. define-Below x.subst.exprs param.name i y v g.vars e;
                    regions = g.regions;
                    types_kept = g.types_kept;
                  }))
          ])

  pub resolve_generics-Honest :
      (types : T) (generics : List Ast.GenericParam) (x : Scope E T) (reports : List Error)
      → length generics ≤ c.max_index + 1
      → Generics types 0 x
      → Honest
          (Generics types (length generics))
          (λ ps. Each ParamAt 0 ps (length generics))
          reports
          (resolve_generics c generics (x, settled reports))
  unfolding resolve_generics
  resolve_generics-Honest types generics x reports h g =
      Honest-collect (resolve_param c) (Generics types) ParamAt (length generics)
        (λ i param x reports l g. resolve_param-Honest types i param x reports (omega arith) g) 0
        generics x reports (omega arith) g
