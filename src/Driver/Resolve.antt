-- ===== src/Driver/Resolve.antt =====
-- `Resolver` of liquid-rust-driver/src/resolve.rs: from the syntax tree of a signature to the resolved
-- signature of liquid-rust-core. Resolve/Signature has `resolve` and `run`.
pub mod Signature
pub mod Closed
pub mod Exprs
pub mod Ready
pub mod Types
pub mod Params
pub mod Locations
pub mod Ensures
pub mod TypeParams
pub mod Steps
pub mod Total
pub mod Covered
pub mod Checked
pub mod Judged
pub mod Duplicates
use liquid_rust.Base.{ℕ, List, [], ◌∷◌, Option, none, some, ◌==◌, if◌then◌else◌, ℕ_discrete, find}
use liquid_rust.Base.Int.{ℤ}
use liquid_rust.Fixpoint.Constraint.{Sort}
use liquid_rust.Common.IndexGen.{start, fresh}
use liquid_rust.Common.Iter.{ErrorReported-semi_group, try_collect_exhaust, Result, ErrorReported}
use liquid_rust.Core.Ty as Core
use liquid_rust.Typeck.Ty.{DefId, ParamTy, Symbol}
use liquid_rust.Syntax as Ast
use liquid_rust.Driver.Hir as Hir
use liquid_rust.Driver.ScopeMap.{ScopeMap}
use liquid_rust.Driver.Subst.{
  Subst, empty, push_expr_layer, pop_expr_layer, insert_expr, insert_region, insert_type,
  push_type_layer, get_expr, get_region, get_param_ty,
}
use liquid_rust.Driver.Diagnostics.{
  Diagnostics, Error, Run, reject, drop, value, and_then, both, unsupported_signature,
  duplicate_generic_param, unresolved_sort, unresolved_var, unresolved_loc, unresolved_path,
  refined_type_param, int_too_large, unexpected_literal,
}
use liquid_rust.Driver.Collect.{NameResTable, collect_res_ty, collect_res}

-- What does not belong to the repository: the maps of layers, the symbols `int`, `bool` and `true`,
-- `str::parse::<i128>`, and the largest index of `Name`.
pub record Setting (E T : Type 0) : Type 0 where
  pub exprs : ScopeMap Symbol Core.Var E
  pub types : ScopeMap DefId ParamTy T
  pub int_symbol : Symbol
  pub bool_symbol : Symbol
  pub true_symbol : Symbol
  pub parse_i128 : Symbol → Option ℤ
  pub max_index : ℕ

-- The state beside the diagnostics: `name_gen` and `subst`.
pub record Scope (E T : Type 0) : Type 0 where
  pub name_gen : ℕ
  pub subst : Subst E T

pub data ParamTyOrBaseTy : Type 0 where
  base_ty : Core.BaseTy → ParamTyOrBaseTy
  param_ty : ParamTy → ParamTyOrBaseTy

module _ {E T : Type 0} (c : Setting E T) where
  abbrev pub State : Type 0
  State = Scope E T × Diagnostics

  abbrev pub resolve_var : Ast.Ident → State → Run (Scope E T) Core.Var
  resolve_var ident (x, d) = elim (get_expr c.exprs c.types ident x.subst) [
    | some var ↦ value var (x, d)
    | none ↦ reject (unresolved_var ident) (x, d)
  ]

  abbrev resolve_integer : Option ℤ → State → Run (Scope E T) Core.Lit
  resolve_integer (some n) s = value (Core.Lit.int n) s
  resolve_integer none s = reject int_too_large s

  abbrev pub resolve_lit : Ast.LitKind → Symbol → State → Run (Scope E T) Core.Lit
  resolve_lit Ast.LitKind.integer symbol s = resolve_integer (c.parse_i128 symbol) s
  resolve_lit Ast.LitKind.bool symbol s = value (Core.Lit.bool (symbol == c.true_symbol)) s
  resolve_lit Ast.LitKind.other symbol s = reject unexpected_literal s

  unfoldable pub resolve_expr : Ast.Expr → State → Run (Scope E T) Core.Expr
  resolve_expr (Ast.Expr.var ident) s =
      and_then (resolve_var ident s) (λ var s. value (Core.Expr.var var) s)
  resolve_expr (Ast.Expr.literal lit) s =
      and_then (resolve_lit lit.kind lit.symbol s) (λ lit s. value (Core.Expr.literal lit) s)
  resolve_expr (Ast.Expr.binary_op op e1 e2) s =
      both (Core.Expr.binary_op op) (resolve_expr e1 s) (λ s. resolve_expr e2 s)

  abbrev pub resolve_sort : Ast.Ident → State → Run (Scope E T) Sort
  resolve_sort sort s =
      if sort == c.int_symbol
      then value Sort.int s
      else (if sort == c.bool_symbol then value Sort.bool s else reject (unresolved_sort sort) s)

  -- `resolve_path` behind the lookup in the table; `args` resolves the path's arguments.
  abbrev pub resolve_res :
      Hir.Res → (State → Run (Scope E T) Core.Tys) → State → Run (Scope E T) ParamTyOrBaseTy
  resolve_res (Hir.Res.ty_param did) args (x, d) = elim (get_param_ty c.exprs c.types did x.subst) [
    | some param ↦ value (param_ty param) (x, d)
    | none ↦ none
  ]
  resolve_res (Hir.Res.struct did) args s =
      and_then (args s) (λ args s. value (base_ty (Core.BaseTy.adt did args)) s)
  resolve_res (Hir.Res.int int_ty) args s = value (base_ty (Core.BaseTy.int int_ty)) s
  resolve_res (Hir.Res.uint uint_ty) args s = value (base_ty (Core.BaseTy.uint uint_ty)) s
  resolve_res Hir.Res.bool args s = value (base_ty Core.BaseTy.bool) s
  resolve_res Hir.Res.float args s = reject unsupported_signature s
  resolve_res Hir.Res.str args s = reject unsupported_signature s
  resolve_res Hir.Res.char args s = reject unsupported_signature s
  resolve_res Hir.Res.other_def args s = reject unsupported_signature s
  resolve_res Hir.Res.other args s = none

  -- The parts of `resolve_ty` behind its call of `resolve_path`.
  abbrev pub unrefined : ParamTyOrBaseTy → State → Run (Scope E T) Core.Ty
  unrefined (base_ty bty) s = value (Core.Ty.exists bty (Core.Pred.expr Core.true_expr)) s
  unrefined (param_ty param) s = value (Core.Ty.param param) s

  unfoldable pub refined : Ast.Expr → ParamTyOrBaseTy → State → Run (Scope E T) Core.Ty
  unfolding resolve_expr
  refined refine (base_ty bty) s =
      and_then (resolve_expr refine s) (λ e s. value (Core.Ty.refine bty e) s)
  refined refine (param_ty _) s = reject refined_type_param s

  abbrev pub enter : Ast.Ident → Scope E T → Scope E T
  enter bind x = record x {
    subst =
        (insert_expr c.exprs c.types bind Core.Var.bound
          (push_expr_layer c.exprs c.types x.subst)).1;
  }

  abbrev pub leave : {A : Type 0} → Run (Scope E T) A → Run (Scope E T) A
  leave none = none
  leave (some (r, (x, d))) =
      some (r, (record x { subst = pop_expr_layer c.exprs c.types x.subst }, d))

  unfoldable pub bound_in : Ast.Ident → Ast.Expr → ParamTyOrBaseTy → State → Run (Scope E T) Core.Ty
  unfolding resolve_expr
  bound_in bind pred (base_ty bty) (x, d) =
      and_then (leave (resolve_expr pred (enter bind x, d)))
        (λ e s. value (Core.Ty.exists bty (Core.Pred.expr e)) s)
  bound_in bind pred (param_ty _) s = reject refined_type_param s

  abbrev pub resolve_loc : Ast.Ident → State → Run (Scope E T) Core.Ty
  resolve_loc region (x, d) = elim (get_region c.exprs c.types region x.subst) [
    | some name ↦ value (Core.Ty.mut_ref name) (x, d)
    | none ↦ reject (unresolved_loc region) (x, d)
  ]

  module _ (table : NameResTable) where
    abbrev pub resolve_ident :
        Symbol → (State → Run (Scope E T) Core.Tys) → State → Run (Scope E T) ParamTyOrBaseTy
    resolve_ident ident args s = elim (find ℕ_discrete table ident) [
      | some res ↦ resolve_res res args s
      | none ↦ reject (unresolved_path ident) s
    ]

    unfoldable mutual
      unfolding refined bound_in

      pub resolve_ty : Ast.Ty → State → Run (Scope E T) Core.Ty
      resolve_ty (Ast.Ty.base_ty path) s = and_then (resolve_path path s) (λ p s. unrefined p s)
      resolve_ty (Ast.Ty.refine_ty path refine) s =
          and_then (resolve_path path s) (λ p s. refined refine p s)
      resolve_ty (Ast.Ty.exists bind path pred) s =
          and_then (resolve_path path s) (λ p s. bound_in bind pred p s)
      resolve_ty (Ast.Ty.mut_ref region) s = resolve_loc region s

      pub resolve_path : Ast.TyPath → State → Run (Scope E T) ParamTyOrBaseTy
      resolve_path (Ast.TyPath.plain ident) s = resolve_ident ident (λ s. value Core.Tys.nil s) s
      resolve_path (Ast.TyPath.generic ident args) s =
          resolve_ident ident (λ s. resolve_args args s) s

      -- `try_collect_exhaust` over the arguments
      pub resolve_args : Ast.Tys → State → Run (Scope E T) Core.Tys
      resolve_args Ast.Tys.nil s = value Core.Tys.nil s
      resolve_args (Ast.Tys.cons ty tys) s =
          both Core.Tys.cons (resolve_ty ty s) (λ s. resolve_args tys s)
