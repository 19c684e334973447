-- ===== src/Examples/Resolve.antt =====
-- A signature resolved by liquid-rust-driver/src/resolve.rs, with the maps of Examples/Layers.
use liquid_rust.Base.{
  ℕ, List, [], ◌∷◌, Option, none, some, ◌≡◌, refl, inl, inr, arith, ◌==◌, if◌then◌else◌, ℕ_discrete,
  NoPanic, map, All, false, ◌↔◌, insert, find,
}
use liquid_rust.Base.Int.{ℤ}
use liquid_rust.Fixpoint.Constraint.{Sort}
use liquid_rust.Common.IndexGen.{fresh}
use liquid_rust.Common.Iter.{
  ok, err, error_reported, residuals, try_collect_exhaust, for_each, try_for_each_exhaust,
}
use liquid_rust.Core.Ty as Core
use liquid_rust.Core.Wf.{check_fn_sig}
use liquid_rust.Syntax as Ast
use liquid_rust.Typeck.Ty.{ParamTy}
use liquid_rust.Driver.Hir as Hir
use liquid_rust.Driver.Diagnostics as Diagnostics
use liquid_rust.Driver.Diagnostics.Inversion.{Gives}
use liquid_rust.Driver.Collect.{collect_res_ty, collect_res}
use liquid_rust.Driver.Collect.Good.{GoodTy, GoodArgs}
use liquid_rust.Driver.Resolve.{Setting, Scope, resolve_expr, refined, bound_in, resolve_ty}
use liquid_rust.Driver.Resolve.Closed.{SignatureClosed}
use liquid_rust.Driver.Resolve.Judged.{Resolves, resolve_expr-Resolves}
use liquid_rust.Driver.Resolve.TypeParams.{Distinct}
use liquid_rust.Driver.Resolve.Duplicates.{resolve_generics-Distinct}
use liquid_rust.Driver.Resolve.Signature.{
  resolve_param_pred, new_param, resolve_param, resolve_generics, named_ty, resolve_require,
  resolve_ensure, resolve_signature, insert_generic_types, insert_parent_types, run, collect_parent,
  resolve,
}
use liquid_rust.Driver.Resolve.Total.{Reports, Compiled, resolve-Reports, resolve-check_fn_sig}
use liquid_rust.Examples.Layers.{Layers, layers, find_in, layers-IsScopeMap}

program : Unit {0}
unfolding fresh residuals try_collect_exhaust for_each try_for_each_exhaust collect_res_ty
    collect_res resolve_expr refined bound_in resolve_ty resolve_param_pred new_param resolve_param
    resolve_generics named_ty resolve_require resolve_ensure resolve_signature insert_generic_types
    insert_parent_types run collect_parent resolve layers find_in insert find ℕ_discrete
program = tt

-- The symbols `int`, `bool`, `true`, then `i32`, `T`, `n`, `l`, `v` and the literal `0`.
abbrev parse : ℕ → Option ℤ
parse symbol = if symbol == 30 then some (ℤ.pos 0) else none

abbrev setting : Setting (Layers Core.Var) (Layers ParamTy)
setting = record {
  exprs = layers;
  types = layers;
  int_symbol = 1;
  bool_symbol = 2;
  true_symbol = 3;
  parse_i128 = parse;
  max_index = 1000;
}

-- `fn<T>(i32, &mut T) -> i32`
abbrev hir_generics : List Hir.GenericParam
hir_generics = Hir.GenericParam.type 7 11 ∷ []

abbrev hir_sig : Hir.FnSig
hir_sig = record {
  inputs =
      Hir.Ty.path 10 (Hir.Res.int 32) Hir.GenericArgs.no_args
      ∷ Hir.Ty.reference (Hir.Ty.path 11 (Hir.Res.ty_param 7) Hir.GenericArgs.no_args)
      ∷ [];
  output = Hir.FnRetTy.return_ty (Hir.Ty.path 10 (Hir.Res.int 32) Hir.GenericArgs.no_args);
}

-- `n > 0`, `v > n`
abbrev positive : Ast.Expr
positive =
    Ast.Expr.binary_op Core.BinOp.gt (Ast.Expr.var 20)
      (Ast.Expr.literal (record { kind = Ast.LitKind.integer; symbol = 30 }))

abbrev above : Ast.Expr
above = Ast.Expr.binary_op Core.BinOp.gt (Ast.Expr.var 22) (Ast.Expr.var 20)

-- `fn<n: int{n > 0}>(i32@n, ref<l>) -> i32{v: v > n}` with `l: T` required and `l: T` ensured
abbrev sig : Ast.FnSig
sig = record {
  generics = record { name = 20; sort = 1; pred = some positive } ∷ [];
  requires = (21, Ast.Ty.base_ty (Ast.TyPath.plain 11)) ∷ [];
  args = Ast.Ty.refine_ty (Ast.TyPath.plain 10) (Ast.Expr.var 20) ∷ Ast.Ty.mut_ref 21 ∷ [];
  ret = Ast.Ty.exists 22 (Ast.TyPath.plain 10) above;
  ensures = (21, Ast.Ty.base_ty (Ast.TyPath.plain 11)) ∷ [];
}

abbrev param_ty : ParamTy
param_ty = record { index = 0; name = 11 }

abbrev resolved : Core.FnSig
resolved = record {
  params =
      record {
        name = 0;
        sort = Sort.int;
        pred =
            Core.Expr.binary_op Core.BinOp.gt (Core.Expr.var (Core.Var.free 0))
              (Core.Expr.literal (Core.Lit.int (ℤ.pos 0)));
      }
      ∷ [];
  requires = (1, Core.Ty.param param_ty) ∷ [];
  args =
      Core.Ty.refine (Core.BaseTy.int 32) (Core.Expr.var (Core.Var.free 0))
      ∷ Core.Ty.mut_ref 1
      ∷ [];
  ret = Core.Ty.exists (Core.BaseTy.int 32) (
      Core.Pred.expr (
        Core.Expr.binary_op Core.BinOp.gt (Core.Expr.var Core.Var.bound)
          (Core.Expr.var (Core.Var.free 0))));
  ensures = (1, Core.Ty.param param_ty) ∷ [];
}

resolve_run : resolve setting none hir_generics hir_sig sig ≡ some (ok resolved, [])
unfolding program
resolve_run = refl

-- An unknown variable is an error of its own, and so is one in the result.
abbrev open_sig : Ast.FnSig
open_sig = record sig {
  generics = [];
  ret = Ast.Ty.refine_ty (Ast.TyPath.plain 10) (Ast.Expr.var 22);
}

open_run :
    resolve setting none hir_generics hir_sig open_sig
    ≡ some (
      err error_reported,
      Diagnostics.Error.unresolved_var 20 ∷ Diagnostics.Error.unresolved_var 22 ∷ [],
    )
unfolding program
open_run = refl

compiled : Compiled none hir_generics hir_sig
compiled = record {
  parent_distinct = tt;
  distinct = (tt, tt);
  self_ty = tt;
  sig = record {
    inputs = (
      GoodTy.path tt GoodArgs.no_args,
      (GoodTy.reference (GoodTy.path (inr (inl refl)) GoodArgs.no_args), tt),
    );
    output = GoodTy.path tt GoodArgs.no_args;
  };
}

resolve-Reports_example : Reports SignatureClosed (resolve setting none hir_generics hir_sig sig)
resolve-Reports_example =
    resolve-Reports setting none hir_generics hir_sig sig layers-IsScopeMap layers-IsScopeMap
      (omega arith) compiled (omega arith)

resolve-check_fn_sig_example : NoPanic (check_fn_sig resolved)
resolve-check_fn_sig_example =
    resolve-check_fn_sig setting none hir_generics hir_sig sig resolved layers-IsScopeMap
      layers-IsScopeMap (omega arith) compiled (omega arith) resolve_run

-- In a scope where `n` is the parameter 0.
abbrev scope : Scope (Layers Core.Var) (Layers ParamTy)
scope = record {
  name_gen = 1;
  subst = record {
    exprs = record { top = (20, Core.Var.free 0) ∷ []; below = [] };
    regions = [];
    types = record { top = []; below = [] };
  };
}

abbrev positive_core : Core.Expr
positive_core =
    Core.Expr.binary_op Core.BinOp.gt (Core.Expr.var (Core.Var.free 0))
      (Core.Expr.literal (Core.Lit.int (ℤ.pos 0)))

resolve_expr-Resolves_example :
    Gives
      (resolve_expr setting positive (scope, Diagnostics.new))
      positive_core
      (scope, Diagnostics.new)
    ↔ Resolves setting scope positive positive_core
resolve_expr-Resolves_example =
    resolve_expr-Resolves setting scope Diagnostics.new positive positive_core

abbrev empty_scope : Scope (Layers Core.Var) (Layers ParamTy)
empty_scope = record scope {
  name_gen = 0;
  subst = record scope.subst { exprs = record { top = []; below = [] } };
}

generics_run :
    Gives
      (resolve_generics setting sig.generics (empty_scope, Diagnostics.new))
      resolved.params
      (scope, Diagnostics.new)
unfolding program
generics_run = refl

resolve_generics-Distinct_example :
    Distinct (map (λ (p : Ast.GenericParam). p.name) sig.generics)
    × All
        (λ (p : Ast.GenericParam).
          setting.exprs.contains_key_at_top empty_scope.subst.exprs p.name ≡ false)
        sig.generics
resolve_generics-Distinct_example =
    resolve_generics-Distinct setting sig.generics empty_scope Diagnostics.new layers-IsScopeMap
      generics_run
