-- ===== src/Driver/Collect.antt =====
-- `collect_res` of liquid-rust-driver/src/resolve.rs: the resolutions of the names that stand in the
-- types of the Rust signature.
pub mod Good
use liquid_rust.Base.{List, ℕ_discrete, none, insert}
use liquid_rust.Common.Iter.{ErrorReported-semi_group, try_for_each_exhaust}
use liquid_rust.Typeck.Ty.{Symbol}
use liquid_rust.Driver.Diagnostics.{
  Diagnostics, Run, unsupported_signature, reject, value, and_then, both,
}
use liquid_rust.Driver.Hir.{Res, Ty, Tys, GenericArg, GenericArgs, FnRetTy, FnSig}

abbrev pub NameResTable : Type 0
NameResTable = List (Symbol × Res)

-- `Tup` stops at the first error, the arguments of a path and the inputs do not.
unfoldable mutual
  pub collect_res_ty : Ty → NameResTable × Diagnostics → Run NameResTable (Unit {0})
  collect_res_ty (Ty.slice ty) s = collect_res_ty ty s
  collect_res_ty (Ty.array ty) s = collect_res_ty ty s
  collect_res_ty (Ty.ptr ty) s = collect_res_ty ty s
  collect_res_ty (Ty.reference ty) s = collect_res_ty ty s
  collect_res_ty (Ty.tup tys) s = collect_res_tys tys s
  collect_res_ty (Ty.path ident res args) (table, d) =
      collect_res_generic_args args (insert ℕ_discrete table ident res, d)
  collect_res_ty Ty.multi_segment_path s = reject unsupported_signature s
  collect_res_ty Ty.other_path s = reject unsupported_signature s
  collect_res_ty Ty.other s = value tt s

  pub collect_res_tys : Tys → NameResTable × Diagnostics → Run NameResTable (Unit {0})
  collect_res_tys Tys.nil s = value tt s
  collect_res_tys (Tys.cons ty tys) s =
      and_then (collect_res_ty ty s) (λ _ s. collect_res_tys tys s)

  pub collect_res_generic_arg :
      GenericArg → NameResTable × Diagnostics → Run NameResTable (Unit {0})
  collect_res_generic_arg (GenericArg.type ty) s = collect_res_ty ty s
  collect_res_generic_arg GenericArg.lifetime s = reject unsupported_signature s
  collect_res_generic_arg GenericArg.const s = reject unsupported_signature s
  collect_res_generic_arg GenericArg.infer s = none

  pub collect_res_generic_args :
      GenericArgs → NameResTable × Diagnostics → Run NameResTable (Unit {0})
  collect_res_generic_args GenericArgs.no_args s = value tt s
  collect_res_generic_args (GenericArgs.arg arg args) s =
      both (λ _ _. tt) (collect_res_generic_arg arg s) (λ s. collect_res_generic_args args s)

abbrev pub collect_output : FnRetTy → NameResTable × Diagnostics → Run NameResTable (Unit {0})
collect_output FnRetTy.default_return s = reject unsupported_signature s
collect_output (FnRetTy.return_ty ty) s = collect_res_ty ty s

unfoldable pub collect_res : FnSig → NameResTable × Diagnostics → Run NameResTable (Unit {0})
unfolding collect_res_ty
collect_res sig s =
    and_then (try_for_each_exhaust collect_res_ty sig.inputs s) (λ _ s. collect_output sig.output s)
