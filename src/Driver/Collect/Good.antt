-- ===== src/Driver/Collect/Good.antt =====
-- `collect_res` of liquid-rust-driver/src/resolve.rs: it does not panic on types without inferred
-- arguments, and it collects resolutions that stand in the signature.
use liquid_rust.Base.{
  List, [], ◌∷◌, some, ◌≡◌, sym, ◌∙◌, subst, ℕ_discrete, find, insert, find-insert,
  find-insert_other, All,
}
use mathlib.Core.Option
use liquid_rust.Common.Iter.{
  ErrorReported-semi_group, Result, ok, err, ErrorReported, try_collect_exhaust,
  try_for_each_exhaust,
}
use liquid_rust.Common.Iter.Exhaust.{try_for_each_exhaust-try_collect_exhaust}
use liquid_rust.Typeck.Ty.{Symbol}
use liquid_rust.Driver.Diagnostics.{Error, Run, unsupported_signature}
use liquid_rust.Driver.Diagnostics.Honest.{
  Honest, fine, failed, settled, Honest-and_then, Honest-both, collect-nil, collect_cons,
}
use liquid_rust.Driver.Hir.{Res, Ty, Tys, GenericArg, GenericArgs, FnRetTy, FnSig}
use liquid_rust.Driver.Collect.{
  NameResTable, collect_res_ty, collect_res_tys, collect_res_generic_arg, collect_res_generic_args,
  collect_output, collect_res,
}

-- `G` holds of every resolution in a type, and no argument is inferred.
module _ (G : Res → Type 0) where
  mutual
    pub data GoodTy : Ty → Type 0 where
      slice : {ty : Ty} → GoodTy ty → GoodTy (Ty.slice ty)
      array : {ty : Ty} → GoodTy ty → GoodTy (Ty.array ty)
      ptr : {ty : Ty} → GoodTy ty → GoodTy (Ty.ptr ty)
      reference : {ty : Ty} → GoodTy ty → GoodTy (Ty.reference ty)
      tup : {tys : Tys} → GoodTys tys → GoodTy (Ty.tup tys)
      path :
          {ident : Symbol} {res : Res} {args : GenericArgs}
          → G res
          → GoodArgs args
          → GoodTy (Ty.path ident res args)
      multi_segment_path : GoodTy Ty.multi_segment_path
      other_path : GoodTy Ty.other_path
      other : GoodTy Ty.other

    pub data GoodTys : Tys → Type 0 where
      nil : GoodTys Tys.nil
      cons : {ty : Ty} {tys : Tys} → GoodTy ty → GoodTys tys → GoodTys (Tys.cons ty tys)

    pub data GoodArg : GenericArg → Type 0 where
      type : {ty : Ty} → GoodTy ty → GoodArg (GenericArg.type ty)
      lifetime : GoodArg GenericArg.lifetime
      const : GoodArg GenericArg.const

    pub data GoodArgs : GenericArgs → Type 0 where
      no_args : GoodArgs GenericArgs.no_args
      arg :
          {a : GenericArg} {args : GenericArgs}
          → GoodArg a
          → GoodArgs args
          → GoodArgs (GenericArgs.arg a args)

  abbrev pub GoodOutput : FnRetTy → Type 0
  GoodOutput FnRetTy.default_return = Unit
  GoodOutput (FnRetTy.return_ty ty) = GoodTy ty

  pub record GoodSig (sig : FnSig) : Type 0 where
    pub inputs : All GoodTy sig.inputs
    pub output : GoodOutput sig.output

  abbrev pub GoodTable : NameResTable → Type 0
  GoodTable table = (k : Symbol) (res : Res) → find ℕ_discrete table k ≡ some res → G res

  insert-GoodTable :
      (table : NameResTable) (k : Symbol) (res : Res)
      → GoodTable table
      → G res
      → GoodTable (insert ℕ_discrete table k res)
  insert-GoodTable table k res t g j res' e = elim (ℕ_discrete k j) [
    | yes same ↦
        let found : find ℕ_discrete (insert ℕ_discrete table k res) j ≡ some res =
          subst (λ j. find ℕ_discrete (insert ℕ_discrete table k res) j ≡ some res) same
            (find-insert ℕ_discrete table k res) in
        let is_new : res ≡ res' = cc in subst G is_new g
    | no differ ↦ t j res' (sym (find-insert_other ℕ_discrete table k j res differ) ∙ e)
  ]

  mutual
    unfolding collect_res_ty

    pub collect_res_ty-Honest :
        {ty : Ty} (g : GoodTy ty) (table : NameResTable) (reports : List Error)
        → GoodTable table
        → Honest GoodTable (λ _. Unit {0}) reports (collect_res_ty ty (table, settled reports))
    collect_res_ty-Honest (GoodTy.slice g) table reports t = collect_res_ty-Honest g table reports t
    collect_res_ty-Honest (GoodTy.array g) table reports t = collect_res_ty-Honest g table reports t
    collect_res_ty-Honest (GoodTy.ptr g) table reports t = collect_res_ty-Honest g table reports t
    collect_res_ty-Honest (GoodTy.reference g) table reports t =
        collect_res_ty-Honest g table reports t
    collect_res_ty-Honest (GoodTy.tup g) table reports t = collect_res_tys-Honest g table reports t
    collect_res_ty-Honest (GoodTy.path {ident} {res} g as') table reports t =
        collect_res_generic_args-Honest as' (insert ℕ_discrete table ident res) reports
          (insert-GoodTable table ident res t g)
    collect_res_ty-Honest GoodTy.multi_segment_path table reports t =
        failed unsupported_signature [] t
    collect_res_ty-Honest GoodTy.other_path table reports t = failed unsupported_signature [] t
    collect_res_ty-Honest GoodTy.other table reports t = fine t tt

    collect_res_tys-Honest :
        {tys : Tys} (g : GoodTys tys) (table : NameResTable) (reports : List Error)
        → GoodTable table
        → Honest GoodTable (λ _. Unit {0}) reports (collect_res_tys tys (table, settled reports))
    collect_res_tys-Honest GoodTys.nil table reports t = fine t tt
    collect_res_tys-Honest (GoodTys.cons g gs) table reports t =
        Honest-and_then _ (collect_res_ty-Honest g table reports t)
          (λ _ table' t' _. collect_res_tys-Honest gs table' reports t') (λ _ t'. t')

    collect_res_generic_arg-Honest :
        {a : GenericArg} (g : GoodArg a) (table : NameResTable) (reports : List Error)
        → GoodTable table
        → Honest GoodTable
            (λ _. Unit {0})
            reports
            (collect_res_generic_arg a (table, settled reports))
    collect_res_generic_arg-Honest (GoodArg.type g) table reports t =
        collect_res_ty-Honest g table reports t
    collect_res_generic_arg-Honest GoodArg.lifetime table reports t =
        failed unsupported_signature [] t
    collect_res_generic_arg-Honest GoodArg.const table reports t = failed unsupported_signature [] t

    collect_res_generic_args-Honest :
        {args : GenericArgs} (g : GoodArgs args) (table : NameResTable) (reports : List Error)
        → GoodTable table
        → Honest GoodTable
            (λ _. Unit {0})
            reports
            (collect_res_generic_args args (table, settled reports))
    collect_res_generic_args-Honest GoodArgs.no_args table reports t = fine t tt
    collect_res_generic_args-Honest (GoodArgs.arg {args} g gs) table reports t =
        Honest-both _ (λ s. collect_res_generic_args args s)
          (collect_res_generic_arg-Honest g table reports t)
          (λ table' reports' t'. collect_res_generic_args-Honest gs table' reports' t')
          (λ _ _ _ _. tt)

  collect_inputs-Honest :
      (tys : List Ty) (table : NameResTable) (reports : List Error)
      → All GoodTy tys
      → GoodTable table
      → Honest GoodTable
          (λ _. Unit {0})
          reports
          (try_collect_exhaust collect_res_ty tys (table, settled reports))
  collect_inputs-Honest [] table reports g t =
      rw (collect-nil collect_res_ty (table, settled reports)) (fine t tt)
  collect_inputs-Honest (ty ∷ tys) table reports (g, gs) t =
      rw (collect_cons collect_res_ty ty tys (table, settled reports)) (
        Honest-both _ (λ s. try_collect_exhaust collect_res_ty tys s)
          (collect_res_ty-Honest g table reports t)
          (λ table' reports' t'. collect_inputs-Honest tys table' reports' gs t') (λ _ _ _ _. tt))

  forgotten :
      {T : Type 0} {reports : List Error} {m : Run NameResTable T}
      → Honest GoodTable (λ _. Unit {0}) reports m
      → Honest GoodTable
          (λ _. Unit {0})
          reports
          (Option.map
            (λ (r, s). (
              elim r as (λ _. Result (Unit {0}) ErrorReported) [ ok _ ↦ ok tt | err e ↦ err e ],
              s,
            ))
            m)
  forgotten (fine t p) = fine t tt
  forgotten (failed e es t) = failed e es t

  collect_output-Honest :
      (output : FnRetTy) (table : NameResTable) (reports : List Error)
      → GoodOutput output
      → GoodTable table
      → Honest GoodTable (λ _. Unit {0}) reports (collect_output output (table, settled reports))
  collect_output-Honest FnRetTy.default_return table reports g t = failed unsupported_signature [] t
  collect_output-Honest (FnRetTy.return_ty ty) table reports g t =
      collect_res_ty-Honest g table reports t

  collect_types-Honest :
      (tys : List Ty) (table : NameResTable) (reports : List Error)
      → All GoodTy tys
      → GoodTable table
      → Honest GoodTable
          (λ _. Unit {0})
          reports
          (try_for_each_exhaust collect_res_ty tys (table, settled reports))
  collect_types-Honest tys table reports g t =
      rw (try_for_each_exhaust-try_collect_exhaust collect_res_ty tys (table, settled reports))
        (forgotten (collect_inputs-Honest tys table reports g t))

  pub collect_res-Honest :
      (sig : FnSig) (table : NameResTable) (reports : List Error)
      → GoodSig sig
      → GoodTable table
      → Honest GoodTable (λ _. Unit {0}) reports (collect_res sig (table, settled reports))
  unfolding collect_res
  collect_res-Honest sig table reports g t =
      Honest-and_then _ (collect_types-Honest sig.inputs table reports g.inputs t)
        (λ _ table' t' _. collect_output-Honest sig.output table' reports g.output t') (λ _ t'. t')
