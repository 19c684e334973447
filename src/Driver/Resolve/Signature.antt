-- ===== src/Driver/Resolve/Signature.antt =====
-- `Resolver::resolve`, `run` and the traversals of a signature of liquid-rust-driver/src/resolve.rs.
use liquid_rust.Base.{ℕ, List, [], ◌∷◌, Option, none, some}
use liquid_rust.Common.IndexGen.{start, fresh}
use liquid_rust.Common.Iter.{
  ErrorReported-semi_group, try_collect_exhaust, Result, ErrorReported, err, ok,
}
use liquid_rust.Core.Ty as Core
use liquid_rust.Syntax as Ast
use liquid_rust.Driver.Hir as Hir
use liquid_rust.Driver.Subst.{
  Subst, empty, insert_expr, insert_region, insert_type, push_type_layer, get_region,
}
use liquid_rust.Driver.Diagnostics.{
  Diagnostics, Error, Run, reject, drop, value, and_then, both, duplicate_generic_param,
}
use liquid_rust.Driver.Diagnostics as Diagnostics
use liquid_rust.Driver.Collect.{NameResTable, collect_res_ty, collect_res}
use liquid_rust.Driver.Resolve.{Setting, Scope, State, resolve_sort, resolve_expr, resolve_ty}

-- `name_gen.fresh()`, whose panic ends the function.
abbrev pub fresh_then {ℓ} : {A : Type ℓ} → Option ℕ × ℕ → (ℕ → ℕ → Option A) → Option A
fresh_then (none, _) k = none
fresh_then (some name, count) k = k name count

unfoldable pub collect_parent :
    Option Hir.Impl → NameResTable × Diagnostics → Run NameResTable (Unit {0})
unfolding collect_res_ty
collect_parent none s = value tt s
collect_parent (some parent) s = collect_res_ty parent.self_ty s

-- The end of `resolve` behind the collection of names: the diagnostics are dropped in the end.
abbrev pub resolve_behind :
    {X T : Type 0}
    → Run NameResTable (Unit {0})
    → (NameResTable → Diagnostics → Run X T)
    → Option (Result T ErrorReported × List Error)
resolve_behind none k = none
resolve_behind {X} {T} (some (err e, s)) k = drop {X = NameResTable} {T = T} (some (err e, s))
resolve_behind (some (ok _, (table, d))) k = drop (k table d)

module _ {E T : Type 0} (c : Setting E T) where
  unfoldable pub resolve_param_pred : Option Ast.Expr → State c → Run (Scope E T) Core.Expr
  unfolding resolve_expr
  resolve_param_pred (some e) s = resolve_expr c e s
  resolve_param_pred none s = value Core.true_expr s

  -- The closure of `resolve_generics` behind `insert_expr`, which gives the name's old meaning.
  unfoldable pub new_param :
      Ast.GenericParam → Core.Name → Option Core.Var → State c → Run (Scope E T) Core.Param
  unfolding resolve_param_pred
  new_param param name (some _) s = reject (duplicate_generic_param param.name) s
  new_param param name none s =
      both (λ sort pred. record { name = name; sort = sort; pred = pred })
        (resolve_sort c param.sort s) (λ s. resolve_param_pred param.pred s)

  unfoldable pub resolve_param : Ast.GenericParam → State c → Run (Scope E T) Core.Param
  unfolding new_param fresh
  resolve_param param (x, d) = fresh_then (fresh c.max_index x.name_gen) (λ name count.
      let (old, subst) = insert_expr c.exprs c.types param.name (Core.Var.free name) x.subst in
      new_param param name old (record { name_gen = count; subst = subst }, d))

  unfoldable pub resolve_generics :
      List Ast.GenericParam → State c → Run (Scope E T) (List Core.Param)
  unfolding resolve_param
  resolve_generics generics s = try_collect_exhaust resolve_param generics s

  module _ (table : NameResTable) where
    unfoldable pub named_ty : Core.Name → Ast.Ty → State c → Run (Scope E T) (Core.Name × Core.Ty)
    unfolding resolve_ty
    named_ty name ty s = and_then (resolve_ty c table ty s) (λ ty s. value (name, ty) s)

    unfoldable pub resolve_require :
        Ast.Ident × Ast.Ty → State c → Run (Scope E T) (Core.Name × Core.Ty)
    unfolding fresh named_ty
    resolve_require (region, ty) (x, d) = fresh_then (fresh c.max_index x.name_gen) (λ name count.
        named_ty name ty (
          record { name_gen = count; subst = insert_region c.exprs c.types region name x.subst },
          d,
        ))

    unfoldable pub resolve_ensure :
        Ast.Ident × Ast.Ty → State c → Run (Scope E T) (Core.Name × Core.Ty)
    unfolding resolve_require named_ty
    resolve_ensure (region, ty) (x, d) = elim (get_region c.exprs c.types region x.subst) [
      | some name ↦ named_ty name ty (x, d)
      | none ↦ resolve_require (region, ty) (x, d)
    ]

    -- The end of `run`: each step is run, then `?` on all.
    unfoldable pub resolve_signature : Ast.FnSig → State c → Run (Scope E T) Core.FnSig
    unfolding resolve_generics resolve_require resolve_ensure resolve_ty
    resolve_signature sig s =
        both
          (λ params (requires, (args, (ensures, ret))). record {
            params = params;
            requires = requires;
            args = args;
            ret = ret;
            ensures = ensures;
          })
          (resolve_generics sig.generics s)
          (λ s.
            both (λ requires rest. (requires, rest))
              (try_collect_exhaust resolve_require sig.requires s)
              (λ s.
                both (λ args rest. (args, rest))
                  (try_collect_exhaust (resolve_ty c table) sig.args s)
                  (λ s.
                    both (λ ensures ret. (ensures, ret))
                      (try_collect_exhaust resolve_ensure sig.ensures s)
                      (λ s. resolve_ty c table sig.ret s))))

  unfoldable pub insert_generic_types : List Hir.GenericParam → Subst E T → Option (Subst E T)
  insert_generic_types [] subst = some subst
  insert_generic_types (Hir.GenericParam.type did name ∷ generics) subst =
      elim (insert_type c.exprs c.types did name subst) [
        | some subst ↦ insert_generic_types generics subst
        | none ↦ none
      ]
  insert_generic_types (Hir.GenericParam.other ∷ generics) subst =
      insert_generic_types generics subst

  unfoldable pub insert_parent_types : Option Hir.Impl → Subst E T → Option (Subst E T)
  unfolding insert_generic_types
  insert_parent_types none subst = some subst
  insert_parent_types (some parent) subst = elim (insert_generic_types parent.generics subst) [
    | some subst ↦ some (push_type_layer c.exprs c.types subst)
    | none ↦ none
  ]

  abbrev pub then_types : {A : Type 0} → Option (Subst E T) → (Subst E T → Option A) → Option A
  then_types none k = none
  then_types (some subst) k = k subst

  -- `run`; `generics` are those of the function.
  unfoldable pub run :
      NameResTable
      → Option Hir.Impl
      → List Hir.GenericParam
      → Ast.FnSig
      → Diagnostics
      → Run (Scope E T) Core.FnSig
  unfolding insert_generic_types insert_parent_types resolve_signature
  run table parent generics sig d =
      then_types (insert_parent_types parent (empty c.exprs c.types)) (λ subst.
        then_types (insert_generic_types generics subst)
          (λ subst. resolve_signature table sig (record { name_gen = start; subst = subst }, d)))

  -- `resolve`: the result, and the errors that the session has emitted.
  unfoldable pub resolve :
      Option Hir.Impl
      → List Hir.GenericParam
      → Hir.FnSig
      → Ast.FnSig
      → Option (Result Core.FnSig ErrorReported × List Error)
  unfolding collect_parent collect_res run
  resolve parent generics hir_sig sig =
      resolve_behind
        (and_then (collect_parent parent ([], Diagnostics.new)) (λ _ s. collect_res hir_sig s))
        (λ table d. run table parent generics sig d)
