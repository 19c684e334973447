-- ===== src/Driver/Resolve/Types.antt =====
-- `resolve_path` and `resolve_ty` of liquid-rust-driver/src/resolve.rs: they do not panic,
-- they return an error exactly if they emit one, and what they resolve is closed.
use liquid_rust.Base.{
  List, [], some, Option-cases, ℕ_discrete, find, ◌≡◌, refl, sym, ◌∙◌, subst, inl, inr,
}
use liquid_rust.Core.Ty as Core
use liquid_rust.Typeck.Ty.{Symbol}
use liquid_rust.Syntax as Ast
use liquid_rust.Driver.Hir as Hir
use liquid_rust.Driver.ScopeMap.{IsScopeMap}
use liquid_rust.Driver.Diagnostics.{
  Error, Run, unresolved_loc, unresolved_path, unsupported_signature, refined_type_param,
}
use liquid_rust.Driver.Diagnostics.Honest.{
  Honest, fine, failed, settled, Honest-mono, Honest-and_then, Honest-both,
}
use liquid_rust.Driver.Subst.{insert_expr, pop_expr_layer}
use liquid_rust.Driver.Collect.{NameResTable}
use liquid_rust.Driver.Resolve.{
  Setting, Scope, State, ParamTyOrBaseTy, base_ty, param_ty, resolve_res, unrefined, refined, enter,
  leave, bound_in, resolve_loc, resolve_ident, resolve_ty, resolve_path, resolve_args,
}
use liquid_rust.Driver.Resolve.Closed.{Below, BelowOrBound, Bounds, TyClosed, BaseClosed, TysClosed}
use liquid_rust.Driver.Resolve.Exprs.{Reads, resolve_expr-Honest}
use liquid_rust.Driver.Resolve.Ready.{
  Resolvable, Kept, Ready, Kept-self, Kept-trans, Kept-of, Ready-Kept,
}

abbrev pub PathClosed : Bounds → ParamTyOrBaseTy → Type 0
PathClosed b (base_ty bty) = BaseClosed b bty
PathClosed b (param_ty _) = Unit

module _ {E T : Type 0} (c : Setting E T) (laws : IsScopeMap c.exprs) (b : Bounds) where
  abbrev layered : Ast.Ident → Scope E T → Scope E T
  layered bind x = record x {
    subst = record x.subst {
      exprs = c.exprs.define (c.exprs.push_layer x.subst.exprs) bind Core.Var.bound;
    };
  }

  enter_lem : (bind : Ast.Ident) (x : Scope E T) → enter c bind x ≡ layered bind x
  enter_lem bind x = rw (laws.at_top_push x.subst.exprs bind, insert_expr) refl

  Below-BelowOrBound : (v : Core.Var) → Below b.n v → BelowOrBound b.n v
  Below-BelowOrBound Core.Var.bound h = tt
  Below-BelowOrBound (Core.Var.free m) h = h

  -- Inside the layer of the bound variable, and behind it.
  enter-Reads :
      (bind : Ast.Ident) (x : Scope E T)
      → Reads c (Below b.n) x
      → Reads c (BelowOrBound b.n) (enter c bind x)
  enter-Reads bind x h = subst (Reads c (BelowOrBound b.n)) (sym (enter_lem bind x)) (λ y v e.
      elim (ℕ_discrete bind y) [
        | yes same ↦
            let found : c.exprs.get (layered bind x).subst.exprs y ≡ some Core.Var.bound =
              subst (λ k. c.exprs.get (layered bind x).subst.exprs k ≡ some Core.Var.bound) same
                (laws.get_define _ bind Core.Var.bound) in
            let is_bound : Core.Var.bound ≡ v = cc in subst (BelowOrBound b.n) is_bound tt
        | no other ↦ Below-BelowOrBound v (
            h y v (
              sym (laws.get_push x.subst.exprs y)
              ∙ sym (laws.get_define_other _ bind y Core.Var.bound other)
              ∙ e))
      ])

  abbrev behind : Scope E T → Scope E T
  behind x = record x { subst = pop_expr_layer c.exprs c.types x.subst }

  behind-Kept : (bind : Ast.Ident) (x x' : Scope E T) → enter c bind x ≡ x' → Kept c x (behind x')
  behind-Kept bind x x' e =
      subst (λ z. Kept c x (behind z)) (sym (enter_lem bind x) ∙ e)
        (record {
          name_gen = refl;
          vars = λ y. laws.get_pop x.subst.exprs bind y Core.Var.bound;
          regions = refl;
          types = refl;
        })

  leave-Honest :
      {P : Core.Expr → Type 0} (bind : Ast.Ident) (x : Scope E T) {reports : List Error}
      {m : Run (Scope E T) Core.Expr}
      → Honest (λ x'. enter c bind x ≡ x') P reports m
      → Honest (Kept c x) P reports (leave c m)
  leave-Honest bind x (fine {x = x'} i p) = fine (behind-Kept bind x x' i) p
  leave-Honest bind x (failed {x = x'} e es i) = failed e es (behind-Kept bind x x' i)

  module _ (table : NameResTable) (x : Scope E T) (reports : List Error) where
    abbrev Here : Type 0
    Here = Ready c table b x

    unrefined-Honest :
        (p : ParamTyOrBaseTy)
        → PathClosed b p
        → Honest (Kept c x) (TyClosed b) reports (unrefined c p (x, settled reports))
    unrefined-Honest (base_ty bty) p = fine (Kept-self c x) (TyClosed.exists p tt)
    unrefined-Honest (param_ty _) p = fine (Kept-self c x) TyClosed.param

    refined-Honest :
        (e : Ast.Expr) (p : ParamTyOrBaseTy)
        → Here
        → PathClosed b p
        → Honest (Kept c x) (TyClosed b) reports (refined c e p (x, settled reports))
    unfolding refined
    refined-Honest e (base_ty bty) r p =
        Honest-and_then _ (resolve_expr-Honest c (Below b.n) x e reports r.vars)
          (λ t x' i q. fine (Kept-of c i) (TyClosed.refine p q)) (λ x' i. Kept-of c i)
    refined-Honest e (param_ty _) r p = failed refined_type_param [] (Kept-self c x)

    bound_in-Honest :
        (bind : Ast.Ident) (e : Ast.Expr) (p : ParamTyOrBaseTy)
        → Here
        → PathClosed b p
        → Honest (Kept c x) (TyClosed b) reports (bound_in c bind e p (x, settled reports))
    unfolding bound_in
    bound_in-Honest bind e (base_ty bty) r p =
        Honest-and_then _
          (leave-Honest bind x (
            resolve_expr-Honest c (BelowOrBound b.n) (enter c bind x) e reports
              (enter-Reads bind x r.vars)))
          (λ t x' i q. fine i (TyClosed.exists p q)) (λ x' i. i)
    bound_in-Honest bind e (param_ty _) r p = failed refined_type_param [] (Kept-self c x)

    resolve_loc-Honest :
        (region : Ast.Ident)
        → Here
        → Honest (Kept c x) (TyClosed b) reports (resolve_loc c region (x, settled reports))
    resolve_loc-Honest region r = elim (Option-cases (find ℕ_discrete x.subst.regions region)) [
      | inl e ↦ rw (e, resolve_loc) (failed (unresolved_loc region) [] (Kept-self c x))
      | inr (m, e) ↦
          let (l, h) = r.regions region m e in
          rw (e, resolve_loc) (fine (Kept-self c x) (TyClosed.mut_ref l h))
    ]

    module _ (args : State c → Run (Scope E T) Core.Tys)
        (args_Honest : Honest (Kept c x) (TysClosed b) reports (args (x, settled reports))) where
      resolve_res-Honest :
          (res : Hir.Res)
          → Resolvable c x.subst.types res
          → Honest (Kept c x) (PathClosed b) reports (resolve_res c res args (x, settled reports))
      resolve_res-Honest (Hir.Res.ty_param did) (p, h) =
          rw (h, resolve_res) (fine (Kept-self c x) tt)
      resolve_res-Honest (Hir.Res.struct did) h =
          Honest-and_then _ args_Honest (λ t x' i q. fine i (BaseClosed.adt q)) (λ x' i. i)
      resolve_res-Honest (Hir.Res.int _) h = fine (Kept-self c x) BaseClosed.int
      resolve_res-Honest (Hir.Res.uint _) h = fine (Kept-self c x) BaseClosed.uint
      resolve_res-Honest Hir.Res.bool h = fine (Kept-self c x) BaseClosed.bool
      resolve_res-Honest Hir.Res.float h = failed unsupported_signature [] (Kept-self c x)
      resolve_res-Honest Hir.Res.str h = failed unsupported_signature [] (Kept-self c x)
      resolve_res-Honest Hir.Res.char h = failed unsupported_signature [] (Kept-self c x)
      resolve_res-Honest Hir.Res.other_def h = failed unsupported_signature [] (Kept-self c x)
      resolve_res-Honest Hir.Res.other h = elim h [ ]

      resolve_ident-Honest :
          (ident : Symbol)
          → Here
          → Honest
              (Kept c x)
              (PathClosed b)
              reports
              (resolve_ident c table ident args (x, settled reports))
      resolve_ident-Honest ident r = elim (Option-cases (find ℕ_discrete table ident)) [
        | inl e ↦ rw (e, resolve_ident) (failed (unresolved_path ident) [] (Kept-self c x))
        | inr (res, e) ↦ rw (e, resolve_ident) (resolve_res-Honest res (r.paths ident res e))
      ]

  mutual
    unfolding resolve_ty

    pub resolve_ty-Honest :
        (table : NameResTable) (ty : Ast.Ty) (x : Scope E T) (reports : List Error)
        → Ready c table b x
        → Honest (Kept c x) (TyClosed b) reports (resolve_ty c table ty (x, settled reports))
    resolve_ty-Honest table (Ast.Ty.base_ty path) x reports r =
        Honest-and_then _ (resolve_path-Honest table path x reports r)
          (λ p x' k h.
            Honest-mono (unrefined-Honest table x' reports p h) (λ y k'. Kept-trans c k k')
              (λ _ q. q))
          (λ _ k. k)
    resolve_ty-Honest table (Ast.Ty.refine_ty path e) x reports r =
        Honest-and_then _ (resolve_path-Honest table path x reports r)
          (λ p x' k h.
            Honest-mono (refined-Honest table x' reports e p (Ready-Kept c r k) h)
              (λ y k'. Kept-trans c k k') (λ _ q. q))
          (λ _ k. k)
    resolve_ty-Honest table (Ast.Ty.exists bind path e) x reports r =
        Honest-and_then _ (resolve_path-Honest table path x reports r)
          (λ p x' k h.
            Honest-mono (bound_in-Honest table x' reports bind e p (Ready-Kept c r k) h)
              (λ y k'. Kept-trans c k k') (λ _ q. q))
          (λ _ k. k)
    resolve_ty-Honest table (Ast.Ty.mut_ref region) x reports r =
        resolve_loc-Honest table x reports region r

    resolve_path-Honest :
        (table : NameResTable) (path : Ast.TyPath) (x : Scope E T) (reports : List Error)
        → Ready c table b x
        → Honest (Kept c x) (PathClosed b) reports (resolve_path c table path (x, settled reports))
    resolve_path-Honest table (Ast.TyPath.plain ident) x reports r =
        resolve_ident-Honest table x reports _ (fine (Kept-self c x) TysClosed.nil) ident r
    resolve_path-Honest table (Ast.TyPath.generic ident args) x reports r =
        resolve_ident-Honest table x reports _ (resolve_args-Honest table args x reports r) ident r

    resolve_args-Honest :
        (table : NameResTable) (tys : Ast.Tys) (x : Scope E T) (reports : List Error)
        → Ready c table b x
        → Honest (Kept c x) (TysClosed b) reports (resolve_args c table tys (x, settled reports))
    resolve_args-Honest table Ast.Tys.nil x reports r = fine (Kept-self c x) TysClosed.nil
    resolve_args-Honest table (Ast.Tys.cons ty tys) x reports r =
        Honest-both _ (λ s. resolve_args c table tys s) (resolve_ty-Honest table ty x reports r)
          (λ x' reports' k.
            Honest-mono (resolve_args-Honest table tys x' reports' (Ready-Kept c r k))
              (λ y k'. Kept-trans c k k') (λ _ q. q))
          (λ t u p q. TysClosed.cons p q)
