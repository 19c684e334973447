-- ===== src/Typeck/Lowering/Keeps.antt =====
-- Lowering, liquid-rust-typeck/src/lowering.rs, keeps the obligations of the cursor that it is given.
use liquid_rust.Base.{List, [], ◌∷◌, unwrap}
use liquid_rust.Core.Ty as Core
use liquid_rust.Typeck.Builder.{Cursor}
use liquid_rust.Typeck.Builder.Keeps.{Keeps-refl}
use liquid_rust.Typeck.Builder.Monotone.{
  KeepsVia, KeepsVia-ok, KeepsVia-pure, KeepsVia-bind, second, fresh_kvar-KeepsVia,
}
use liquid_rust.Typeck.Lowering.{
  Subst, get, lower_expr, lower_pred, lower_ty, lower_base_ty, lower_substs, push_types,
  with_type_substs,
}

lower_pred-Keeps :
    (s : Subst) (c : Cursor) (bty : Core.BaseTy) (p : Core.Pred)
    → KeepsVia second c (lower_pred s c bty p)
unfolding lower_pred
lower_pred-Keeps s c bty Core.Pred.infer = fresh_kvar-KeepsVia c (Core.base_sort bty)
lower_pred-Keeps s c bty (Core.Pred.expr e) =
    KeepsVia-pure second c (lower_expr s e) _ λ e'. KeepsVia-ok second c _ (Keeps-refl c)

mutual
  unfolding lower_ty lower_base_ty lower_substs

  pub lower_ty-Keeps : (s : Subst) (c : Cursor) (ty : Core.Ty) → KeepsVia second c (lower_ty s c ty)
  lower_ty-Keeps s c (Core.Ty.refine bty e) =
      KeepsVia-bind second second c _ _ (lower_base_ty-Keeps s c bty) λ (bty', c₁).
        KeepsVia-pure second c₁ (lower_expr s e) _ λ e'. KeepsVia-ok second c₁ _ (Keeps-refl c₁)
  lower_ty-Keeps s c (Core.Ty.exists bty p) =
      KeepsVia-bind second second c _ _ (lower_pred-Keeps s c bty p) λ (p', c₁).
        KeepsVia-bind second second c₁ _ _ (lower_base_ty-Keeps s c₁ bty)
          λ (bty', c₂). KeepsVia-ok second c₂ _ (Keeps-refl c₂)
  lower_ty-Keeps s c (Core.Ty.mut_ref x) =
      KeepsVia-pure second c (unwrap (get s.locations x)) _
        λ loc. KeepsVia-ok second c _ (Keeps-refl c)
  lower_ty-Keeps s c (Core.Ty.param p) = KeepsVia-ok second c _ (Keeps-refl c)

  lower_base_ty-Keeps :
      (s : Subst) (c : Cursor) (bty : Core.BaseTy) → KeepsVia second c (lower_base_ty s c bty)
  lower_base_ty-Keeps s c (Core.BaseTy.int i) = KeepsVia-ok second c _ (Keeps-refl c)
  lower_base_ty-Keeps s c (Core.BaseTy.uint i) = KeepsVia-ok second c _ (Keeps-refl c)
  lower_base_ty-Keeps s c Core.BaseTy.bool = KeepsVia-ok second c _ (Keeps-refl c)
  lower_base_ty-Keeps s c (Core.BaseTy.adt did substs) =
      KeepsVia-bind second second c _ _ (lower_substs-Keeps s c substs)
        λ (substs', c₁). KeepsVia-ok second c₁ _ (Keeps-refl c₁)

  lower_substs-Keeps :
      (s : Subst) (c : Cursor) (tys : Core.Tys) → KeepsVia second c (lower_substs s c tys)
  lower_substs-Keeps s c Core.Tys.nil = KeepsVia-ok second c _ (Keeps-refl c)
  lower_substs-Keeps s c (Core.Tys.cons ty tys) =
      KeepsVia-bind second second c _ _ (lower_ty-Keeps s c ty) λ (ty', c₁).
        KeepsVia-bind second second c₁ _ _ (lower_substs-Keeps s c₁ tys)
          λ (tys', c₂). KeepsVia-ok second c₂ _ (Keeps-refl c₂)

push_types-Keeps :
    (s : Subst) (c : Cursor) (tys : List Core.Ty) → KeepsVia second c (push_types s c tys)
unfolding push_types
push_types-Keeps s c [] = KeepsVia-ok second c _ (Keeps-refl c)
push_types-Keeps s c (ty ∷ tys) =
    KeepsVia-bind second second c _ _ (lower_ty-Keeps s c ty) λ (ty', c₁). push_types-Keeps _ c₁ tys

pub with_type_substs-Keeps :
    (c : Cursor) (tys : List Core.Ty) → KeepsVia second c (with_type_substs c tys)
unfolding with_type_substs
with_type_substs-Keeps c tys = push_types-Keeps _ c tys
