-- ===== src/Typeck/TypeEnv/JoinKeeps.antt =====
-- The joins of liquid-rust-typeck/src/type_env.rs keep the obligations of the cursor.
use liquid_rust.Base.{
  ℕ, zero, suc, List, ◌∷◌, true, false, ok, panicked, ◌>>=◌, assert, ℕ_discrete, ◌&&◌,
}
use liquid_rust.Typeck.Ty.{Loc, Ty, BaseTy, Tys, DefId, Expr-discrete, base_sort}
use liquid_rust.Typeck.Builder.{Cursor}
use liquid_rust.Typeck.Builder.Subtyping.{Variance}
use liquid_rust.Typeck.Builder.Keeps.{Keeps-refl}
use liquid_rust.Typeck.Builder.Monotone.{
  KeepsVia, KeepsVia-ok, KeepsVia-panic, KeepsVia-pure, KeepsVia-bind, second, third,
  fresh_kvar-KeepsVia,
}
use liquid_rust.Typeck.TypeEnv.{TypeEnv, strong_at}
use liquid_rust.Typeck.TypeEnv.Join.{
  TyJoin, LocJoin, ref_weak, substs_join, bty_join, generalized_join, different_ty_join,
  indexed_referents_join, referents_join, strg_ty_join, ref_weak_join, assert_covariant,
  Ty-discrete, is_indexed,
}
use liquid_rust.Typeck.TypeEnv.Keeps.{ref_weak-Keeps}

module _ (variances_of : DefId → List Variance) where
  -- The recursive calls keep the obligations.
  abbrev TyJoinKeeps : TyJoin → Type 1
  TyJoinKeeps join =
      (env : TypeEnv) (c : Cursor) (ty1 ty2 : Ty) → KeepsVia third c (join env c ty1 ty2)

  abbrev LocJoinKeeps : LocJoin → Type 1
  LocJoinKeeps join =
      (env : TypeEnv) (c : Cursor) (loc1 loc2 : Loc) → KeepsVia third c (join env c loc1 loc2)

  module _ (tys : TyJoin) (locs : LocJoin) (ktys : TyJoinKeeps tys)
      (klocs : LocJoinKeeps locs) where
    substs_join-Keeps :
        (env : TypeEnv) (c : Cursor) (vs : List Variance) (tys1 tys2 : Tys)
        → KeepsVia third c (substs_join variances_of tys locs env c vs tys1 tys2)
    unfolding substs_join
    substs_join-Keeps env c (v ∷ vs) (Tys.cons ty1 tys1) (Tys.cons ty2 tys2) =
        KeepsVia-pure third c (assert_covariant v) _ λ _.
          KeepsVia-bind third third c _ _ (ktys env c ty1 ty2) λ (ty, (env₁, c₁)).
            KeepsVia-bind third third c₁ _ _ (substs_join-Keeps env₁ c₁ vs tys1 tys2)
              λ (tys', (env₂, c₂)). KeepsVia-ok third c₂ _ (Keeps-refl c₂)
    substs_join-Keeps env c _ _ _ = KeepsVia-ok third c _ (Keeps-refl c)

    bty_join-Keeps :
        (env : TypeEnv) (c : Cursor) (bty1 bty2 : BaseTy)
        → KeepsVia third c (bty_join variances_of tys locs env c bty1 bty2)
    unfolding bty_join
    bty_join-Keeps env c BaseTy.bool BaseTy.bool = KeepsVia-ok third c _ (Keeps-refl c)
    bty_join-Keeps env c (BaseTy.int i1) (BaseTy.int i2) =
        KeepsVia-pure third c (assert (ℕ_discrete i1 i2)) _
          λ _. KeepsVia-ok third c _ (Keeps-refl c)
    bty_join-Keeps env c (BaseTy.uint i1) (BaseTy.uint i2) =
        KeepsVia-pure third c (assert (ℕ_discrete i1 i2)) _
          λ _. KeepsVia-ok third c _ (Keeps-refl c)
    bty_join-Keeps env c (BaseTy.adt did1 substs1) (BaseTy.adt did2 substs2) =
        KeepsVia-pure third c (assert (ℕ_discrete did1 did2)) _ λ _.
          KeepsVia-bind third third c _ _
            (substs_join-Keeps env c (variances_of did1) substs1 substs2)
            λ (substs, (env₁, c₁)). KeepsVia-ok third c₁ _ (Keeps-refl c₁)
    bty_join-Keeps env c _ _ = KeepsVia-panic third c

    generalized_join-Keeps :
        (env : TypeEnv) (c : Cursor) (bty1 bty2 : BaseTy)
        → KeepsVia third c (generalized_join variances_of tys locs env c bty1 bty2)
    unfolding generalized_join
    generalized_join-Keeps env c bty1 bty2 =
        KeepsVia-bind third third c _ _ (bty_join-Keeps env c bty1 bty2) λ (bty, (env₁, c₁)).
          KeepsVia-bind third second c₁ _ _ (fresh_kvar-KeepsVia c₁ (base_sort bty))
            λ (p, c₂). KeepsVia-ok third c₂ _ (Keeps-refl c₂)

    -- A reference that becomes weak
    ref_weak-then :
        (env : TypeEnv) (c : Cursor) (loc : Loc) (ty : Ty)
        → KeepsVia third c (ref_weak variances_of env c loc ty >>= λ s. ok (ty, s))
    ref_weak-then env c loc ty =
        KeepsVia-bind third second c _ _ (ref_weak-Keeps variances_of env c loc ty)
          λ (env₁, c₁). KeepsVia-ok third c₁ _ (Keeps-refl c₁)

    different_ty_join-Keeps :
        (env : TypeEnv) (c : Cursor) (ty1 ty2 : Ty)
        → KeepsVia third c (different_ty_join variances_of tys locs env c ty1 ty2)
    unfolding different_ty_join
    different_ty_join-Keeps env c Ty.uninit ty2 = KeepsVia-ok third c _ (Keeps-refl c)
    different_ty_join-Keeps env c (Ty.refine bty1 e1) (Ty.refine bty2 e2) =
        elim (Expr-discrete e1 e2)
          as (λ d. KeepsVia third c (elim d [
            | yes _ ↦ bty_join variances_of tys locs env c bty1 bty2 >>= λ (bty, s).
                ok (Ty.refine bty e1, s)
            | no _ ↦ generalized_join variances_of tys locs env c bty1 bty2
          ])) [
            | yes _ ↦
                KeepsVia-bind third third c _ _ (bty_join-Keeps env c bty1 bty2)
                  λ (bty, (env₁, c₁)). KeepsVia-ok third c₁ _ (Keeps-refl c₁)
            | no _ ↦ generalized_join-Keeps env c bty1 bty2
          ]
    different_ty_join-Keeps env c (Ty.refine bty1 _) (Ty.exists bty2 _) =
        generalized_join-Keeps env c bty1 bty2
    different_ty_join-Keeps env c (Ty.exists bty1 _) (Ty.refine bty2 _) =
        generalized_join-Keeps env c bty1 bty2
    different_ty_join-Keeps env c (Ty.exists bty1 _) (Ty.exists bty2 _) =
        generalized_join-Keeps env c bty1 bty2
    different_ty_join-Keeps env c (Ty.strg_ref loc1) (Ty.strg_ref loc2) =
        KeepsVia-bind third third c _ _ (klocs env c loc1 loc2)
          λ (ty, (env₁, c₁)). KeepsVia-ok third c₁ _ (Keeps-refl c₁)
    different_ty_join-Keeps env c (Ty.ref ty) (Ty.strg_ref loc) = ref_weak-then env c loc ty
    different_ty_join-Keeps env c (Ty.strg_ref loc) (Ty.ref ty) = ref_weak-then env c loc ty
    different_ty_join-Keeps env c (Ty.refine _ _) Ty.uninit = KeepsVia-ok third c _ (Keeps-refl c)
    different_ty_join-Keeps env c (Ty.exists _ _) Ty.uninit = KeepsVia-ok third c _ (Keeps-refl c)
    different_ty_join-Keeps env c (Ty.strg_ref _) Ty.uninit = KeepsVia-ok third c _ (Keeps-refl c)
    different_ty_join-Keeps env c (Ty.ref _) Ty.uninit = KeepsVia-ok third c _ (Keeps-refl c)
    different_ty_join-Keeps env c (Ty.param _) Ty.uninit = KeepsVia-ok third c _ (Keeps-refl c)
    different_ty_join-Keeps env c _ _ = KeepsVia-panic third c

    indexed_referents_join-Keeps :
        (env : TypeEnv) (c : Cursor) (loc1 loc2 : Loc) (ty1 ty2 : Ty)
        → KeepsVia third c (indexed_referents_join variances_of tys locs env c loc1 loc2 ty1 ty2)
    unfolding indexed_referents_join
    indexed_referents_join-Keeps env c loc1 loc2 ty1 ty2 =
        KeepsVia-bind third third c _ _ (ktys env c ty1 ty2)
          λ (ty, (env₁, c₁)). KeepsVia-ok third c₁ _ (Keeps-refl c₁)

    referents_join-Keeps :
        (env : TypeEnv) (c : Cursor) (loc1 loc2 : Loc) (ty1 ty2 : Ty)
        → KeepsVia third c (referents_join variances_of tys locs env c loc1 loc2 ty1 ty2)
    unfolding referents_join
    referents_join-Keeps env c loc1 loc2 (Ty.strg_ref referee1) (Ty.strg_ref referee2) =
        KeepsVia-bind third third c _ _ (klocs env c referee1 referee2)
          λ (ty, (env₁, c₁)). KeepsVia-ok third c₁ _ (Keeps-refl c₁)
    referents_join-Keeps env c loc1 loc2 (Ty.strg_ref loc) (Ty.ref ty) =
        KeepsVia-bind third second c _ _ (ref_weak-Keeps variances_of env c loc ty)
          λ (env₁, c₁). KeepsVia-ok third c₁ _ (Keeps-refl c₁)
    referents_join-Keeps env c loc1 loc2 (Ty.ref ty) (Ty.strg_ref loc) =
        KeepsVia-bind third second c _ _ (ref_weak-Keeps variances_of env c loc ty)
          λ (env₁, c₁). KeepsVia-ok third c₁ _ (Keeps-refl c₁)
    referents_join-Keeps env c loc1 loc2 ty1 ty2 =
        elim (is_indexed ty1 && is_indexed ty2)
          as (λ b. KeepsVia third c (elim b [
            | true ↦ indexed_referents_join variances_of tys locs env c loc1 loc2 ty1 ty2
            | false ↦ panicked
          ])) [
            | true ↦ indexed_referents_join-Keeps env c loc1 loc2 ty1 ty2
            | false ↦ KeepsVia-panic third c
          ]

  mutual
    unfolding strg_ty_join ref_weak_join

    pub strg_ty_join-Keeps : (fuel : ℕ) → TyJoinKeeps (strg_ty_join variances_of fuel)
    strg_ty_join-Keeps zero env c ty1 ty2 = KeepsVia-panic third c
    strg_ty_join-Keeps (suc fuel) env c ty1 ty2 =
        let tys = strg_ty_join variances_of fuel in
        let locs = ref_weak_join variances_of fuel in
        elim (Ty-discrete ty1 ty2)
          as (λ d. KeepsVia third c (elim d [
            | yes _ ↦ ok (ty1, (env, c))
            | no _ ↦ different_ty_join variances_of tys locs env c ty1 ty2
          ])) [
            | yes _ ↦ KeepsVia-ok third c _ (Keeps-refl c)
            | no _ ↦
                different_ty_join-Keeps tys locs (strg_ty_join-Keeps fuel)
                  (ref_weak_join-Keeps fuel) env c ty1 ty2
          ]

    ref_weak_join-Keeps : (fuel : ℕ) → LocJoinKeeps (ref_weak_join variances_of fuel)
    ref_weak_join-Keeps zero env c loc1 loc2 = KeepsVia-panic third c
    ref_weak_join-Keeps (suc fuel) env c loc1 loc2 =
        KeepsVia-pure third c (strong_at env loc1) _ λ ty1.
          KeepsVia-pure third c (strong_at env loc2) _ λ ty2.
            referents_join-Keeps (strg_ty_join variances_of fuel) (ref_weak_join variances_of fuel)
              (strg_ty_join-Keeps fuel) (ref_weak_join-Keeps fuel) env c loc1 loc2 ty1 ty2
