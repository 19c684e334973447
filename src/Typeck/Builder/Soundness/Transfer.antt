-- ===== src/Typeck/Builder/Soundness/Transfer.antt =====
-- Subtyping by meaning does not depend on the values of fresh names.
use liquid_rust.Base.{ℕ, sym, ◌∙◌, subst, List, ◌∷◌}
use liquid_rust.Typeck.Ty.{Ty, BaseTy, Tys, DefId}
use liquid_rust.Typeck.Ty.Meaning.{Structure, Env}
use liquid_rust.Typeck.Builder.Subtyping.{Variance}
use liquid_rust.Typeck.Builder.Agree.{Agree, eval-Agree, HoldsPred-Agree, ExprClosed-ExprBelow}
use liquid_rust.Typeck.Builder.Soundness.Relation.{
  TyClosed, BaseClosed, TysClosed, Subtype, Fits, SubBase, SubSubsts, SubArg,
}

module _ (variances_of : DefId → List Variance) (M : Structure) (ν : M.Value) where
  module _ (g : ℕ) (ρ σ : Env M) (agree : Agree M g ρ σ) where
    mutual
      pub Subtype-Agree :
          (ty1 ty2 : Ty)
          → TyClosed g ty1
          → TyClosed g ty2
          → Subtype variances_of M ν ρ ty1 ty2
          → Subtype variances_of M ν σ ty1 ty2
      Subtype-Agree (Ty.refine b e) ty2 (hb, he) h2 (Subtype.refine f) = Subtype.refine (
          subst (λ v. Fits variances_of M ν σ b v ty2)
            (sym (eval-Agree M g ρ σ ν e (ExprClosed-ExprBelow g e he) agree))
            (Fits-Agree b _ ty2 hb h2 f))
      Subtype-Agree (Ty.exists b p) ty2 (hb, hp) h2 (Subtype.exists f) =
          Subtype.exists λ v hv holds.
            Fits-Agree b v ty2 hb h2
              (f v hv (subst (λ P. P) (HoldsPred-Agree M g ρ σ v p hp agree) holds))
      Subtype-Agree _ _ h1 h2 (Subtype.strg_ref loc) = Subtype.strg_ref loc
      Subtype-Agree _ _ h1 h2 (Subtype.param p) = Subtype.param p
      Subtype-Agree ty1 _ h1 h2 (Subtype.uninit _) = Subtype.uninit ty1

      pub Fits-Agree :
          (b : BaseTy) (v : M.Value) (ty : Ty)
          → BaseClosed g b
          → TyClosed g ty
          → Fits variances_of M ν ρ b v ty
          → Fits variances_of M ν σ b v ty
      Fits-Agree b v (Ty.refine b2 e) hb (hb2, he) (Fits.index s eq) =
          Fits.index (SubBase-Agree b b2 hb hb2 s)
            (eq ∙ sym (eval-Agree M g ρ σ ν e (ExprClosed-ExprBelow g e he) agree))
      Fits-Agree b v (Ty.exists b2 p) hb (hb2, hp) (Fits.member s holds) =
          Fits.member (SubBase-Agree b b2 hb hb2 s)
            (subst (λ P. P) (sym (HoldsPred-Agree M g ρ σ v p hp agree)) holds)
      Fits-Agree b v _ hb h (Fits.dropped _ _) = Fits.dropped b v

      pub SubBase-Agree :
          (b1 b2 : BaseTy)
          → BaseClosed g b1
          → BaseClosed g b2
          → SubBase variances_of M ν ρ b1 b2
          → SubBase variances_of M ν σ b1 b2
      SubBase-Agree _ _ h1 h2 (SubBase.int i) = SubBase.int i
      SubBase-Agree _ _ h1 h2 (SubBase.uint i) = SubBase.uint i
      SubBase-Agree _ _ h1 h2 SubBase.bool = SubBase.bool
      SubBase-Agree (BaseTy.adt _ tys1) (BaseTy.adt _ tys2) h1 h2 (SubBase.adt did s) =
          SubBase.adt did (SubSubsts-Agree (variances_of did) tys1 tys2 h1 h2 s)

      SubSubsts-Agree :
          (vs : List Variance) (tys1 tys2 : Tys)
          → TysClosed g tys1
          → TysClosed g tys2
          → SubSubsts variances_of M ν ρ vs tys1 tys2
          → SubSubsts variances_of M ν σ vs tys1 tys2
      SubSubsts-Agree (v ∷ vs) (Tys.cons ty1 tys1) (Tys.cons ty2 tys2) (h1, hs1) (h2, hs2)
            (SubSubsts.cons a s) =
          SubSubsts.cons (SubArg-Agree v ty1 ty2 h1 h2 a) (SubSubsts-Agree vs tys1 tys2 hs1 hs2 s)
      SubSubsts-Agree _ tys1 tys2 h1 h2 (SubSubsts.no_variances _ _) =
          SubSubsts.no_variances tys1 tys2
      SubSubsts-Agree vs _ tys2 h1 h2 (SubSubsts.no_left _ _) = SubSubsts.no_left vs tys2
      SubSubsts-Agree vs tys1 _ h1 h2 (SubSubsts.no_right _ _) = SubSubsts.no_right vs tys1

      SubArg-Agree :
          (v : Variance) (ty1 ty2 : Ty)
          → TyClosed g ty1
          → TyClosed g ty2
          → SubArg variances_of M ν ρ v ty1 ty2
          → SubArg variances_of M ν σ v ty1 ty2
      SubArg-Agree _ ty1 ty2 h1 h2 (SubArg.covariant s) =
          SubArg.covariant (Subtype-Agree ty1 ty2 h1 h2 s)
      SubArg-Agree _ ty1 ty2 h1 h2 (SubArg.invariant s t) =
          SubArg.invariant (Subtype-Agree ty1 ty2 h1 h2 s) (Subtype-Agree ty2 ty1 h2 h1 t)
      SubArg-Agree _ ty1 ty2 h1 h2 (SubArg.contravariant s) =
          SubArg.contravariant (Subtype-Agree ty2 ty1 h2 h1 s)
      SubArg-Agree _ ty1 ty2 h1 h2 (SubArg.bivariant _ _) = SubArg.bivariant ty1 ty2
