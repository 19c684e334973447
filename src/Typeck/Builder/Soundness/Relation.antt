-- ===== src/Typeck/Builder/Soundness/Relation.antt =====
-- Subtyping between the types of liquid-rust-typeck/src/ty.rs by their meaning: the relation that
-- `Cursor::subtyping` generates constraints for.
use liquid_rust.Base.{ℕ, ◌≡◌, List, [], ◌∷◌}
use liquid_rust.Typeck.Ty.{Expr, Pred, Loc, Ty, BaseTy, Tys, ParamTy, DefId, IntTy, base_sort}
use liquid_rust.Typeck.Ty.Meaning.{Structure, Env, eval, HoldsPred}
use liquid_rust.Typeck.Builder.Subtyping.{Variance}
use liquid_rust.Typeck.Builder.Agree.{PredBelow}
use liquid_rust.Typeck.Builder.Translate.Closed.{ExprClosed}

-- The names of a type are below `g`, and only the predicate of an existential type has a bound
-- variable.
abbrev mutual
  pub TyClosed : ℕ → Ty → Type 0
  TyClosed g (Ty.refine bty e) = BaseClosed g bty × ExprClosed g e
  TyClosed g (Ty.exists bty p) = BaseClosed g bty × PredBelow g p
  TyClosed g Ty.uninit = Unit
  TyClosed g (Ty.strg_ref loc) = Unit
  TyClosed g (Ty.ref ty) = TyClosed g ty
  TyClosed g (Ty.param p) = Unit

  pub BaseClosed : ℕ → BaseTy → Type 0
  BaseClosed g (BaseTy.adt did substs) = TysClosed g substs
  BaseClosed g (BaseTy.int i) = Unit
  BaseClosed g (BaseTy.uint i) = Unit
  BaseClosed g BaseTy.bool = Unit

  pub TysClosed : ℕ → Tys → Type 0
  TysClosed g Tys.nil = Unit
  TysClosed g (Tys.cons ty tys) = TyClosed g ty × TysClosed g tys

-- Subtyping in an environment. `Fits b v ty` says that the value `v` of base type `b` has type `ty`.
-- The arguments of a type constructor are related by the variances, as far as all three lists go.
module _ (variances_of : DefId → List Variance) (M : Structure) (ν : M.Value) (ρ : Env M) where
  mutual
    pub data Subtype : Ty → Ty → Type 0 where
      refine :
          {b : BaseTy} {e : Expr} {ty : Ty} → Fits b (eval M ν ρ e) ty → Subtype (Ty.refine b e) ty
      exists :
          {b : BaseTy} {p : Pred} {ty : Ty}
          → ((v : M.Value) → M.HasSort (base_sort b) v → HoldsPred M v ρ p → Fits b v ty)
          → Subtype (Ty.exists b p) ty
      strg_ref : (loc : Loc) → Subtype (Ty.strg_ref loc) (Ty.strg_ref loc)
      param : (p : ParamTy) → Subtype (Ty.param p) (Ty.param p)
      uninit : (ty : Ty) → Subtype ty Ty.uninit

    pub data Fits : BaseTy → M.Value → Ty → Type 0 where
      index :
          {b1 b2 : BaseTy} {v : M.Value} {e : Expr}
          → SubBase b1 b2
          → v ≡ eval M ν ρ e
          → Fits b1 v (Ty.refine b2 e)
      member :
          {b1 b2 : BaseTy} {v : M.Value} {p : Pred}
          → SubBase b1 b2
          → HoldsPred M v ρ p
          → Fits b1 v (Ty.exists b2 p)
      dropped : (b : BaseTy) (v : M.Value) → Fits b v Ty.uninit

    pub data SubBase : BaseTy → BaseTy → Type 0 where
      int : (i : IntTy) → SubBase (BaseTy.int i) (BaseTy.int i)
      uint : (i : IntTy) → SubBase (BaseTy.uint i) (BaseTy.uint i)
      bool : SubBase BaseTy.bool BaseTy.bool
      adt :
          (did : DefId) {substs1 substs2 : Tys}
          → SubSubsts (variances_of did) substs1 substs2
          → SubBase (BaseTy.adt did substs1) (BaseTy.adt did substs2)

    pub data SubSubsts : List Variance → Tys → Tys → Type 0 where
      cons :
          {v : Variance} {vs : List Variance} {ty1 ty2 : Ty} {tys1 tys2 : Tys}
          → SubArg v ty1 ty2
          → SubSubsts vs tys1 tys2
          → SubSubsts (v ∷ vs) (Tys.cons ty1 tys1) (Tys.cons ty2 tys2)
      no_variances : (tys1 tys2 : Tys) → SubSubsts [] tys1 tys2
      no_left : (vs : List Variance) (tys2 : Tys) → SubSubsts vs Tys.nil tys2
      no_right : (vs : List Variance) (tys1 : Tys) → SubSubsts vs tys1 Tys.nil

    pub data SubArg : Variance → Ty → Ty → Type 0 where
      covariant : {ty1 ty2 : Ty} → Subtype ty1 ty2 → SubArg Variance.covariant ty1 ty2
      invariant :
          {ty1 ty2 : Ty} → Subtype ty1 ty2 → Subtype ty2 ty1 → SubArg Variance.invariant ty1 ty2
      contravariant : {ty1 ty2 : Ty} → Subtype ty2 ty1 → SubArg Variance.contravariant ty1 ty2
      bivariant : (ty1 ty2 : Ty) → SubArg Variance.bivariant ty1 ty2
