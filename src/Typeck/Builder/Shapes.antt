-- ===== src/Typeck/Builder/Shapes.antt =====
-- Types of liquid-rust-typeck/src/ty.rs that refine the same Rust type.
use liquid_rust.Base.{ℕ, suc, ◌+◌, ◌≡◌, refl, ap}
use liquid_rust.Typeck.Ty.{Expr, Pred, Ty, BaseTy, Tys, DefId, IntTy, Loc, ParamTy}
use liquid_rust.Typeck.Builder.Subtyping.{substs_length}

-- The types are refinements of the same Rust type, without references `Ref`: subtyping of two of those
-- is unreachable in the code.
mutual
  pub data SameTy : Ty → Ty → Type 0 where
    refine_refine :
        {b1 b2 : BaseTy} (e1 e2 : Expr)
        → SameBase b1 b2
        → SameTy (Ty.refine b1 e1) (Ty.refine b2 e2)
    refine_exists :
        {b1 b2 : BaseTy} (e1 : Expr) (p2 : Pred)
        → SameBase b1 b2
        → SameTy (Ty.refine b1 e1) (Ty.exists b2 p2)
    exists_refine :
        {b1 b2 : BaseTy} (p1 : Pred) (e2 : Expr)
        → SameBase b1 b2
        → SameTy (Ty.exists b1 p1) (Ty.refine b2 e2)
    exists_exists :
        {b1 b2 : BaseTy} (p1 p2 : Pred)
        → SameBase b1 b2
        → SameTy (Ty.exists b1 p1) (Ty.exists b2 p2)
    strg_ref : (loc : Loc) → SameTy (Ty.strg_ref loc) (Ty.strg_ref loc)
    param : (p : ParamTy) → SameTy (Ty.param p) (Ty.param p)

  pub data SameBase : BaseTy → BaseTy → Type 0 where
    int : (i : IntTy) → SameBase (BaseTy.int i) (BaseTy.int i)
    uint : (i : IntTy) → SameBase (BaseTy.uint i) (BaseTy.uint i)
    bool : SameBase BaseTy.bool BaseTy.bool
    adt :
        (did : DefId) {tys1 tys2 : Tys}
        → SameTys tys1 tys2
        → SameBase (BaseTy.adt did tys1) (BaseTy.adt did tys2)

  pub data SameTys : Tys → Tys → Type 0 where
    nil : SameTys Tys.nil Tys.nil
    cons :
        {ty1 ty2 : Ty} {tys1 tys2 : Tys}
        → SameTy ty1 ty2
        → SameTys tys1 tys2
        → SameTys (Tys.cons ty1 tys1) (Tys.cons ty2 tys2)

-- How deep type arguments are nested, as a sum over the arguments.
abbrev mutual
  pub nesting : Ty → ℕ
  nesting (Ty.refine b e) = base_nesting b
  nesting (Ty.exists b p) = base_nesting b
  nesting Ty.uninit = 0
  nesting (Ty.strg_ref loc) = 0
  nesting (Ty.ref ty) = 0
  nesting (Ty.param p) = 0

  pub base_nesting : BaseTy → ℕ
  base_nesting (BaseTy.adt did tys) = substs_nesting tys
  base_nesting (BaseTy.int i) = 0
  base_nesting (BaseTy.uint i) = 0
  base_nesting BaseTy.bool = 0

  pub substs_nesting : Tys → ℕ
  substs_nesting Tys.nil = 0
  substs_nesting (Tys.cons ty tys) = suc (nesting ty + substs_nesting tys)

pub SameTys-length : (tys1 tys2 : Tys) → SameTys tys1 tys2 → substs_length tys1 ≡ substs_length tys2
SameTys-length _ _ SameTys.nil = refl
SameTys-length (Tys.cons ty1 tys1) (Tys.cons ty2 tys2) (SameTys.cons s ss) =
    ap suc (SameTys-length tys1 tys2 ss)

mutual
  pub SameTy-sym : (ty1 ty2 : Ty) → SameTy ty1 ty2 → SameTy ty2 ty1
  SameTy-sym (Ty.refine b1 _) (Ty.refine b2 _) (SameTy.refine_refine e1 e2 s) =
      SameTy.refine_refine e2 e1 (SameBase-sym b1 b2 s)
  SameTy-sym (Ty.refine b1 _) (Ty.exists b2 _) (SameTy.refine_exists e1 p2 s) =
      SameTy.exists_refine p2 e1 (SameBase-sym b1 b2 s)
  SameTy-sym (Ty.exists b1 _) (Ty.refine b2 _) (SameTy.exists_refine p1 e2 s) =
      SameTy.refine_exists e2 p1 (SameBase-sym b1 b2 s)
  SameTy-sym (Ty.exists b1 _) (Ty.exists b2 _) (SameTy.exists_exists p1 p2 s) =
      SameTy.exists_exists p2 p1 (SameBase-sym b1 b2 s)
  SameTy-sym _ _ (SameTy.strg_ref loc) = SameTy.strg_ref loc
  SameTy-sym _ _ (SameTy.param p) = SameTy.param p

  SameBase-sym : (b1 b2 : BaseTy) → SameBase b1 b2 → SameBase b2 b1
  SameBase-sym _ _ (SameBase.int i) = SameBase.int i
  SameBase-sym _ _ (SameBase.uint i) = SameBase.uint i
  SameBase-sym _ _ SameBase.bool = SameBase.bool
  SameBase-sym (BaseTy.adt _ tys1) (BaseTy.adt _ tys2) (SameBase.adt did s) =
      SameBase.adt did (SameTys-sym tys1 tys2 s)

  SameTys-sym : (tys1 tys2 : Tys) → SameTys tys1 tys2 → SameTys tys2 tys1
  SameTys-sym _ _ SameTys.nil = SameTys.nil
  SameTys-sym (Tys.cons ty1 tys1) (Tys.cons ty2 tys2) (SameTys.cons s ss) =
      SameTys.cons (SameTy-sym ty1 ty2 s) (SameTys-sym tys1 tys2 ss)
