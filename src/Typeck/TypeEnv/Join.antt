-- ===== src/Typeck/TypeEnv/Join.antt =====
-- The joins of liquid-rust-typeck/src/type_env.rs: the types that a location has on two paths.
use liquid_rust.Base.{
  ℕ, zero, suc, Bool, true, false, List, ◌∷◌, Outcome, ok, panicked, ◌>>=◌, ◌>>◌, assert,
  ℕ_discrete, ◌&&◌,
}
use liquid_rust.Typeck.Ty.{
  Loc, Ty, BaseTy, Tys, DefId, Expr-discrete, Pred-discrete, Loc-discrete, base_sort,
}
use liquid_rust.Typeck.Builder.{Cursor, fresh_kvar}
use liquid_rust.Typeck.Builder.Subtyping.{Variance, ParamTy-discrete}
use liquid_rust.Typeck.TypeEnv.{TypeEnv, strong_at, insert_loc, cursor_subtyping}

pub Ty-discrete : Discrete Ty
Ty-discrete = hlevel (ℕ_discrete, Expr-discrete, Pred-discrete, Loc-discrete, ParamTy-discrete)

-- A `&mut TypeEnv` and a `&mut Cursor`
abbrev pub State : Type 0
State = TypeEnv × Cursor

-- The recursive calls of the joins
abbrev pub TyJoin : Type 0
TyJoin = TypeEnv → Cursor → Ty → Ty → Outcome (Ty × State)

abbrev pub LocJoin : Type 0
LocJoin = TypeEnv → Cursor → Loc → Loc → Outcome (Ty × State)

-- The patterns `TyKind::Refine(..) | TyKind::Exists(..)`
abbrev pub is_indexed : Ty → Bool
is_indexed (Ty.refine _ _) = true
is_indexed (Ty.exists _ _) = true
is_indexed _ = false

abbrev pub assert_covariant : Variance → Outcome (Unit {0})
assert_covariant Variance.covariant = ok tt
assert_covariant _ = panicked

module _ (variances_of : DefId → List Variance) where
  -- The arms of `ref_weak` for a bound that is a reference; `next` is the recursive call.
  unfoldable pub ref_weak_ref :
      TypeEnv → Cursor → Loc → Ty → Ty → (Loc → Outcome State) → Outcome State
  ref_weak_ref env c loc (Ty.strg_ref referee) bound next = do
    (env₁, c₁) ← next referee
    ok (insert_loc env₁ loc (Ty.ref bound), c₁)
  ref_weak_ref env c loc (Ty.ref bound') bound next = do
    assert (Ty-discrete bound' bound)
    ok (env, c)
  ref_weak_ref env c loc _ bound next = panicked

  unfoldable pub ref_weak : TypeEnv → Cursor → Loc → Ty → Outcome State
  ref_weak env c loc (Ty.exists bty p) = do
    ty ← strong_at env loc
    c₁ ← cursor_subtyping variances_of c ty (Ty.exists bty p)
    ok (insert_loc env loc (Ty.exists bty p), c₁)
  ref_weak env c loc (Ty.ref bound) = do
    ty ← strong_at env loc
    ref_weak_ref env c loc ty bound (λ referee. ref_weak env c referee bound)
  ref_weak env c loc _ = panicked

  -- The parts of the joins, with the recursive calls.
  module _ (strg_ty_join : TyJoin) (ref_weak_join : LocJoin) where
    unfoldable pub substs_join :
        TypeEnv → Cursor → List Variance → Tys → Tys → Outcome (Tys × State)
    substs_join env c (v ∷ vs) (Tys.cons ty1 tys1) (Tys.cons ty2 tys2) = do
      assert_covariant v
      (ty, (env₁, c₁)) ← strg_ty_join env c ty1 ty2
      (tys, s) ← substs_join env₁ c₁ vs tys1 tys2
      ok (Tys.cons ty tys, s)
    substs_join env c _ _ _ = ok (Tys.nil, (env, c))

    unfoldable pub bty_join : TypeEnv → Cursor → BaseTy → BaseTy → Outcome (BaseTy × State)
    bty_join env c BaseTy.bool BaseTy.bool = ok (BaseTy.bool, (env, c))
    bty_join env c (BaseTy.int i1) (BaseTy.int i2) = do
      assert (ℕ_discrete i1 i2)
      ok (BaseTy.int i1, (env, c))
    bty_join env c (BaseTy.uint i1) (BaseTy.uint i2) = do
      assert (ℕ_discrete i1 i2)
      ok (BaseTy.uint i1, (env, c))
    bty_join env c (BaseTy.adt did1 substs1) (BaseTy.adt did2 substs2) = do
      assert (ℕ_discrete did1 did2)
      (substs, s) ← substs_join env c (variances_of did1) substs1 substs2
      ok (BaseTy.adt did1 substs, s)
    bty_join env c _ _ = panicked

    -- The indices differ: an unknown predicate takes their place.
    unfoldable pub generalized_join : TypeEnv → Cursor → BaseTy → BaseTy → Outcome (Ty × State)
    generalized_join env c bty1 bty2 = do
      (bty, (env₁, c₁)) ← bty_join env c bty1 bty2
      (unknown, c₂) ← fresh_kvar c₁ (base_sort bty)
      ok (Ty.exists bty unknown, (env₁, c₂))

    -- The arms of `strg_ty_join` after the first
    unfoldable pub different_ty_join : TypeEnv → Cursor → Ty → Ty → Outcome (Ty × State)
    different_ty_join env c Ty.uninit ty2 = ok (Ty.uninit, (env, c))
    different_ty_join env c ty1 Ty.uninit = ok (Ty.uninit, (env, c))
    different_ty_join env c (Ty.refine bty1 e1) (Ty.refine bty2 e2) = elim (Expr-discrete e1 e2) [
      | yes _ ↦ bty_join env c bty1 bty2 >>= λ (bty, s). ok (Ty.refine bty e1, s)
      | no _ ↦ generalized_join env c bty1 bty2
    ]
    different_ty_join env c (Ty.refine bty1 _) (Ty.exists bty2 _) = generalized_join env c bty1 bty2
    different_ty_join env c (Ty.exists bty1 _) (Ty.refine bty2 _) = generalized_join env c bty1 bty2
    different_ty_join env c (Ty.exists bty1 _) (Ty.exists bty2 _) = generalized_join env c bty1 bty2
    different_ty_join env c (Ty.strg_ref loc1) (Ty.strg_ref loc2) = do
      (ty, s) ← ref_weak_join env c loc1 loc2
      ok (Ty.ref ty, s)
    different_ty_join env c (Ty.ref ty) (Ty.strg_ref loc) = do s ← ref_weak env c loc ty; ok (ty, s)
    different_ty_join env c (Ty.strg_ref loc) (Ty.ref ty) = do s ← ref_weak env c loc ty; ok (ty, s)
    different_ty_join env c _ _ = panicked

    -- Both types are an index or existential.
    unfoldable pub indexed_referents_join :
        TypeEnv → Cursor → Loc → Loc → Ty → Ty → Outcome (Ty × State)
    indexed_referents_join env c loc1 loc2 ty1 ty2 = do
      (join, (env₁, c₁)) ← strg_ty_join env c ty1 ty2
      ok (join, (insert_loc (insert_loc env₁ loc1 join) loc2 join, c₁))

    -- The arms of `ref_weak_join`
    unfoldable pub referents_join : TypeEnv → Cursor → Loc → Loc → Ty → Ty → Outcome (Ty × State)
    referents_join env c loc1 loc2 (Ty.strg_ref referee1) (Ty.strg_ref referee2) = do
      (ty, (env₁, c₁)) ← ref_weak_join env c referee1 referee2
      let join = Ty.ref ty
      ok (join, (insert_loc (insert_loc env₁ loc1 join) loc1 join, c₁))
    referents_join env c loc1 loc2 (Ty.strg_ref loc) (Ty.ref ty) = do
      (env₁, c₁) ← ref_weak env c loc ty
      ok (ty, (insert_loc env₁ loc1 ty, c₁))
    referents_join env c loc1 loc2 (Ty.ref ty) (Ty.strg_ref loc) = do
      (env₁, c₁) ← ref_weak env c loc ty
      ok (ty, (insert_loc env₁ loc1 ty, c₁))
    referents_join env c loc1 loc2 ty1 ty2 = elim (is_indexed ty1 && is_indexed ty2) [
      | true ↦ indexed_referents_join env c loc1 loc2 ty1 ty2
      | false ↦ panicked
    ]

  -- The joins follow strong references through the environment, which may have cycles: on those the
  -- code does not return.
  unfoldable mutual
    pub strg_ty_join : ℕ → TypeEnv → Cursor → Ty → Ty → Outcome (Ty × State)
    strg_ty_join zero env c ty1 ty2 = panicked
    strg_ty_join (suc fuel) env c ty1 ty2 = elim (Ty-discrete ty1 ty2) [
      | yes _ ↦ ok (ty1, (env, c))
      | no _ ↦ different_ty_join (strg_ty_join fuel) (ref_weak_join fuel) env c ty1 ty2
    ]

    -- Both locations are looked up in the one environment.
    pub ref_weak_join : ℕ → TypeEnv → Cursor → Loc → Loc → Outcome (Ty × State)
    ref_weak_join zero env c loc1 loc2 = panicked
    ref_weak_join (suc fuel) env c loc1 loc2 = do
      ty1 ← strong_at env loc1
      ty2 ← strong_at env loc2
      referents_join (strg_ty_join fuel) (ref_weak_join fuel) env c loc1 loc2 ty1 ty2
