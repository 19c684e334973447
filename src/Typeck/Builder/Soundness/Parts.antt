-- ===== src/Typeck/Builder/Soundness/Parts.antt =====
-- Soundness of the parts of `Cursor::subtyping`, liquid-rust-typeck/src/constraint_builder.rs, given that
-- its recursive calls are sound.
use liquid_rust.Base.{ℕ, ◌≤◌, ◌≡◌, refl, ◌∙◌, subst, List, [], ◌∷◌, ok, ℕ_discrete, arith}
use liquid_rust.Fixpoint.Constraint.{BinOp}
use liquid_rust.Typeck.Ty.{Expr, Pred, Ty, BaseTy, Tys, DefId, subst_pred}
use liquid_rust.Typeck.Ty.Meaning.{Structure, Env, eval, HoldsPred, HoldsPred-subst_pred}
use liquid_rust.Typeck.Builder.{Cursor}
use liquid_rust.Typeck.Builder.Subtyping.{
  Variance, Call, substs_length, polymorphic_subtyping, substs_subtyping, bty_subtyping,
  unpacked_subtyping,
}
use liquid_rust.Typeck.Builder.Translate.Closed.{ExprClosed}
use liquid_rust.Typeck.Builder.Agree.{eval-closed}
use liquid_rust.Typeck.Builder.Soundness.Relation.{
  TyClosed, BaseClosed, TysClosed, Subtype, Fits, SubBase, SubSubsts, SubArg,
}
use liquid_rust.Typeck.Builder.Soundness.Steps.{
  ProvesBy, ProvesBy-map, ProvesBy-ok, ProvesBy-panic, ProvesBy-bind, ProvesBy-assert,
  push_head-ProvesBy,
}

module _ (variances_of : DefId → List Variance) (M : Structure) (ν : M.Value) where
  -- The two substitutions of an index for the bound variable.
  HoldsPred-twice :
      (g : ℕ) (ρ : Env M) (p : Pred) (e : Expr)
      → ExprClosed g e
      → HoldsPred M ν ρ (subst_pred (subst_pred p e) e) ≡ HoldsPred M (eval M ν ρ e) ρ p
  HoldsPred-twice g ρ p e h =
      HoldsPred-subst_pred M ν ρ (subst_pred p e) e
      ∙ HoldsPred-subst_pred M (eval M ν ρ e) ρ p e
      ∙ subst (λ v. HoldsPred M v ρ p ≡ HoldsPred M (eval M ν ρ e) ρ p)
          (eval-closed M g ν (eval M ν ρ e) ρ e h) refl

  -- What the recursive calls, on type arguments, have to prove.
  abbrev pub SoundCall : Call → Type 1
  SoundCall call =
      (g : ℕ) (c : Cursor) (ty1 ty2 : Ty)
      → g ≤ c.name_gen
      → TyClosed g ty1
      → TyClosed g ty2
      → ProvesBy M ν c (λ ρ. Subtype variances_of M ν ρ ty1 ty2) (call c ty1 ty2)

  module _ (call : Call) (sound : SoundCall call) (g : ℕ) where
    polymorphic_subtyping-ProvesBy :
        (c : Cursor) (v : Variance) (ty1 ty2 : Ty)
        → g ≤ c.name_gen
        → TyClosed g ty1
        → TyClosed g ty2
        → ProvesBy M ν c
            (λ ρ. SubArg variances_of M ν ρ v ty1 ty2)
            (polymorphic_subtyping call c v ty1 ty2)
    unfolding polymorphic_subtyping
    polymorphic_subtyping-ProvesBy c Variance.covariant ty1 ty2 le h1 h2 =
        ProvesBy-map M ν c (call c ty1 ty2) (λ ρ s. SubArg.covariant s) (sound g c ty1 ty2 le h1 h2)
    polymorphic_subtyping-ProvesBy c Variance.invariant ty1 ty2 le h1 h2 =
        ProvesBy-bind M ν c (call c ty1 ty2) (λ c₁. call c₁ ty2 ty1) (λ ρ s t. SubArg.invariant s t)
          (sound g c ty1 ty2 le h1 h2)
          (λ c₁ k. let f = k.fresh in sound g c₁ ty2 ty1 (omega arith) h2 h1)
    polymorphic_subtyping-ProvesBy c Variance.contravariant ty1 ty2 le h1 h2 =
        ProvesBy-map M ν c (call c ty2 ty1) (λ ρ s. SubArg.contravariant s)
          (sound g c ty2 ty1 le h2 h1)
    polymorphic_subtyping-ProvesBy c Variance.bivariant ty1 ty2 le h1 h2 =
        ProvesBy-ok M ν c _ (λ ρ. SubArg.bivariant ty1 ty2)

    substs_subtyping-ProvesBy :
        (c : Cursor) (vs : List Variance) (tys1 tys2 : Tys)
        → g ≤ c.name_gen
        → TysClosed g tys1
        → TysClosed g tys2
        → ProvesBy M ν c
            (λ ρ. SubSubsts variances_of M ν ρ vs tys1 tys2)
            (substs_subtyping call c vs tys1 tys2)
    unfolding substs_subtyping
    substs_subtyping-ProvesBy c (v ∷ vs) (Tys.cons ty1 tys1) (Tys.cons ty2 tys2) le h1 h2 =
        ProvesBy-bind M ν c (polymorphic_subtyping call c v ty1 ty2)
          (λ c₁. substs_subtyping call c₁ vs tys1 tys2) (λ ρ a s. SubSubsts.cons a s)
          (polymorphic_subtyping-ProvesBy c v ty1 ty2 le h1.0 h2.0)
          (λ c₁ k.
            let f = k.fresh in substs_subtyping-ProvesBy c₁ vs tys1 tys2 (omega arith) h1.1 h2.1)
    substs_subtyping-ProvesBy c [] tys1 tys2 le h1 h2 =
        ProvesBy-ok M ν c _ (λ ρ. SubSubsts.no_variances tys1 tys2)
    substs_subtyping-ProvesBy c (v ∷ vs) Tys.nil tys2 le h1 h2 =
        ProvesBy-ok M ν c _ (λ ρ. SubSubsts.no_left (v ∷ vs) tys2)
    substs_subtyping-ProvesBy c (v ∷ vs) (Tys.cons ty tys) Tys.nil le h1 h2 =
        ProvesBy-ok M ν c _ (λ ρ. SubSubsts.no_right (v ∷ vs) (Tys.cons ty tys))

    pub bty_subtyping-ProvesBy :
        (c : Cursor) (b1 b2 : BaseTy)
        → g ≤ c.name_gen
        → BaseClosed g b1
        → BaseClosed g b2
        → ProvesBy M ν c
            (λ ρ. SubBase variances_of M ν ρ b1 b2)
            (bty_subtyping variances_of call c b1 b2)
    unfolding bty_subtyping
    bty_subtyping-ProvesBy c (BaseTy.int i1) (BaseTy.int i2) le h1 h2 =
        ProvesBy-assert M ν c _ (ℕ_discrete i1 i2) (ok c) (λ e. ProvesBy-ok M ν c _ (λ ρ.
          subst (λ i. SubBase variances_of M ν ρ (BaseTy.int i1) (BaseTy.int i)) e
            (SubBase.int i1)))
    bty_subtyping-ProvesBy c (BaseTy.uint i1) (BaseTy.uint i2) le h1 h2 =
        ProvesBy-assert M ν c _ (ℕ_discrete i1 i2) (ok c) (λ e. ProvesBy-ok M ν c _ (λ ρ.
          subst (λ i. SubBase variances_of M ν ρ (BaseTy.uint i1) (BaseTy.uint i)) e
            (SubBase.uint i1)))
    bty_subtyping-ProvesBy c BaseTy.bool BaseTy.bool le h1 h2 =
        ProvesBy-ok M ν c _ (λ ρ. SubBase.bool)
    bty_subtyping-ProvesBy c (BaseTy.adt did1 substs1) (BaseTy.adt did2 substs2) le h1 h2 =
        ProvesBy-assert M ν c _ (ℕ_discrete did1 did2) _ λ e.
          ProvesBy-assert M ν c _ (ℕ_discrete (substs_length substs1) (substs_length substs2)) _
            λ _.
              ProvesBy-map M ν c _
                (λ ρ s.
                  subst
                    (λ did.
                      SubBase variances_of M ν ρ (BaseTy.adt did1 substs1) (BaseTy.adt did substs2))
                    e (SubBase.adt did1 s))
                (substs_subtyping-ProvesBy c (variances_of did1) substs1 substs2 le h1 h2)
    bty_subtyping-ProvesBy c _ _ le h1 h2 = ProvesBy-panic M ν c _

    -- The left type is an index of a base type: its value has the right type.
    pub refine_subtyping-ProvesBy :
        (c : Cursor) (b : BaseTy) (e : Expr) (ty2 : Ty) (k : ℕ)
        → g ≤ c.name_gen
        → BaseClosed g b
        → ExprClosed k e
        → TyClosed g ty2
        → ProvesBy M ν c
            (λ ρ. Fits variances_of M ν ρ b (eval M ν ρ e) ty2)
            (unpacked_subtyping variances_of call c (Ty.refine b e) ty2)
    unfolding unpacked_subtyping eval
    refine_subtyping-ProvesBy c b e (Ty.refine b2 e2) k le h1 he h2 =
        ProvesBy-bind M ν c (bty_subtyping variances_of call c b b2) _
          (λ ρ s holds. Fits.index s ((M.eq_iff (eval M ν ρ e) (eval M ν ρ e2)).0 holds))
          (bty_subtyping-ProvesBy c b b2 le h1 h2.0)
          (λ c₁ _. push_head-ProvesBy M ν c₁ (Pred.expr (Expr.binary_op BinOp.eq e e2)))
    refine_subtyping-ProvesBy c b e (Ty.exists b2 p) k le h1 he h2 =
        ProvesBy-bind M ν c (bty_subtyping variances_of call c b b2) _
          (λ ρ s holds. Fits.member s (subst (λ P. P) (HoldsPred-twice k ρ p e he) holds))
          (bty_subtyping-ProvesBy c b b2 le h1 h2.0)
          (λ c₁ _. push_head-ProvesBy M ν c₁ (subst_pred (subst_pred p e) e))
    refine_subtyping-ProvesBy c b e Ty.uninit k le h1 he h2 =
        ProvesBy-ok M ν c _ (λ ρ. Fits.dropped b (eval M ν ρ e))
    refine_subtyping-ProvesBy c b e _ k le h1 he h2 = ProvesBy-panic M ν c _
