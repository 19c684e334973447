-- ===== src/Typeck/Builder/Subtyping.antt =====
-- `Cursor::subtyping`, `bty_subtyping` and `polymorphic_subtyping` of
-- liquid-rust-typeck/src/constraint_builder.rs. The variances of a type constructor's parameters come
-- from rustc. The `debug_assert` lines are taken as in a debug build.
use liquid_rust.Base.{
  ℕ, zero, suc, Bool, true, false, List, ◌∷◌, Outcome, ok, panicked, ◌>>=◌, ◌>>◌, assert,
  ℕ_discrete,
}
use mathlib.Core.Bool.{decide}
use liquid_rust.Fixpoint.Constraint.{BinOp}
use liquid_rust.Typeck.Ty.{
  DefId, Expr, Pred, Ty, BaseTy, Tys, ParamTy, Loc-discrete, Expr-discrete, Pred-discrete,
  subst_pred,
}
use liquid_rust.Typeck.Builder.{Cursor, resume, push_head, unpack}

-- `rustc_middle::ty::Variance`
pub data Variance : Type 0 where
  covariant invariant contravariant bivariant : Variance

-- `Substs::len`
abbrev pub substs_length : Tys → ℕ
substs_length Tys.nil = 0
substs_length (Tys.cons ty tys) = suc (substs_length tys)

-- One of the two shortcuts: equal indices, or equal predicates.
unfoldable pub is_trivial : Ty → Ty → Bool
is_trivial (Ty.refine _ e1) (Ty.refine _ e2) = decide (Expr-discrete e1 e2)
is_trivial (Ty.exists _ p1) (Ty.exists _ p2) = decide (Pred-discrete p1 p2)
is_trivial _ _ = false

pub ParamTy-discrete : Discrete ParamTy
ParamTy-discrete = hlevel ℕ_discrete

-- A recursive call, `self.subtyping(ty1, ty2)`.
abbrev pub Call : Type 0
Call = Cursor → Ty → Ty → Outcome Cursor

unfoldable pub polymorphic_subtyping : Call → Cursor → Variance → Ty → Ty → Outcome Cursor
polymorphic_subtyping subtyping c Variance.covariant ty1 ty2 = subtyping c ty1 ty2
polymorphic_subtyping subtyping c Variance.invariant ty1 ty2 = do
  c₁ ← subtyping c ty1 ty2
  subtyping c₁ ty2 ty1
polymorphic_subtyping subtyping c Variance.contravariant ty1 ty2 = subtyping c ty2 ty1
polymorphic_subtyping subtyping c Variance.bivariant ty1 ty2 = ok c

-- The loop over `izip!(variances, substs1, substs2)`.
unfoldable pub substs_subtyping : Call → Cursor → List Variance → Tys → Tys → Outcome Cursor
substs_subtyping subtyping c (v ∷ vs) (Tys.cons ty1 tys1) (Tys.cons ty2 tys2) = do
  c₁ ← polymorphic_subtyping subtyping c v ty1 ty2
  substs_subtyping subtyping c₁ vs tys1 tys2
substs_subtyping subtyping c _ _ _ = ok c

module _ (variances_of : DefId → List Variance) where
  unfoldable pub bty_subtyping : Call → Cursor → BaseTy → BaseTy → Outcome Cursor
  bty_subtyping subtyping c (BaseTy.int i1) (BaseTy.int i2) = do assert (ℕ_discrete i1 i2); ok c
  bty_subtyping subtyping c (BaseTy.uint i1) (BaseTy.uint i2) = do assert (ℕ_discrete i1 i2); ok c
  bty_subtyping subtyping c BaseTy.bool BaseTy.bool = ok c
  bty_subtyping subtyping c (BaseTy.adt did1 substs1) (BaseTy.adt did2 substs2) = do
    assert (ℕ_discrete did1 did2)
    assert (ℕ_discrete (substs_length substs1) (substs_length substs2))
    substs_subtyping subtyping c (variances_of did1) substs1 substs2
  bty_subtyping subtyping c _ _ = panicked

  -- What is checked once the left type is unpacked.
  unfoldable pub unpacked_subtyping : Call → Cursor → Ty → Ty → Outcome Cursor
  unpacked_subtyping subtyping c (Ty.refine bty1 e1) (Ty.refine bty2 e2) = do
    c₁ ← bty_subtyping subtyping c bty1 bty2
    push_head c₁ (Pred.expr (Expr.binary_op BinOp.eq e1 e2))
  unpacked_subtyping subtyping c (Ty.refine bty1 e) (Ty.exists bty2 p) = do
    c₁ ← bty_subtyping subtyping c bty1 bty2
    let p₁ = subst_pred p e
    push_head c₁ (subst_pred p₁ e)
  unpacked_subtyping subtyping c (Ty.strg_ref loc1) (Ty.strg_ref loc2) = do
    assert (Loc-discrete loc1 loc2)
    ok c
  unpacked_subtyping subtyping c (Ty.param p1) (Ty.param p2) = do
    assert (ParamTy-discrete p1 p2)
    ok c
  unpacked_subtyping subtyping c ty Ty.uninit = ok c
  unpacked_subtyping subtyping c _ _ = panicked

  -- The base types of the shortcuts.
  unfoldable pub trivial_subtyping : Call → Cursor → Ty → Ty → Outcome Cursor
  trivial_subtyping subtyping c (Ty.refine bty1 _) (Ty.refine bty2 _) =
      bty_subtyping subtyping c bty1 bty2
  trivial_subtyping subtyping c (Ty.exists bty1 _) (Ty.exists bty2 _) =
      bty_subtyping subtyping c bty1 bty2
  trivial_subtyping subtyping c _ _ = panicked

  -- The body of `subtyping` on the snapshot. The recursive calls are on type arguments, so fuel above
  -- the nesting of both types is enough.
  unfoldable pub subtyping : ℕ → Cursor → Ty → Ty → Outcome Cursor
  subtyping zero c ty1 ty2 = panicked
  subtyping (suc fuel) c ty1 ty2 = do
    inner ← elim (is_trivial ty1 ty2) [
      | true ↦ trivial_subtyping (subtyping fuel) c ty1 ty2
      | false ↦ unpack c ty1 >>= λ (ty, c₁). unpacked_subtyping (subtyping fuel) c₁ ty ty2
    ]
    ok (resume c inner)
