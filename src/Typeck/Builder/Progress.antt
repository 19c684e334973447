-- ===== src/Typeck/Builder/Progress.antt =====
-- `Cursor::subtyping` of liquid-rust-typeck/src/constraint_builder.rs ends without a panic on types of
-- the same shape.
use liquid_rust.Base.{
  ℕ, zero, suc, ◌+◌, ◌≤◌, ◌<◌, ◌≡◌, refl, sym, subst, List, [], ◌∷◌, true, false, Outcome, ok,
  ◌>>=◌, ◌>>◌, assert, Returns, returns, Returns-bind, Returns-mono, ℕ_discrete, Bool-cases, inl,
  inr, ◌⊎◌, arith,
}
use liquid_rust.Fixpoint.Constraint.{BinOp}
use liquid_rust.Typeck.Ty.{
  Var, Expr, Pred, Ty, BaseTy, Tys, DefId, base_sort, subst_pred, Loc-discrete,
}
use liquid_rust.Typeck.Builder.{Cursor, unpack, fresh_name}
use liquid_rust.Typeck.Builder.Subtyping.{
  Variance, Call, is_trivial, substs_length, polymorphic_subtyping, substs_subtyping, bty_subtyping,
  unpacked_subtyping, trivial_subtyping, subtyping, ParamTy-discrete,
}
use liquid_rust.Typeck.Builder.Shapes.{
  SameTy, SameBase, SameTys, SameTy-sym, SameTys-length, nesting, base_nesting, substs_nesting,
}
use liquid_rust.Typeck.Builder.Paths.{
  HasPath, Stays, Stays-refl, Stays-trans, Stays-IsPlaced, IsPlaced, Entered, push_head-Stays,
  push_forall-Returns,
}

not_below_zero : {n : ℕ} → n < 0 → ⊥
not_below_zero h = omega arith

not_trivial : (ty : Ty) → is_trivial ty Ty.uninit ≡ true → ⊥
unfolding is_trivial
not_trivial (Ty.refine _ _) h = cc
not_trivial (Ty.exists _ _) h = cc
not_trivial _ h = cc

-- A step that gives a cursor, which stays, where the cursor is placed.
abbrev Succeeds : Cursor → Outcome Cursor → Type 0
Succeeds c m = IsPlaced c → Returns (Stays c) m

Succeeds-bind :
    (c : Cursor) (m : Outcome Cursor) (f : Cursor → Outcome Cursor)
    → Succeeds c m
    → ((c₁ : Cursor) → Succeeds c₁ (f c₁))
    → Succeeds c (m >>= f)
Succeeds-bind c m f k l h =
    Returns-bind (k h) λ c₁ s. Returns-mono (l c₁ (Stays-IsPlaced c c₁ s h)) λ c' t. Stays-trans s t

Succeeds-assert :
    {P : Type 0} (c : Cursor) (d : Dec P) (m : Outcome Cursor)
    → P
    → Succeeds c m
    → Succeeds c (assert d >> m)
Succeeds-assert c (yes _) m p k = k
Succeeds-assert c (no n) m p k = elim (n p) [ ]

Succeeds-ok : (c : Cursor) → Succeeds c (ok c)
Succeeds-ok c h = returns (Stays-refl c)

-- What is left of the cursor when the snapshot ends.
abbrev Kept : Cursor → Cursor → Type 0
Kept c inner = (q : List ℕ) → HasPath c.root q → HasPath inner.root q

-- The recursive calls succeed on types with less than `fuel` nested arguments.
abbrev CallSucceeds : ℕ → Call → Type 0
CallSucceeds fuel call =
    (c : Cursor) (ty1 ty2 : Ty)
    → SameTy ty1 ty2
    → nesting ty1 + nesting ty2 < fuel
    → Succeeds c (call c ty1 ty2)

module _ (variances_of : DefId → List Variance) (fuel : ℕ) (call : Call)
    (k : CallSucceeds fuel call) where
  polymorphic_subtyping-Succeeds :
      (c : Cursor) (v : Variance) (ty1 ty2 : Ty)
      → SameTy ty1 ty2
      → nesting ty1 + nesting ty2 < fuel
      → Succeeds c (polymorphic_subtyping call c v ty1 ty2)
  unfolding polymorphic_subtyping
  polymorphic_subtyping-Succeeds c Variance.covariant ty1 ty2 s le = k c ty1 ty2 s le
  polymorphic_subtyping-Succeeds c Variance.invariant ty1 ty2 s le =
      Succeeds-bind c (call c ty1 ty2) (λ c₁. call c₁ ty2 ty1) (k c ty1 ty2 s le)
        λ c₁. k c₁ ty2 ty1 (SameTy-sym ty1 ty2 s) (omega arith)
  polymorphic_subtyping-Succeeds c Variance.contravariant ty1 ty2 s le =
      k c ty2 ty1 (SameTy-sym ty1 ty2 s) (omega arith)
  polymorphic_subtyping-Succeeds c Variance.bivariant ty1 ty2 s le = Succeeds-ok c

  substs_subtyping-Succeeds :
      (c : Cursor) (vs : List Variance) (tys1 tys2 : Tys)
      → SameTys tys1 tys2
      → substs_nesting tys1 + substs_nesting tys2 ≤ fuel
      → Succeeds c (substs_subtyping call c vs tys1 tys2)
  unfolding substs_subtyping
  substs_subtyping-Succeeds c (v ∷ vs) (Tys.cons ty1 tys1) (Tys.cons ty2 tys2) (SameTys.cons s ss)
        le =
      Succeeds-bind c (polymorphic_subtyping call c v ty1 ty2)
        (λ c₁. substs_subtyping call c₁ vs tys1 tys2)
        (polymorphic_subtyping-Succeeds c v ty1 ty2 s (omega arith))
        λ c₁. substs_subtyping-Succeeds c₁ vs tys1 tys2 ss (omega arith)
  substs_subtyping-Succeeds c [] tys1 tys2 s le = Succeeds-ok c
  substs_subtyping-Succeeds c (v ∷ vs) _ _ SameTys.nil le = Succeeds-ok c

  bty_subtyping-Succeeds :
      (c : Cursor) (b1 b2 : BaseTy)
      → SameBase b1 b2
      → base_nesting b1 + base_nesting b2 ≤ fuel
      → Succeeds c (bty_subtyping variances_of call c b1 b2)
  unfolding bty_subtyping
  bty_subtyping-Succeeds c _ _ (SameBase.int i) le =
      Succeeds-assert c (ℕ_discrete i i) (ok c) refl (Succeeds-ok c)
  bty_subtyping-Succeeds c _ _ (SameBase.uint i) le =
      Succeeds-assert c (ℕ_discrete i i) (ok c) refl (Succeeds-ok c)
  bty_subtyping-Succeeds c _ _ SameBase.bool le = Succeeds-ok c
  bty_subtyping-Succeeds c (BaseTy.adt _ tys1) (BaseTy.adt _ tys2) (SameBase.adt did s) le =
      Succeeds-assert c (ℕ_discrete did did) _ refl (
        Succeeds-assert c (ℕ_discrete (substs_length tys1) (substs_length tys2)) _
          (SameTys-length tys1 tys2 s)
          (substs_subtyping-Succeeds c (variances_of did) tys1 tys2 s le))

  -- An index against a type.
  refine_refine-Succeeds :
      (c : Cursor) (b1 b2 : BaseTy) (e1 e2 : Expr)
      → SameBase b1 b2
      → base_nesting b1 + base_nesting b2 ≤ fuel
      → Succeeds c (unpacked_subtyping variances_of call c (Ty.refine b1 e1) (Ty.refine b2 e2))
  unfolding unpacked_subtyping
  refine_refine-Succeeds c b1 b2 e1 e2 s le =
      Succeeds-bind c (bty_subtyping variances_of call c b1 b2) _
        (bty_subtyping-Succeeds c b1 b2 s le)
        λ c₁. push_head-Stays c₁ (Pred.expr (Expr.binary_op BinOp.eq e1 e2))

  refine_exists-Succeeds :
      (c : Cursor) (b1 b2 : BaseTy) (e : Expr) (p : Pred)
      → SameBase b1 b2
      → base_nesting b1 + base_nesting b2 ≤ fuel
      → Succeeds c (unpacked_subtyping variances_of call c (Ty.refine b1 e) (Ty.exists b2 p))
  unfolding unpacked_subtyping
  refine_exists-Succeeds c b1 b2 e p s le =
      Succeeds-bind c (bty_subtyping variances_of call c b1 b2) _
        (bty_subtyping-Succeeds c b1 b2 s le)
        λ c₁. push_head-Stays c₁ (subst_pred (subst_pred p e) e)

  trivial_subtyping-Succeeds :
      (c : Cursor) (ty1 ty2 : Ty)
      → is_trivial ty1 ty2 ≡ true
      → SameTy ty1 ty2
      → nesting ty1 + nesting ty2 ≤ fuel
      → Succeeds c (trivial_subtyping variances_of call c ty1 ty2)
  unfolding trivial_subtyping is_trivial
  trivial_subtyping-Succeeds c (Ty.refine b1 _) (Ty.refine b2 _) h (SameTy.refine_refine e1 e2 s)
        le =
      bty_subtyping-Succeeds c b1 b2 s le
  trivial_subtyping-Succeeds c (Ty.exists b1 _) (Ty.exists b2 _) h (SameTy.exists_exists p1 p2 s)
        le =
      bty_subtyping-Succeeds c b1 b2 s le
  trivial_subtyping-Succeeds c _ _ h (SameTy.refine_exists e1 p2 s) le = cc
  trivial_subtyping-Succeeds c _ _ h (SameTy.exists_refine p1 e2 s) le = cc
  trivial_subtyping-Succeeds c _ _ h (SameTy.strg_ref loc) le = cc
  trivial_subtyping-Succeeds c _ _ h (SameTy.param p) le = cc

  -- The left type is existential: the check goes on below a binder.
  exists-Kept :
      (c : Cursor) (b : BaseTy) (p : Pred) (f : Ty × Cursor → Outcome Cursor)
      → ((c₁ : Cursor) (e : Expr) → Succeeds c₁ (f (Ty.refine b e, c₁)))
      → IsPlaced c
      → Returns (Kept c) (unpack c (Ty.exists b p) >>= f)
  unfolding unpack fresh_name
  exists-Kept c b p f k h =
      let x = Expr.var (Var.free c.name_gen) in
      let start = (fresh_name c).1 in
      let opened : Returns (λ (ty, c₁). (ty ≡ Ty.refine b x) × Entered c c₁)
          (unpack c (Ty.exists b p)) =
        Returns-bind (push_forall-Returns start c.name_gen (base_sort b) (subst_pred p x) h)
          λ c₁ r. returns (refl, r) in
      Returns-bind opened λ (ty, c₁) (same, (placed, kept)).
        Returns-mono (subst (λ t. Returns (Stays c₁) (f (t, c₁))) (sym same) (k c₁ x placed))
          λ inner s q hq. s.extends q (kept q hq)

  plain-Kept : (c : Cursor) (m : Outcome Cursor) → Succeeds c m → IsPlaced c → Returns (Kept c) m
  plain-Kept c m k h = Returns-mono (k h) λ inner s. s.extends

  uninit-Kept :
      (c : Cursor) (ty : Ty)
      → IsPlaced c
      → Returns
          (Kept c)
          (unpack c ty >>= λ (ty, c₁). unpacked_subtyping variances_of call c₁ ty Ty.uninit)
  unfolding unpack unpacked_subtyping
  uninit-Kept c (Ty.exists b p) h = exists-Kept c b p _ (λ c₁ e. Succeeds-ok c₁) h
  uninit-Kept c ty h = plain-Kept c _ (Succeeds-ok c) h

  trivial-Kept :
      (c : Cursor) (ty1 ty2 : Ty)
      → is_trivial ty1 ty2 ≡ true
      → SameTy ty1 ty2 ⊎ (ty2 ≡ Ty.uninit)
      → nesting ty1 + nesting ty2 ≤ fuel
      → IsPlaced c
      → Returns (Kept c) (trivial_subtyping variances_of call c ty1 ty2)
  unfolding is_trivial
  trivial-Kept c ty1 ty2 e (inl s) le h =
      plain-Kept c _ (trivial_subtyping-Succeeds c ty1 ty2 e s le) h
  trivial-Kept c ty1 ty2 e (inr u) le h =
      elim (not_trivial ty1 (subst (λ t. is_trivial ty1 t ≡ true) u e)) [ ]

  body-Kept :
      (c : Cursor) (ty1 ty2 : Ty)
      → SameTy ty1 ty2 ⊎ (ty2 ≡ Ty.uninit)
      → nesting ty1 + nesting ty2 ≤ fuel
      → IsPlaced c
      → Returns
          (Kept c)
          (unpack c ty1 >>= λ (ty, c₁). unpacked_subtyping variances_of call c₁ ty ty2)
  unfolding unpack unpacked_subtyping
  body-Kept c _ _ (inl (SameTy.refine_refine {b1} {b2} e1 e2 s)) le h =
      plain-Kept c _ (refine_refine-Succeeds c b1 b2 e1 e2 s le) h
  body-Kept c _ _ (inl (SameTy.refine_exists {b1} {b2} e1 p2 s)) le h =
      plain-Kept c _ (refine_exists-Succeeds c b1 b2 e1 p2 s le) h
  body-Kept c _ _ (inl (SameTy.exists_refine {b1} {b2} p1 e2 s)) le h =
      exists-Kept c b1 p1 _ (λ c₁ e. refine_refine-Succeeds c₁ b1 b2 e e2 s le) h
  body-Kept c _ _ (inl (SameTy.exists_exists {b1} {b2} p1 p2 s)) le h =
      exists-Kept c b1 p1 _ (λ c₁ e. refine_exists-Succeeds c₁ b1 b2 e p2 s le) h
  body-Kept c _ _ (inl (SameTy.strg_ref loc)) le h =
      plain-Kept c _ (Succeeds-assert c (Loc-discrete loc loc) (ok c) refl (Succeeds-ok c)) h
  body-Kept c _ _ (inl (SameTy.param p)) le h =
      plain-Kept c _ (Succeeds-assert c (ParamTy-discrete p p) (ok c) refl (Succeeds-ok c)) h
  body-Kept c ty1 ty2 (inr e) le h =
      subst
        (λ t.
          Returns (Kept c)
            (unpack c ty1 >>= λ (ty, c₁). unpacked_subtyping variances_of call c₁ ty t))
        (sym e) (uninit-Kept c ty1 h)

-- Subtyping of two types that refine the same Rust type and have no reference `Ref`, at the top or in a
-- type argument (on two of those the code panics), or of any type and the uninitialized one, always
-- gives a cursor, if it starts at a node that can have children: no panic, and the cursor stands at the
-- same node, which can still have children. Fuel above the nesting of type arguments in both types is
-- enough. The counter of names has no largest value here.
pub subtyping-Stays :
    (variances_of : DefId → List Variance) (fuel : ℕ) (c : Cursor) (ty1 ty2 : Ty)
    → IsPlaced c
    → SameTy ty1 ty2 ⊎ (ty2 ≡ Ty.uninit)
    → nesting ty1 + nesting ty2 < fuel
    → Returns (Stays c) (subtyping variances_of fuel c ty1 ty2)
unfolding subtyping
subtyping-Stays variances_of zero c ty1 ty2 h s le = elim (not_below_zero le) [ ]
subtyping-Stays variances_of (suc fuel) c ty1 ty2 h s le =
    let call = subtyping variances_of fuel in
    let k : CallSucceeds fuel call =
      λ c ty1 ty2 s le h. subtyping-Stays variances_of fuel c ty1 ty2 h (inl s) le in
    let body : Returns (Kept c) (elim (is_trivial ty1 ty2) [
      | true ↦ trivial_subtyping variances_of call c ty1 ty2
      | false ↦ unpack c ty1 >>= λ (ty, c₁). unpacked_subtyping variances_of call c₁ ty ty2
    ]) =
      elim (Bool-cases (is_trivial ty1 ty2)) [
        | inl e ↦ rw e (trivial-Kept variances_of fuel call k c ty1 ty2 e s (omega arith) h)
        | inr e ↦ rw e (body-Kept variances_of fuel call k c ty1 ty2 s (omega arith) h)
      ] in
    Returns-bind body λ inner kept. returns (record { extends = kept; same = refl })
