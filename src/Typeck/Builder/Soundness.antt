-- ===== src/Typeck/Builder/Soundness.antt =====
-- What a call of `Cursor::subtyping` of liquid-rust-typeck/src/constraint_builder.rs obliges: once the
-- constraint holds, the types are subtypes by their meaning.
pub mod Relation
pub mod Transfer
pub mod Steps
pub mod Parts
use liquid_rust.Base.{
  ℕ, zero, suc, ◌≤◌, ◌≡◌, refl, sym, ap, ◌∙◌, subst, List, [], ◌∷◌, true, false, Outcome, ok,
  reported, panicked, ◌>>=◌, >>=-eq-ok, ℕ_discrete, Bool-cases, inl, inr, arith,
}
use mathlib.Core.Bool.{decide, decide_iff}
use liquid_rust.Fixpoint.Constraint.{BinOp}
use liquid_rust.Typeck.Ty.{
  Var, Expr, Pred, Ty, BaseTy, Tys, DefId, base_sort, subst_pred, Expr-discrete, Pred-discrete,
  Loc-discrete,
}
use liquid_rust.Typeck.Ty.Meaning.{Structure, Env, bind, eval, HoldsPred, HoldsPred-subst_pred}
use liquid_rust.Typeck.Builder.{Cursor, Node, push_head, push_forall, unpack, fresh_name, resume}
use liquid_rust.Typeck.Builder.Subtyping.{
  Variance, Call, is_trivial, substs_length, polymorphic_subtyping, substs_subtyping, bty_subtyping,
  unpacked_subtyping, trivial_subtyping, subtyping, ParamTy-discrete,
}
use liquid_rust.Typeck.Builder.Translate.Closed.{ExprClosed, HoldsNode}
use liquid_rust.Typeck.Builder.Agree.{eval-closed, bind_self, bind-Agree, HoldsPred-Agree}
use liquid_rust.Typeck.Builder.Along.{Assertion, Along, Along-map}
use liquid_rust.Typeck.Builder.Keeps.{Keeps, Keeps-same, Keeps-trans, subtyping-Keeps, ok-cursor}
use liquid_rust.Typeck.Builder.Soundness.Relation.{
  TyClosed, BaseClosed, TysClosed, Subtype, Fits, SubBase, SubSubsts, SubArg,
}
use liquid_rust.Typeck.Builder.Soundness.Transfer.{Subtype-Agree, Fits-Agree}
use liquid_rust.Typeck.Builder.Soundness.Steps.{
  Proves, ProvesBy, ProvesBy-map, ProvesBy-ok, ProvesBy-panic, ProvesBy-bind, ProvesBy-assert,
  push_head-ProvesBy, push_forall-proves, resume-Proves,
}
use liquid_rust.Typeck.Builder.Soundness.Parts.{
  SoundCall, bty_subtyping-ProvesBy, refine_subtyping-ProvesBy,
}

module _ (variances_of : DefId → List Variance) (M : Structure) (ν : M.Value) where
  module _ (call : Call) (sound : SoundCall variances_of M ν call) (g : ℕ) where
    -- The two shortcuts: equal indices and equal predicates.
    trivial_subtyping-ProvesBy :
        (c : Cursor) (ty1 ty2 : Ty)
        → is_trivial ty1 ty2 ≡ true
        → g ≤ c.name_gen
        → TyClosed g ty1
        → TyClosed g ty2
        → ProvesBy M ν c
            (λ ρ. Subtype variances_of M ν ρ ty1 ty2)
            (trivial_subtyping variances_of call c ty1 ty2)
    unfolding trivial_subtyping is_trivial
    trivial_subtyping-ProvesBy c (Ty.refine b1 e1) (Ty.refine b2 e2) h le h1 h2 =
        let same : e1 ≡ e2 = (decide_iff (Expr-discrete e1 e2)).0 h in
        ProvesBy-map M ν c _ (λ ρ s. Subtype.refine (Fits.index s (ap (eval M ν ρ) same)))
          (bty_subtyping-ProvesBy variances_of M ν call sound g c b1 b2 le h1.0 h2.0)
    trivial_subtyping-ProvesBy c (Ty.exists b1 p1) (Ty.exists b2 p2) h le h1 h2 =
        let same : p1 ≡ p2 = (decide_iff (Pred-discrete p1 p2)).0 h in
        ProvesBy-map M ν c _
          (λ ρ s. Subtype.exists λ v _ holds. Fits.member s (subst (HoldsPred M v ρ) same holds))
          (bty_subtyping-ProvesBy variances_of M ν call sound g c b1 b2 le h1.0 h2.0)
    trivial_subtyping-ProvesBy c _ _ h le h1 h2 = ProvesBy-panic M ν c _

    -- The left type is not existential: nothing is unpacked.
    plain_subtyping-ProvesBy :
        (c : Cursor) (ty1 ty2 : Ty)
        → g ≤ c.name_gen
        → TyClosed g ty1
        → TyClosed g ty2
        → ProvesBy M ν c
            (λ ρ. Subtype variances_of M ν ρ ty1 ty2)
            (unpacked_subtyping variances_of call c ty1 ty2)
    unfolding unpacked_subtyping
    plain_subtyping-ProvesBy c (Ty.refine b e) ty2 le h1 h2 =
        ProvesBy-map M ν c _ (λ ρ f. Subtype.refine f)
          (refine_subtyping-ProvesBy variances_of M ν call sound g c b e ty2 g le h1.0 h1.1 h2)
    plain_subtyping-ProvesBy c (Ty.strg_ref loc1) (Ty.strg_ref loc2) le h1 h2 =
        ProvesBy-assert M ν c _ (Loc-discrete loc1 loc2) (ok c) λ e. ProvesBy-ok M ν c _ (λ ρ.
          subst (λ loc. Subtype variances_of M ν ρ (Ty.strg_ref loc1) (Ty.strg_ref loc)) e
            (Subtype.strg_ref loc1))
    plain_subtyping-ProvesBy c (Ty.param p1) (Ty.param p2) le h1 h2 =
        ProvesBy-assert M ν c _ (ParamTy-discrete p1 p2) (ok c) λ e. ProvesBy-ok M ν c _ (λ ρ.
          subst (λ p. Subtype variances_of M ν ρ (Ty.param p1) (Ty.param p)) e (Subtype.param p1))
    plain_subtyping-ProvesBy c ty Ty.uninit le h1 h2 = ProvesBy-ok M ν c _ (λ ρ. Subtype.uninit ty)
    plain_subtyping-ProvesBy c _ _ le h1 h2 = ProvesBy-panic M ν c _

  then_assoc :
      (m : Outcome Cursor) (ty : Ty) (f : Ty × Cursor → Outcome Cursor)
      → (m >>= (λ c₁. ok (ty, c₁)) >>= f) ≡ (m >>= λ c₁. f (ty, c₁))
  then_assoc (ok c) ty f = refl
  then_assoc reported ty f = refl
  then_assoc panicked ty f = refl

  -- A value of the existential type, given the fresh name, fits without the name too.
  value-Fits :
      (g : ℕ) (c : Cursor) (b : BaseTy) (p : Pred) (ty2 : Ty)
      → g ≤ c.name_gen
      → TyClosed g (Ty.exists b p)
      → TyClosed g ty2
      → (ρ : Env M)
      → ((v : M.Value)
          → M.HasSort (base_sort b) v
          → HoldsPred M ν (bind M ρ c.name_gen v) (subst_pred p (Expr.var (Var.free c.name_gen)))
          → Fits variances_of M ν
              (bind M ρ c.name_gen v)
              b
              (eval M ν (bind M ρ c.name_gen v) (Expr.var (Var.free c.name_gen)))
              ty2)
      → (v : M.Value) → M.HasSort (base_sort b) v
      → HoldsPred M v ρ p
      → Fits variances_of M ν ρ b v ty2
  unfolding eval
  value-Fits g c b p ty2 le h1 h2 ρ f v hv holds =
      let x = c.name_gen in
      let ρ' = bind M ρ x v in
      let agree = bind-Agree M g x ρ v le in
      let value : ρ' x ≡ v = bind_self M ρ x v in
      let holds' : HoldsPred M v ρ' p =
        subst (λ P. P) (sym (HoldsPred-Agree M g ρ ρ' v p h1.1 agree)) holds in
      let holds_x : HoldsPred M ν ρ' (subst_pred p (Expr.var (Var.free x))) =
        subst (λ P. P) (sym (HoldsPred-subst_pred M ν ρ' p (Expr.var (Var.free x))))
          (subst (λ w. HoldsPred M w ρ' p) (sym value) holds') in
      Fits-Agree variances_of M ν g ρ' ρ (λ y lt. sym (agree y lt)) b v ty2 h1.0 h2
        (subst (λ w. Fits variances_of M ν ρ' b w ty2) value (f v hv holds_x))

  module _ (call : Call) (sound : SoundCall variances_of M ν call) (g : ℕ) where
    -- The left type is existential: its value gets a fresh name.
    exists_subtyping-proves :
        (c : Cursor) (b : BaseTy) (p : Pred) (ty2 : Ty) (inner : Cursor)
        → g ≤ c.name_gen
        → TyClosed g (Ty.exists b p)
        → TyClosed g ty2
        → (unpack c (Ty.exists b p) >>= λ (ty, c₁). unpacked_subtyping variances_of call c₁ ty ty2)
          ≡ ok inner
        → Keeps c inner
          × ((ρ : Env M)
              → HoldsNode M ν ρ inner.root
              → Along M ν c.root c.node ρ (λ ρ'. Subtype variances_of M ν ρ' (Ty.exists b p) ty2))
    unfolding unpack fresh_name eval
    exists_subtyping-proves c b p ty2 inner le h1 h2 h =
        let x = c.name_gen in
        let index = Expr.var (Var.free x) in
        let start = (fresh_name c).1 in
        let pushed = push_forall start x (base_sort b) (subst_pred p index) in
        let check : Cursor → Outcome Cursor =
          λ c₁. unpacked_subtyping variances_of call c₁ (Ty.refine b index) ty2 in
        let (keeps, proves) =
          push_forall-proves M ν c (base_sort b) (subst_pred p index) check
            (λ ρ. Fits variances_of M ν ρ b (eval M ν ρ index) ty2) inner
            (λ c₁ k fresh.
              refine_subtyping-ProvesBy variances_of M ν call sound g c₁ b index ty2 (suc x)
                (omega arith) h1.0 (omega arith) h2)
            (sym (
                then_assoc pushed (Ty.refine b index)
                  (λ (ty, c₁). unpacked_subtyping variances_of call c₁ ty ty2))
              ∙ h) in
        (
          keeps,
          λ ρ holds.
              Along-map M ν (λ ρ' f. Subtype.exists (value-Fits g c b p ty2 le h1 h2 ρ' f)) c.root
                c.node ρ (proves ρ holds),
        )

    -- What the body of `subtyping` proves.
    body-proves :
        (c : Cursor) (ty1 ty2 : Ty) (inner : Cursor)
        → g ≤ c.name_gen
        → TyClosed g ty1
        → TyClosed g ty2
        → (unpack c ty1 >>= λ (ty, c₁). unpacked_subtyping variances_of call c₁ ty ty2) ≡ ok inner
        → Keeps c inner
          × ((ρ : Env M)
              → HoldsNode M ν ρ inner.root
              → Along M ν c.root c.node ρ (λ ρ'. Subtype variances_of M ν ρ' ty1 ty2))
    unfolding unpack
    body-proves c (Ty.exists b p) ty2 inner le h1 h2 h =
        exists_subtyping-proves c b p ty2 inner le h1 h2 h
    body-proves c ty1 ty2 inner le h1 h2 h =
        let r = plain_subtyping-ProvesBy call sound g c ty1 ty2 le h1 h2 inner h in
        (r.keeps, r.proves)

  pub subtyping-Proves :
      (fuel g : ℕ) (c : Cursor) (ty1 ty2 : Ty)
      → g ≤ c.name_gen
      → TyClosed g ty1
      → TyClosed g ty2
      → ProvesBy M ν c
          (λ ρ. Subtype variances_of M ν ρ ty1 ty2)
          (subtyping variances_of fuel c ty1 ty2)
  unfolding subtyping
  subtyping-Proves zero g c ty1 ty2 le h1 h2 = ProvesBy-panic M ν c _
  subtyping-Proves (suc fuel) g c ty1 ty2 le h1 h2 = λ c' h.
      let call = subtyping variances_of fuel in
      let sound : SoundCall variances_of M ν call = λ g. subtyping-Proves fuel g in
      let (inner, h0, h3) = >>=-eq-ok _ (λ inner. ok (resume c inner)) h in
      let (keeps, proves) =
        elim (is_trivial ty1 ty2)
            as (λ b.
              is_trivial ty1 ty2 ≡ b
              → elim b [
                | true ↦ trivial_subtyping variances_of call c ty1 ty2
                | false ↦
                    unpack c ty1 >>= λ (ty, c₁). unpacked_subtyping variances_of call c₁ ty ty2
              ]
                ≡ ok inner
              → Keeps c inner
                × ((ρ : Env M)
                    → HoldsNode M ν ρ inner.root
                    → Along M ν c.root c.node ρ (λ ρ'. Subtype variances_of M ν ρ' ty1 ty2))) [
                      | true ↦ λ e k.
                          let r =
                            trivial_subtyping-ProvesBy call sound g c ty1 ty2 e le h1 h2 inner k in
                          (r.keeps, r.proves)
                      | false ↦ λ e k. body-proves call sound g c ty1 ty2 inner le h1 h2 k
                    ]
          refl h0 in
      subst (Proves M ν c (λ ρ. Subtype variances_of M ν ρ ty1 ty2)) (ok-cursor h3)
        (resume-Proves M ν c inner _ keeps proves)

-- Subtyping is sound: where it gives a cursor, and every name in the two types was generated before
-- it, a tree after it that holds, in a structure and an environment, makes the left type a subtype
-- of the right one by meaning at the place of the cursor, under the binders and guards above it.
pub subtyping-Subtype :
    (variances_of : DefId → List Variance) (fuel : ℕ) (c : Cursor) (ty1 ty2 : Ty) (c' : Cursor)
    → TyClosed c.name_gen ty1
    → TyClosed c.name_gen ty2
    → subtyping variances_of fuel c ty1 ty2 ≡ ok c'
    → (M : Structure) (ν : M.Value) (ρ : Env M) → HoldsNode M ν ρ c'.root
    → Along M ν c.root c.node ρ (λ ρ'. Subtype variances_of M ν ρ' ty1 ty2)
subtyping-Subtype variances_of fuel c ty1 ty2 c' h1 h2 h M ν =
    (subtyping-Proves variances_of M ν fuel c.name_gen c ty1 ty2 (omega arith) h1 h2 c' h).proves
