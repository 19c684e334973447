-- ===== src/Typeck/Lowering/Inference.antt =====
-- What `infer_from_fn_call` of liquid-rust-typeck/src/lowering.rs leaves in the substitution.
use liquid_rust.Base.{
  List, [], ◌∷◌, length, Option, none, some, ◌≡◌, refl, sym, ap, ◌∙◌, subst, inl, inr, ok, unwrap,
  assert, >>=-eq-ok, ℕ_discrete, Option-cases, arith,
}
use mathlib.Core.Logic.{ite}
use liquid_rust.Fixpoint.Constraint.{Name}
use liquid_rust.Core.Ty as Core
use liquid_rust.Typeck.Ty.{Loc, Expr, Ty, Expr-discrete, Loc-discrete}
use liquid_rust.Typeck.Lowering.{
  get, Subst, insert_expr, insert_loc, lower_loc, unambiguous, infer_from_tys, infer_args,
  infer_requires, check_params, check_regions, check_inference, infer_from_fn_call,
}

assert_inv : {P : Type 0} (d : Dec P) → assert d ≡ ok tt → P
assert_inv (yes p) h = p
assert_inv (no n) h = cc

module _ {A : Type 0} where
  get-same : (m : List (Name × A)) (x : Name) (a : A) → get ((x, a) ∷ m) x ≡ some a
  unfolding get
  get-same m x a = elim (ℕ_discrete x x) as (λ d. ite d (some a) (get m x) ≡ some a) [
    | yes _ ↦ refl
    | no n ↦ elim (n refl) [ ]
  ]

  unambiguous_inv :
      (d : Discrete A) (o : Option A) (a b : A) → unambiguous d o a ≡ ok tt → o ≡ some b → b ≡ a
  unambiguous_inv d none a b h e = cc
  unambiguous_inv d (some old) a b h e = let p : old ≡ a = assert_inv (d old a) h in cc

  -- An unambiguous insertion keeps every entry.
  get-insert :
      (d : Discrete A) (m : List (Name × A)) (x y : Name) (a b : A)
      → unambiguous d (get m x) a ≡ ok tt
      → get m y ≡ some b
      → get ((x, a) ∷ m) y ≡ some b
  unfolding get
  get-insert d m x y a b h e = elim (ℕ_discrete x y) as (λ z. ite z (some a) (get m y) ≡ some b) [
    | yes p ↦ ap some (sym (unambiguous_inv d (get m x) a b h (ap (get m) p ∙ e)))
    | no _ ↦ e
  ]

-- `Extends s s'`: what `s` maps, `s'` maps to the same.
pub record Extends (s s' : Subst) : Type 0 where
  pub exprs : (x : Name) (e : Expr) → get s.exprs x ≡ some e → get s'.exprs x ≡ some e
  pub locations :
      (x : Name) (loc : Loc) → get s.locations x ≡ some loc → get s'.locations x ≡ some loc

Extends-refl : (s : Subst) → Extends s s
Extends-refl s = record { exprs = λ _ _ h. h; locations = λ _ _ h. h }

Extends-trans : {s s' s'' : Subst} → Extends s s' → Extends s' s'' → Extends s s''
Extends-trans h k = record {
  exprs = λ x e g. k.exprs x e (h.exprs x e g);
  locations = λ x loc g. k.locations x loc (h.locations x loc g);
}

-- A formal type that is a bare parameter stands for what the actual type has in its place.
abbrev pub Matches : Subst → Ty → Core.Ty → Type 0
Matches s (Ty.refine _ e) (Core.Ty.refine _ (Core.Expr.var (Core.Var.free x))) =
    get s.exprs x ≡ some e
Matches s (Ty.strg_ref loc) (Core.Ty.mut_ref x) = get s.locations x ≡ some loc
Matches s _ _ = Unit

Matches-Extends :
    {s s' : Subst}
    → Extends s s'
    → (ty : Ty) (formal : Core.Ty) → Matches s ty formal
    → Matches s' ty formal
Matches-Extends h (Ty.refine _ e) (Core.Ty.refine _ (Core.Expr.var (Core.Var.free x))) m =
    h.exprs x e m
Matches-Extends h (Ty.strg_ref loc) (Core.Ty.mut_ref x) m = h.locations x loc m
Matches-Extends h _ _ m = tt

infer_from_tys-Matches :
    (s : Subst) (ty : Ty) (formal : Core.Ty) {s' : Subst}
    → infer_from_tys s ty formal ≡ ok s'
    → Extends s s' × Matches s' ty formal
unfolding infer_from_tys
infer_from_tys-Matches s (Ty.refine _ e) (Core.Ty.refine _ (Core.Expr.var (Core.Var.free x))) {s'}
      h =
    let (_, u, h') =
      >>=-eq-ok (unambiguous Expr-discrete (get s.exprs x) e) (λ _. ok (insert_expr s x e)) h in
    let r : insert_expr s x e ≡ s' = cc in
    subst (λ t. Extends s t × (get t.exprs x ≡ some e)) r
      (
        record {
          exprs = λ y b g. get-insert Expr-discrete s.exprs x y e b u g;
          locations = λ _ _ g. g;
        },
        get-same s.exprs x e,
      )
infer_from_tys-Matches s (Ty.strg_ref loc) (Core.Ty.mut_ref x) {s'} h =
    let (_, u, h') =
      >>=-eq-ok (unambiguous Loc-discrete (get s.locations x) loc) (λ _. ok (insert_loc s x loc))
        h in
    let r : insert_loc s x loc ≡ s' = cc in
    subst (λ t. Extends s t × (get t.locations x ≡ some loc)) r
      (
        record {
          exprs = λ _ _ g. g;
          locations = λ y b g. get-insert Loc-discrete s.locations x y loc b u g;
        },
        get-same s.locations x loc,
      )
infer_from_tys-Matches s _ _ {s'} h =
    let r : s ≡ s' = cc in (subst (Extends s) r (Extends-refl s), tt)

-- The arguments match position by position.
abbrev pub MatchesAll : Subst → List Ty → List Core.Ty → Type 0
MatchesAll s (ty ∷ tys) (formal ∷ formals) = Matches s ty formal × MatchesAll s tys formals
MatchesAll s [] formals = Unit
MatchesAll s (ty ∷ tys) [] = Unit

MatchesAll-Extends :
    {s s' : Subst}
    → Extends s s'
    → (tys : List Ty) (formals : List Core.Ty) → MatchesAll s tys formals
    → MatchesAll s' tys formals
MatchesAll-Extends h [] formals m = tt
MatchesAll-Extends h (ty ∷ tys) [] m = tt
MatchesAll-Extends h (ty ∷ tys) (formal ∷ formals) (m, ms) =
    (Matches-Extends h ty formal m, MatchesAll-Extends h tys formals ms)

infer_args-MatchesAll :
    (s : Subst) (tys : List Ty) (formals : List Core.Ty) {s' : Subst}
    → infer_args s tys formals ≡ ok s'
    → Extends s s' × MatchesAll s' tys formals
unfolding infer_args
infer_args-MatchesAll s (ty ∷ tys) (formal ∷ formals) h =
    let (s₁, h1, h2) = >>=-eq-ok (infer_from_tys s ty formal) (λ s'. infer_args s' tys formals) h in
    let (x1, m1) = infer_from_tys-Matches s ty formal h1 in
    let (x2, m2) = infer_args-MatchesAll s₁ tys formals h2 in
    (Extends-trans x1 x2, (Matches-Extends x2 ty formal m1, m2))
infer_args-MatchesAll s [] formals {s'} h =
    let r : s ≡ s' = cc in (subst (Extends s) r (Extends-refl s), tt)
infer_args-MatchesAll s (ty ∷ tys) [] {s'} h =
    let r : s ≡ s' = cc in (subst (Extends s) r (Extends-refl s), tt)

infer_requires-Extends :
    (lookup_loc : Loc → Option Ty) (s : Subst) (requires : List (Name × Core.Ty)) {s' : Subst}
    → infer_requires lookup_loc s requires ≡ ok s'
    → Extends s s'
unfolding infer_requires
infer_requires-Extends lookup_loc s [] {s'} h =
    let r : s ≡ s' = cc in subst (Extends s) r (Extends-refl s)
infer_requires-Extends lookup_loc s ((x, ty) ∷ requires) h =
    let (loc, h1, h) = >>=-eq-ok (unwrap (lower_loc s x)) _ h in
    let (actual, h2, h) = >>=-eq-ok (unwrap (lookup_loc loc)) _ h in
    let (s₁, h3, h4) =
      >>=-eq-ok (infer_from_tys s actual ty) (λ s'. infer_requires lookup_loc s' requires) h in
    Extends-trans (infer_from_tys-Matches s actual ty h3).0
      (infer_requires-Extends lookup_loc s₁ requires h4)

-- Every parameter of the signature has an expression.
abbrev pub HasParams : Subst → List Core.Param → Type 0
HasParams s [] = Unit
HasParams s (p ∷ ps) = ((e : Expr) × (get s.exprs p.name ≡ some e)) × HasParams s ps

check_params-HasParams :
    (s : Subst) (ps : List Core.Param) → check_params s ps ≡ ok tt → HasParams s ps
unfolding check_params
check_params-HasParams s [] h = tt
check_params-HasParams s (p ∷ ps) h = elim (Option-cases (get s.exprs p.name)) [
  | inl e ↦ ground arith
  | inr (a, e) ↦ ((a, e), check_params-HasParams s ps (ground arith))
]

-- When the inference at a call succeeds, every parameter of the signature has an expression, each
-- argument whose formal type is indexed by a bare parameter, or is a reference to a region parameter,
-- agrees with what is found for that parameter, and nothing known before the call is changed.
pub infer_from_fn_call-Matches :
    (s : Subst) (lookup_loc : Loc → Option Ty) (actuals : List Ty) (sig : Core.FnSig) (s' : Subst)
    → infer_from_fn_call s lookup_loc actuals sig ≡ ok s'
    → Extends s s' × MatchesAll s' actuals sig.args × HasParams s' sig.params
unfolding infer_from_fn_call check_inference
infer_from_fn_call-Matches s lookup_loc actuals sig s' h =
    let (_, _, h) = >>=-eq-ok (assert (ℕ_discrete (length actuals) (length sig.args))) _ h in
    let (s₁, h1, h) = >>=-eq-ok (infer_args s actuals sig.args) _ h in
    let (s₂, h2, h) = >>=-eq-ok (infer_requires lookup_loc s₁ sig.requires) _ h in
    let (_, h3, h4) = >>=-eq-ok (check_inference s₂ sig) (λ _. ok s₂) h in
    let (_, h5, _) =
      >>=-eq-ok (check_params s₂ sig.params) (λ _. check_regions s₂ sig.requires) h3 in
    let (x1, m) = infer_args-MatchesAll s actuals sig.args h1 in
    let x2 = infer_requires-Extends lookup_loc s₁ sig.requires h2 in
    let r : s₂ ≡ s' = cc in
    subst (λ t. Extends s t × MatchesAll t actuals sig.args × HasParams t sig.params) r
      (
        Extends-trans x1 x2,
        MatchesAll-Extends x2 actuals sig.args m,
        check_params-HasParams s₂ sig.params h5,
      )
