-- ===== src/Typeck/Lowering.antt =====
-- `Subst` of liquid-rust-typeck/src/lowering.rs: the instantiation of a signature at a call. A hash map
-- is an association list with the newest entry first. `reported` stands for `Err(InferenceError)`.
-- The type environment appears as its `lookup_loc`, and a `&mut Cursor` as a state that is returned.
pub mod Inference
pub mod Meaning
pub mod Keeps
use liquid_rust.Base.{
  ℕ, suc, ◌+◌, List, [], ◌∷◌, ◌++◌, get_elem?, length, Option, none, some, Outcome, ok, reported,
  panicked, ◌>>=◌, ◌>>◌, unwrap, assert, ℕ_discrete,
}
use liquid_rust.Base.Int.{ℤ}
use mathlib.Core.Logic.{ite}
use mathlib.Core.Option
use liquid_rust.Fixpoint.Constraint.{Name, BinOp, Sign, Constant}
use liquid_rust.Core.Ty as Core
use liquid_rust.Typeck.Ty.{Var, Loc, Expr, Pred, Ty, BaseTy, Tys, Expr-discrete, Loc-discrete}
use liquid_rust.Typeck.Builder.{Cursor, fresh_kvar}

-- `FxHashMap::get`
unfoldable pub get {ℓ} : {A : Type ℓ} → List (Name × A) → Name → Option A
get [] x = none
get ((y, a) ∷ m) x = ite (ℕ_discrete y x) (some a) (get m x)

pub record Subst : Type 0 where
  pub locations : List (Name × Loc)
  pub exprs : List (Name × Expr)
  pub types : List Ty

abbrev pub with_empty_type_substs : Subst
with_empty_type_substs = record { locations = []; exprs = []; types = [] }

abbrev pub insert_expr : Subst → Name → Expr → Subst
insert_expr s x e = record s { exprs = (x, e) ∷ s.exprs }

abbrev pub insert_loc : Subst → Name → Loc → Subst
insert_loc s x loc = record s { locations = (x, loc) ∷ s.locations }

abbrev pub lower_loc : Subst → Name → Option Loc
lower_loc s x = get s.locations x

-- What an insertion found under its key: nothing, or what it put there; else `todo!`.
abbrev pub unambiguous {ℓ} : {A : Type ℓ} → Discrete A → Option A → A → Outcome (Unit {0})
unambiguous d none a = ok tt
unambiguous d (some old) a = assert (d old a)

unfoldable pub infer_from_tys : Subst → Ty → Core.Ty → Outcome Subst
unfolding get
infer_from_tys s (Ty.refine _ e) (Core.Ty.refine _ (Core.Expr.var (Core.Var.free x))) = do
  unambiguous Expr-discrete (get s.exprs x) e
  ok (insert_expr s x e)
infer_from_tys s (Ty.strg_ref loc) (Core.Ty.mut_ref x) = do
  unambiguous Loc-discrete (get s.locations x) loc
  ok (insert_loc s x loc)
infer_from_tys s _ _ = ok s

-- The loop over the actual and the formal arguments.
unfoldable pub infer_args : Subst → List Ty → List Core.Ty → Outcome Subst
unfolding infer_from_tys
infer_args s (actual ∷ actuals) (formal ∷ formals) = do
  s' ← infer_from_tys s actual formal
  infer_args s' actuals formals
infer_args s _ _ = ok s

-- The loop over the required types of locations.
unfoldable pub infer_requires : (Loc → Option Ty) → Subst → List (Name × Core.Ty) → Outcome Subst
unfolding infer_from_tys get
infer_requires lookup_loc s [] = ok s
infer_requires lookup_loc s ((x, required) ∷ requires) = do
  loc ← unwrap (lower_loc s x)
  actual ← unwrap (lookup_loc loc)
  s' ← infer_from_tys s actual required
  infer_requires lookup_loc s' requires

abbrev pub contained {ℓ} : {A : Type ℓ} → Option A → Outcome (Unit {0}) → Outcome (Unit {0})
contained none rest = reported
contained (some _) rest = rest

unfoldable pub check_params : Subst → List Core.Param → Outcome (Unit {0})
unfolding get
check_params s [] = ok tt
check_params s (p ∷ ps) = contained (get s.exprs p.name) (check_params s ps)

unfoldable pub check_regions : Subst → List (Name × Core.Ty) → Outcome (Unit {0})
unfolding get
check_regions s [] = ok tt
check_regions s ((x, _) ∷ requires) = contained (get s.locations x) (check_regions s requires)

unfoldable pub check_inference : Subst → Core.FnSig → Outcome (Unit {0})
unfolding check_params check_regions
check_inference s sig = check_params s sig.params >> check_regions s sig.requires

unfoldable pub infer_from_fn_call : Subst → (Loc → Option Ty) → List Ty → Core.FnSig → Outcome Subst
unfolding infer_args infer_requires check_inference
infer_from_fn_call s lookup_loc actuals sig = do
  assert (ℕ_discrete (length actuals) (length sig.args))
  s₁ ← infer_args s actuals sig.args
  s₂ ← infer_requires lookup_loc s₁ sig.requires
  check_inference s₂ sig
  ok s₂

unfoldable pub lower_bin_op : Core.BinOp → BinOp
lower_bin_op Core.BinOp.iff = BinOp.iff
lower_bin_op Core.BinOp.imp = BinOp.imp
lower_bin_op Core.BinOp.or = BinOp.or
lower_bin_op Core.BinOp.and = BinOp.and
lower_bin_op Core.BinOp.eq = BinOp.eq
lower_bin_op Core.BinOp.gt = BinOp.gt
lower_bin_op Core.BinOp.ge = BinOp.ge
lower_bin_op Core.BinOp.lt = BinOp.lt
lower_bin_op Core.BinOp.le = BinOp.le
lower_bin_op Core.BinOp.add = BinOp.add
lower_bin_op Core.BinOp.sub = BinOp.sub

-- `lower_lit`, with `Constant::from(i128)`; the negation of the least value gives its absolute value,
-- as in a build without overflow checks.
unfoldable pub lower_lit : Core.Lit → Constant
lower_lit (Core.Lit.int (ℤ.pos n)) = Constant.int Sign.positive n
lower_lit (Core.Lit.int (ℤ.negsuc n)) = Constant.int Sign.negative (suc n)
lower_lit (Core.Lit.bool b) = Constant.bool b

unfoldable pub lower_var : Subst → Core.Var → Outcome Expr
unfolding get
lower_var s Core.Var.bound = ok (Expr.var Var.bound)
lower_var s (Core.Var.free x) = unwrap (get s.exprs x)

unfoldable pub lower_expr : Subst → Core.Expr → Outcome Expr
unfolding lower_var lower_lit lower_bin_op
lower_expr s (Core.Expr.var x) = lower_var s x
lower_expr s (Core.Expr.literal lit) = ok (Expr.constant (lower_lit lit))
lower_expr s (Core.Expr.binary_op op e1 e2) = do
  e1' ← lower_expr s e1
  e2' ← lower_expr s e2
  ok (Expr.binary_op (lower_bin_op op) e1' e2')

-- The argument for a type parameter, or the parameter itself.
abbrev pub param_or : Option Ty → Ty → Ty
param_or none ty = ty
param_or (some ty) _ = ty

-- The predicate of an existential: an unknown one where it is to be inferred.
unfoldable pub lower_pred : Subst → Cursor → Core.BaseTy → Core.Pred → Outcome (Pred × Cursor)
unfolding lower_expr
lower_pred s c bty Core.Pred.infer = fresh_kvar c (Core.base_sort bty)
lower_pred s c bty (Core.Pred.expr e) = do e' ← lower_expr s e; ok (Pred.expr e', c)

unfoldable mutual
  unfolding lower_pred lower_expr get

  pub lower_ty : Subst → Cursor → Core.Ty → Outcome (Ty × Cursor)
  lower_ty s c (Core.Ty.refine bty e) = do
    (bty', c₁) ← lower_base_ty s c bty
    e' ← lower_expr s e
    ok (Ty.refine bty' e', c₁)
  lower_ty s c (Core.Ty.exists bty p) = do
    (p', c₁) ← lower_pred s c bty p
    (bty', c₂) ← lower_base_ty s c₁ bty
    ok (Ty.exists bty' p', c₂)
  lower_ty s c (Core.Ty.mut_ref x) = do loc ← unwrap (get s.locations x); ok (Ty.strg_ref loc, c)
  lower_ty s c (Core.Ty.param p) = ok (param_or (get_elem? s.types p.index) (Ty.param p), c)

  pub lower_base_ty : Subst → Cursor → Core.BaseTy → Outcome (BaseTy × Cursor)
  lower_base_ty s c (Core.BaseTy.int i) = ok (BaseTy.int i, c)
  lower_base_ty s c (Core.BaseTy.uint i) = ok (BaseTy.uint i, c)
  lower_base_ty s c Core.BaseTy.bool = ok (BaseTy.bool, c)
  lower_base_ty s c (Core.BaseTy.adt did substs) = do
    (substs', c₁) ← lower_substs s c substs
    ok (BaseTy.adt did substs', c₁)

  pub lower_substs : Subst → Cursor → Core.Tys → Outcome (Tys × Cursor)
  lower_substs s c Core.Tys.nil = ok (Tys.nil, c)
  lower_substs s c (Core.Tys.cons ty tys) = do
    (ty', c₁) ← lower_ty s c ty
    (tys', c₂) ← lower_substs s c₁ tys
    ok (Tys.cons ty' tys', c₂)

-- The loop of `with_type_substs`: each type is lowered with the ones before it in place.
unfoldable pub push_types : Subst → Cursor → List Core.Ty → Outcome (Subst × Cursor)
unfolding lower_ty
push_types s c [] = ok (s, c)
push_types s c (ty ∷ tys) = do
  (ty', c₁) ← lower_ty s c ty
  push_types (record s { types = s.types ++ (ty' ∷ []) }) c₁ tys

unfoldable pub with_type_substs : Cursor → List Core.Ty → Outcome (Subst × Cursor)
unfolding push_types
with_type_substs c tys = push_types with_empty_type_substs c tys
