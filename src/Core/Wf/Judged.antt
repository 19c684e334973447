-- ===== src/Core/Wf/Judged.antt =====
-- `check_fn_sig` of liquid-rust-core/src/wf.rs against a judgement of well-sorted signatures that stands
-- on its own.
use liquid_rust.Base.{List, [], ◌∷◌, ◌≡◌, refl, ap, subst, ◌↔◌, ok}
use liquid_rust.Fixpoint.Constraint.{Sort}
use liquid_rust.Core.Ty.{Name, Var, Expr, Pred, Ty, BaseTy, Param, FnSig, base_sort}
use liquid_rust.Core.Wf.{Env, left_by, with_param, check_fn_sig}
use liquid_rust.Core.Wf.Sorted.{HasSort}
use liquid_rust.Core.Wf.Parts.{TypeSorted, InTurn, SignatureSorted}
use liquid_rust.Core.Wf.Parts as Parts
use liquid_rust.Core.Wf.Accepts.{check_fn_sig-SignatureSorted}

-- The sort of the values of a base type
pub data SortOf : BaseTy → Sort → Type 0 where
  int : {int_ty : _} → SortOf (BaseTy.int int_ty) Sort.int
  uint : {uint_ty : _} → SortOf (BaseTy.uint uint_ty) Sort.int
  bool : SortOf BaseTy.bool Sort.bool
  adt : {did : _} {substs : _} → SortOf (BaseTy.adt did substs) Sort.int

-- `TypeOk env ty env'`: the refinement of the type has the sort that it should have in `env`, and the
-- type leaves `env'`, where an existential's bound variable stays.
pub data TypeOk : Env → Ty → Env → Type 0 where
  refine :
      {env : Env} {bty : BaseTy} {e : Expr} {s : Sort}
      → SortOf bty s
      → HasSort env e s
      → TypeOk env (Ty.refine bty e) env
  exists :
      {env : Env} {bty : BaseTy} {e : Expr} {s : Sort}
      → SortOf bty s
      → HasSort ((Var.bound, s) ∷ env) e Sort.bool
      → TypeOk env (Ty.exists bty (Pred.expr e)) ((Var.bound, s) ∷ env)
  mut_ref : {env : Env} {n : Name} → TypeOk env (Ty.mut_ref n) env
  param : {env : Env} {p : _} → TypeOk env (Ty.param p) env

-- A parameter's predicate is Boolean where the parameter has its sort, and the parameter stays.
pub data ParamOk : Env → Param → Env → Type 0 where
  declare :
      {env : Env} {p : Param}
      → HasSort ((Var.free p.name, p.sort) ∷ env) p.pred Sort.bool
      → ParamOk env p ((Var.free p.name, p.sort) ∷ env)

abbrev pub EnsuredOk : Env → Name × Ty → Env → Type 0
EnsuredOk env (_, ty) env' = TypeOk env ty env'

-- Every item of a list is good, each in the environment that the one before it leaves.
pub data EachOk {A : Type 0} (P : Env → A → Env → Type 0) : Env → List A → Env → Type 0 where
  stop : {env : Env} → EachOk P env [] env
  step :
      {env env₁ env' : Env} {a : A} {as' : List A}
      → P env a env₁
      → EachOk P env₁ as' env'
      → EachOk P env (a ∷ as') env'

-- The parameters of a signature, its arguments, its ensured types and its result are well sorted, in
-- this order and from the empty environment. Nothing is said of the required types.
pub data WellSorted (sig : FnSig) : Type 0 where
  well_sorted :
      {env₁ env₂ env₃ env₄ : Env}
      → EachOk ParamOk [] sig.params env₁
      → EachOk TypeOk env₁ sig.args env₂
      → EachOk EnsuredOk env₂ sig.ensures env₃
      → TypeOk env₃ sig.ret env₄
      → WellSorted sig

base_sort-SortOf : (bty : BaseTy) → SortOf bty (base_sort bty)
base_sort-SortOf (BaseTy.int _) = int
base_sort-SortOf (BaseTy.uint _) = uint
base_sort-SortOf BaseTy.bool = bool
base_sort-SortOf (BaseTy.adt _ _) = adt

SortOf-base_sort : {bty : BaseTy} {s : Sort} → SortOf bty s → s ≡ base_sort bty
SortOf-base_sort int = refl
SortOf-base_sort uint = refl
SortOf-base_sort bool = refl
SortOf-base_sort adt = refl

TypeOk-of_sorted : (env : Env) {ty : Ty} → TypeSorted env ty → TypeOk env ty (left_by ty env)
TypeOk-of_sorted env (Parts.refine {bty} h) = refine (base_sort-SortOf bty) h
TypeOk-of_sorted env (Parts.exists {bty} h) = exists (base_sort-SortOf bty) h
TypeOk-of_sorted env Parts.mut_ref = mut_ref
TypeOk-of_sorted env Parts.param = param

TypeOk-TypeSorted :
    {env : Env} {ty : Ty} {env' : Env}
    → TypeOk env ty env'
    → TypeSorted env ty × (env' ≡ left_by ty env)
TypeOk-TypeSorted {env} (refine {e} o h) =
    (Parts.refine (subst (HasSort env e) (SortOf-base_sort o) h), refl)
TypeOk-TypeSorted {env} (exists {e} o h) =
    let same = SortOf-base_sort o in
    (
      Parts.exists (subst (λ s. HasSort ((Var.bound, s) ∷ env) e Sort.bool) same h),
      ap (λ s. (Var.bound, s) ∷ env) same,
    )
TypeOk-TypeSorted mut_ref = (Parts.mut_ref, refl)
TypeOk-TypeSorted param = (Parts.param, refl)

ParamOk-HasSort :
    {env : Env} {p : Param} {env' : Env}
    → ParamOk env p env'
    → HasSort (with_param p env) p.pred Sort.bool × (env' ≡ with_param p env)
ParamOk-HasSort (declare h) = (h, refl)

module _ {A : Type 0} {P : Env → A → Type 0} {next : A → Env → Env}
    {Q : Env → A → Env → Type 0} where
  EachOk-of_turns :
      ((env : Env) (a : A) → P env a → Q env a (next a env))
      → {as' : List A} {env env' : Env} → InTurn P next as' env env'
      → EachOk Q env as' env'
  EachOk-of_turns f Parts.stop = stop
  EachOk-of_turns f {env} (Parts.step {a} h hs) = step (f env a h) (EachOk-of_turns f hs)

  EachOk-InTurn :
      ((env : Env) (a : A) (env₁ : Env) → Q env a env₁ → P env a × (env₁ ≡ next a env))
      → {env : Env} {as' : List A} {env' : Env} → EachOk Q env as' env'
      → InTurn P next as' env env'
  EachOk-InTurn g stop = Parts.stop
  EachOk-InTurn g {env} {env'} (step {env₁} {a} {as'} q qs) =
      let (h, same) = g env a env₁ q in
      Parts.step h (subst (λ e. InTurn P next as' e env') same (EachOk-InTurn g qs))

WellSorted-of : (sig : FnSig) → SignatureSorted sig → WellSorted sig
WellSorted-of sig (Parts.sorted ps as' es r) =
    well_sorted (EachOk-of_turns (λ env p h. declare h) ps)
      (EachOk-of_turns (λ env ty h. TypeOk-of_sorted env h) as')
      (EachOk-of_turns (λ env b h. TypeOk-of_sorted env h) es) (TypeOk-of_sorted _ r)

SignatureSorted-of : (sig : FnSig) → WellSorted sig → SignatureSorted sig
SignatureSorted-of sig (well_sorted ps as' es r) =
    Parts.sorted (EachOk-InTurn (λ env p env' h. ParamOk-HasSort h) ps)
      (EachOk-InTurn (λ env ty env' h. TypeOk-TypeSorted h) as')
      (EachOk-InTurn (λ env b env' h. TypeOk-TypeSorted h) es) (TypeOk-TypeSorted r).0

-- A signature passes the check, without error or panic, exactly when, in this order and from the empty
-- environment, each parameter's predicate is Boolean where the parameter has its sort, and each
-- argument, each ensured type and the result has an index of the sort of its base type or a Boolean
-- predicate, each in the environment that the parts before it leave. The sort is Boolean for Booleans
-- and that of integers for the other base types. The required types are not checked.
pub check_fn_sig-WellSorted : (sig : FnSig) → (check_fn_sig sig ≡ ok tt) ↔ WellSorted sig
check_fn_sig-WellSorted sig =
    let (to, from) = check_fn_sig-SignatureSorted sig in
    (λ h. WellSorted-of sig (to h), λ h. from (SignatureSorted-of sig h))
