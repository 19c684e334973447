-- ===== src/Core/Wf/Accepts.antt =====
-- `check_fn_sig` of liquid-rust-core/src/wf.rs against the sorts of the parts of a signature.
use liquid_rust.Base.{[], some, ◌≡◌, ap, ◌∙◌, ◌↔◌, Outcome, ok, ◌>>◌, >>=-eq-ok}
use liquid_rust.Fixpoint.Constraint.{Sort}
use liquid_rust.Common.Iter.{Result, ErrorReported, ErrorReported-semi_group, try_collect_exhaust}
use liquid_rust.Core.Ty.{Name, Ty, Param, FnSig}
use liquid_rust.Core.Wf.{
  Env, check_expr, check_type, left_by, type_step, ensures_step, with_param, param_step, propagate,
  check_fn_sig,
}
use liquid_rust.Core.Wf.Sorted.{HasSort}
use liquid_rust.Core.Wf.Parts.{
  TypeSorted, SignatureSorted, sorted, check_expr-HasSort, check_type-TypeSorted, closure,
  traversal_inv, traversal_of, propagate_inv, after_inv, leave_inv,
}

abbrev ParamSorted : Env → Param → Type 0
ParamSorted env p = HasSort (with_param p env) p.pred Sort.bool

abbrev check_param : Param → Env → Outcome (Unit {0})
check_param p env = check_expr (with_param p env) p.pred Sort.bool

param-ParamSorted : (env : Env) (p : Param) → (check_param p env ≡ ok tt) ↔ ParamSorted env p
param-ParamSorted env p = check_expr-HasSort (with_param p env) p.pred Sort.bool

-- The four results are all values when the last part of the check succeeds.
module _ {A : Type 0} where
  propagated :
      (args params ensures : Result A ErrorReported) (ret : Result (Unit {0}) ErrorReported)
      → propagate args >> (propagate ret >> (propagate params >> propagate ensures)) ≡ ok tt
      → (propagate args ≡ ok tt)
        × (propagate ret ≡ ok tt)
        × (propagate params ≡ ok tt)
        × (propagate ensures ≡ ok tt)
  propagated args params ensures ret h =
      let (_, h1, h) =
        >>=-eq-ok (propagate args) (λ _. propagate ret >> (propagate params >> propagate ensures))
          h in
      let (_, h2, h) = >>=-eq-ok (propagate ret) (λ _. propagate params >> propagate ensures) h in
      let (_, h3, h4) = >>=-eq-ok (propagate params) (λ _. propagate ensures) h in (h1, h2, h3, h4)

accepts_of : (sig : FnSig) → SignatureSorted sig → check_fn_sig sig ≡ ok tt
unfolding check_fn_sig param_step type_step ensures_step closure
accepts_of sig (sorted {env₁} {env₂} {env₃} ps as' es r) =
    let (_, h1) = traversal_of ParamSorted with_param check_param param-ParamSorted ps in
    let (_, h2) =
      traversal_of TypeSorted left_by check_type (λ env ty. check_type-TypeSorted env ty) as' in
    let (_, h3) =
      traversal_of (λ env (b : Name × Ty). TypeSorted env b.1) (λ b. left_by b.1)
        (λ b. check_type b.1) (λ env b. check_type-TypeSorted env b.1) es in
    rw (h1, h2, h3, (check_type-TypeSorted env₃ sig.ret).1 r)

SignatureSorted-of : (sig : FnSig) → check_fn_sig sig ≡ ok tt → SignatureSorted sig
unfolding check_fn_sig param_step type_step ensures_step closure
SignatureSorted-of sig h =
    let (params, env₁, h1, h) = after_inv (try_collect_exhaust param_step sig.params []) _ h in
    let (args, env₂, h2, h) = after_inv (try_collect_exhaust type_step sig.args env₁) _ h in
    let (ensures, env₃, h3, h) =
      after_inv (try_collect_exhaust ensures_step sig.ensures env₂) _ h in
    let (ret, env₄, h4, h) = after_inv (type_step sig.ret env₃) _ h in
    let (a, r, p, e) = propagated args params ensures ret h in
    let (_, a') = propagate_inv args a in
    let (t, r') = propagate_inv ret r in
    let (_, p') = propagate_inv params p in
    let (_, e') = propagate_inv ensures e in
    sorted
      (traversal_inv ParamSorted with_param check_param param-ParamSorted sig.params []
        (h1 ∙ ap (λ r. some (r, env₁)) p'))
      (traversal_inv TypeSorted left_by check_type (λ env ty. check_type-TypeSorted env ty) sig.args
        env₁ (h2 ∙ ap (λ r. some (r, env₂)) a'))
      (traversal_inv (λ env (b : Name × Ty). TypeSorted env b.1) (λ b. left_by b.1)
        (λ b. check_type b.1) (λ env b. check_type-TypeSorted env b.1) sig.ensures env₂
        (h3 ∙ ap (λ r. some (r, env₃)) e'))
      ((check_type-TypeSorted env₃ sig.ret).0 (
        leave_inv (left_by sig.ret env₃) env₄ (check_type sig.ret env₃) t
          (h4 ∙ ap (λ r. some (r, env₄)) r')))

-- A signature passes the check, without error or panic, exactly when its parameters' predicates are
-- Boolean, its arguments' and ensured types' refinements and its result's have the sort that they
-- should have, each in the environment that the parts before it leave. The required types take no
-- part.
pub check_fn_sig-SignatureSorted : (sig : FnSig) → (check_fn_sig sig ≡ ok tt) ↔ SignatureSorted sig
check_fn_sig-SignatureSorted sig = (SignatureSorted-of sig, accepts_of sig)
