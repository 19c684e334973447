-- ===== src/Core/Wf.antt =====
-- `Wf` of liquid-rust-core/src/wf.rs: every refinement of a signature has the sort that it should
-- have. The environment is a hash map that `check_type` changes, here an association list with the
-- newest entry first. A variable that it lacks is a panic, and so is `todo!`.
pub mod Sorted
pub mod Parts
pub mod Accepts
pub mod Judged
use liquid_rust.Base.{
  ℕ, Bool, true, false, List, [], ◌∷◌, Option, none, some, Outcome, ok, reported, panicked, ◌>>=◌,
  ◌>>◌, unwrap,
}
use mathlib.Core.Logic.{ite}
use liquid_rust.Fixpoint.Constraint.{Sort, Sort-discrete}
use liquid_rust.Common.Iter.{
  Result, err, ErrorReported, error_reported, try_collect_exhaust, ErrorReported-semi_group,
}
use liquid_rust.Core.Ty.{
  Name, BinOp, Var, Var-discrete, Lit, Expr, Pred, Ty, BaseTy, Param, FnSig, base_sort, lit_sort,
}

abbrev pub Env : Type 0
Env = List (Var × Sort)

-- `env[var]`
unfoldable pub lookup : Env → Var → Option Sort
lookup [] x = none
lookup ((y, s) ∷ env) x = ite (Var-discrete y x) (some s) (lookup env x)

-- The end of `check_expr`: the sort found against the one expected.
unfoldable pub expect_sort : Sort → Sort → Outcome (Unit {0})
expect_sort expected found = ite (Sort-discrete found expected) (ok tt) reported

-- The sorts that an operator takes and gives, for all operators but `Eq`.
pub data Signature : Type 0 where
  same : Signature
  takes : Sort → Sort → Signature

unfoldable pub signature : BinOp → Signature
signature BinOp.iff = takes Sort.bool Sort.bool
signature BinOp.imp = takes Sort.bool Sort.bool
signature BinOp.eq = same
signature BinOp.lt = takes Sort.int Sort.bool
signature BinOp.le = takes Sort.int Sort.bool
signature BinOp.gt = takes Sort.int Sort.bool
signature BinOp.ge = takes Sort.int Sort.bool
signature BinOp.add = takes Sort.int Sort.int
signature BinOp.sub = takes Sort.int Sort.int
signature BinOp.or = takes Sort.bool Sort.bool
signature BinOp.and = takes Sort.bool Sort.bool

-- `synth_expr` with `synth_binary_op`; `check_expr` is `synth_expr` with `expect_sort`.
unfoldable pub synth_expr : Env → Expr → Outcome Sort
unfolding lookup signature expect_sort
synth_expr env (Expr.var x) = unwrap (lookup env x)
synth_expr env (Expr.literal lit) = ok (lit_sort lit)
synth_expr env (Expr.binary_op op e1 e2) = elim (signature op) [
  | takes operand result ↦ synth_expr env e1 >>= λ s1.
      expect_sort operand s1 >> (synth_expr env e2 >>= λ s2. expect_sort operand s2 >> ok result)
  | same ↦ synth_expr env e1 >>= λ s. synth_expr env e2 >>= λ s2. expect_sort s s2 >> ok Sort.bool
]

unfoldable pub check_expr : Env → Expr → Sort → Outcome (Unit {0})
unfolding synth_expr expect_sort
check_expr env e expected = synth_expr env e >>= λ s. expect_sort expected s

unfoldable pub check_pred : Env → Pred → Sort → Outcome (Unit {0})
unfolding check_expr
check_pred env Pred.infer sort = panicked
check_pred env (Pred.expr e) sort = check_expr env e sort

-- What a closure of `try_collect_exhaust` gives: the result of a check and the environment it leaves.
abbrev pub Step : Type 0
Step = Option (Result (Unit {0}) ErrorReported × Env)

abbrev pub leave : Env → Outcome (Unit {0}) → Step
leave env (ok a) = some (Result.ok a, env)
leave env reported = some (err error_reported, env)
leave env panicked = none

-- The environment after `check_type`: the bound variable stays in it.
abbrev pub left_by : Ty → Env → Env
left_by (Ty.exists bty pred) env = (Var.bound, base_sort bty) ∷ env
left_by _ env = env

unfoldable pub check_type : Ty → Env → Outcome (Unit {0})
unfolding check_expr check_pred
check_type (Ty.refine bty e) env = check_expr env e (base_sort bty)
check_type (Ty.exists bty pred) env = check_pred ((Var.bound, base_sort bty) ∷ env) pred Sort.bool
check_type (Ty.mut_ref _) env = ok tt
check_type (Ty.param _) env = ok tt

unfoldable pub type_step : Ty → Env → Step
unfolding check_type
type_step ty env = leave (left_by ty env) (check_type ty env)

unfoldable pub ensures_step : Name × Ty → Env → Step
unfolding type_step
ensures_step (_, ty) env = type_step ty env

abbrev pub with_param : Param → Env → Env
with_param p env = (Var.free p.name, p.sort) ∷ env

unfoldable pub param_step : Param → Env → Step
unfolding check_expr
param_step p env = leave (with_param p env) (check_expr (with_param p env) p.pred Sort.bool)

-- A traversal, whose panic ends the check.
abbrev pub after :
    {A : Type 0} → Option (A × Env) → (A → Env → Outcome (Unit {0})) → Outcome (Unit {0})
after none k = panicked
after (some (a, env)) k = k a env

-- The operator `?`
abbrev pub propagate : {A : Type 0} → Result A ErrorReported → Outcome (Unit {0})
propagate (Result.ok _) = ok tt
propagate (err _) = reported

-- All four traversals are run, then their errors are returned.
unfoldable pub check_fn_sig : FnSig → Outcome (Unit {0})
unfolding param_step type_step ensures_step
check_fn_sig sig = after (try_collect_exhaust param_step sig.params []) (λ params env.
    after (try_collect_exhaust type_step sig.args env) (λ args env.
      after (try_collect_exhaust ensures_step sig.ensures env) (λ ensures env.
        after (type_step sig.ret env) (λ ret env.
          propagate args >> (propagate ret >> (propagate params >> propagate ensures))))))
