-- ===== src/Examples/Core.antt =====
-- Runs of the sort checker of liquid-rust-core.
use liquid_rust.Base.{ℕ_discrete, [], ◌∷◌, ◌++◌, arith, ◌≡◌, refl, ◌↔◌, ok}
use liquid_rust.Base.Int.{ℤ}
use liquid_rust.Fixpoint.Constraint.{Sort, Sort-discrete}
use liquid_rust.Core.Ty.{BinOp, Var, Var-discrete, Lit, Expr, Pred, Ty, BaseTy, FnSig}
use liquid_rust.Common.Iter.{try_collect_exhaust}
use liquid_rust.Core.Ir.{Body, locals, args_iter, vars_and_temps_iter}
use liquid_rust.Core.Ir.Locals.{args_iter-vars_and_temps_iter}
use liquid_rust.Core.Wf.{Env, synth_expr, check_fn_sig}
use liquid_rust.Core.Wf.Sorted.{HasSort, synth_expr-HasSort}
use liquid_rust.Core.Wf.Judged.{WellSorted, check_fn_sig-WellSorted}

abbrev one_int : Env
one_int = (Var.free 0, Sort.int) ∷ []

-- `n > 0`
abbrev positive : Expr
positive = Expr.binary_op BinOp.gt (Expr.var (Var.free 0)) (Expr.literal (Lit.int (ℤ.pos 0)))

synth_expr-HasSort_example :
    (synth_expr one_int positive ≡ ok Sort.bool) ↔ HasSort one_int positive Sort.bool
synth_expr-HasSort_example = synth_expr-HasSort one_int positive Sort.bool

-- `fn<n: int{n > 0}>(i32@n) -> i32{v: v > n}`
abbrev signature : FnSig
signature = record {
  params = record { name = 0; sort = Sort.int; pred = positive } ∷ [];
  requires = [];
  args = Ty.refine (BaseTy.int 32) (Expr.var (Var.free 0)) ∷ [];
  ret =
      Ty.exists (BaseTy.int 32)
        (Pred.expr (Expr.binary_op BinOp.gt (Expr.var Var.bound) (Expr.var (Var.free 0))));
  ensures = [];
}

signature_accepted : check_fn_sig signature ≡ ok tt
unfolding check_fn_sig try_collect_exhaust Var-discrete Sort-discrete ℕ_discrete
signature_accepted = refl

check_fn_sig-WellSorted_example : (check_fn_sig signature ≡ ok tt) ↔ WellSorted signature
check_fn_sig-WellSorted_example = check_fn_sig-WellSorted signature

-- A body with two arguments and two more locals.
abbrev two_arguments : Body
two_arguments = record { basic_blocks = []; arg_count = 2; nlocals = 5 }

args_iter-vars_and_temps_iter_example :
    0 ∷ (args_iter two_arguments ++ vars_and_temps_iter two_arguments) ≡ locals 0 5
args_iter-vars_and_temps_iter_example = args_iter-vars_and_temps_iter two_arguments (omega arith)
