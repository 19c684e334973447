-- ===== src/Examples/Checker.antt =====
-- Runs of the code of liquid-rust-typeck that checks bodies.
use liquid_rust.Base.{
  ℕ, [], ◌∷◌, some, none, ◌≡◌, refl, subst, Outcome, ok, ℕ_discrete, find, insert,
}
use mathlib.Core.Logic.{ite}
use mathlib.Core.Bool.{decide}
use liquid_rust.Base.Int.{ℤ}
use liquid_rust.Fixpoint.Constraint.{Sort, Sign, Constant, Constant-discrete, BinOp-discrete}
use liquid_rust.Core.Ir as Ir
use liquid_rust.Core.Ty as Core
use liquid_rust.Typeck.Ty.{Loc, Ty, Loc-discrete, Expr-discrete, subst_pred, subst_expr}
use liquid_rust.Typeck.Ty.Meaning.{eval}
use liquid_rust.Typeck.Builder as Builder
use liquid_rust.Typeck.Builder.{
  Cursor, as_cursor, new_builder, push_forall, push_node, push_at, push_in, push_head, push_var,
  push_scope, fresh_name,
}
use liquid_rust.Typeck.Builder.Along.{Along}
use liquid_rust.Typeck.Builder.Keeps.{Keeps}
use liquid_rust.Typeck.Builder.Subtyping.{
  is_trivial, trivial_subtyping, bty_subtyping, unpacked_subtyping, subtyping,
}
use liquid_rust.Typeck.Builder.Soundness.Relation.{TyClosed, Subtype}
use liquid_rust.Typeck.Builder.Translate.Closed.{HoldsNode}
use liquid_rust.Typeck.Lowering.{
  Subst, get, lower_expr, lower_var, lower_lit, lower_bin_op, lower_ty, lower_base_ty,
  with_type_substs, infer_from_fn_call,
}
use liquid_rust.Typeck.TypeEnv as TypeEnv
use liquid_rust.Typeck.TypeEnv.{
  TypeEnv, Binding, find_loc, lookup_loc, weakening, walk_place, walk_projection, write_place,
  write_loc, update_loc, update_binding, unpack_locs, unpack_loc, binding_ty,
}
use liquid_rust.Typeck.Checker.{
  check_constant, constant_of_i128, check_operand, arith_operands, check_divisor, check_arith_op,
  check_binary_ty, check_binary_op, check_rvalue, check_statement, check_statements,
}
use liquid_rust.Typeck.Checker.Calls.{
  check_operands, push_params, check_args, check_requires, apply_ensures, call_effects,
}
use liquid_rust.Typeck.Checker.Flow.{
  Context, Goal, State, Mode, check_goto, check_basic_block, check_terminator, check_return,
  check_ensures, is_join_point,
}
use liquid_rust.Typeck.Checker.Run.{run, run_blocks}
use liquid_rust.Typeck.Checker.RunKeeps.{run-Keeps}
use liquid_rust.Typeck.Checker.Division.{DivisionChecked, check_statement-division}
use liquid_rust.Typeck.Checker.Obligations.{
  ParamsChecked, call_effects-ParamsChecked, EnvClosed, EnsuresHold, check_return-Subtype,
}
use liquid_rust.Examples.Typeck.{
  constants, zero_value, three, exactly_three, no_variances, inferred,
}

abbrev start : Cursor
start = as_cursor new_builder

-- `_0`, and `6 / 2`
abbrev result_place : Ir.Place
result_place = record { local = 0; projection = [] }

abbrev literal : ℕ → Ir.Operand
literal n = Ir.Operand.constant (Ir.Constant.int (ℤ.pos n) 32)

abbrev division : Ir.Statement
division =
    Ir.Statement.assign result_place (Ir.Rvalue.binary_op Ir.BinOp.div (literal 6) (literal 2))

abbrev uninit_result : TypeEnv
uninit_result = (Loc.local 0, Binding.strong Ty.uninit) ∷ []

abbrev pair_or : Outcome (TypeEnv × Cursor) → TypeEnv × Cursor
pair_or (ok x) = x
pair_or _ = ([], start)

abbrev after_division : TypeEnv × Cursor
after_division = pair_or (check_statement no_variances uninit_result start division)

division_runs : check_statement no_variances uninit_result start division ≡ ok after_division
unfolding check_statement check_rvalue check_binary_op check_binary_ty check_arith_op check_divisor
    arith_operands check_operand check_constant ℕ_discrete Loc-discrete push_head push_node push_at
    write_place walk_place walk_projection write_loc update_loc update_binding find insert
division_runs = refl

check_statement-division_example :
    DivisionChecked uninit_result (literal 6) (literal 2) start after_division.1
check_statement-division_example =
    check_statement-division no_variances uninit_result start result_place (literal 6) (literal 2)
      after_division.0 after_division.1 division_runs

-- a parameter whose predicate is n = 3
abbrev equals_three : Core.Param
equals_three = record {
  name = 0;
  sort = Sort.int;
  pred =
      Core.Expr.binary_op Core.BinOp.eq (Core.Expr.var (Core.Var.free 0))
        (Core.Expr.literal (Core.Lit.int (ℤ.pos 3)));
}

-- `fn<n: int{n = 3}>(i32@n) -> i32@n`
abbrev callee : Core.FnSig
callee = record {
  params = equals_three ∷ [];
  requires = [];
  args = Core.Ty.refine (Core.BaseTy.int 32) (Core.Expr.var (Core.Var.free 0)) ∷ [];
  ret = Core.Ty.refine (Core.BaseTy.int 32) (Core.Expr.var (Core.Var.free 0));
  ensures = [];
}

abbrev call_or : Outcome (TypeEnv × (Subst × Cursor)) → TypeEnv × (Subst × Cursor)
call_or (ok x) = x
call_or _ = ([], (inferred, start))

-- a call of it with the argument 3
abbrev after_call : TypeEnv × (Subst × Cursor)
after_call = call_or (call_effects no_variances uninit_result start callee [] (literal 3 ∷ []))

call_runs :
    call_effects no_variances uninit_result start callee [] (literal 3 ∷ [])
    ≡ ok (after_call.0, (after_call.1.0, after_call.1.1))
unfolding call_effects check_operands check_operand check_constant with_type_substs
    infer_from_fn_call push_params check_args check_requires apply_ensures lower_ty lower_base_ty
    lower_expr lower_var lower_lit lower_bin_op get ℕ_discrete push_head push_node push_at subtyping
    bty_subtyping unpacked_subtyping is_trivial Expr-discrete Constant-discrete BinOp-discrete
    decide constant_of_i128 trivial_subtyping
call_runs = refl

call_effects-ParamsChecked_example :
    ParamsChecked uninit_result start callee [] (literal 3 ∷ []) after_call.1.1
call_effects-ParamsChecked_example =
    call_effects-ParamsChecked no_variances uninit_result start callee [] (literal 3 ∷ [])
      after_call.0 after_call.1.0 after_call.1.1 call_runs

-- a function whose result is 3, of type `i32{v: v = 3}`; its body is one block that returns
abbrev goal : Goal
goal = record { ret_ty = three; ensures = []; dominates_join_point = 0 ∷ [] }

abbrev block : Ir.BasicBlockData
block = record {
  statements = Ir.Statement.assign result_place (Ir.Rvalue.use_op (literal 3)) ∷ [];
  terminator = some Ir.Terminator.return;
}

abbrev context : Context
context = record {
  variances_of = no_variances;
  as_local = λ did. some did;
  specs = [];
  body = record { basic_blocks = block ∷ []; arg_count = 0; nlocals = 1 };
  predecessors = λ bb. [];
  immediate_dominator = λ bb. bb;
  reverse_postorder = 0 ∷ [];
  join_fuel = 0;
}

abbrev initial : State
initial = record { visited = []; bb_envs = []; mode = Mode.inference }

abbrev done_or : Outcome (State × Cursor) → State × Cursor
done_or (ok x) = x
done_or _ = (initial, start)

abbrev three_env : TypeEnv
three_env = (Loc.local 0, Binding.strong exactly_three) ∷ []

abbrev after_return : State × Cursor
after_return = done_or (check_return context goal initial three_env start)

return_runs : check_return context goal initial three_env start ≡ ok after_return
unfolding check_return check_ensures find Loc-discrete ℕ_discrete subtyping is_trivial
    Builder.unpack unpacked_subtyping bty_subtyping push_head push_node push_at subst_pred
    subst_expr
return_runs = refl

after_return-HoldsNode : HoldsNode constants zero_value (λ x. zero_value) after_return.1.root
unfolding check_return check_ensures find Loc-discrete ℕ_discrete subtyping is_trivial
    Builder.unpack unpacked_subtyping bty_subtyping push_head push_node push_at subst_pred
    subst_expr eval
after_return-HoldsNode =
    ((constants.eq_iff (Constant.int Sign.positive 3) (Constant.int Sign.positive 3)).1 refl, tt)

three_env-EnvClosed : EnvClosed 0 three_env
unfolding find
three_env-EnvClosed loc ty h =
    elim (Loc-discrete (Loc.local 0) loc)
        as (λ d.
          TypeEnv.some_ty (ite d (some (Binding.strong exactly_three)) none) ≡ some ty
          → TyClosed 0 ty) [
            | yes _ ↦ λ e. let r : exactly_three ≡ ty = cc in subst (TyClosed 0) r (tt, tt)
            | no _ ↦ λ e. cc
          ]
      h

check_return-Subtype_example :
    Along constants zero_value start.root []
      (λ x. zero_value)
      (λ ρ.
        ((ty : Ty) × (lookup_loc three_env (Loc.local 0) ≡ some ty)
          × Subtype no_variances constants zero_value ρ ty three)
        × EnsuresHold no_variances constants zero_value three_env [] ρ)
check_return-Subtype_example =
    check_return-Subtype context goal initial three_env start after_return.0 after_return.1
      three_env-EnvClosed (tt, (tt, tt)) tt return_runs constants zero_value (λ x. zero_value)
      after_return-HoldsNode

abbrev after_run : State × Cursor
after_run = done_or (run context goal 1 initial uninit_result start)

body_runs : run context goal 1 initial uninit_result start ≡ ok after_run
unfolding run run_blocks check_goto is_join_point check_basic_block check_statements check_statement
    check_rvalue check_operand check_constant constant_of_i128 write_place walk_place
    walk_projection write_loc update_loc update_binding insert check_terminator check_return
    check_ensures find Loc-discrete ℕ_discrete subtyping is_trivial Builder.unpack
    unpacked_subtyping bty_subtyping push_head push_node push_at push_scope subst_pred subst_expr
body_runs = refl

run-Keeps_example : Keeps start after_run.1
run-Keeps_example =
    run-Keeps context goal 1 initial uninit_result start after_run.0 after_run.1 body_runs
