-- ===== src/Examples/Common.antt =====
-- Runs of the code of liquid-rust-common and liquid-rust-fixpoint.
use liquid_rust.Base.{
  ℕ, zero, ◌+◌, ◌-◌, leb, length, if◌then◌else◌, true, false, [], ◌∷◌, ◌++◌, some, ◌≡◌, refl, arith,
  Text, codes,
}
use mathlib.Core.Option
use liquid_rust.Common.Format as Format
use liquid_rust.Common.Format.{Result, Written, write_str, split_line}
use liquid_rust.Common.Format.Indent.{indent, Wrote, write_str-Wrote}
use liquid_rust.Common.IndexGen.{fresh_call, skip_call, run}
use liquid_rust.Common.IndexGen.Unique.{Ascending, run-Ascending}
use liquid_rust.Common.Iter.{
  ok, err, ErrorReported, error_reported, ErrorReported-semi_group, Closure, try_collect_exhaust,
  try_for_each_exhaust,
}
use liquid_rust.Common.Iter.Exhaust.{
  run_all, gather, try_collect_exhaust-run_all, try_for_each_exhaust-try_collect_exhaust,
}
use liquid_rust.Fixpoint.Constraint as Fixpoint
use liquid_rust.Fixpoint.Constraint.{Sort, BinOp, Constraint, Constraints, Expr, Pred}
use liquid_rust.Fixpoint.Display.{show_expr, show_fixpoint}
use liquid_rust.Fixpoint.Display.Balanced.{IsBalanced}
use liquid_rust.Fixpoint.Display.Grouping.{show_expr-regroup}
use liquid_rust.Fixpoint.Display.Sexp.{show_fixpoint-IsBalanced}

abbrev two_lines : Text
two_lines = codes "ab\ncd"

-- A writer with room for so many characters, which fails where a text does not fit.
abbrev Bounded : Type 0
Bounded = ℕ × Text

abbrev write_bounded : Text → Bounded → Result × Bounded
write_bounded s (room, out) =
    if leb (length s) room
    then (Format.ok, (room - length s, out ++ s))
    else (Format.err, (room, out))

written : Bounded → Text
written w = w.1

write_bounded-writes :
    (s : Text) (w w' : Bounded) → write_bounded s w ≡ (Format.ok, w') → written w' ≡ written w ++ s
unfolding written
write_bounded-writes s w w' h = ground arith

write_str-Wrote_example :
    (r : Written write_bounded) × (write_str write_bounded true two_lines (8, []) ≡ some r)
    × Wrote write_bounded written write_bounded-writes (8, []) (indent true two_lines) r
write_str-Wrote_example =
    write_str-Wrote write_bounded written write_bounded-writes true two_lines (8, [])

-- The second padding fits into the buffer still, the second line does not.
stops :
    write_str write_bounded true two_lines (9, [])
    ≡ some (Format.err, ((0, codes "   ab\n   "), false))
unfolding write_str split_line
stops = refl

indented :
    write_str write_bounded true two_lines (20, [])
    ≡ some (Format.ok, ((9, codes "   ab\n   cd"), false))
unfolding write_str split_line
indented = refl

run-Ascending_example : Ascending 4 11 (run 100 (fresh_call ∷ (skip_call 5 ∷ (fresh_call ∷ []))) 4)
run-Ascending_example =
    run-Ascending 100 (fresh_call ∷ (skip_call 5 ∷ (fresh_call ∷ []))) 4 (omega arith)

-- A closure that counts its calls and fails on zero.
abbrev nonzero : Closure ℕ ℕ ℕ ErrorReported
nonzero zero count = some (err error_reported, count + 1)
nonzero n count = some (ok n, count + 1)

try_collect_exhaust-run_all_example :
    try_collect_exhaust nonzero (3 ∷ (0 ∷ (4 ∷ []))) 0
    ≡ Option.map (λ (rs, s'). (gather nonzero rs, s')) (run_all nonzero (3 ∷ (0 ∷ (4 ∷ []))) 0)
try_collect_exhaust-run_all_example = try_collect_exhaust-run_all nonzero (3 ∷ (0 ∷ (4 ∷ []))) 0

try_for_each_exhaust-try_collect_exhaust_example :
    try_for_each_exhaust nonzero (3 ∷ (0 ∷ [])) 0
    ≡ Option.map
        (λ (r, s'). (elim r [ ok _ ↦ ok tt | err e ↦ err e ], s'))
        (try_collect_exhaust nonzero (3 ∷ (0 ∷ [])) 0)
try_for_each_exhaust-try_collect_exhaust_example =
    try_for_each_exhaust-try_collect_exhaust nonzero (3 ∷ (0 ∷ [])) 0

-- `x1 - (x2 - x3)` and `x1 - x2 - x3`
show_expr-regroup_example :
    show_expr
      (Expr.binary_op BinOp.sub (Expr.var 1) (Expr.binary_op BinOp.sub (Expr.var 2) (Expr.var 3)))
    ≡ show_expr
        (Expr.binary_op BinOp.sub (Expr.binary_op BinOp.sub (Expr.var 1) (Expr.var 2)) (Expr.var 3))
unfolding Fixpoint.is_associative Fixpoint.precedence
show_expr-regroup_example =
    show_expr-regroup BinOp.sub BinOp.sub (Expr.var 1) (Expr.var 2) (Expr.var 3) refl refl

abbrev query : Fixpoint.Fixpoint
query = record {
  kvars = record { kvid = 0; sorts = Sort.int ∷ [] } ∷ [];
  constraint =
      Constraint.for_all 0 Sort.int (Pred.kvar 0 (0 ∷ [])) (Constraint.conj Constraints.nil);
}

show_fixpoint-IsBalanced_example : IsBalanced (show_fixpoint query)
show_fixpoint-IsBalanced_example = show_fixpoint-IsBalanced query
