-- ===== src/Fixpoint/Display.antt =====
-- The `Display` implementations of liquid-rust-fixpoint/src/constraint.rs and src/lib.rs: the text
-- that the solver reads.
pub mod Grouping
pub mod Balanced
pub mod Sexp
use liquid_rust.Base.{
  Bool, true, false, ◌&&◌, ◌||◌, List, [], ◌∷◌, ◌++◌, Option, some, none, Text, codes, decimal, ltb,
  ◌==◌, if◌then◌else◌,
}
use mathlib.Core.Bool.{not}
use liquid_rust.Common.Format.{write_str, push_str}
use liquid_rust.Fixpoint.Constraint.{
  Name, Kvid, Sort, BinOp, UnOp, Sign, Constant, Expr, Pred, Preds, Constraint, Constraints, Kvar,
  Fixpoint, precedence, rank, is_associative,
}

-- `{:?}` of a `Name` and of a `KVid`: their DEBUG_FORMAT
abbrev pub show_name : Name → Text
show_name x = codes "a" ++ decimal x

abbrev pub show_kvid : Kvid → Text
show_kvid k = codes "$k" ++ decimal k

unfoldable pub show_sort : Sort → Text
show_sort Sort.int = codes "int"
show_sort Sort.bool = codes "bool"

unfoldable pub show_bin_op : BinOp → Text
show_bin_op BinOp.iff = codes "<=>"
show_bin_op BinOp.imp = codes "=>"
show_bin_op BinOp.or = codes "||"
show_bin_op BinOp.and = codes "&&"
show_bin_op BinOp.eq = codes "="
show_bin_op BinOp.ne = codes "/="
show_bin_op BinOp.gt = codes ">"
show_bin_op BinOp.ge = codes ">="
show_bin_op BinOp.lt = codes "<"
show_bin_op BinOp.le = codes "<="
show_bin_op BinOp.add = codes "+"
show_bin_op BinOp.sub = codes "-"
show_bin_op BinOp.mul = codes "*"
show_bin_op BinOp.div = codes "/"

unfoldable pub show_un_op : UnOp → Text
show_un_op UnOp.not = codes "~"
show_un_op UnOp.neg = codes "-"

unfoldable pub show_constant : Constant → Text
show_constant (Constant.int Sign.positive n) = decimal n
show_constant (Constant.int Sign.negative n) = codes "-" ++ decimal n
show_constant (Constant.bool true) = codes "true"
show_constant (Constant.bool false) = codes "false"

unfoldable pub should_parenthesize : BinOp → Expr → Bool
should_parenthesize op (Expr.binary_op child_op _ _) =
    ltb (rank (precedence child_op)) (rank (precedence op))
    || (rank (precedence child_op) == rank (precedence op) && not (is_associative (precedence op)))
should_parenthesize op _ = false

abbrev pub parens : Text → Text
parens t = codes "(" ++ (t ++ codes ")")

abbrev pub parens_if : Bool → Text → Text
parens_if b t = if b then parens t else t

-- `matches!(e, Expr::Constant(_) | Expr::Var(_))`
unfoldable pub is_leaf : Expr → Bool
is_leaf (Expr.constant _) = true
is_leaf (Expr.var _) = true
is_leaf _ = false

unfoldable pub show_expr : Expr → Text
show_expr (Expr.var x) = show_name x
show_expr (Expr.constant c) = show_constant c
show_expr (Expr.binary_op op e1 e2) =
    parens_if (should_parenthesize op e1) (show_expr e1)
    ++ (codes " "
        ++ (show_bin_op op ++ (codes " " ++ parens_if (should_parenthesize op e2) (show_expr e2))))
show_expr (Expr.unary_op op e) =
    let shown = show_expr e in show_un_op op ++ (if is_leaf e then shown else parens shown)

-- `vars.iter().format(" ")` of debug-printed names
unfoldable pub show_names : List Name → Text
show_names [] = []
show_names (x ∷ []) = show_name x
show_names (x ∷ (y ∷ xs)) = show_name x ++ (codes " " ++ show_names (y ∷ xs))

-- What a fresh `PadAdapter::wrap_fmt` passes on of the text written to it, where the text that is
-- printed goes to a `String`. By `write_str-append` it does not matter in which parts it arrives.
unfoldable pub padded : Text → Text
padded t = elim (write_str push_str false t []) [ some (_, (out, _)) ↦ out | none ↦ [] ]

unfoldable mutual
  pub show_pred : Pred → Text
  show_pred (Pred.and ps) = codes "(and" ++ (padded (show_preds ps) ++ codes "\n)")
  show_pred (Pred.kvar k xs) =
      codes "(" ++ (show_kvid k ++ (codes " " ++ (show_names xs ++ codes ")")))
  show_pred (Pred.expr e) = parens (show_expr e)

  -- the loop over the parts of a conjunction, each on a line of its own
  pub show_preds : Preds → Text
  show_preds Preds.nil = []
  show_preds (Preds.cons p ps) = codes "\n" ++ (show_pred p ++ show_preds ps)

unfoldable mutual
  pub show_constraint : Constraint → Text
  show_constraint (Constraint.pred p) = parens (show_pred p)
  show_constraint (Constraint.conj cs) =
      codes "(and" ++ (padded (show_constraints cs) ++ codes "\n)")
  show_constraint (Constraint.guard e c) =
      codes "(forall ((_ int) ("
      ++ (show_expr e ++ (codes "))" ++ (padded (codes "\n" ++ show_constraint c) ++ codes "\n)")))
  show_constraint (Constraint.for_all x s p c) =
      codes "(forall (("
      ++ (show_name x
          ++ (codes " "
              ++ (show_sort s
                  ++ (codes ") "
                      ++ (show_pred p
                          ++ (codes ")"
                              ++ (padded (codes "\n" ++ show_constraint c) ++ codes "\n)")))))))

  pub show_constraints : Constraints → Text
  show_constraints Constraints.nil = []
  show_constraints (Constraints.cons c cs) =
      codes "\n" ++ (show_constraint c ++ show_constraints cs)

-- `self.1.iter().format_with(" ", …)`
unfoldable pub show_sorts : List Sort → Text
show_sorts [] = []
show_sorts (s ∷ []) = parens (show_sort s)
show_sorts (s ∷ (t ∷ ss)) = parens (show_sort s) ++ (codes " " ++ show_sorts (t ∷ ss))

unfoldable pub show_kvar : Kvar → Text
show_kvar k =
    codes "(var " ++ (show_kvid k.kvid ++ (codes " (" ++ (show_sorts k.sorts ++ codes "))")))

unfoldable pub show_kvars : List Kvar → Text
show_kvars [] = []
show_kvars (k ∷ ks) = show_kvar k ++ (codes "\n" ++ show_kvars ks)

-- the qualifiers that every query begins with
abbrev pub qualifiers : Text
qualifiers =
    codes "(qualif EqZero ((v int)) (v == 0))\n"
    ++ (codes "(qualif GtZero ((v int)) (v > 0))\n"
        ++ (codes "(qualif GeZero ((v int)) (v >= 0))\n"
            ++ (codes "(qualif LtZero ((v int)) (v < 0))\n"
                ++ (codes "(qualif LeZero ((v int)) (v <= 0))\n"
                    ++ (codes "(qualif Eq ((a int) (b int)) (a == b))\n"
                        ++ (codes "(qualif Gt ((a int) (b int)) (a > b))\n"
                            ++ (codes "(qualif Lt ((a int) (b int)) (a < b))\n"
                                ++ (codes "(qualif Ge ((a int) (b int)) (a >= b))\n"
                                    ++ (codes "(qualif Le ((a int) (b int)) (a <= b))\n"
                                        ++ codes
                                            "(qualif Le ((a int) (b int)) (a < b - 1))\n")))))))))

unfoldable pub show_fixpoint : Fixpoint → Text
show_fixpoint q =
    qualifiers
    ++ (show_kvars q.kvars
        ++ (codes "\n"
            ++ (codes "(constraint"
                ++ (padded (codes "\n" ++ show_constraint q.constraint) ++ codes "\n)\n"))))
