-- ===== src/Fixpoint/Display/Sexp.antt =====
-- Every text that the printer writes is balanced.
use liquid_rust.Base.{
  refl, Bool, true, false, List, [], ◌∷◌, ◌++◌, append_assoc, Text, codes, if◌then◌else◌,
}
use liquid_rust.Fixpoint.Constraint.{
  Name, Kvid, Sort, BinOp, UnOp, Sign, Constant, Expr, Pred, Preds, Constraint, Constraints, Kvar,
  Fixpoint,
}
use liquid_rust.Fixpoint.Display.{
  show_name, show_kvid, show_sort, show_bin_op, show_un_op, show_constant, is_leaf,
  should_parenthesize, show_expr, parens, show_names, show_pred, show_preds, show_constraint,
  show_constraints, show_sorts, show_kvar, show_kvars, show_fixpoint,
}
use liquid_rust.Fixpoint.Display.Balanced.{
  depth, IsBalanced, IsBalanced-nil, IsBalanced-append, IsBalanced-cons, IsBalanced-parens,
  IsBalanced-parens_if, IsBalanced-decimal, IsBalanced-padded,
}

show_constant-IsBalanced : (c : Constant) → IsBalanced (show_constant c)
unfolding show_constant depth
show_constant-IsBalanced (Constant.int Sign.positive k) = IsBalanced-decimal k
show_constant-IsBalanced (Constant.int Sign.negative k) = record {
  skips = λ n rest. (IsBalanced-decimal k).skips n rest;
}
show_constant-IsBalanced (Constant.bool true) = record { skips = λ n rest. refl }
show_constant-IsBalanced (Constant.bool false) = record { skips = λ n rest. refl }

show_bin_op-IsBalanced : (op : BinOp) → IsBalanced (show_bin_op op)
unfolding show_bin_op depth
show_bin_op-IsBalanced BinOp.iff = record { skips = λ n rest. refl }
show_bin_op-IsBalanced _ = record { skips = λ n rest. refl }

show_un_op-IsBalanced : (op : UnOp) → IsBalanced (show_un_op op)
unfolding show_un_op depth
show_un_op-IsBalanced UnOp.not = record { skips = λ n rest. refl }
show_un_op-IsBalanced UnOp.neg = record { skips = λ n rest. refl }

show_sort-IsBalanced : (s : Sort) → IsBalanced (show_sort s)
unfolding show_sort depth
show_sort-IsBalanced Sort.int = record { skips = λ n rest. refl }
show_sort-IsBalanced Sort.bool = record { skips = λ n rest. refl }

show_name-IsBalanced : (x : Name) → IsBalanced (show_name x)
unfolding depth
show_name-IsBalanced x = record { skips = λ n rest. (IsBalanced-decimal x).skips n rest }

show_kvid-IsBalanced : (k : Kvid) → IsBalanced (show_kvid k)
unfolding depth
show_kvid-IsBalanced k = record { skips = λ n rest. (IsBalanced-decimal k).skips n rest }

show_expr-IsBalanced : (e : Expr) → IsBalanced (show_expr e)
unfolding show_expr depth
show_expr-IsBalanced (Expr.var x) = show_name-IsBalanced x
show_expr-IsBalanced (Expr.constant c) = show_constant-IsBalanced c
show_expr-IsBalanced (Expr.binary_op op e1 e2) =
    let left = IsBalanced-parens_if (should_parenthesize op e1) (show_expr-IsBalanced e1) in
    let right = IsBalanced-parens_if (should_parenthesize op e2) (show_expr-IsBalanced e2) in
    record {
      skips =
          λ n rest. simp (append_assoc, left.skips, (show_bin_op-IsBalanced op).skips, right.skips);
    }
show_expr-IsBalanced (Expr.unary_op op e) =
    IsBalanced-append (show_un_op-IsBalanced op)
      (leaf_or_parens (is_leaf e) (show_expr-IsBalanced e))
  where
    leaf_or_parens : (b : Bool) {t : Text} → IsBalanced t → IsBalanced (if b then t else parens t)
    leaf_or_parens true h = h
    leaf_or_parens false h = IsBalanced-parens h

show_names-IsBalanced : (xs : List Name) → IsBalanced (show_names xs)
unfolding show_names depth
show_names-IsBalanced [] = IsBalanced-nil
show_names-IsBalanced (x ∷ []) = show_name-IsBalanced x
show_names-IsBalanced (x ∷ (y ∷ xs)) = record {
  skips = λ n rest.
      simp (append_assoc, (show_name-IsBalanced x).skips, (show_names-IsBalanced (y ∷ xs)).skips);
}

mutual
  unfolding show_pred depth

  show_pred-IsBalanced : (p : Pred) → IsBalanced (show_pred p)
  show_pred-IsBalanced (Pred.and ps) = record {
    skips = λ n rest. simp (append_assoc, (IsBalanced-padded (show_preds-IsBalanced ps)).skips);
  }
  show_pred-IsBalanced (Pred.kvar k xs) = record {
    skips = λ n rest.
        simp (append_assoc, (show_kvid-IsBalanced k).skips, (show_names-IsBalanced xs).skips);
  }
  show_pred-IsBalanced (Pred.expr e) = IsBalanced-parens (show_expr-IsBalanced e)

  show_preds-IsBalanced : (ps : Preds) → IsBalanced (show_preds ps)
  show_preds-IsBalanced Preds.nil = IsBalanced-nil
  show_preds-IsBalanced (Preds.cons p ps) = record {
    skips = λ n rest.
        simp (append_assoc, (show_pred-IsBalanced p).skips, (show_preds-IsBalanced ps).skips);
  }

IsBalanced-line : {t : Text} → IsBalanced t → IsBalanced (codes "\n" ++ t)
IsBalanced-line h = IsBalanced-cons refl refl h

mutual
  unfolding show_constraint depth

  show_constraint-IsBalanced : (c : Constraint) → IsBalanced (show_constraint c)
  show_constraint-IsBalanced (Constraint.pred p) = IsBalanced-parens (show_pred-IsBalanced p)
  show_constraint-IsBalanced (Constraint.conj cs) = record {
    skips =
        λ n rest. simp (append_assoc, (IsBalanced-padded (show_constraints-IsBalanced cs)).skips);
  }
  show_constraint-IsBalanced (Constraint.guard e c) =
      let body = IsBalanced-padded (IsBalanced-line (show_constraint-IsBalanced c)) in
      record { skips = λ n rest. simp (append_assoc, (show_expr-IsBalanced e).skips, body.skips) }
  show_constraint-IsBalanced (Constraint.for_all x s p c) =
      let body = IsBalanced-padded (IsBalanced-line (show_constraint-IsBalanced c)) in
      record {
        skips = λ n rest. simp (
          append_assoc,
          (show_name-IsBalanced x).skips,
          (show_sort-IsBalanced s).skips,
          (show_pred-IsBalanced p).skips,
          body.skips,
        );
      }

  show_constraints-IsBalanced : (cs : Constraints) → IsBalanced (show_constraints cs)
  show_constraints-IsBalanced Constraints.nil = IsBalanced-nil
  show_constraints-IsBalanced (Constraints.cons c cs) = record {
    skips = λ n rest. simp (
      append_assoc,
      (show_constraint-IsBalanced c).skips,
      (show_constraints-IsBalanced cs).skips,
    );
  }

show_sorts-IsBalanced : (ss : List Sort) → IsBalanced (show_sorts ss)
unfolding show_sorts depth
show_sorts-IsBalanced [] = IsBalanced-nil
show_sorts-IsBalanced (s ∷ []) = IsBalanced-parens (show_sort-IsBalanced s)
show_sorts-IsBalanced (s ∷ (t ∷ ss)) = record {
  skips = λ n rest.
      simp (append_assoc, (show_sort-IsBalanced s).skips, (show_sorts-IsBalanced (t ∷ ss)).skips);
}

show_kvars-IsBalanced : (ks : List Kvar) → IsBalanced (show_kvars ks)
unfolding show_kvars show_kvar depth
show_kvars-IsBalanced [] = IsBalanced-nil
show_kvars-IsBalanced (k ∷ ks) = record {
  skips = λ n rest. simp (
    append_assoc,
    (show_kvid-IsBalanced k.kvid).skips,
    (show_sorts-IsBalanced k.sorts).skips,
    (show_kvars-IsBalanced ks).skips,
  );
}

-- The query that is sent to the solver is balanced: reading it from any nesting depth, also in front
-- of any further text, every parenthesis closes one that the query opened, and all are closed.
pub show_fixpoint-IsBalanced : (q : Fixpoint) → IsBalanced (show_fixpoint q)
unfolding show_fixpoint depth
show_fixpoint-IsBalanced q =
    let body = IsBalanced-padded (IsBalanced-line (show_constraint-IsBalanced q.constraint)) in
    record {
      skips = λ n rest. simp (append_assoc, (show_kvars-IsBalanced q.kvars).skips, body.skips);
    }
