-- ===== src/Typeck/Ty/Meaning.antt =====
-- What expressions, predicates and constraints mean, in any structure that interprets the solver's
-- constants and operators: the specification that the generated constraints are held against.
use liquid_rust.Base.{◌≡◌, refl, ◌↔◌, true, List, [], ◌∷◌, map, ◌==◌, if◌then◌else◌, ap}
use liquid_rust.Fixpoint.Constraint as Fixpoint
use liquid_rust.Fixpoint.Constraint.{Name, Kvid, Sort, BinOp, UnOp, Constant}
use liquid_rust.Typeck.Ty.{Var, Expr, Pred, subst_expr, subst_pred, is_true_pred}

-- An interpretation. Operators applied to values of the wrong sort may give anything, and so may a
-- division by zero. Of equality and `true` the usual meaning is asked.
pub record Structure : Type 1 where
  pub Value : Type 0
  pub constant : Constant → Value
  pub binary : BinOp → Value → Value → Value
  pub unary : UnOp → Value → Value
  -- the value is the Boolean `true`
  pub IsTrue : Value → Type 0
  pub HasSort : Sort → Value → Type 0
  -- a solution for the unknown predicates
  pub Kappa : Kvid → List Value → Type 0
  pub eq_iff : (a b : Value) → IsTrue (binary BinOp.eq a b) ↔ (a ≡ b)
  pub true_holds : IsTrue (constant (Constant.bool true))

module _ (M : Structure) where
  open M use {Value, constant, binary, unary, IsTrue, HasSort, Kappa}

  abbrev pub Env : Type 0
  Env = Name → Value

  -- the environment `ρ` with `x` bound to `v`
  abbrev pub bind : Env → Name → Value → Env
  bind ρ x v y = if x == y then v else ρ y

  -- The value of an expression, where the bound variable stands for `ν`.
  unfoldable pub eval : Value → Env → Expr → Value
  eval ν ρ (Expr.var Var.bound) = ν
  eval ν ρ (Expr.var (Var.free x)) = ρ x
  eval ν ρ (Expr.constant c) = constant c
  eval ν ρ (Expr.binary_op op e1 e2) = binary op (eval ν ρ e1) (eval ν ρ e2)
  eval ν ρ (Expr.unary_op op e) = unary op (eval ν ρ e)

  abbrev pub HoldsPred : Value → Env → Pred → Type 0
  HoldsPred ν ρ (Pred.kvar k args) = Kappa k (map (eval ν ρ) args)
  HoldsPred ν ρ (Pred.expr e) = IsTrue (eval ν ρ e)

  -- The value of an expression of the solver's language.
  unfoldable pub eval_fixpoint : Env → Fixpoint.Expr → Value
  eval_fixpoint ρ (Fixpoint.Expr.var x) = ρ x
  eval_fixpoint ρ (Fixpoint.Expr.constant c) = constant c
  eval_fixpoint ρ (Fixpoint.Expr.binary_op op e1 e2) =
      binary op (eval_fixpoint ρ e1) (eval_fixpoint ρ e2)
  eval_fixpoint ρ (Fixpoint.Expr.unary_op op e) = unary op (eval_fixpoint ρ e)

  abbrev mutual
    pub HoldsFixpointPred : Env → Fixpoint.Pred → Type 0
    HoldsFixpointPred ρ (Fixpoint.Pred.and ps) = HoldsFixpointPreds ρ ps
    HoldsFixpointPred ρ (Fixpoint.Pred.kvar k xs) = Kappa k (map ρ xs)
    HoldsFixpointPred ρ (Fixpoint.Pred.expr e) = IsTrue (eval_fixpoint ρ e)

    pub HoldsFixpointPreds : Env → Fixpoint.Preds → Type 0
    HoldsFixpointPreds ρ Fixpoint.Preds.nil = Unit
    HoldsFixpointPreds ρ (Fixpoint.Preds.cons p ps) =
        HoldsFixpointPred ρ p × HoldsFixpointPreds ρ ps

  -- A constraint holds: a guard and the predicate of a `forall` are premises.
  abbrev mutual
    pub Holds : Env → Fixpoint.Constraint → Type 0
    Holds ρ (Fixpoint.Constraint.pred p) = HoldsFixpointPred ρ p
    Holds ρ (Fixpoint.Constraint.conj cs) = HoldsAll ρ cs
    Holds ρ (Fixpoint.Constraint.guard e c) = IsTrue (eval_fixpoint ρ e) → Holds ρ c
    Holds ρ (Fixpoint.Constraint.for_all x s p c) =
        (v : Value) → HasSort s v → HoldsFixpointPred (bind ρ x v) p → Holds (bind ρ x v) c

    pub HoldsAll : Env → Fixpoint.Constraints → Type 0
    HoldsAll ρ Fixpoint.Constraints.nil = Unit
    HoldsAll ρ (Fixpoint.Constraints.cons c cs) = Holds ρ c × HoldsAll ρ cs

  -- Substitution for the bound variable is evaluation with its value.
  pub eval-subst_expr :
      (ν : Value) (ρ : Env) (e to : Expr) → eval ν ρ (subst_expr e to) ≡ eval (eval ν ρ to) ρ e
  unfolding eval subst_expr
  eval-subst_expr ν ρ (Expr.var Var.bound) to = refl
  eval-subst_expr ν ρ (Expr.var (Var.free x)) to = refl
  eval-subst_expr ν ρ (Expr.constant c) to = refl
  eval-subst_expr ν ρ (Expr.binary_op op e1 e2) to =
      rw (eval-subst_expr ν ρ e1 to, eval-subst_expr ν ρ e2 to)
  eval-subst_expr ν ρ (Expr.unary_op op e) to = rw (eval-subst_expr ν ρ e to)

  map-eval-subst_expr :
      (ν : Value) (ρ : Env) (args : List Expr) (to : Expr)
      → map (eval ν ρ) (map (λ arg. subst_expr arg to) args) ≡ map (eval (eval ν ρ to) ρ) args
  map-eval-subst_expr ν ρ [] to = refl
  map-eval-subst_expr ν ρ (e ∷ args) to =
      rw (eval-subst_expr ν ρ e to, map-eval-subst_expr ν ρ args to)

  -- A predicate with an expression put for its bound variable holds exactly when the predicate
  -- holds of the expression's value, unknown predicates included.
  pub HoldsPred-subst_pred :
      (ν : Value) (ρ : Env) (p : Pred) (to : Expr)
      → HoldsPred ν ρ (subst_pred p to) ≡ HoldsPred (eval ν ρ to) ρ p
  unfolding subst_pred
  HoldsPred-subst_pred ν ρ (Pred.kvar k args) to = ap (Kappa k) (map-eval-subst_expr ν ρ args to)
  HoldsPred-subst_pred ν ρ (Pred.expr e) to = ap IsTrue (eval-subst_expr ν ρ e to)

  -- A predicate that is literally `true` holds.
  pub HoldsPred-of_is_true :
      (ν : Value) (ρ : Env) (p : Pred) → is_true_pred p ≡ true → HoldsPred ν ρ p
  unfolding eval
  HoldsPred-of_is_true ν ρ (Pred.kvar k args) h = cc
  HoldsPred-of_is_true ν ρ (Pred.expr (Expr.constant (Constant.bool true))) h = M.true_holds
  HoldsPred-of_is_true ν ρ (Pred.expr _) h = cc
