-- ===== src/Typeck/Builder/Agree.antt =====
-- The meaning of expressions and predicates depends only on the names that occur in them.
use liquid_rust.Base.{
  ℕ, ◌<◌, ◌≤◌, ◌≡◌, refl, ap, ◌∙◌, List, [], ◌∷◌, map, All, arith, ◌==◌, ==_iff, false,
}
use liquid_rust.Fixpoint.Constraint.{Name}
use liquid_rust.Typeck.Ty.{Var, Expr, Pred}
use liquid_rust.Typeck.Ty.Meaning.{Structure, Env, bind, eval, HoldsPred}
use liquid_rust.Typeck.Builder.Translate.Closed.{ExprClosed}

-- Every name is below `g`; the bound variable is allowed.
abbrev pub ExprBelow : ℕ → Expr → Type 0
ExprBelow g (Expr.var Var.bound) = Unit
ExprBelow g (Expr.var (Var.free x)) = x < g
ExprBelow g (Expr.constant c) = Unit
ExprBelow g (Expr.binary_op op e1 e2) = ExprBelow g e1 × ExprBelow g e2
ExprBelow g (Expr.unary_op op e) = ExprBelow g e

abbrev pub PredBelow : ℕ → Pred → Type 0
PredBelow g (Pred.expr e) = ExprBelow g e
PredBelow g (Pred.kvar k args) = All (ExprBelow g) args

pub ExprClosed-ExprBelow : (g : ℕ) (e : Expr) → ExprClosed g e → ExprBelow g e
ExprClosed-ExprBelow g (Expr.var Var.bound) h = tt
ExprClosed-ExprBelow g (Expr.var (Var.free x)) h = h
ExprClosed-ExprBelow g (Expr.constant c) h = tt
ExprClosed-ExprBelow g (Expr.binary_op op e1 e2) h =
    (ExprClosed-ExprBelow g e1 h.0, ExprClosed-ExprBelow g e2 h.1)
ExprClosed-ExprBelow g (Expr.unary_op op e) h = ExprClosed-ExprBelow g e h

module _ (M : Structure) where
  -- The environments agree on the names below `g`.
  abbrev pub Agree : ℕ → Env M → Env M → Type 0
  Agree g ρ ρ' = (y : Name) → y < g → ρ' y ≡ ρ y

  pub bind_self : (ρ : Env M) (x : Name) (v : M.Value) → bind M ρ x v x ≡ v
  bind_self ρ x v = rw ((==_iff x x).1 refl)

  pub bind-Agree : (g x : ℕ) (ρ : Env M) (v : M.Value) → g ≤ x → Agree g ρ (bind M ρ x v)
  bind-Agree g x ρ v le y lt = let other : (x == y) ≡ false = ground arith in rw other

  pub Agree-trans :
      (g gen : ℕ) (ρ ρ' ρ'' : Env M) → g ≤ gen → Agree g ρ ρ' → Agree gen ρ' ρ'' → Agree g ρ ρ''
  Agree-trans g gen ρ ρ' ρ'' le a b y lt = b y (omega arith) ∙ a y lt

  -- Without the bound variable, its value does not matter.
  pub eval-closed :
      (g : ℕ) (ν μ : M.Value) (ρ : Env M) (e : Expr) → ExprClosed g e → eval M ν ρ e ≡ eval M μ ρ e
  unfolding eval
  eval-closed g ν μ ρ (Expr.var Var.bound) h = elim h [ ]
  eval-closed g ν μ ρ (Expr.var (Var.free x)) h = refl
  eval-closed g ν μ ρ (Expr.constant c) h = refl
  eval-closed g ν μ ρ (Expr.binary_op op e1 e2) h =
      rw (eval-closed g ν μ ρ e1 h.0, eval-closed g ν μ ρ e2 h.1, eval)
  eval-closed g ν μ ρ (Expr.unary_op op e) h = rw (eval-closed g ν μ ρ e h, eval)

  module _ (g : ℕ) (ρ ρ' : Env M) where
    pub eval-Agree :
        (ν : M.Value) (e : Expr) → ExprBelow g e → Agree g ρ ρ' → eval M ν ρ' e ≡ eval M ν ρ e
    unfolding eval
    eval-Agree ν (Expr.var Var.bound) h a = refl
    eval-Agree ν (Expr.var (Var.free x)) h a = a x h
    eval-Agree ν (Expr.constant c) h a = refl
    eval-Agree ν (Expr.binary_op op e1 e2) h a =
        rw (eval-Agree ν e1 h.0 a, eval-Agree ν e2 h.1 a, eval)
    eval-Agree ν (Expr.unary_op op e) h a = rw (eval-Agree ν e h a, eval)

    map-eval-Agree :
        (ν : M.Value) (es : List Expr)
        → All (ExprBelow g) es
        → Agree g ρ ρ'
        → map (eval M ν ρ') es ≡ map (eval M ν ρ) es
    map-eval-Agree ν [] h a = refl
    map-eval-Agree ν (e ∷ es) (h, hs) a = rw (eval-Agree ν e h a, map-eval-Agree ν es hs a)

    pub HoldsPred-Agree :
        (ν : M.Value) (p : Pred)
        → PredBelow g p
        → Agree g ρ ρ'
        → HoldsPred M ν ρ' p ≡ HoldsPred M ν ρ p
    HoldsPred-Agree ν (Pred.kvar k args) h a = ap (M.Kappa k) (map-eval-Agree ν args h a)
    HoldsPred-Agree ν (Pred.expr e) h a = ap M.IsTrue (eval-Agree ν e h a)
