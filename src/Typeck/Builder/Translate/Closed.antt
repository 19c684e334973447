-- ===== src/Typeck/Builder/Translate/Closed.antt =====
-- What a constraint tree has to satisfy to be translated, and what the tree means.
use liquid_rust.Base.{ℕ, ◌<◌, ◌≡◌, List, [], ◌∷◌, length, All, some, get_elem?}
use liquid_rust.Fixpoint.Constraint.{Kvid, Sort}
use liquid_rust.Typeck.Ty.{Var, Expr, Pred}
use liquid_rust.Typeck.Ty.Meaning.{Structure, Env, bind, eval, HoldsPred}
use liquid_rust.Typeck.Builder.{Node, Nodes}
use liquid_rust.Typeck.Builder.Translate.{Kvars}

-- No bound variable, and every name below `g`.
abbrev pub ExprClosed : ℕ → Expr → Type 0
ExprClosed g (Expr.var Var.bound) = ⊥
ExprClosed g (Expr.var (Var.free x)) = x < g
ExprClosed g (Expr.constant c) = Unit
ExprClosed g (Expr.binary_op op e1 e2) = ExprClosed g e1 × ExprClosed g e2
ExprClosed g (Expr.unary_op op e) = ExprClosed g e

-- The unknown predicate is declared, with as many sorts as it has arguments.
abbrev pub Declared : Kvars → Kvid → List Expr → Type 0
Declared kvars k args =
    (sorts : List Sort) × (get_elem? kvars k ≡ some sorts) × (length args ≡ length sorts)

abbrev pub PredClosed : Kvars → ℕ → Pred → Type 0
PredClosed kvars g (Pred.expr e) = ExprClosed g e
PredClosed kvars g (Pred.kvar k args) = Declared kvars k args × All (ExprClosed g) args

abbrev pub IsFree : Expr → Type 0
IsFree (Expr.var (Var.free _)) = Unit
IsFree _ = ⊥

-- The arguments of an unknown predicate are variables.
abbrev pub VarArgs : Pred → Type 0
VarArgs (Pred.expr e) = Unit
VarArgs (Pred.kvar k args) = All IsFree args

-- As the cursor builds trees: closed below the name generator, and in a `ForAll` the unknown
-- predicate is applied to variables.
abbrev mutual
  pub NodeClosed : Kvars → ℕ → Node → Type 0
  NodeClosed kvars g (Node.conj ns) = NodesClosed kvars g ns
  NodeClosed kvars g (Node.for_all x s p ns) =
      (x < g) × PredClosed kvars g p × VarArgs p × NodesClosed kvars g ns
  NodeClosed kvars g (Node.guard e ns) = ExprClosed g e × NodesClosed kvars g ns
  NodeClosed kvars g (Node.head p) = PredClosed kvars g p

  pub NodesClosed : Kvars → ℕ → Nodes → Type 0
  NodesClosed kvars g Nodes.nil = Unit
  NodesClosed kvars g (Nodes.cons n ns) = NodeClosed kvars g n × NodesClosed kvars g ns

module _ (M : Structure) (ν : M.Value) where
  -- A tree holds: `ForAll` and `Guard` have premises, `Conj` and children are conjunctions.
  abbrev mutual
    pub HoldsNode : Env M → Node → Type 0
    HoldsNode ρ (Node.conj ns) = HoldsNodes ρ ns
    HoldsNode ρ (Node.for_all x s p ns) =
        (v : M.Value)
        → M.HasSort s v
        → HoldsPred M ν (bind M ρ x v) p
        → HoldsNodes (bind M ρ x v) ns
    HoldsNode ρ (Node.guard e ns) = M.IsTrue (eval M ν ρ e) → HoldsNodes ρ ns
    HoldsNode ρ (Node.head p) = HoldsPred M ν ρ p

    pub HoldsNodes : Env M → Nodes → Type 0
    HoldsNodes ρ Nodes.nil = Unit
    HoldsNodes ρ (Nodes.cons n ns) = HoldsNode ρ n × HoldsNodes ρ ns

  -- Values of the declared sorts.
  abbrev pub ArgsSorted : Env M → List Expr → List Sort → Type 0
  ArgsSorted ρ [] sorts = Unit
  ArgsSorted ρ (e ∷ args) [] = Unit
  ArgsSorted ρ (e ∷ args) (s ∷ sorts) = M.HasSort s (eval M ν ρ e) × ArgsSorted ρ args sorts

  abbrev pub PredSorted : Kvars → Env M → Pred → Type 0
  PredSorted kvars ρ (Pred.expr e) = Unit
  PredSorted kvars ρ (Pred.kvar k args) =
      (sorts : List Sort) → get_elem? kvars k ≡ some sorts → ArgsSorted ρ args sorts

  -- Every argument of an unknown predicate in a head has a value of its declared sort, in each
  -- environment that the binders above it allow.
  abbrev mutual
    pub NodeSorted : Kvars → Env M → Node → Type 0
    NodeSorted kvars ρ (Node.conj ns) = NodesSorted kvars ρ ns
    NodeSorted kvars ρ (Node.for_all x s p ns) =
        (v : M.Value) → M.HasSort s v → NodesSorted kvars (bind M ρ x v) ns
    NodeSorted kvars ρ (Node.guard e ns) = NodesSorted kvars ρ ns
    NodeSorted kvars ρ (Node.head p) = PredSorted kvars ρ p

    pub NodesSorted : Kvars → Env M → Nodes → Type 0
    NodesSorted kvars ρ Nodes.nil = Unit
    NodesSorted kvars ρ (Nodes.cons n ns) = NodeSorted kvars ρ n × NodesSorted kvars ρ ns
