-- ===== src/Typeck/Builder/Translate/Correct.antt =====
-- The translation to the solver's constraints keeps the meaning of the tree.
use liquid_rust.Base.{
  ℕ, ◌≤◌, ◌≡◌, refl, sym, ap, ◌↔◌, subst, List, [], ◌∷◌, map, length, All, Option, none, some,
  Returns, returns, Returns-bind, Returns-forall, arith,
}
use mathlib.Core.List.{reverse, reverse-cons, foldl-append}
use liquid_rust.Fixpoint.Constraint as Fixpoint
use liquid_rust.Fixpoint.Constraint.{Name, Kvid, Sort, Constraint, Constraints}
use liquid_rust.Typeck.Ty.{Var, Expr, Pred}
use liquid_rust.Typeck.Ty.Meaning.{
  Structure, Env, bind, eval, HoldsPred, eval_fixpoint, HoldsFixpointPred, Holds, HoldsAll,
}
use liquid_rust.Typeck.Builder.{Node, Nodes, Builder}
use liquid_rust.Typeck.Builder.Translate.{
  Kvars, Binding, arg_to_fixpoint, args_to_fixpoint, pred_to_fixpoint, stitch, bind_around,
  join_children, cons_some, into_fixpoint, children_to_fixpoint, or_true, builder_into_fixpoint,
}
use liquid_rust.Typeck.Builder.Translate.Closed.{
  IsFree, PredClosed, VarArgs, NodeClosed, NodesClosed, HoldsNode, HoldsNodes, PredSorted,
  NodeSorted, NodesSorted,
}
use liquid_rust.Typeck.Builder.Translate.Args.{
  expr_to_fixpoint-Returns, Under, args_to_fixpoint-Translated,
}

stitch-cons :
    (x : Name) (s : Sort) (e : Fixpoint.Expr) (bs : List Binding) (c : Constraint)
    → stitch ((x, s, e) ∷ bs) c ≡ Constraint.for_all x s (Fixpoint.Pred.expr e) (stitch bs c)
unfolding stitch
stitch-cons x s e bs c =
    rw (reverse-cons (x, s, e) bs, foldl-append bind_around c (reverse bs)) refl

module _ (M : Structure) (ν : M.Value) where
  Holds-stitch :
      (bs : List Binding) (c : Constraint) (ρ : Env M)
      → Holds M ρ (stitch bs c) ≡ Under M ν bs ρ (λ ρ'. Holds M ρ' c)
  Holds-stitch [] c ρ = unfold stitch in refl
  Holds-stitch ((x, s, e) ∷ bs) c ρ = rw (stitch-cons x s e bs c) (λ i.
      (v : M.Value)
      → M.HasSort s v
      → M.IsTrue (eval_fixpoint M (bind M ρ x v) e)
      → Holds-stitch bs c (bind M ρ x v) i)

  -- An unknown predicate's variables are passed on, with no binding.
  vars_to_fixpoint :
      (gen : ℕ) (args : List Expr) (sorts : List Sort)
      → All IsFree args
      → length args ≡ length sorts
      → Returns
          (λ (xs, bs, gen').
            (bs ≡ []) × (gen' ≡ gen) × ((ρ : Env M) → map ρ xs ≡ map (eval M ν ρ) args))
          (args_to_fixpoint args sorts gen)
  unfolding args_to_fixpoint arg_to_fixpoint eval
  vars_to_fixpoint gen [] sorts h same = returns (refl, refl, λ ρ. refl)
  vars_to_fixpoint gen (Expr.var (Var.free x) ∷ args) [] h same = absurd (omega (arith, same))
  vars_to_fixpoint gen (Expr.var (Var.free x) ∷ args) (s ∷ sorts) h same =
      Returns-bind (vars_to_fixpoint gen args sorts h.1 (omega (arith, same)))
        λ (xs, bs, gen') (p, q, e). returns (p, q, λ ρ. cc (e ρ))
  vars_to_fixpoint gen (Expr.var Var.bound ∷ args) sorts h same = absurd h.0
  vars_to_fixpoint gen (Expr.constant _ ∷ args) sorts h same = absurd h.0
  vars_to_fixpoint gen (Expr.binary_op _ _ _ ∷ args) sorts h same = absurd h.0
  vars_to_fixpoint gen (Expr.unary_op _ _ ∷ args) sorts h same = absurd h.0

  binder_to_fixpoint :
      (kvars : Kvars) (g gen : ℕ) (p : Pred)
      → PredClosed kvars g p
      → VarArgs p
      → Returns
          (λ (bs, p', gen').
            (bs ≡ []) × (gen' ≡ gen) × ((ρ : Env M) → HoldsFixpointPred M ρ p' ≡ HoldsPred M ν ρ p))
          (pred_to_fixpoint kvars p gen)
  unfolding pred_to_fixpoint
  binder_to_fixpoint kvars g gen (Pred.expr e) h v =
      Returns-bind (expr_to_fixpoint-Returns M ν g e h)
        λ e' same. returns (refl, refl, λ ρ. ap M.IsTrue (same ρ))
  binder_to_fixpoint kvars g gen (Pred.kvar k args) ((sorts, found, same), h) v = rw found (
      Returns-bind (vars_to_fixpoint gen args sorts v same)
        λ (xs, bs, gen') (p, q, e). returns (p, q, λ ρ. ap (M.Kappa k) (e ρ)))

  abbrev Same : Kvars → Pred → List Binding → Fixpoint.Pred → Type 0
  Same kvars p bs p' =
      (ρ : Env M)
      → PredSorted M ν kvars ρ p
      → HoldsPred M ν ρ p ↔ Under M ν bs ρ (λ ρ'. HoldsFixpointPred M ρ' p')

  head_to_fixpoint :
      (kvars : Kvars) (g gen : ℕ) (p : Pred)
      → PredClosed kvars g p
      → g ≤ gen
      → Returns (λ (bs, p', gen'). (gen ≤ gen') × Same kvars p bs p') (pred_to_fixpoint kvars p gen)
  unfolding pred_to_fixpoint
  head_to_fixpoint kvars g gen (Pred.expr e) h le =
      Returns-bind (expr_to_fixpoint-Returns M ν g e h) λ e' same.
        returns (omega arith, λ ρ sorted. (subst M.IsTrue (sym (same ρ)), subst M.IsTrue (same ρ)))
  head_to_fixpoint kvars g gen (Pred.kvar k args) ((sorts, found, same), h) le = rw found (
      Returns-bind
        (Returns-forall _ (λ _. ν)
          λ ρ. args_to_fixpoint-Translated M ν g gen ρ args sorts le h same)
        λ (xs, bs, gen') t. returns (
          (t (λ _. ν)).0,
          λ ρ sorted. (
            λ holds. (t ρ).1.build ρ _ (λ y lt. refl) λ ρ' a e. subst (M.Kappa k) (sym e) holds,
            λ under.
                let (ρ', a, e, holds) =
                  (t ρ).1.use_at ρ _ (λ y lt. refl) (sorted sorts refl) under in
                subst (M.Kappa k) e holds,
          ),
        ))

  abbrev HoldsOption : Env M → Option Constraint → Type 0
  HoldsOption ρ none = Unit
  HoldsOption ρ (some c) = Holds M ρ c

  HoldsOption-join_children :
      (ρ : Env M) (cs : Constraints) → HoldsOption ρ (join_children cs) ↔ HoldsAll M ρ cs
  HoldsOption-join_children ρ Constraints.nil = (λ h. h, λ h. h)
  HoldsOption-join_children ρ (Constraints.cons c Constraints.nil) = (λ h. (h, tt), λ h. h.0)
  HoldsOption-join_children ρ (Constraints.cons c (Constraints.cons d cs)) = (λ h. h, λ h. h)

  HoldsAll-cons_some :
      (ρ : Env M) (oc : Option Constraint) (cs : Constraints)
      → HoldsAll M ρ (cons_some oc cs) ↔ (HoldsOption ρ oc × HoldsAll M ρ cs)
  HoldsAll-cons_some ρ none cs = (λ h. (tt, h), λ h. h.1)
  HoldsAll-cons_some ρ (some c) cs = (λ h. h, λ h. h)

  module _ (kvars : Kvars) where
    abbrev NodeSame : Node → Option Constraint → Type 0
    NodeSame n oc = (ρ : Env M) → NodeSorted M ν kvars ρ n → HoldsNode M ν ρ n ↔ HoldsOption ρ oc

    abbrev NodesSame : Nodes → Constraints → Type 0
    NodesSame ns cs =
        (ρ : Env M) → NodesSorted M ν kvars ρ ns → HoldsNodes M ν ρ ns ↔ HoldsAll M ρ cs

    abbrev ChildrenSame : Nodes → Option Constraint → Type 0
    ChildrenSame ns oc =
        (ρ : Env M) → NodesSorted M ν kvars ρ ns → HoldsNodes M ν ρ ns ↔ HoldsOption ρ oc

    join_children-Same :
        (ns : Nodes) (cs : Constraints) → NodesSame ns cs → ChildrenSame ns (join_children cs)
    join_children-Same ns cs same ρ sorted =
        let joined = HoldsOption-join_children ρ cs in
        (λ h. joined.1 ((same ρ sorted).0 h), λ h. (same ρ sorted).1 (joined.0 h))

    for_all-Same :
        (x : Name) (s : Sort) (p : Pred) (ns : Nodes) (p' : Fixpoint.Pred) (bs : List Binding)
        (oc : Option Constraint)
        → bs ≡ []
        → ((ρ : Env M) → HoldsFixpointPred M ρ p' ≡ HoldsPred M ν ρ p)
        → ChildrenSame ns oc
        → NodeSame
            (Node.for_all x s p ns)
            (elim oc [ none ↦ none | some c ↦ some (stitch bs (Constraint.for_all x s p' c)) ])
    for_all-Same x s p ns p' bs none empty premise same ρ sorted =
        (λ h. tt, λ h v sort holds. (same (bind M ρ x v) (sorted v sort)).1 tt)
    for_all-Same x s p ns p' bs (some c) empty premise same ρ sorted =
        rw (empty, Holds-stitch [])
          (
            λ h v sort holds.
                (same (bind M ρ x v) (sorted v sort)).0
                  (h v sort (subst (λ T. T) (premise (bind M ρ x v)) holds)),
            λ h v sort holds.
                (same (bind M ρ x v) (sorted v sort)).1
                  (h v sort (subst (λ T. T) (sym (premise (bind M ρ x v))) holds)),
          )

    guard-Same :
        (e : Expr) (ns : Nodes) (e' : Fixpoint.Expr) (oc : Option Constraint)
        → ((ρ : Env M) → eval_fixpoint M ρ e' ≡ eval M ν ρ e)
        → ChildrenSame ns oc
        → NodeSame
            (Node.guard e ns)
            (elim oc [ none ↦ none | some c ↦ some (Constraint.guard e' c) ])
    guard-Same e ns e' none premise same ρ sorted = (λ h. tt, λ h holds. (same ρ sorted).1 tt)
    guard-Same e ns e' (some c) premise same ρ sorted = (
      λ h holds. (same ρ sorted).0 (h (subst M.IsTrue (premise ρ) holds)),
      λ h holds. (same ρ sorted).1 (h (subst M.IsTrue (sym (premise ρ)) holds)),
    )

    head-Same :
        (p : Pred) (p' : Fixpoint.Pred) (bs : List Binding)
        → Same kvars p bs p'
        → NodeSame (Node.head p) (some (stitch bs (Constraint.pred p')))
    head-Same p p' bs same ρ sorted = rw (Holds-stitch bs (Constraint.pred p') ρ) (same ρ sorted)

    mutual
      unfolding into_fixpoint

      node-Same :
          (g gen : ℕ) (n : Node)
          → NodeClosed kvars g n
          → g ≤ gen
          → Returns (λ (oc, gen'). (gen ≤ gen') × NodeSame n oc) (into_fixpoint kvars n gen)
      node-Same g gen (Node.conj ns) h le =
          Returns-bind (nodes-Same g gen ns h le)
            λ (cs, gen₁) (le₁, same). returns (le₁, join_children-Same ns cs same)
      node-Same g gen (Node.for_all x s p ns) (below, closed, vars, h) le =
          Returns-bind (binder_to_fixpoint kvars g gen p closed vars)
            λ (bs, p', gen₁) (empty, keeps, premise).
              Returns-bind (nodes-Same g gen₁ ns h (omega (arith, keeps))) λ (cs, gen₂) (le₂, same).
                returns (
                  omega (arith, keeps),
                  for_all-Same x s p ns p' bs (join_children cs) empty premise
                      (join_children-Same ns cs same),
                )
      node-Same g gen (Node.guard e ns) (closed, h) le =
          Returns-bind (expr_to_fixpoint-Returns M ν g e closed) λ e' premise.
            Returns-bind (nodes-Same g gen ns h le) λ (cs, gen₁) (le₁, same).
              returns
                (le₁, guard-Same e ns e' (join_children cs) premise (join_children-Same ns cs same))
      node-Same g gen (Node.head p) h le =
          Returns-bind (head_to_fixpoint kvars g gen p h le)
            λ (bs, p', gen₁) (le₁, same). returns (le₁, head-Same p p' bs same)

      nodes-Same :
          (g gen : ℕ) (ns : Nodes)
          → NodesClosed kvars g ns
          → g ≤ gen
          → Returns
              (λ (cs, gen'). (gen ≤ gen') × NodesSame ns cs)
              (children_to_fixpoint kvars ns gen)
      nodes-Same g gen Nodes.nil h le = returns (omega arith, λ ρ sorted. (λ h. h, λ h. h))
      nodes-Same g gen (Nodes.cons n ns) h le =
          Returns-bind (node-Same g gen n h.0 le) λ (oc, gen₁) (le₁, same).
            Returns-bind (nodes-Same g gen₁ ns h.1 (omega arith)) λ (cs, gen₂) (le₂, sames).
              returns (
                omega arith,
                λ ρ sorted.
                    let joined = HoldsAll-cons_some ρ oc cs in
                    (
                      λ h. joined.1 ((same ρ sorted.0).0 h.0, (sames ρ sorted.1).0 h.1),
                      λ h.
                          let (a, b) = joined.0 h in
                          ((same ρ sorted.0).1 a, (sames ρ sorted.1).1 b),
                    ),
              )

  Holds-or_true : (ρ : Env M) (oc : Option Constraint) → Holds M ρ (or_true oc) ↔ HoldsOption ρ oc
  unfolding eval_fixpoint
  Holds-or_true ρ none = (λ h. tt, λ h. M.true_holds)
  Holds-or_true ρ (some c) = (λ h. h, λ h. h)

  -- The constraint sent to the solver says what the tree says. For a tree that is closed below the
  -- name generator, `into_fixpoint` does not panic, and in every structure, under every solution for
  -- the unknown predicates and every environment in which their arguments have the declared sorts,
  -- the constraint that it gives holds exactly when the tree does.
  pub builder_into_fixpoint_lem :
      (b : Builder)
      → NodeClosed b.kvars b.name_gen b.root
      → Returns
          (λ q.
            (ρ : Env M)
            → NodeSorted M ν b.kvars ρ b.root
            → Holds M ρ q.constraint ↔ HoldsNode M ν ρ b.root)
          (builder_into_fixpoint b)
  unfolding builder_into_fixpoint
  builder_into_fixpoint_lem b h =
      Returns-bind (node-Same b.kvars b.name_gen b.name_gen b.root h (omega arith))
        λ (oc, gen) (le, same). returns λ ρ sorted.
          let last = Holds-or_true ρ oc in
          let step = same ρ sorted in (λ h. step.1 (last.0 h), λ h. last.1 (step.0 h))
